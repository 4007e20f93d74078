-- ===== src/Campaigns/Cancel.antt =====
-- communications/campaigns.py: what a cancelation makes of a campaign, its messages and its segments.
use event_management.Base.{
  ℕ, ◌+◌, min, ◌≤◌, ◌≡◌, refl, sym, ap, ◌∙◌, subst, true, false, ◌&&◌, not, Option, none, some,
  List, [], ◌∷◌, ◌==◌, find, update_if, All, find-All, ==_iff, ==_refl, arith, inl, inr, Bool-cases,
  ok, >>=-eq-ok, ok_injective, some_injective, raise_if-eq-ok, not-eq-false,
}
use event_management.Campaigns.Model.{
  Campaign, CampaignStatus, SmsAllowance, MessageStatus, OutboundMessage, CampaignRecipient, Mail,
  is_sms, not_cancelable,
}
use event_management.Campaigns.Sms.{
  get_campaign, get_allowance, save_campaign, release_from, release_held, release_sms_locked,
}
use event_management.Campaigns.Launch.{
  is_cancelable, is_pending, names, suppress_messages, canceled_campaign, cancel_released,
  release_for_cancel, cancel_found, cancel_campaign,
}
use event_management.Campaigns.Ledger.{holding, held, IsBalanced, IsBooked}
use event_management.Campaigns.Steps.{
  campaign_at, allowance_at, own_holding, release_sms_locked-IsBooked,
}
use event_management.Campaigns.Reserve.{resaved-IsBooked}

find-save :
    (c c' : Campaign) (cs : List Campaign)
    → find (λ (x : Campaign). x.id == c.id) cs ≡ some c
    → c'.id ≡ c.id
    → find (λ (x : Campaign). x.id == c.id) (save_campaign c' cs) ≡ some c'
unfolding find save_campaign update_if
find-save c c' [] f e = cc
find-save c c' (x ∷ cs) f e = ground (arith, e, find-save c c' cs)

-- The campaign that a release returns is the one that is stored, and the rest of it is unchanged.
record Released (c : Campaign) (r : Campaign × Mail) : Type 0 where
  stored : find (λ (x : Campaign). x.id == c.id) r.1.campaigns ≡ some r.0
  same : r.0 ≡ record c { sms_reserved_segments = r.0.sms_reserved_segments }

release_from-Released :
    (m : Mail) (c : Campaign) (n : ℕ) (a : SmsAllowance)
    → find (λ (x : Campaign). x.id == c.id) m.campaigns ≡ some c
    → Released c (release_from c n a m)
unfolding release_from
release_from-Released m c n a f =
    elim (Bool-cases (min n (min a.reserved_segments c.sms_reserved_segments) == 0)) [
      | inl t ↦ rw t (record { stored = f; same = refl })
      | inr t ↦ rw t (record { stored = find-save c _ m.campaigns f refl; same = refl })
    ]

release_held-Released :
    (m : Mail) (c : Campaign) (n : ℕ) (x : Option ℕ) (r : Campaign × Mail)
    → find (λ (x : Campaign). x.id == c.id) m.campaigns ≡ some c
    → release_held c n x m ≡ ok r
    → Released c r
unfolding release_held
release_held-Released m c n none r f h =
    subst (Released c) (ok_injective h) (record { stored = f; same = refl })
release_held-Released m c n (some k) r f h =
    let (a, g, h') = >>=-eq-ok (get_allowance m k) _ h in
    subst (Released c) (ok_injective h') (release_from-Released m c n a f)

-- A campaign's own segments are held by its allowance, so that a release of them all leaves none.
held-ge :
    (k : ℕ) (c : Campaign) (cs : List Campaign) (id : ℕ)
    → find (λ (x : Campaign). x.id == id) cs ≡ some c
    → holding k c ≤ held k cs
unfolding held find
held-ge k c [] id f = cc
held-ge k c (x ∷ cs) id f = elim (Bool-cases (x.id == id)) [
  | inl t ↦
      let same : x ≡ c = some_injective (rw t at f) in
      subst (λ (y : Campaign). holding k y ≤ holding k x + held k cs) same (omega arith)
  | inr t ↦ omega (arith, held-ge k c cs id (rw t at f))
]

release_from_all :
    (m : Mail) (c : Campaign) (a : SmsAllowance)
    → c.sms_reserved_segments ≤ a.reserved_segments
    → (release_from c c.sms_reserved_segments a m).0.sms_reserved_segments ≡ 0
unfolding release_from
release_from_all m c a l = ground arith

release_held_all :
    (m : Mail) (c : Campaign) (k : ℕ) (r : Campaign × Mail)
    → IsBooked m
    → find (λ (x : Campaign). x.id == c.id) m.campaigns ≡ some c
    → c.sms_allowance ≡ some k
    → release_held c c.sms_reserved_segments (some k) m ≡ ok r
    → r.0.sms_reserved_segments ≡ 0
unfolding release_held
release_held_all m c k r v f e h =
    let (a, g, h') = >>=-eq-ok (get_allowance m k) _ h in
    let (lent, same) = allowance_at m k a g in
    let b = find-All (IsBalanced m.campaigns m.usage) _ m.allowances a lent v.balanced in
    let own = own_holding c a.id (e ∙ ap some (sym same)) in
    subst (λ (y : Campaign × Mail). y.0.sms_reserved_segments ≡ 0) (ok_injective h')
      (release_from_all m c a (omega (arith, b.holds, own, held-ge a.id c m.campaigns c.id f)))

-- The message is not one of the campaign, or is neither queued nor failed.
abbrev pub IsSilent : ℕ → OutboundMessage → Type 0
IsSilent id x =
    x.campaign_id ≡ some id
    → (x.status ≡ MessageStatus.queued → ⊥) × (x.status ≡ MessageStatus.failed → ⊥)

not_waiting :
    (t : MessageStatus)
    → is_pending t ≡ false
    → (t ≡ MessageStatus.queued → ⊥) × (t ≡ MessageStatus.failed → ⊥)
not_waiting t h = ((λ e. cc (rw e at h)), (λ e. cc (rw e at h)))

unselected-IsSilent :
    (id : ℕ) (x : OutboundMessage)
    → (names id x.campaign_id && is_pending x.status) ≡ false
    → IsSilent id x
unselected-IsSilent id x h e = not_waiting x.status (rw (e, ==_refl id) at h)

suppressed-IsSilent :
    (now id : ℕ) (xs : List OutboundMessage) → All (IsSilent id) (suppress_messages now id xs)
unfolding suppress_messages update_if
suppressed-IsSilent now id [] = tt
suppressed-IsSilent now id (x ∷ xs) =
    elim (Bool-cases (names id x.campaign_id && is_pending x.status)) [
      | inl t ↦ rw t ((λ e. ((λ q. cc), (λ q. cc))), suppressed-IsSilent now id xs)
      | inr t ↦ rw t (unselected-IsSilent id x t, suppressed-IsSilent now id xs)
    ]

Released-locked :
    (m : Mail) (c : Campaign) (n : ℕ) (r : Campaign × Mail)
    → find (λ (x : Campaign). x.id == c.id) m.campaigns ≡ some c
    → release_sms_locked c n m ≡ ok r
    → Released c r
unfolding release_sms_locked
Released-locked m c n r f h = elim (Bool-cases (n == 0)) [
  | inl t ↦ subst (Released c) (ok_injective (rw t at h)) (record { stored = f; same = refl })
  | inr t ↦ release_held-Released m c n c.sms_allowance r f (rw t at h)
]

release_for_cancel-IsBooked :
    (m : Mail) (c : Campaign) (r : Campaign × Mail)
    → IsBooked m
    → find (λ (x : Campaign). x.id == c.id) m.campaigns ≡ some c
    → release_for_cancel c m ≡ ok r
    → IsBooked r.1 × Released c r
unfolding release_for_cancel
release_for_cancel-IsBooked m c r v f h =
    elim (Bool-cases (is_sms c.channel && not (c.sms_reserved_segments == 0))) [
      | inl t ↦
          let h' = rw t at h in
          (
            release_sms_locked-IsBooked m c c.sms_reserved_segments r v f h',
            Released-locked m c c.sms_reserved_segments r f h',
          )
      | inr t ↦
          let e = ok_injective (rw t at h) in
          (
            subst (λ (y : Campaign × Mail). IsBooked y.1) e v,
            subst (Released c) e (record { stored = f; same = refl }),
          )
    ]

release_for_cancel_all :
    (m : Mail) (c : Campaign) (k : ℕ) (r : Campaign × Mail)
    → IsBooked m
    → find (λ (x : Campaign). x.id == c.id) m.campaigns ≡ some c
    → is_sms c.channel ≡ true
    → c.sms_allowance ≡ some k
    → release_for_cancel c m ≡ ok r
    → r.0.sms_reserved_segments ≡ 0
unfolding release_for_cancel release_sms_locked
release_for_cancel_all m c k r v f s e h = elim (Bool-cases (c.sms_reserved_segments == 0)) [
  | inl t ↦
      let h' = ok_injective (rw (s, t) at h) in
      subst (λ (y : Campaign × Mail). y.0.sms_reserved_segments ≡ 0) h'
        ((==_iff c.sms_reserved_segments 0).0 t)
  | inr t ↦
      release_held_all m c k r v f e
        (subst (λ y. release_held c c.sms_reserved_segments y m ≡ ok r) e (rw (s, t) at h))
]

-- What a call to cancel leaves.
pub record Stopped (id : ℕ) (m m' : Mail) : Type 0 where
  pub before : Campaign
  pub was : find (λ (c : Campaign). c.id == id) m.campaigns ≡ some before
  pub cancelable : is_cancelable before.status ≡ true
  pub after : Campaign
  pub stored : find (λ (c : Campaign). c.id == id) m'.campaigns ≡ some after
  pub canceled : after.status ≡ CampaignStatus.canceled
  pub released :
      (k : ℕ)
      → is_sms before.channel ≡ true
      → before.sms_allowance ≡ some k
      → after.sms_reserved_segments ≡ 0
  pub silent : All (IsSilent id) m'.messages
  pub booked : IsBooked m'

-- The books do not depend on the messages and recipients.
other_tables :
    {m : Mail} {xs : List OutboundMessage} {rs : List CampaignRecipient}
    → IsBooked m
    → IsBooked (record m { messages = xs; recipients = rs })
other_tables v = record {
  balanced = v.balanced;
  unique = v.unique;
  drafts = v.drafts;
  fresh = v.fresh;
  fresh_campaigns = v.fresh_campaigns;
  fresh_usage = v.fresh_usage;
}

stopped :
    (now id : ℕ) (m : Mail) (c c1 : Campaign) (m1 : Mail)
    → IsBooked m
    → find (λ (x : Campaign). x.id == id) m.campaigns ≡ some c
    → c.id ≡ id
    → is_cancelable c.status ≡ true
    → release_for_cancel c m ≡ ok (c1, m1)
    → Stopped id m (cancel_released now c1 m1).1
unfolding cancel_released
stopped now id m c c1 m1 v f same ready g =
    let own : find (λ (x : Campaign). x.id == c.id) m.campaigns ≡ some c =
      subst (λ (k : ℕ). find (λ (x : Campaign). x.id == k) m.campaigns ≡ some c) (sym same) f in
    let (booked, rel) = release_for_cancel-IsBooked m c (c1, m1) v own g in
    let id1 : c1.id ≡ c.id = ap (λ (x : Campaign). x.id) rel.same in
    let stored1 : find (λ (x : Campaign). x.id == c1.id) m1.campaigns ≡ some c1 =
      subst (λ (k : ℕ). find (λ (x : Campaign). x.id == k) m1.campaigns ≡ some c1) (sym id1)
        rel.stored in
    record {
      before = c;
      was = f;
      cancelable = ready;
      after = canceled_campaign now c1;
      stored =
          subst
            (λ (k : ℕ).
              find (λ (x : Campaign). x.id == k)
                (save_campaign (canceled_campaign now c1) m1.campaigns)
              ≡ some (canceled_campaign now c1))
            (id1 ∙ same) (find-save c1 (canceled_campaign now c1) m1.campaigns stored1 refl);
      canceled = refl;
      released = λ k s e. release_for_cancel_all m c k (c1, m1) v own s e g;
      silent =
          subst (λ (k : ℕ). All (IsSilent k) (suppress_messages now c1.id m1.messages)) (id1 ∙ same)
            (suppressed-IsSilent now c1.id m1.messages);
      booked = other_tables (
          resaved-IsBooked m1 c1 (canceled_campaign now c1) booked stored1 refl refl refl
            (λ d. cc));
    }

-- If the books of the SMS allowances are in order and no draft holds segments, then a campaign that is
-- canceled was one that can be, is stored as canceled, holds no segments of its allowance any more if
-- it is an SMS campaign, none of its messages is queued or failed, and the books are in order again. A
-- message that a worker is sending at that moment is left as it is, and may still fail later.
pub cancel_campaign-Stopped :
    (now id : ℕ) (m : Mail) (r : Campaign × Mail)
    → IsBooked m
    → cancel_campaign now id m ≡ ok r
    → Stopped id m r.1
unfolding cancel_campaign cancel_found
cancel_campaign-Stopped now id m r v h =
    let (c, f, h0) = >>=-eq-ok (get_campaign m id) (cancel_found now m) h in
    let (stored, same) = campaign_at m id c f in
    let (ready, h1) = raise_if-eq-ok (not (is_cancelable c.status)) not_cancelable _ h0 in
    let (x, g, h2) = >>=-eq-ok (release_for_cancel c m) _ h1 in
    subst (λ (y : Campaign × Mail). Stopped id m y.1) (ok_injective h2)
      (stopped now id m c x.0 x.1 v stored same (not-eq-false _ ready) g)
