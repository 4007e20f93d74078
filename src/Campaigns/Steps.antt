-- ===== src/Campaigns/Steps.antt =====
-- communications/campaigns.py: every call that moves SMS segments keeps the books.
use event_management.Base.{
  ℕ, ◌+◌, ◌-◌, min, ◌≤◌, ◌≡◌, refl, sym, ap, ◌∙◌, subst, true, false, Option, none, some, ◌==◌,
  find, find-All, find-test, ==_iff, arith, inl, inr, Bool-cases, ok, or_raise-eq-ok, >>=-eq-ok,
  ok_injective,
}
use event_management.Campaigns.Model.{Campaign, SmsAllowance, UsageAction, OutboundMessage, Mail}
use event_management.Campaigns.Sms.{
  get_campaign, get_allowance, usage_event, release_from, release_held, release_sms_locked,
  release_of, release_sms_for_message, consume_from, consume_of, consume_sms_for_message,
}
use event_management.Campaigns.Ledger.{
  holding, is_draft, is_below, IsBalanced, IsBooked, Keeps, kept_booked,
}

-- The row that `get` reads.
pub campaign_at :
    (m : Mail) (id : ℕ) (c : Campaign)
    → get_campaign m id ≡ ok c
    → (find (λ (x : Campaign). x.id == id) m.campaigns ≡ some c) × (c.id ≡ id)
unfolding get_campaign
campaign_at m id c h =
    let f = or_raise-eq-ok _ _ h in (f, (==_iff c.id id).0 (find-test _ m.campaigns c f))

pub allowance_at :
    (m : Mail) (id : ℕ) (a : SmsAllowance)
    → get_allowance m id ≡ ok a
    → (find (λ (x : SmsAllowance). x.id == id) m.allowances ≡ some a) × (a.id ≡ id)
unfolding get_allowance
allowance_at m id a h =
    let f = or_raise-eq-ok _ _ h in (f, (==_iff a.id id).0 (find-test _ m.allowances a f))

-- What a campaign holds of its own allowance, and of the others.
pub own_holding :
    (c : Campaign) (k : ℕ) → c.sms_allowance ≡ some k → holding k c ≡ c.sms_reserved_segments
unfolding holding
own_holding c k e = ground arith

pub other_holding :
    (c : Campaign) (j k : ℕ) → c.sms_allowance ≡ some k → (j == k) ≡ false → holding j c ≡ 0
unfolding holding
other_holding c j k e n = ground arith

-- A campaign with other segments of the same allowance.
abbrev pub with_segments : Campaign → ℕ → Campaign
with_segments c n = record c { sms_reserved_segments = n }

module _ (m : Mail) (c : Campaign) (a : SmsAllowance) (v : IsBooked m)
    (stored : find (λ (x : Campaign). x.id == c.id) m.campaigns ≡ some c)
    (lent : find (λ (x : SmsAllowance). x.id == a.id) m.allowances ≡ some a)
    (draws : c.sms_allowance ≡ some a.id) where
  pub balance : IsBalanced m.campaigns m.usage a
  balance = find-All (IsBalanced m.campaigns m.usage) _ m.allowances a lent v.balanced

  below : is_below m.next_id c.sms_allowance ≡ true
  below =
      find-All (λ (x : Campaign). is_below m.next_id x.sms_allowance ≡ true) _ m.campaigns c stored
        v.fresh_campaigns

  draft_holds : is_draft c.status ≡ true → c.sms_reserved_segments ≡ 0
  draft_holds =
      find-All (λ (x : Campaign). is_draft x.status ≡ true → x.sms_reserved_segments ≡ 0) _
        m.campaigns c stored v.drafts

  release-Keeps :
      (n : ℕ)
      → n ≤ c.sms_reserved_segments
      → n ≤ a.reserved_segments
      → Keeps m.next_id c
          (with_segments c (c.sms_reserved_segments - n))
          a
          (record a { reserved_segments = a.reserved_segments - n })
          (usage_event c.id a.id UsageAction.released n)
  release-Keeps n l k = record {
    same_campaign = refl;
    same_allowance = refl;
    others = λ j d. other_holding _ j a.id draws d ∙ sym (other_holding c j a.id draws d);
    own =
        rw
          (
            own_holding c a.id draws,
            own_holding (with_segments c (c.sms_reserved_segments - n)) a.id draws,
          )
          (omega arith);
    event = refl;
    sent = omega arith;
    account = omega arith;
    limit = omega (arith, balance.within);
    draft = λ d. omega (arith, draft_holds d);
    known = below;
  }

  consume-Keeps :
      (n : ℕ)
      → n ≤ c.sms_reserved_segments
      → n ≤ a.reserved_segments
      → Keeps m.next_id c
          (with_segments c (c.sms_reserved_segments - n))
          a
          (record a {
            reserved_segments = a.reserved_segments - n;
            sent_segments = a.sent_segments + n;
          })
          (usage_event c.id a.id UsageAction.accepted n)
  consume-Keeps n l k = record {
    same_campaign = refl;
    same_allowance = refl;
    others = λ j d. other_holding _ j a.id draws d ∙ sym (other_holding c j a.id draws d);
    own =
        rw
          (
            own_holding c a.id draws,
            own_holding (with_segments c (c.sms_reserved_segments - n)) a.id draws,
          )
          (omega arith);
    event = refl;
    sent = refl;
    account = omega arith;
    limit = omega (arith, balance.within);
    draft = λ d. omega (arith, draft_holds d);
    known = below;
  }

  pub release_from-IsBooked : (n : ℕ) → IsBooked (release_from c n a m).1
  unfolding release_from
  release_from-IsBooked n =
      let released = min n (min a.reserved_segments c.sms_reserved_segments) in
      elim (Bool-cases (released == 0)) [
        | inl t ↦ rw t v
        | inr t ↦ rw t (
            kept_booked m c _ a _ _ v stored lent
              (release-Keeps released (omega arith) (omega arith)))
      ]

  pub consume_from-IsBooked : (n : ℕ) → IsBooked (consume_from n c a m)
  unfolding consume_from
  consume_from-IsBooked n =
      let segments = min n (min a.reserved_segments c.sms_reserved_segments) in
      kept_booked m c _ a _ _ v stored lent (consume-Keeps segments (omega arith) (omega arith))

-- Releases and uses, for a campaign that is stored.
release_held-IsBooked :
    (m : Mail) (c : Campaign) (n : ℕ) (x : Option ℕ) (r : Campaign × Mail)
    → IsBooked m
    → find (λ (x : Campaign). x.id == c.id) m.campaigns ≡ some c
    → c.sms_allowance ≡ x
    → release_held c n x m ≡ ok r
    → IsBooked r.1
unfolding release_held
release_held-IsBooked m c n none r v stored draws h =
    subst (λ (y : Campaign × Mail). IsBooked y.1) (ok_injective h) v
release_held-IsBooked m c n (some k) r v stored draws h =
    let (a, f, g) = >>=-eq-ok (get_allowance m k) _ h in
    let (lent, same) = allowance_at m k a f in
    subst (λ (y : Campaign × Mail). IsBooked y.1) (ok_injective g)
      (release_from-IsBooked m c a v stored (rw same lent) (draws ∙ ap some (sym same)) n)

pub release_sms_locked-IsBooked :
    (m : Mail) (c : Campaign) (n : ℕ) (r : Campaign × Mail)
    → IsBooked m
    → find (λ (x : Campaign). x.id == c.id) m.campaigns ≡ some c
    → release_sms_locked c n m ≡ ok r
    → IsBooked r.1
unfolding release_sms_locked
release_sms_locked-IsBooked m c n r v stored h = elim (Bool-cases (n == 0)) [
  | inl t ↦ subst (λ (y : Campaign × Mail). IsBooked y.1) (ok_injective (rw t at h)) v
  | inr t ↦ release_held-IsBooked m c n c.sms_allowance r v stored refl (rw t at h)
]

release_of-IsBooked :
    (m m' : Mail) (n : ℕ) (x : Option ℕ) → IsBooked m → release_of n x m ≡ ok m' → IsBooked m'
unfolding release_of
release_of-IsBooked m m' n none v h = subst IsBooked (ok_injective h) v
release_of-IsBooked m m' n (some k) v h =
    let (c, f, g) = >>=-eq-ok (get_campaign m k) _ h in
    let (stored, same) = campaign_at m k c f in
    let (r, f', g') = >>=-eq-ok (release_sms_locked c n m) _ g in
    subst IsBooked (ok_injective g') (release_sms_locked-IsBooked m c n r v (rw same stored) f')

pub release_sms_for_message-IsBooked :
    (m m' : Mail) (x : OutboundMessage)
    → IsBooked m
    → release_sms_for_message x m ≡ ok m'
    → IsBooked m'
unfolding release_sms_for_message
release_sms_for_message-IsBooked m m' x v h = elim (Bool-cases (x.sms_segments == 0)) [
  | inl t ↦ subst IsBooked (ok_injective (rw t at h)) v
  | inr t ↦ release_of-IsBooked m m' x.sms_segments x.campaign_id v (rw t at h)
]

-- The message's allowance is the one of its campaign.
abbrev pub IsOwn : Mail → OutboundMessage → Type 0
IsOwn m x =
    (c : Campaign) (k : ℕ)
    → x.campaign_id ≡ some k
    → get_campaign m k ≡ ok c
    → c.sms_allowance ≡ x.sms_allowance

consume_of-IsBooked :
    (m m' : Mail) (n : ℕ) (x y : Option ℕ)
    → IsBooked m
    → ((c : Campaign) (k : ℕ) → x ≡ some k → get_campaign m k ≡ ok c → c.sms_allowance ≡ y)
    → consume_of n x y m ≡ ok m'
    → IsBooked m'
unfolding consume_of
consume_of-IsBooked m m' n none y v o h = subst IsBooked (ok_injective h) v
consume_of-IsBooked m m' n (some k) none v o h = subst IsBooked (ok_injective h) v
consume_of-IsBooked m m' n (some k) (some j) v o h =
    let (c, f, g) = >>=-eq-ok (get_campaign m k) _ h in
    let (a, f', g') = >>=-eq-ok (get_allowance m j) _ g in
    let (stored, same) = campaign_at m k c f in
    let (lent, own) = allowance_at m j a f' in
    subst IsBooked (ok_injective g') (
      consume_from-IsBooked m c a v (rw same stored) (rw own lent)
        (o c k refl f ∙ ap some (sym own)) n)

pub consume_sms_for_message-IsBooked :
    (m m' : Mail) (x : OutboundMessage)
    → IsBooked m
    → IsOwn m x
    → consume_sms_for_message x m ≡ ok m'
    → IsBooked m'
unfolding consume_sms_for_message
consume_sms_for_message-IsBooked m m' x v o h = elim (Bool-cases (x.sms_segments == 0)) [
  | inl t ↦ subst IsBooked (ok_injective (rw t at h)) v
  | inr t ↦ consume_of-IsBooked m m' x.sms_segments x.campaign_id x.sms_allowance v o (rw t at h)
]
