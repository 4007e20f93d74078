-- ===== src/Campaigns/Reserve.antt =====
-- communications/campaigns.py: a launch keeps the books of the SMS segments.
use event_management.Base.{
  ℕ, ◌+◌, ltb, ◌≤◌, ◌<◌, ◌≡◌, refl, sym, ◌∙◌, subst, Bool, true, false, ◌&&◌, not, Option, none,
  some, List, [], ◌∷◌, ◌==◌, find, sum_if, count_if-update, All, All-mono, All-append,
  All-update_to, find-All, arith, inl, inr, Bool-cases, ok, >>=-eq-ok, ok_injective, raise_if-eq-ok,
  not-eq-false,
}
use event_management.Campaigns.Model.{
  Campaign, SmsAllowance, SmsUsageEvent, UsageAction, Mail, is_sms, not_a_draft, invalid,
  no_recipients, channel_not_configured, no_postal_address, usage_not_confirmed, sms_limit_exceeded,
}
use event_management.Campaigns.Audience.{Preview, campaign_preview}
use event_management.Campaigns.Sms.{
  get_campaign, get_allowance, save_campaign, usage_event, reserve_from, remaining_segments,
  new_allowance, allowance_or_created, current_sms_allowance,
}
use event_management.Campaigns.Launch.{
  Settings, is_launchable, clean, missing_sender_requirement, reserve_sms, reserve_for_launch,
  launched, launch_save, launch_found, launch_campaign,
}
use event_management.Campaigns.Ledger.{
  holding, held, logged, is_draft, is_below, same_action, IsBalanced, IsBooked, kept_booked,
  held-save, saved_id, and_false,
}
use event_management.Campaigns.Steps.{campaign_at, allowance_at, own_holding, other_holding}

-- Nothing is held or logged of an allowance that no row names.
held_none :
    (n : ℕ) (cs : List Campaign) → All (λ c. is_below n c.sms_allowance ≡ true) cs → held n cs ≡ 0
unfolding held holding
held_none n [] h = refl
held_none n (c ∷ cs) h = ground (arith, h.0, held_none n cs h.1)

apart_of_lt : (j k : ℕ) → j < k → (j == k) ≡ false
apart_of_lt j k h = ground arith

logged_none :
    (action : UsageAction) (n : ℕ) (us : List SmsUsageEvent)
    → All (λ (e : SmsUsageEvent). e.allowance_id < n) us
    → logged action n us ≡ 0
unfolding logged sum_if
logged_none action n [] h = refl
logged_none action n (e ∷ us) h =
    rw (apart_of_lt e.allowance_id n h.0, and_false (same_action e.action action))
      (omega (arith, logged_none action n us h.1))

is_below_mono : (n : ℕ) (x : Option ℕ) → is_below n x ≡ true → is_below (n + 1) x ≡ true
is_below_mono n none h = refl
is_below_mono n (some k) h = ground arith

created-IsBooked :
    (site_id period_start limit : ℕ) (x : Option SmsAllowance) (m : Mail)
    → IsBooked m
    → IsBooked (allowance_or_created site_id period_start limit x m).1
unfolding allowance_or_created new_allowance
created-IsBooked site_id period_start limit (some a) m v = v
created-IsBooked site_id period_start limit none m v = record {
  balanced = All-append (IsBalanced m.campaigns m.usage) m.allowances (_ ∷ []) v.balanced (
    record {
      holds = sym (held_none m.next_id m.campaigns v.fresh_campaigns);
      spent = sym (logged_none UsageAction.accepted m.next_id m.usage v.fresh_usage);
      history = omega (
        arith,
        logged_none UsageAction.reserved m.next_id m.usage v.fresh_usage,
        logged_none UsageAction.released m.next_id m.usage v.fresh_usage,
      );
      within = omega arith;
    },
    tt,
  );
  unique = v.unique;
  drafts = v.drafts;
  fresh =
      All-append _ m.allowances (_ ∷ []) (All-mono _ _ m.allowances (λ a h. omega arith) v.fresh)
        (omega arith, tt);
  fresh_campaigns =
      All-mono _ _ m.campaigns (λ c h. is_below_mono m.next_id c.sms_allowance h) v.fresh_campaigns;
  fresh_usage = All-mono _ _ m.usage (λ e h. omega arith) v.fresh_usage;
}

-- A campaign that holds nothing.
nothing_held : (c : Campaign) (k : ℕ) → c.sms_reserved_segments ≡ 0 → holding k c ≡ 0
unfolding holding
nothing_held c k e = ground arith

remaining_room :
    (a : SmsAllowance) (n : ℕ)
    → ltb (remaining_segments a) n ≡ false
    → a.reserved_segments + a.sent_segments ≤ a.included_segments + a.purchased_segments
    → a.reserved_segments + n + a.sent_segments ≤ a.included_segments + a.purchased_segments
unfolding remaining_segments
remaining_room a n h l = ground arith

below_of_lt : (j k : ℕ) → j < k → ltb j k ≡ true
below_of_lt j k h = ground arith

launch_draft : (c : Campaign) → is_launchable c.status ≡ true → is_draft c.status ≡ true
launch_draft c h = h

-- A launch that has reserved segments of an allowance.
reserved-IsBooked :
    (m : Mail) (c : Campaign) (a : SmsAllowance) (now n : ℕ) (p : Preview)
    → IsBooked m
    → find (λ (x : Campaign). x.id == c.id) m.campaigns ≡ some c
    → find (λ (x : SmsAllowance). x.id == a.id) m.allowances ≡ some a
    → c.sms_reserved_segments ≡ 0
    → ltb (remaining_segments a) n ≡ false
    → IsBooked (launch_save now p (reserve_from now c n a m)).1
unfolding reserve_from launched
reserved-IsBooked m c a now n p v stored lent zero_held room =
    let b = find-All (IsBalanced m.campaigns m.usage) _ m.allowances a lent v.balanced in
    let c' = launched now p (record c {
      sms_allowance = some a.id;
      sms_reserved_segments = n;
      usage_confirmed_at = some now;
    }) in
    kept_booked m c c' a (record a { reserved_segments = a.reserved_segments + n })
      (usage_event c.id a.id UsageAction.reserved n) v stored lent
      (record {
        same_campaign = refl;
        same_allowance = refl;
        others = λ k d. other_holding c' k a.id refl d ∙ sym (nothing_held c k zero_held);
        own = rw (nothing_held c a.id zero_held, own_holding c' a.id refl) (omega arith);
        event = refl;
        sent = omega arith;
        account = omega arith;
        limit = remaining_room a n room b.within;
        draft = λ d. cc;
        known =
            below_of_lt a.id m.next_id
              (find-All (λ (x : SmsAllowance). x.id < m.next_id) _ m.allowances a lent v.fresh);
      })

same_holding :
    (c c' : Campaign) (k : ℕ)
    → c'.sms_allowance ≡ c.sms_allowance
    → c'.sms_reserved_segments ≡ c.sms_reserved_segments
    → holding k c' ≡ holding k c
unfolding holding
same_holding c c' k e f = rw (e, f) refl

same_held :
    (m : Mail) (c c' : Campaign)
    → IsBooked m
    → find (λ (x : Campaign). x.id == c.id) m.campaigns ≡ some c
    → c'.id ≡ c.id
    → c'.sms_allowance ≡ c.sms_allowance
    → c'.sms_reserved_segments ≡ c.sms_reserved_segments
    → (k : ℕ) → held k (save_campaign c' m.campaigns) ≡ held k m.campaigns
same_held m c c' v stored id allowance segments k = omega (
  arith,
  held-save c.id k c c' m.campaigns id (v.unique c.id) stored,
  same_holding c c' k allowance segments,
)

-- A campaign is saved with what it held.
pub resaved-IsBooked :
    (m : Mail) (c c' : Campaign)
    → IsBooked m
    → find (λ (x : Campaign). x.id == c.id) m.campaigns ≡ some c
    → c'.id ≡ c.id
    → c'.sms_allowance ≡ c.sms_allowance
    → c'.sms_reserved_segments ≡ c.sms_reserved_segments
    → (is_draft c'.status ≡ true → is_draft c.status ≡ true)
    → IsBooked (record m { campaigns = save_campaign c' m.campaigns })
unfolding save_campaign
resaved-IsBooked m c c' v stored id allowance segments draft =
    let same = λ (k : ℕ). same_held m c c' v stored id allowance segments k in
    record {
      balanced =
          All-mono (IsBalanced m.campaigns m.usage)
            (IsBalanced (save_campaign c' m.campaigns) m.usage) m.allowances
            (λ a b. record {
              holds = b.holds ∙ sym (same a.id);
              spent = b.spent;
              history = b.history;
              within = b.within;
            })
            v.balanced;
      unique = λ k.
          subst (λ (n : ℕ). n ≤ 1)
            (sym (
              count_if-update (λ (x : Campaign). x.id == k) (λ (x : Campaign). x.id == k)
                (λ (x : Campaign). x.id == c'.id) (λ x. c') m.campaigns (saved_id c' k)))
            (v.unique k);
      drafts =
          All-update_to (λ (x : Campaign). is_draft x.status ≡ true → x.sms_reserved_segments ≡ 0) _
            c' m.campaigns
            (λ d.
              segments
              ∙ find-All (λ (x : Campaign). is_draft x.status ≡ true → x.sms_reserved_segments ≡ 0)
                  _ m.campaigns c stored v.drafts (draft d))
            v.drafts;
      fresh = v.fresh;
      fresh_campaigns =
          All-update_to (λ (x : Campaign). is_below m.next_id x.sms_allowance ≡ true) _ c'
            m.campaigns
            (rw allowance (
              find-All (λ (x : Campaign). is_below m.next_id x.sms_allowance ≡ true) _ m.campaigns c
                stored v.fresh_campaigns))
            v.fresh_campaigns;
      fresh_usage = v.fresh_usage;
    }

created_campaigns :
    (site_id period_start limit : ℕ) (x : Option SmsAllowance) (m : Mail)
    → (allowance_or_created site_id period_start limit x m).1.campaigns ≡ m.campaigns
unfolding allowance_or_created
created_campaigns site_id period_start limit none m = refl
created_campaigns site_id period_start limit (some a) m = refl

sms-IsBooked :
    (s : Settings) (now : ℕ) (confirmed : Bool) (n : ℕ) (p : Preview) (c : Campaign) (m : Mail)
    (r : Campaign × Mail)
    → IsBooked m
    → find (λ (x : Campaign). x.id == c.id) m.campaigns ≡ some c
    → c.sms_reserved_segments ≡ 0
    → reserve_sms s now confirmed n c m ≡ ok r
    → IsBooked (launch_save now p r).1
unfolding reserve_sms current_sms_allowance
sms-IsBooked s now confirmed n p c m r v stored zero_held h =
    let (t, h1) = raise_if-eq-ok (not confirmed) usage_not_confirmed _ h in
    let x =
      find (λ (a : SmsAllowance). a.site_id == c.site_id && a.period_start == s.period_start)
        m.allowances in
    let made = allowance_or_created c.site_id s.period_start s.sms_monthly_segment_limit x m in
    let (a, f, h2) = >>=-eq-ok (get_allowance made.1 made.0.id) _ h1 in
    let (room, h3) = raise_if-eq-ok (ltb (remaining_segments a) n) sms_limit_exceeded _ h2 in
    let (lent, same) = allowance_at made.1 made.0.id a f in
    subst (λ (y : Campaign × Mail). IsBooked (launch_save now p y).1) (ok_injective h3)
      (reserved-IsBooked made.1 c a now n p
        (created-IsBooked c.site_id s.period_start s.sms_monthly_segment_limit x m v)
        (rw (created_campaigns c.site_id s.period_start s.sms_monthly_segment_limit x m) stored)
        (rw same lent) zero_held room)

for_launch-IsBooked :
    (s : Settings) (now : ℕ) (confirmed : Bool) (n : ℕ) (p : Preview) (c : Campaign) (m : Mail)
    (r : Campaign × Mail)
    → IsBooked m
    → find (λ (x : Campaign). x.id == c.id) m.campaigns ≡ some c
    → c.sms_reserved_segments ≡ 0
    → reserve_for_launch s now confirmed n c m ≡ ok r
    → IsBooked (launch_save now p r).1
unfolding reserve_for_launch launched
for_launch-IsBooked s now confirmed n p c m r v stored zero_held h =
    elim (Bool-cases (is_sms c.channel)) [
      | inl t ↦ sms-IsBooked s now confirmed n p c m r v stored zero_held (rw t at h)
      | inr t ↦
          subst (λ (y : Campaign × Mail). IsBooked (launch_save now p y).1)
            (ok_injective (rw t at h))
            (resaved-IsBooked m c (launched now p c) v stored refl refl refl (λ d. cc))
    ]

-- A launch that is accepted keeps the books.
pub launch_campaign-IsBooked :
    (s : Settings) (now : ℕ) (confirmed : Bool) (id : ℕ) (m : Mail) (r : Campaign × Mail)
    → IsBooked m
    → launch_campaign s now confirmed id m ≡ ok r
    → IsBooked r.1
unfolding launch_campaign launch_found
launch_campaign-IsBooked s now confirmed id m r v h =
    let (c, f, h0) = >>=-eq-ok (get_campaign m id) (launch_found s now confirmed m) h in
    let (stored, same) = campaign_at m id c f in
    let (draft, h1) = raise_if-eq-ok (not (is_launchable c.status)) not_a_draft _ h0 in
    let (x1, h2) = raise_if-eq-ok (not (clean c && s.fields_valid c)) invalid _ h1 in
    let p = campaign_preview s.url_length c m in
    let (x2, h3) = raise_if-eq-ok (p.eligible_count == 0) no_recipients _ h2 in
    let (x3, h4) =
      raise_if-eq-ok (not (s.channel_is_configured c.channel)) channel_not_configured _ h3 in
    let (x4, h5) = raise_if-eq-ok (missing_sender_requirement s c) no_postal_address _ h4 in
    let (y, g, h6) = >>=-eq-ok (reserve_for_launch s now confirmed p.estimated_segments c m) _ h5 in
    let zero_held =
      find-All (λ (x : Campaign). is_draft x.status ≡ true → x.sms_reserved_segments ≡ 0) _
        m.campaigns c stored v.drafts (launch_draft c (not-eq-false _ draft)) in
    subst (λ (z : Campaign × Mail). IsBooked z.1) (ok_injective h6)
      (for_launch-IsBooked s now confirmed p.estimated_segments p c m y v (rw same stored) zero_held
        g)
