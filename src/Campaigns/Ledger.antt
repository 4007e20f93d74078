-- ===== src/Campaigns/Ledger.antt =====
-- communications/campaigns.py: the books of the SMS allowances.
use event_management.Base.{
  ℕ, ◌+◌, ltb, ◌≤◌, ◌<◌, ◌≡◌, refl, sym, ap, ◌∙◌, subst, Bool, true, false, ◌&&◌, Option, none,
  some, List, [], ◌∷◌, ◌++◌, ◌==◌, if◌then◌else◌, find, update_if, count_if, sum_if, All, find-All,
  ==_iff, ==_refl, All-append, All-update_to, count_if-update, arith, inl, inr, Bool-cases,
  some_injective,
}
use event_management.Campaigns.Model.{
  Campaign, CampaignStatus, SmsAllowance, SmsUsageEvent, UsageAction, Mail,
}
use event_management.Campaigns.Sms.{save_campaign, save_allowance}

abbrev pub same_action : UsageAction → UsageAction → Bool
same_action UsageAction.reserved UsageAction.reserved = true
same_action UsageAction.accepted UsageAction.accepted = true
same_action UsageAction.released UsageAction.released = true
same_action UsageAction.adjusted UsageAction.adjusted = true
same_action _ _ = false

abbrev pub draws_on : ℕ → Option ℕ → Bool
draws_on id none = false
draws_on id (some k) = k == id

-- The segments that campaigns hold of an allowance, and those that the history names.
unfoldable pub holding : ℕ → Campaign → ℕ
holding id c = if draws_on id c.sms_allowance then c.sms_reserved_segments else 0

unfoldable pub held : ℕ → List Campaign → ℕ
unfolding holding
held id [] = 0
held id (c ∷ cs) = holding id c + held id cs

unfoldable pub logged : UsageAction → ℕ → List SmsUsageEvent → ℕ
logged action id us =
    sum_if (λ e. same_action e.action action && e.allowance_id == id) (λ e. e.segments) us

-- An allowance whose counters agree with the campaigns and the history, within its limit.
pub record IsBalanced (cs : List Campaign) (us : List SmsUsageEvent) (a : SmsAllowance)
    : Type 0 where
  pub holds : a.reserved_segments ≡ held a.id cs
  pub spent : a.sent_segments ≡ logged UsageAction.accepted a.id us
  pub history :
      logged UsageAction.reserved a.id us
      ≡ a.reserved_segments + a.sent_segments + logged UsageAction.released a.id us
  pub within : a.reserved_segments + a.sent_segments ≤ a.included_segments + a.purchased_segments

abbrev pub is_draft : CampaignStatus → Bool
is_draft CampaignStatus.draft = true
is_draft _ = false

abbrev pub is_below : ℕ → Option ℕ → Bool
is_below n none = true
is_below n (some k) = ltb k n

-- Every allowance is balanced, a campaign's id is its own, a draft holds nothing, and no row names
-- an allowance that is still to come.
pub record IsBooked (m : Mail) : Type 0 where
  pub balanced : All (IsBalanced m.campaigns m.usage) m.allowances
  pub unique : (k : ℕ) → count_if (λ (c : Campaign). c.id == k) m.campaigns ≤ 1
  pub drafts : All (λ c. is_draft c.status ≡ true → c.sms_reserved_segments ≡ 0) m.campaigns
  pub fresh : All (λ (a : SmsAllowance). a.id < m.next_id) m.allowances
  pub fresh_campaigns : All (λ c. is_below m.next_id c.sms_allowance ≡ true) m.campaigns
  pub fresh_usage : All (λ (e : SmsUsageEvent). e.allowance_id < m.next_id) m.usage

logged-append :
    (action : UsageAction) (id : ℕ) (us : List SmsUsageEvent) (e : SmsUsageEvent)
    → logged action id (us ++ e ∷ [])
      ≡ logged action id us
        + (if same_action e.action action && e.allowance_id == id then e.segments else 0)
unfolding logged sum_if
logged-append action id [] e = omega arith
logged-append action id (x ∷ us) e = omega (arith, logged-append action id us e)

absent_held :
    (k id : ℕ) (c' : Campaign) (cs : List Campaign)
    → c'.id ≡ k
    → count_if (λ (c : Campaign). c.id == k) cs ≤ 0
    → held id (save_campaign c' cs) ≡ held id cs
unfolding held save_campaign update_if count_if
absent_held k id c' [] e h = refl
absent_held k id c' (x ∷ cs) e h = ground (arith, absent_held k id c' cs e)

found_once :
    (k : ℕ) (x : Campaign) (cs : List Campaign)
    → (x.id == k) ≡ true
    → count_if (λ (c : Campaign). c.id == k) (x ∷ cs) ≤ 1
    → count_if (λ (c : Campaign). c.id == k) cs ≤ 0
unfolding count_if
found_once k x cs t h = let h' = rw t at h in omega arith

missed_once :
    (k : ℕ) (x : Campaign) (cs : List Campaign)
    → (x.id == k) ≡ false
    → count_if (λ (c : Campaign). c.id == k) (x ∷ cs) ≤ 1
    → count_if (λ (c : Campaign). c.id == k) cs ≤ 1
unfolding count_if
missed_once k x cs t h = let h' = rw t at h in omega arith

-- What campaigns hold once one of them is saved.
pub held-save :
    (k id : ℕ) (c c' : Campaign) (cs : List Campaign)
    → c'.id ≡ k
    → count_if (λ (c : Campaign). c.id == k) cs ≤ 1
    → find (λ (c : Campaign). c.id == k) cs ≡ some c
    → held id (save_campaign c' cs) + holding id c ≡ held id cs + holding id c'
unfolding held save_campaign update_if count_if find
held-save k id c c' [] e h f = cc
held-save k id c c' (x ∷ cs) e h f = elim (Bool-cases (x.id == k)) [
  | inl t ↦
      let same : x ≡ c = some_injective (rw t at f) in
      let at : (x.id == c'.id) ≡ true = rw e t in
      let rest = absent_held k id c' cs e (found_once k x cs t h) in
      rw at (
        subst
          (λ (y : Campaign).
            holding id c' + held id (save_campaign c' cs) + holding id y
            ≡ holding id x + held id cs + holding id c')
          same (omega (arith, rest)))
  | inr t ↦
      let at : (x.id == c'.id) ≡ false = rw e t in
      let rest = held-save k id c c' cs e (missed_once k x cs t h) (rw t at f) in
      rw at (omega (arith, rest))
]

All-save :
    (P Q : SmsAllowance → Type 0) (a : SmsAllowance) (xs : List SmsAllowance)
    → P a
    → ((x : SmsAllowance) → (x.id == a.id) ≡ false → Q x → P x)
    → All Q xs
    → All P (save_allowance a xs)
unfolding save_allowance update_if
All-save P Q a [] p h all = tt
All-save P Q a (x ∷ xs) p h all = elim (Bool-cases (x.id == a.id)) [
  | inl t ↦ rw t (p, All-save P Q a xs p h all.1)
  | inr t ↦ rw t (h x t all.0, All-save P Q a xs p h all.1)
]

-- What an event adds to a sum of the history.
abbrev pub amount : UsageAction → SmsUsageEvent → ℕ
amount action e = if same_action e.action action then e.segments else 0

-- A change of one campaign, its allowance and the history that keeps the books.
pub record Keeps (n : ℕ) (c c' : Campaign) (a a' : SmsAllowance) (e : SmsUsageEvent) : Type 0 where
  pub same_campaign : c'.id ≡ c.id
  pub same_allowance : a'.id ≡ a.id
  pub others : (k : ℕ) → (k == a.id) ≡ false → holding k c' ≡ holding k c
  pub own : a'.reserved_segments + holding a.id c ≡ a.reserved_segments + holding a.id c'
  pub event : e.allowance_id ≡ a.id
  pub sent : a'.sent_segments ≡ a.sent_segments + amount UsageAction.accepted e
  pub account :
      a.reserved_segments + a.sent_segments + amount UsageAction.reserved e
      ≡ a'.reserved_segments + a'.sent_segments + amount UsageAction.released e
  pub limit : a'.reserved_segments + a'.sent_segments ≤ a'.included_segments + a'.purchased_segments
  pub draft : is_draft c'.status ≡ true → c'.sms_reserved_segments ≡ 0
  pub known : is_below n c'.sms_allowance ≡ true

and_true : (b : Bool) → (b && true) ≡ b
and_true true = refl
and_true false = refl

pub and_false : (b : Bool) → (b && false) ≡ false
and_false true = refl
and_false false = refl

logged_own :
    (action : UsageAction) (id : ℕ) (us : List SmsUsageEvent) (e : SmsUsageEvent)
    → e.allowance_id ≡ id
    → logged action id (us ++ e ∷ []) ≡ logged action id us + amount action e
logged_own action id us e h =
    logged-append action id us e ∙ rw (h, ==_refl id, and_true (same_action e.action action)) refl

logged_other :
    (action : UsageAction) (id : ℕ) (us : List SmsUsageEvent) (e : SmsUsageEvent)
    → (e.allowance_id == id) ≡ false
    → logged action id (us ++ e ∷ []) ≡ logged action id us
logged_other action id us e h =
    logged-append action id us e ∙ rw (h, and_false (same_action e.action action)) (omega arith)

pub saved_id :
    (c : Campaign) (k : ℕ) (x : Campaign) → ((if x.id == c.id then c else x).id == k) ≡ (x.id == k)
saved_id c k x = elim (Bool-cases (x.id == c.id)) [
  | inl t ↦ let same = (==_iff x.id c.id).0 t in rw (t, same) refl
  | inr t ↦ rw t refl
]

flip_ne : (j k : ℕ) → (j == k) ≡ false → (k == j) ≡ false
flip_ne j k h = ground arith

module _ (m : Mail) (c c' : Campaign) (a a' : SmsAllowance) (e : SmsUsageEvent) (v : IsBooked m)
    (stored : find (λ (x : Campaign). x.id == c.id) m.campaigns ≡ some c)
    (lent : find (λ (x : SmsAllowance). x.id == a.id) m.allowances ≡ some a)
    (h : Keeps m.next_id c c' a a' e) where
  saved_held :
      (k : ℕ)
      → held k (save_campaign c' m.campaigns) + holding k c ≡ held k m.campaigns + holding k c'
  saved_held k = held-save c.id k c c' m.campaigns h.same_campaign (v.unique c.id) stored

  own-IsBalanced : IsBalanced (save_campaign c' m.campaigns) (m.usage ++ e ∷ []) a'
  own-IsBalanced =
      let b = find-All (IsBalanced m.campaigns m.usage) _ m.allowances a lent v.balanced in
      record {
        holds = rw h.same_allowance (omega (arith, b.holds, h.own, saved_held a.id));
        spent =
            h.sent
            ∙ rw (h.same_allowance) (
                ap (λ t. t + amount UsageAction.accepted e) b.spent
                ∙ sym (logged_own UsageAction.accepted a.id m.usage e h.event));
        history = rw h.same_allowance (
            omega (
              arith,
              logged_own UsageAction.reserved a.id m.usage e h.event,
              logged_own UsageAction.released a.id m.usage e h.event,
              b.history,
              h.account,
            ));
        within = h.limit;
      }

  other-IsBalanced :
      (x : SmsAllowance)
      → (x.id == a'.id) ≡ false
      → IsBalanced m.campaigns m.usage x
      → IsBalanced (save_campaign c' m.campaigns) (m.usage ++ e ∷ []) x
  other-IsBalanced x n b =
      let apart : (x.id == a.id) ≡ false = rw h.same_allowance at n in
      let away : (e.allowance_id == x.id) ≡ false = rw h.event (flip_ne x.id a.id apart) in
      record {
        holds = omega (arith, b.holds, saved_held x.id, h.others x.id apart);
        spent = b.spent ∙ sym (logged_other UsageAction.accepted x.id m.usage e away);
        history = omega (
          arith,
          b.history,
          logged_other UsageAction.reserved x.id m.usage e away,
          logged_other UsageAction.released x.id m.usage e away,
        );
        within = b.within;
      }

  lent_fresh : a.id < m.next_id
  lent_fresh = find-All (λ (x : SmsAllowance). x.id < m.next_id) _ m.allowances a lent v.fresh

  -- The tables after such a change are booked.
  pub kept_booked : IsBooked (record m {
    campaigns = save_campaign c' m.campaigns;
    allowances = save_allowance a' m.allowances;
    usage = m.usage ++ e ∷ [];
  })
  unfolding save_campaign save_allowance
  kept_booked = record {
    balanced =
        All-save (IsBalanced (save_campaign c' m.campaigns) (m.usage ++ e ∷ []))
          (IsBalanced m.campaigns m.usage) a' m.allowances own-IsBalanced other-IsBalanced
          v.balanced;
    unique = λ k.
        subst (λ (n : ℕ). n ≤ 1)
          (sym (
            count_if-update (λ (x : Campaign). x.id == k) (λ (x : Campaign). x.id == k)
              (λ (x : Campaign). x.id == c'.id) (λ x. c') m.campaigns (saved_id c' k)))
          (v.unique k);
    drafts =
        All-update_to (λ (x : Campaign). is_draft x.status ≡ true → x.sms_reserved_segments ≡ 0) _
          c' m.campaigns h.draft v.drafts;
    fresh =
        All-update_to (λ (x : SmsAllowance). x.id < m.next_id) _ a' m.allowances
          (rw h.same_allowance lent_fresh) v.fresh;
    fresh_campaigns =
        All-update_to (λ (x : Campaign). is_below m.next_id x.sms_allowance ≡ true) _ c' m.campaigns
          h.known v.fresh_campaigns;
    fresh_usage =
        All-append (λ (x : SmsUsageEvent). x.allowance_id < m.next_id) m.usage (e ∷ [])
          v.fresh_usage (rw h.event lent_fresh, tt);
  }
