-- ===== src/Delivery/Claims.antt =====
-- communications/services.py: what a claim of a message and a cancelation do to the messages.
use event_management.Base.{
  ℕ, ◌+◌, ◌≡◌, refl, sym, subst, ◌∙◌, ◌⊎◌, Bool, true, false, ◌&&◌, not, some, ◌==◌, find, All,
  All-update_cases, find-All, ok, or_raise, or_raise-eq-ok, >>=-eq-ok, raise_if-eq-ok, ok_injective,
  Bool-cases, inl, inr,
}
use event_management.Campaigns.Model.{
  Campaign, MessageStatus, OutboundMessage, RecipientStatus, Mail, is_sms, does_not_exist,
}
use event_management.Campaigns.Sms.{get_campaign}
use event_management.Campaigns.Launch.{
  suppressed_message, suppress_messages, cancel_campaign, cancel_found, cancel_released,
  release_for_cancel, names, is_pending,
}
use event_management.Delivery.Send.{
  recipient_update, recipient_is_still_reachable, finish_campaign, release_sms, save_message, Claim,
  left, taken, suppress_unreachable, claimed, claim_reachable, is_passed_over, claim_found,
  claim_message,
}
use event_management.Delivery.Messages.{
  release_sms_locked-messages, release_sms-messages, recipient_update-messages,
  finish_campaign-messages,
}

-- The columns that a claim saves, from the row that it has read.
abbrev pub claim_columns : ℕ → OutboundMessage → OutboundMessage → OutboundMessage
claim_columns now f y = record y {
  status = MessageStatus.processing;
  attempts = f.attempts + 1;
  updated_at = now;
}

-- A claim that a worker has got.
pub record Claimed (now id : ℕ) (m : Mail) (x : OutboundMessage) (m' : Mail) : Type 0 where
  pub row : OutboundMessage
  pub was : find (λ (y : OutboundMessage). y.id == id) m.messages ≡ some row
  pub ready : is_passed_over now row ≡ false
  pub copy : x ≡ claimed now row
  pub saved : m'.messages ≡ (save_message row.id (claim_columns now row) m).messages

-- A message that a claim has suppressed.
pub record Suppressed (now id : ℕ) (m m' : Mail) : Type 0 where
  pub row : OutboundMessage
  pub was : find (λ (y : OutboundMessage). y.id == id) m.messages ≡ some row
  pub ready : is_passed_over now row ≡ false
  pub saved : m'.messages ≡ (save_message row.id (suppressed_message now) m).messages

-- What a claim writes when no message is sent.
abbrev pub Left : ℕ → ℕ → Mail → Mail → Type 0
Left now id m m' = (m'.messages ≡ m.messages) ⊎ Suppressed now id m m'

abbrev Shows : ℕ → ℕ → Mail → Claim × Mail → Type 0
Shows now id m (taken x, m') = Claimed now id m x m'
Shows now id m (left x, m') = Left now id m m'

module _ (now id : ℕ) (m : Mail) (f : OutboundMessage)
    (at : find (λ (y : OutboundMessage). y.id == id) m.messages ≡ some f) where
  suppress_unreachable-Shows :
      (r : Claim × Mail)
      → is_passed_over now f ≡ false
      → suppress_unreachable now f m ≡ ok r
      → Shows now id m r
  unfolding suppress_unreachable save_message
  suppress_unreachable-Shows r ready h =
      let m1 : Mail = save_message f.id (suppressed_message now) m in
      let m2 = recipient_update now f.recipient_id RecipientStatus.suppressed m1 in
      let (m3, h3, k) = >>=-eq-ok (release_sms (suppressed_message now f) m2) _ h in
      let (m4, h4, k') = >>=-eq-ok (finish_campaign now f.campaign_id m3) _ k in
      subst (Shows now id m) (ok_injective k') (
        inr (record {
          row = f;
          was = at;
          ready = ready;
          saved =
              finish_campaign-messages now f.campaign_id m3 m4 h4
              ∙ release_sms-messages (suppressed_message now f) m2 m3 h3
              ∙ recipient_update-messages now f.recipient_id RecipientStatus.suppressed m1;
        }))

  claim_reachable-Shows :
      (b : Bool) (r : Claim × Mail)
      → is_passed_over now f ≡ false
      → claim_reachable now f b m ≡ ok r
      → Shows now id m r
  unfolding claim_reachable
  claim_reachable-Shows false r ready h = suppress_unreachable-Shows r ready h
  claim_reachable-Shows true r ready h =
      subst (Shows now id m) (ok_injective h)
        (record { row = f; was = at; ready = ready; copy = refl; saved = refl })

  claim_found-Shows : (r : Claim × Mail) → claim_found now f m ≡ ok r → Shows now id m r
  unfolding claim_found
  claim_found-Shows r h = elim (Bool-cases (is_passed_over now f)) [
    | inl t ↦ subst (Shows now id m) (ok_injective (rw t at h)) (inl refl)
    | inr t ↦
        let (b, hb, k) = >>=-eq-ok (recipient_is_still_reachable f f.contact_id m) _ (rw t at h) in
        claim_reachable-Shows b r t k
  ]

claim_message-Shows :
    (now id : ℕ) (m : Mail) (r : Claim × Mail) → claim_message now id m ≡ ok r → Shows now id m r
unfolding claim_message
claim_message-Shows now id m r h =
    let (f, hf, k) =
      >>=-eq-ok (or_raise (find (λ (x : OutboundMessage). x.id == id) m.messages) does_not_exist) _
        h in
    claim_found-Shows now id m f (or_raise-eq-ok _ _ hf) r k

pub claim_message-Claimed :
    (now id : ℕ) (m m' : Mail) (x : OutboundMessage)
    → claim_message now id m ≡ ok (taken x, m')
    → Claimed now id m x m'
claim_message-Claimed now id m m' x h = claim_message-Shows now id m (taken x, m') h

pub claim_message-Left :
    (now id : ℕ) (m m' : Mail) (x : OutboundMessage)
    → claim_message now id m ≡ ok (left x, m')
    → Left now id m m'
claim_message-Left now id m m' x h = claim_message-Shows now id m (left x, m') h

-- What holds of every message after a claim without a send.
pub Left-All :
    (P : OutboundMessage → Type 0) (now id : ℕ) (m m' : Mail)
    → ((f y : OutboundMessage)
        → P f
        → is_passed_over now f ≡ false
        → (y.id == f.id) ≡ true
        → P y
        → P (suppressed_message now y))
    → Left now id m m'
    → All P m.messages
    → All P m'.messages
unfolding save_message
Left-All P now id m m' hit (inl same) all = subst (All P) (sym same) all
Left-All P now id m m' hit (inr s) all = subst (All P) (sym s.saved) (
    All-update_cases P P _ _ m.messages
      (λ y e p. hit s.row y (find-All P _ m.messages s.row s.was all) s.ready e p) (λ y e p. p) all)

release_for_cancel-messages :
    (c : Campaign) (m : Mail) (r : Campaign × Mail)
    → release_for_cancel c m ≡ ok r
    → r.1.messages ≡ m.messages
unfolding release_for_cancel
release_for_cancel-messages c m r h =
    elim (Bool-cases (is_sms c.channel && not (c.sms_reserved_segments == 0))) [
      | inl t ↦ release_sms_locked-messages c c.sms_reserved_segments m r (rw t at h)
      | inr t ↦
          subst (λ (y : Campaign × Mail). y.1.messages ≡ m.messages) (ok_injective (rw t at h)) refl
    ]

second_holds : (a b : Bool) → (a && b) ≡ true → b ≡ true
second_holds true b h = h
second_holds false b h = cc

-- What holds of every message after a cancelation, which suppresses messages that wait.
pub cancel_campaign-All :
    (P : OutboundMessage → Type 0) (now id : ℕ) (m m' : Mail) (c : Campaign)
    → ((y : OutboundMessage) → is_pending y.status ≡ true → P y → P (suppressed_message now y))
    → cancel_campaign now id m ≡ ok (c, m')
    → All P m.messages
    → All P m'.messages
unfolding cancel_campaign cancel_found cancel_released suppress_messages
cancel_campaign-All P now id m m' c hit h all =
    let (c0, h0, k0) = >>=-eq-ok (get_campaign m id) _ h in
    let k1 = (raise_if-eq-ok _ _ _ k0).1 in
    let (r, h2, k2) = >>=-eq-ok (release_for_cancel c0 m) _ k1 in
    let same : r.1.messages ≡ m.messages = release_for_cancel-messages c0 m r h2 in
    subst (λ (y : Campaign × Mail). All P y.1.messages) (ok_injective k2)
      (All-update_cases P P _ _ r.1.messages
        (λ y e p. hit y (second_holds (names r.0.id y.campaign_id) (is_pending y.status) e) p)
        (λ y e p. p) (subst (All P) (sym same) all))
