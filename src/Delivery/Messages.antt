-- ===== src/Delivery/Messages.antt =====
-- communications/services.py: what the calls of a delivery do to the table of messages.
use event_management.Base.{
  ℕ, ◌≡◌, refl, sym, subst, Bool, true, false, ◌&&◌, not, Option, none, some, ◌==◌, leb,
  if◌then◌else◌, All, All-update, All-update_cases, arith, Result, ok, err, >>=-eq-ok, ok_injective,
  Bool-cases, inl, inr,
}
use event_management.Campaigns.Model.{
  Campaign, SmsAllowance, OutboundMessage, RecipientStatus, Mail, Error, is_sms,
}
use event_management.Campaigns.Sms.{
  get_campaign, get_allowance, release_from, release_held, release_sms_locked, release_of,
  release_sms_for_message, consume_from, consume_of, consume_sms_for_message,
}
use event_management.Campaigns.Launch.{cleared}
use event_management.Delivery.Send.{
  recipient_update, refreshed, finish_campaign, release_sms, consume_sms, save_message, Answer,
  accepted, raised, proceed, finish, failed_message, sent_message, give_up, settle_delivery,
}

release_from-messages :
    (c : Campaign) (n : ℕ) (a : SmsAllowance) (m : Mail)
    → (release_from c n a m).1.messages ≡ m.messages
unfolding release_from
release_from-messages c n a m = ground arith

release_held-messages :
    (c : Campaign) (n : ℕ) (o : Option ℕ) (m : Mail) (r : Campaign × Mail)
    → release_held c n o m ≡ ok r
    → r.1.messages ≡ m.messages
unfolding release_held
release_held-messages c n none m r h =
    subst (λ (y : Campaign × Mail). y.1.messages ≡ m.messages) (ok_injective h) refl
release_held-messages c n (some k) m r h =
    let (a, ha, h') = >>=-eq-ok (get_allowance m k) _ h in
    subst (λ (y : Campaign × Mail). y.1.messages ≡ m.messages) (ok_injective h')
      (release_from-messages c n a m)

pub release_sms_locked-messages :
    (c : Campaign) (n : ℕ) (m : Mail) (r : Campaign × Mail)
    → release_sms_locked c n m ≡ ok r
    → r.1.messages ≡ m.messages
unfolding release_sms_locked
release_sms_locked-messages c n m r h = elim (Bool-cases (n == 0)) [
  | inl t ↦
      subst (λ (y : Campaign × Mail). y.1.messages ≡ m.messages) (ok_injective (rw t at h)) refl
  | inr t ↦ release_held-messages c n c.sms_allowance m r (rw t at h)
]

release_of-messages :
    (n : ℕ) (o : Option ℕ) (m m' : Mail) → release_of n o m ≡ ok m' → m'.messages ≡ m.messages
unfolding release_of
release_of-messages n none m m' h =
    subst (λ (y : Mail). y.messages ≡ m.messages) (ok_injective h) refl
release_of-messages n (some k) m m' h =
    let (c, hc, h1) = >>=-eq-ok (get_campaign m k) _ h in
    let (r, hr, h2) = >>=-eq-ok (release_sms_locked c n m) _ h1 in
    subst (λ (y : Mail). y.messages ≡ m.messages) (ok_injective h2)
      (release_sms_locked-messages c n m r hr)

consume_of-messages :
    (n : ℕ) (o a : Option ℕ) (m m' : Mail) → consume_of n o a m ≡ ok m' → m'.messages ≡ m.messages
unfolding consume_of consume_from
consume_of-messages n none a m m' h =
    subst (λ (y : Mail). y.messages ≡ m.messages) (ok_injective h) refl
consume_of-messages n (some k) none m m' h =
    subst (λ (y : Mail). y.messages ≡ m.messages) (ok_injective h) refl
consume_of-messages n (some k) (some j) m m' h =
    let (c, hc, h1) = >>=-eq-ok (get_campaign m k) _ h in
    let (a, ha, h2) = >>=-eq-ok (get_allowance m j) _ h1 in
    subst (λ (y : Mail). y.messages ≡ m.messages) (ok_injective h2) refl

-- A call that a test guards.
guarded-messages :
    (b : Bool) (call : Result Error Mail) (m m' : Mail)
    → ((m'' : Mail) → call ≡ ok m'' → m''.messages ≡ m.messages)
    → (if b then call else ok m) ≡ ok m'
    → m'.messages ≡ m.messages
guarded-messages true call m m' k h = k m' h
guarded-messages false call m m' k h =
    subst (λ (y : Mail). y.messages ≡ m.messages) (ok_injective h) refl

-- A call that a test leaves out.
skipped-messages :
    (b : Bool) (call : Result Error Mail) (m m' : Mail)
    → ((m'' : Mail) → call ≡ ok m'' → m''.messages ≡ m.messages)
    → (if b then ok m else call) ≡ ok m'
    → m'.messages ≡ m.messages
skipped-messages true call m m' k h =
    subst (λ (y : Mail). y.messages ≡ m.messages) (ok_injective h) refl
skipped-messages false call m m' k h = k m' h

pub release_sms-messages :
    (x : OutboundMessage) (m m' : Mail) → release_sms x m ≡ ok m' → m'.messages ≡ m.messages
unfolding release_sms release_sms_for_message
release_sms-messages x m m' =
    guarded-messages (is_sms x.channel && not (x.sms_segments == 0)) _ m m' (λ k.
      skipped-messages (x.sms_segments == 0) _ m k
        (λ j. release_of-messages x.sms_segments x.campaign_id m j))

consume_sms-messages :
    (x : OutboundMessage) (m m' : Mail) → consume_sms x m ≡ ok m' → m'.messages ≡ m.messages
unfolding consume_sms consume_sms_for_message
consume_sms-messages x m m' =
    guarded-messages (is_sms x.channel && not (x.sms_segments == 0)) _ m m' (λ k.
      skipped-messages (x.sms_segments == 0) _ m k
        (λ j. consume_of-messages x.sms_segments x.campaign_id x.sms_allowance m j))

refreshed-messages : (now : ℕ) (c : Campaign) (m : Mail) → (refreshed now c m).messages ≡ m.messages
unfolding refreshed
refreshed-messages now c m = ground arith

pub finish_campaign-messages :
    (now : ℕ) (o : Option ℕ) (m m' : Mail)
    → finish_campaign now o m ≡ ok m'
    → m'.messages ≡ m.messages
unfolding finish_campaign
finish_campaign-messages now none m m' h =
    subst (λ (y : Mail). y.messages ≡ m.messages) (ok_injective h) refl
finish_campaign-messages now (some k) m m' h =
    let (c, hc, h1) = >>=-eq-ok (get_campaign m k) _ h in
    subst (λ (y : Mail). y.messages ≡ m.messages) (ok_injective h1) (refreshed-messages now c m)

pub recipient_update-messages :
    (now : ℕ) (o : Option ℕ) (s : RecipientStatus) (m : Mail)
    → (recipient_update now o s m).messages ≡ m.messages
unfolding recipient_update
recipient_update-messages now none s m = refl
recipient_update-messages now (some k) s m = refl

-- What holds of every message holds after statements that leave the messages alone.
proceed-All :
    (Q : OutboundMessage → Type 0) (m : Mail) (call : Result Error Mail)
    (next : Mail → Result Error Mail × Mail)
    → ((m' : Mail) → call ≡ ok m' → m'.messages ≡ m.messages)
    → ((m' : Mail) → All Q m'.messages → All Q (next m').1.messages)
    → All Q m.messages
    → All Q (proceed m call next).1.messages
proceed-All Q m (ok m') next k n a = n m' (subst (All Q) (sym (k m' refl)) a)
proceed-All Q m (err e) next k n a = a

finish-All :
    (Q : OutboundMessage → Type 0) (m : Mail) (call : Result Error Mail)
    → ((m' : Mail) → call ≡ ok m' → m'.messages ≡ m.messages)
    → All Q m.messages
    → All Q (finish m call).1.messages
finish-All Q m (ok m') k a = subst (All Q) (sym (k m' refl)) a
finish-All Q m (err e) k a = a

module _ (P Q : OutboundMessage → Type 0) (now : ℕ) (x : OutboundMessage) (m : Mail)
    (clear : (y : OutboundMessage) → Q y → Q (record (cleared y) { updated_at = now }))
    (miss : (y : OutboundMessage) → (y.id == x.id) ≡ false → P y → Q y) where
  give_up-All : (k : Mail) → All Q k.messages → All Q (give_up now x k).1.messages
  unfolding give_up save_message
  give_up-All k a =
      let k1 = recipient_update now x.recipient_id RecipientStatus.failed k in
      proceed-All Q k1 (release_sms x k1) _ (λ j. release_sms-messages x k1 j)
        (λ k2 b.
          let k3 : Mail = save_message x.id (λ y. record (cleared y) { updated_at = now }) k2 in
          proceed-All Q k3 (finish_campaign now x.campaign_id k3) _
            (λ j. finish_campaign-messages now x.campaign_id k3 j) (λ k4 c. c)
            (All-update Q _ _ k2.messages clear b))
        (subst (All Q) (sym (recipient_update-messages now x.recipient_id RecipientStatus.failed k))
          a)

  -- What holds of every message after the answer of the provider.
  pub settle_delivery-All :
      (a : Answer)
      → ((y : OutboundMessage)
          → (y.id == x.id) ≡ true
          → P y
          → a ≡ raised
          → Q (failed_message now x.attempts y))
      → ((n i : ℕ) (y : OutboundMessage)
          → (y.id == x.id) ≡ true
          → P y
          → a ≡ accepted n i
          → Q (sent_message now n i y))
      → All P m.messages
      → All Q (settle_delivery now x a m).1.messages
  unfolding settle_delivery save_message
  settle_delivery-All raised fail sent all =
      let m1 : Mail = save_message x.id (failed_message now x.attempts) m in
      let saved : All Q m1.messages =
        All-update_cases P Q _ _ m.messages (λ y e p. fail y e p refl) miss all in
      elim (Bool-cases (leb 5 x.attempts)) [
        | inl t ↦ rw t (give_up-All m1 saved)
        | inr t ↦ rw t (
            subst (All Q)
              (sym (recipient_update-messages now x.recipient_id RecipientStatus.queued m1)) saved)
      ]
  settle_delivery-All (accepted n i) fail sent all =
      let m0 : Mail = save_message x.id (sent_message now n i) m in
      let saved : All Q m0.messages =
        All-update_cases P Q _ _ m.messages (λ y e p. sent n i y e p refl) miss all in
      let m1 = recipient_update now x.recipient_id RecipientStatus.sent m0 in
      proceed-All Q m1 (consume_sms x m1) _ (λ j. consume_sms-messages x m1 j)
        (λ k b.
          finish-All Q k (finish_campaign now x.campaign_id k)
            (λ j. finish_campaign-messages now x.campaign_id k j) b)
        (subst (All Q) (sym (recipient_update-messages now x.recipient_id RecipientStatus.sent m0))
          saved)
