-- ===== src/Delivery/Limits.antt =====
-- communications/services.py: how often a provider is asked to send a message.
use event_management.Base.{
  ℕ, ◌+◌, ◌≤◌, ◌≡◌, sym, ap, subst, Bool, false, List, [], ◌∷◌, ◌==◌, count_if, All, All-mono,
  All-update, All-update_cases, find-All, arith,
}
use event_management.Campaigns.Model.{OutboundMessage, Mail}
use event_management.Delivery.Queue.{queued_message_ids, requeue_stale}
use event_management.Delivery.Send.{is_passed_over, save_message}
use event_management.Delivery.Messages.{settle_delivery-All}
use event_management.Delivery.Claims.{
  Claimed, claim_message-Claimed, claim_message-Left, Left-All, cancel_campaign-All,
}
use event_management.Delivery.Workers.{
  Plant, Step, pass, claim, answer, cancel, requeue, Reach, here, next,
}

-- How often a list names an id.
unfoldable pub times : ℕ → List ℕ → ℕ
times id ids = count_if (λ k. k == id) ids

-- A message has at most five attempts, and every request to send it was one of them.
pub record IsLimited (begun : List ℕ) (y : OutboundMessage) : Type 0 where
  pub within : y.attempts ≤ 5
  pub counted : times y.id begun ≤ y.attempts

passed_attempts :
    (now : ℕ) (f : OutboundMessage) → is_passed_over now f ≡ false → f.attempts + 1 ≤ 5
unfolding is_passed_over
passed_attempts now f h = ground arith

Claimed-IsLimited :
    (now id : ℕ) (p : Plant) (m : Mail) (x : OutboundMessage)
    → Claimed now id p.mail x m
    → All (IsLimited p.begun) p.mail.messages
    → All (IsLimited (x.id ∷ p.begun)) m.messages
unfolding save_message times count_if
Claimed-IsLimited now id p m x c all =
    let f = c.row in
    let own : x.id ≡ f.id = ap (λ (y : OutboundMessage). y.id) c.copy in
    let known = find-All (IsLimited p.begun) _ p.mail.messages f c.was all in
    let room = passed_attempts now f c.ready in
    let bound : count_if (λ k. k == f.id) p.begun ≤ f.attempts = known.counted in
    subst (All (IsLimited (x.id ∷ p.begun))) (sym c.saved) (
      All-update_cases (IsLimited p.begun) _ _ _ p.mail.messages
        (λ y e q.
          let same : y.id ≡ f.id = ground arith in
          record { within = room; counted = rw (same, own) (ground arith) })
        (λ y e q. record {
          within = q.within;
          counted =
              let apart : (x.id == y.id) ≡ false = ground arith in
              let before : count_if (λ k. k == y.id) p.begun ≤ y.attempts = q.counted in
              rw apart (omega (arith, before));
        })
        all)

Step-IsLimited :
    (b : Bool) (p q : Plant)
    → All (IsLimited p.begun) p.mail.messages
    → Step b p q
    → All (IsLimited q.begun) q.mail.messages
unfolding queued_message_ids requeue_stale
Step-IsLimited b p q all (pass now id x m h) =
    Left-All (IsLimited p.begun) now id p.mail m
      (λ f y k r e l. record { within = l.within; counted = l.counted })
      (claim_message-Left now id p.mail m x h) all
Step-IsLimited b p q all (claim now id x m h) =
    Claimed-IsLimited now id p m x (claim_message-Claimed now id p.mail m x h) all
Step-IsLimited b p q all (answer now x before after a h) =
    settle_delivery-All (IsLimited p.begun) (IsLimited p.begun) now x p.mail
      (λ y l. record { within = l.within; counted = l.counted }) (λ y e l. l) a
      (λ y e l s. record { within = l.within; counted = l.counted })
      (λ n i y e l s. record { within = l.within; counted = l.counted }) all
Step-IsLimited b p q all (cancel now id c m h) =
    cancel_campaign-All (IsLimited p.begun) now id p.mail m c
      (λ y w l. record { within = l.within; counted = l.counted }) h all
Step-IsLimited b p q all (requeue now limit h) =
    All-update (IsLimited p.begun) _ _ p.mail.messages
      (λ y l. record { within = l.within; counted = l.counted }) all

-- If no message has had more than five attempts, and requests are counted from then on: however many
-- workers claim messages, get answers from a provider or fail, while campaigns are canceled and the
-- scheduler queues stale messages again, no message has more than five attempts, and a provider has
-- not been asked to send it more often than it has attempts.
pub Reach-IsLimited :
    (b : Bool) (p q : Plant)
    → p.begun ≡ []
    → All (λ (y : OutboundMessage). y.attempts ≤ 5) p.mail.messages
    → Reach b p q
    → All (IsLimited q.begun) q.mail.messages
unfolding times count_if
Reach-IsLimited b p q e all here =
    All-mono _ _ p.mail.messages (λ y w. record { within = w; counted = rw e (omega arith) }) all
Reach-IsLimited b p q e all (next r s) = Step-IsLimited b _ q (Reach-IsLimited b p _ e all r) s
