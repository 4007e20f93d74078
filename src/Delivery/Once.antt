-- ===== src/Delivery/Once.antt =====
-- communications/services.py: a message is delivered once where no stale message is queued again.
use event_management.Base.{
  ℕ, ◌+◌, ◌≤◌, ◌≡◌, sym, ap, subst, Bool, true, false, List, [], ◌∷◌, ◌++◌, ◌==◌, if◌then◌else◌,
  count_if, count_if-append, All, All-update_cases, find-All, arith,
}
use event_management.Campaigns.Model.{MessageStatus, OutboundMessage, Mail}
use event_management.Campaigns.Launch.{is_pending}
use event_management.Delivery.Queue.{is_processing}
use event_management.Delivery.Send.{
  is_terminal, is_passed_over, save_message, Answer, accepted, raised, settle_delivery,
}
use event_management.Delivery.Messages.{settle_delivery-All}
use event_management.Delivery.Claims.{
  Claimed, claim_message-Claimed, claim_message-Left, Left-All, cancel_campaign-All,
}
use event_management.Delivery.Workers.{
  Plant, note, Step, pass, claim, answer, cancel, requeue, Reach, here, next,
}
use event_management.Delivery.Limits.{times}

-- How many workers send a message.
unfoldable pub workers : ℕ → List OutboundMessage → ℕ
workers id xs = count_if (λ (x : OutboundMessage). x.id == id) xs

abbrev pub at_most : Bool → ℕ
at_most b = if b then 1 else 0

at_most_one : (b : Bool) → at_most b ≤ 1
at_most_one true = omega arith
at_most_one false = omega arith

-- One worker at most sends a message, and only while it is in process; a provider has accepted it
-- once at most, and only if it is over with the message.
pub record IsOnce (sending : List OutboundMessage) (delivered : List ℕ) (y : OutboundMessage)
    : Type 0 where
  pub held : workers y.id sending ≤ at_most (is_processing y.status)
  pub over : times y.id delivered ≤ at_most (is_terminal y.status)

-- No worker holds a message, and no provider has accepted it.
record IsIdle (sending : List OutboundMessage) (delivered : List ℕ) (id : ℕ) : Type 0 where
  free : workers id sending ≤ 0
  unsent : times id delivered ≤ 0

ready-IsIdle :
    (now : ℕ) (s : List OutboundMessage) (d : List ℕ) (f : OutboundMessage)
    → is_passed_over now f ≡ false
    → IsOnce s d f
    → IsIdle s d f.id
unfolding is_passed_over
ready-IsIdle now s d f h o =
    let running : is_processing f.status ≡ false = ground arith in
    let ended : is_terminal f.status ≡ false = ground arith in
    record { free = rw running at o.held; unsent = rw ended at o.over }

pending-IsIdle :
    (s : List OutboundMessage) (d : List ℕ) (t : MessageStatus) (id : ℕ)
    → is_pending t ≡ true
    → workers id s ≤ at_most (is_processing t)
    → times id d ≤ at_most (is_terminal t)
    → IsIdle s d id
pending-IsIdle s d MessageStatus.queued id h a b = record { free = a; unsent = b }
pending-IsIdle s d MessageStatus.failed id h a b = record { free = a; unsent = b }
pending-IsIdle s d MessageStatus.processing id h a b = cc
pending-IsIdle s d MessageStatus.sent id h a b = cc
pending-IsIdle s d MessageStatus.delivered id h a b = cc
pending-IsIdle s d MessageStatus.bounced id h a b = cc
pending-IsIdle s d MessageStatus.opened id h a b = cc
pending-IsIdle s d MessageStatus.clicked id h a b = cc
pending-IsIdle s d MessageStatus.unsubscribed id h a b = cc
pending-IsIdle s d MessageStatus.suppressed id h a b = cc

-- A message that a worker holds is in process, so that no provider has accepted it.
held-unsent :
    (t : MessageStatus) (n k : ℕ)
    → 1 ≤ n
    → n ≤ at_most (is_processing t)
    → k ≤ at_most (is_terminal t)
    → (n ≤ 1) × (k ≤ 0)
held-unsent MessageStatus.processing n k a b c = (b, c)
held-unsent MessageStatus.queued n k a b c = (omega arith, omega arith)
held-unsent MessageStatus.failed n k a b c = (omega arith, omega arith)
held-unsent MessageStatus.sent n k a b c = (omega arith, omega arith)
held-unsent MessageStatus.delivered n k a b c = (omega arith, omega arith)
held-unsent MessageStatus.bounced n k a b c = (omega arith, omega arith)
held-unsent MessageStatus.opened n k a b c = (omega arith, omega arith)
held-unsent MessageStatus.clicked n k a b c = (omega arith, omega arith)
held-unsent MessageStatus.unsubscribed n k a b c = (omega arith, omega arith)
held-unsent MessageStatus.suppressed n k a b c = (omega arith, omega arith)

Claimed-IsOnce :
    (now id : ℕ) (p : Plant) (m : Mail) (x : OutboundMessage)
    → Claimed now id p.mail x m
    → All (IsOnce p.sending p.delivered) p.mail.messages
    → All (IsOnce (x ∷ p.sending) p.delivered) m.messages
unfolding save_message workers count_if
Claimed-IsOnce now id p m x c all =
    let f = c.row in
    let own : x.id ≡ f.id = ap (λ (y : OutboundMessage). y.id) c.copy in
    let idle =
      ready-IsIdle now p.sending p.delivered f c.ready
        (find-All (IsOnce p.sending p.delivered) _ p.mail.messages f c.was all) in
    let free : count_if (λ (y : OutboundMessage). y.id == f.id) p.sending ≤ 0 = idle.free in
    subst (All (IsOnce (x ∷ p.sending) p.delivered)) (sym c.saved) (
      All-update_cases (IsOnce p.sending p.delivered) _ _ _ p.mail.messages
        (λ y e q.
          let same : y.id ≡ f.id = ground arith in
          record { held = rw (same, own) (ground arith); over = rw same idle.unsent })
        (λ y e q. record {
          held =
              let apart : (x.id == y.id) ≡ false = ground arith in
              let before : count_if (λ (z : OutboundMessage). z.id == y.id) p.sending
                  ≤ at_most (is_processing y.status) =
                q.held in
              rw apart (omega (arith, before));
          over = q.over;
        })
        all)

-- How many workers send a message before one of them is done.
split_workers :
    (id : ℕ) (before after : List OutboundMessage) (x : OutboundMessage)
    → workers id (before ++ x ∷ after) ≡ workers id (before ++ after) + at_most (x.id == id)
unfolding workers count_if
split_workers id before after x = omega (
  arith,
  count_if-append (λ (y : OutboundMessage). y.id == id) before (x ∷ after),
  count_if-append (λ (y : OutboundMessage). y.id == id) before after,
)

-- What the answer for another message adds.
times-note :
    (a : Answer) (k id : ℕ) (d : List ℕ) → times id (note a k d) ≤ times id d + at_most (k == id)
unfolding times count_if
times-note (accepted n i) k id d = ground arith
times-note raised k id d = omega arith

-- The worker's message is no other worker's, and no provider has accepted it.
module _ (before after : List OutboundMessage) (d : List ℕ) (x y : OutboundMessage)
    (o : IsOnce (before ++ x ∷ after) d y) where
  done-IsIdle : (y.id == x.id) ≡ true → IsIdle (before ++ after) d y.id
  done-IsIdle e =
      let same : at_most (x.id == y.id) ≡ 1 = ground arith in
      let split = split_workers y.id before after x in
      let (a, b) = held-unsent y.status _ _ (omega (arith, split, same)) o.held o.over in
      record { free = omega (arith, split, same, a); unsent = b }

  other-IsOnce : (a : Answer) → (y.id == x.id) ≡ false → IsOnce (before ++ after) (note a x.id d) y
  other-IsOnce a e =
      let same : at_most (x.id == y.id) ≡ 0 = ground arith in
      record {
        held = omega (arith, split_workers y.id before after x, same, o.held);
        over = omega (arith, times-note a x.id y.id d, same, o.over);
      }

answered-IsOnce :
    (now : ℕ) (p : Plant) (x : OutboundMessage) (before after : List OutboundMessage) (a : Answer)
    → All (IsOnce (before ++ x ∷ after) p.delivered) p.mail.messages
    → All
        (IsOnce (before ++ after) (note a x.id p.delivered))
        (settle_delivery now x a p.mail).1.messages
unfolding times count_if
answered-IsOnce now p x before after a all =
    settle_delivery-All (IsOnce (before ++ x ∷ after) p.delivered) _ now x p.mail
      (λ y o. record { held = o.held; over = o.over })
      (λ y e o. other-IsOnce before after p.delivered x y o a e) a
      (λ y e o s.
        let idle = done-IsIdle before after p.delivered x y o e in
        record {
          held = idle.free;
          over =
              subst (λ (b : Answer). times y.id (note b x.id p.delivered) ≤ 0) (sym s) idle.unsent;
        })
      (λ n i y e o s.
        let idle = done-IsIdle before after p.delivered x y o e in
        record {
          held = idle.free;
          over =
              omega (
                arith,
                times-note a x.id y.id p.delivered,
                at_most_one (x.id == y.id),
                idle.unsent,
              );
        })
      all

Step-IsOnce :
    (p q : Plant)
    → All (IsOnce p.sending p.delivered) p.mail.messages
    → Step false p q
    → All (IsOnce q.sending q.delivered) q.mail.messages
Step-IsOnce p q all (pass now id x m h) =
    Left-All (IsOnce p.sending p.delivered) now id p.mail m
      (λ f y k r e o.
        let idle = ready-IsIdle now p.sending p.delivered f r k in
        let same : y.id ≡ f.id = ground arith in
        record { held = rw same idle.free; over = rw same (omega (arith, idle.unsent)) })
      (claim_message-Left now id p.mail m x h) all
Step-IsOnce p q all (claim now id x m h) =
    Claimed-IsOnce now id p m x (claim_message-Claimed now id p.mail m x h) all
Step-IsOnce p q all (answer now x before after a h) =
    answered-IsOnce now p x before after a
      (subst (λ xs. All (IsOnce xs p.delivered) p.mail.messages) h all)
Step-IsOnce p q all (cancel now id c m h) =
    cancel_campaign-All (IsOnce p.sending p.delivered) now id p.mail m c
      (λ y w o.
        let idle = pending-IsIdle p.sending p.delivered y.status y.id w o.held o.over in
        record { held = idle.free; over = omega (arith, idle.unsent) })
      h all
Step-IsOnce p q all (requeue now limit h) = cc

-- Where the scheduler queues no stale message again, no worker is at work at first, and acceptances
-- are counted from then on: however the claims and answers of any number of workers and the
-- cancelations of campaigns follow one another, a message is sent by one worker at most, and only
-- while it is in process, and a provider accepts it once at most, after which it is in one of the
-- statuses in which it is not sent again.
pub Reach-IsOnce :
    (p q : Plant)
    → p.sending ≡ []
    → p.delivered ≡ []
    → Reach false p q
    → All (IsOnce q.sending q.delivered) q.mail.messages
unfolding times workers count_if
Reach-IsOnce p q e d here = idle_at_first p.mail.messages
  where
    idle_at_first : (xs : List OutboundMessage) → All (IsOnce p.sending p.delivered) xs
    idle_at_first [] = tt
    idle_at_first (y ∷ ys) =
        (record { held = rw e (omega arith); over = rw d (omega arith) }, idle_at_first ys)
Reach-IsOnce p q e d (next r s) = Step-IsOnce _ q (Reach-IsOnce p _ e d r) s
