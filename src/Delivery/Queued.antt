-- ===== src/Delivery/Queued.antt =====
-- communications/services.py: the queue holds a key once and gives out messages that can be sent.
use event_management.Base.{
  min, length, count_if, ◌≤◌, inl, inr, ℕ, ◌≡◌, refl, subst, Bool, false, ◌&&◌, not, Option, some,
  List, [], ◌∷◌, ◌==◌, if◌then◌else◌, any, find, find_end, All, Result, ok, raise_if-eq-ok,
  ok_injective, Option-cases, ==_refl,
}
use event_management.Campaigns.Model.{Related, OutboundMessage, Mail, Error, other_site}
use event_management.Campaigns.Launch.{is_own}
use event_management.Delivery.Queue.{
  new_message, create_message, message_or_created, find_keyed, enqueue_message, requeue_stale,
  can_be_delivered,
}
use event_management.Delivery.Send.{is_passed_over}

message_or_created-find_keyed :
    (now s k : ℕ) (v : OutboundMessage) (m : Mail)
    → let r = message_or_created now s k v (find_keyed s k m) m in find_keyed s k r.1 ≡ some r.0.0
unfolding message_or_created create_message find_keyed
message_or_created-find_keyed now s k v m =
    let p : OutboundMessage → Bool = λ x. x.site_id == s && x.dedupe_key == k in
    elim (Option-cases (find p m.messages)) [
      | inl e ↦
          let new = new_message now m.next_id s k v in
          rw e (find_end p new m.messages e (rw (==_refl s, ==_refl k) refl))
      | inr (x, e) ↦ rw e e
    ]

-- If a message was queued under a key, and the rows that a second one refers to are of the same site,
-- then queueing the second one under that key changes nothing, and returns the first as not new.
pub enqueue_message_again :
    (now later s k : ℕ) (related others : List (Option Related)) (v w : OutboundMessage) (m : Mail)
    (r : (OutboundMessage × Bool) × Mail)
    → (k == 0) ≡ false
    → any (λ o. not (is_own s o)) others ≡ false
    → enqueue_message now s related k v m ≡ ok r
    → enqueue_message later s others k w r.1 ≡ ok ((r.0.0, false), r.1)
unfolding enqueue_message message_or_created
enqueue_message_again now later s k related others v w m r e f h =
    let stored : ◌≡◌ {A = Result Error ((OutboundMessage × Bool) × Mail)}
        (ok (
          if k == 0
          then create_message now s k v m
          else message_or_created now s k v (find_keyed s k m) m))
        (ok r) =
      (raise_if-eq-ok (any (λ o. not (is_own s o)) related) other_site _ h).1 in
    let same = ok_injective (rw e at stored) in
    let found : find_keyed s k r.1 ≡ some r.0.0 =
      subst (λ (y : (OutboundMessage × Bool) × Mail). find_keyed s k y.1 ≡ some y.0.0) same
        (message_or_created-find_keyed now s k v m) in
    rw (f, e, found) refl

-- Each message has been available at least as long as those that follow it.
abbrev pub IsOrdered : List OutboundMessage → Type 0
IsOrdered [] = Unit
IsOrdered (x ∷ xs) =
    All (λ (y : OutboundMessage). x.available_at ≤ y.available_at) xs × IsOrdered xs

-- What the scheduler gives out at an instant.
pub record Given (now limit : ℕ) (m : Mail) (xs : List OutboundMessage) : Type 0 where
  pub ready : All (λ x. is_passed_over now x ≡ false) xs
  pub ordered : IsOrdered xs
  pub all_due :
      length xs ≡ min limit (count_if (can_be_delivered now) (requeue_stale now m.messages))
