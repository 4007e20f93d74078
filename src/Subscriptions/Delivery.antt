-- ===== src/Subscriptions/Delivery.antt =====
-- subscriptions/services.py: a webhook event that is delivered again, and one that fails.
use event_management.Base.{
  ℕ, ◌≡◌, refl, sym, ap, ◌∙◌, subst, Bool, true, Option, none, some, List, [], ◌∷◌, ◌==◌,
  if◌then◌else◌, find, update_if, Result, ok, err, or_raise, ◌>>=◌, arith, inl, inr, Bool-cases,
  ok_injective, find-test, ==_iff, ==_refl,
}
use event_management.Subscriptions.Model.{
  Account, Billing, Settings, Error, InboxStatus, WebhookEvent, does_not_exist,
}
use event_management.Subscriptions.Access.{save_account}
use event_management.Subscriptions.Webhook.{
  EventType, StripeObject, complete_checkout, react, apply_checkout, apply_provider_event,
  apply_stripe_event, event_is_stale, named_subscription, is_checkout,
}
use event_management.Subscriptions.Inbox.{
  process_stripe_event, found_or_created, get_or_create, close_event, save_event, inbox_row,
  is_processed,
}
use event_management.Subscriptions.Status.{if_ok, saved_rule}

saved-inbox :
    (p stale : Account → Bool) (f : Account → Account) (b b' : Billing)
    → ◌>>=◌
        (or_raise (find p b.accounts) does_not_exist)
        (λ a. ok (if stale a then b else save_account (f a) b))
      ≡ ok b'
    → b'.inbox ≡ b.inbox
unfolding save_account
saved-inbox p stale f b b' =
    saved_rule (λ x. x.inbox ≡ b.inbox) p stale f b b' refl (λ a found. refl)

apply_stripe_event-inbox :
    (c : Settings) (now : ℕ) (type : EventType) (o : StripeObject) (created : Option ℕ)
    (b b' : Billing)
    → apply_stripe_event c now type o created b ≡ ok b'
    → b'.inbox ≡ b.inbox
unfolding apply_stripe_event apply_checkout apply_provider_event
apply_stripe_event-inbox c now type o created b b' =
    if_ok (is_checkout type)
      (if_ok (o.metadata_subscription_id == 0)
        (λ e. ap (λ (x : Billing). x.inbox) (sym (ok_injective e)))
        (saved-inbox _ (λ a. event_is_stale a.subscription created)
          (λ a. record a { subscription = complete_checkout c o created a.subscription }) b b'))
      (if_ok (named_subscription type o == 0)
        (λ e. ap (λ (x : Billing). x.inbox) (sym (ok_injective e)))
        (saved-inbox _ (λ a. event_is_stale a.subscription created) (react c now type o created) b
          b'))

-- The row that an event finds or creates.
created_row :
    (event_id : ℕ) (b : Billing) (x : Option WebhookEvent)
    → inbox_row event_id b ≡ x
    → (inbox_row event_id (found_or_created event_id b x).1
        ≡ some (found_or_created event_id b x).0)
      × ((found_or_created event_id b x).0.stripe_event_id ≡ event_id)
      × ((found_or_created event_id b x).1.accounts ≡ b.accounts)
unfolding found_or_created inbox_row find
created_row event_id b none e = (rw (==_refl event_id) refl, refl, refl)
created_row event_id b (some x) e =
    (e, (==_iff x.stripe_event_id event_id).0 (find-test _ b.inbox x e), refl)

find-update :
    (k : ℕ) (v x : WebhookEvent) (xs : List WebhookEvent)
    → v.stripe_event_id ≡ k
    → find (λ (e : WebhookEvent). e.stripe_event_id == k) xs ≡ some x
    → find
        (λ (e : WebhookEvent). e.stripe_event_id == k)
        (update_if (λ e. e.stripe_event_id == v.stripe_event_id) (λ e. v) xs)
      ≡ some v
unfolding find update_if
find-update k v x [] h f = cc
find-update k v x (y ∷ ys) h f = ground (arith, find-update k v x ys, ==_refl k)

-- The row that is saved is the one that is found.
saved_row :
    (event_id : ℕ) (v x : WebhookEvent) (b : Billing)
    → v.stripe_event_id ≡ event_id
    → inbox_row event_id b ≡ some x
    → inbox_row event_id (save_event v b) ≡ some v
unfolding inbox_row save_event
saved_row event_id v x b h f = find-update event_id v x b.inbox h f

-- A row that was processed is what the event returns, and nothing changes.
processed_again :
    (c : Settings) (now event_id : ℕ) (type : EventType) (o : StripeObject) (created : Option ℕ)
    (b : Billing) (e : WebhookEvent)
    → inbox_row event_id b ≡ some e
    → is_processed e.status ≡ true
    → process_stripe_event c now event_id type o created b ≡ (ok e, b)
unfolding process_stripe_event get_or_create found_or_created
processed_again c now event_id type o created b e f t = rw (f, t) refl

-- What a closed event leaves in the inbox.
abbrev pub IsClosed : ℕ → Billing → Result Error WebhookEvent × Billing → Type 0
IsClosed event_id b (ok e, b') = (inbox_row event_id b' ≡ some e) × (is_processed e.status ≡ true)
IsClosed event_id b (err raised, b') =
    (b'.accounts ≡ b.accounts)
    × ((e : WebhookEvent) × (inbox_row event_id b' ≡ some e) × (e.status ≡ InboxStatus.failed))

close_event-IsClosed :
    (now event_id : ℕ) (e : WebhookEvent) (b b1 : Billing) (r : Result Error Billing)
    → e.stripe_event_id ≡ event_id
    → inbox_row event_id b1 ≡ some e
    → b1.accounts ≡ b.accounts
    → ((b' : Billing) → r ≡ ok b' → b'.inbox ≡ b1.inbox)
    → IsClosed event_id b (close_event now e b1 r)
unfolding close_event inbox_row
close_event-IsClosed now event_id e b b1 (ok b') h f g i = (
  saved_row event_id (record e { status = InboxStatus.processed; processed_at = some now }) e b' h
      (ap (find (λ (x : WebhookEvent). x.stripe_event_id == event_id)) (i b' refl) ∙ f),
  refl,
)
close_event-IsClosed now event_id e b b1 (err raised) h f g i =
    let failed = record e { status = InboxStatus.failed } in
    (g, (failed, saved_row event_id failed e b1 h f, refl))

-- After the webhook has returned, the inbox holds the event as processed; after it has raised, the
-- subscriptions and sites are as they were, and the inbox holds the event as failed.
pub process_stripe_event-IsClosed :
    (c : Settings) (now event_id : ℕ) (type : EventType) (o : StripeObject) (created : Option ℕ)
    (b : Billing)
    → IsClosed event_id b (process_stripe_event c now event_id type o created b)
unfolding process_stripe_event get_or_create
process_stripe_event-IsClosed c now event_id type o created b =
    let (e, b1) = found_or_created event_id b (inbox_row event_id b) in
    let (f, h, g) = created_row event_id b (inbox_row event_id b) refl in
    elim (Bool-cases (is_processed e.status)) [
      | inl t ↦ rw t (f, t)
      | inr t ↦ rw t (
          close_event-IsClosed now event_id e b b1 (apply_stripe_event c now type o created b1) h f
            g (λ x. apply_stripe_event-inbox c now type o created b1 x))
    ]

-- An event that the webhook has accepted and that is delivered again, later and with whatever
-- contents, returns the same and changes nothing.
pub process_stripe_event_again :
    (c c' : Settings) (now later event_id : ℕ) (type type' : EventType) (o o' : StripeObject)
    (created created' : Option ℕ) (b b' : Billing) (e : WebhookEvent)
    → process_stripe_event c now event_id type o created b ≡ (ok e, b')
    → process_stripe_event c' later event_id type' o' created' b' ≡ (ok e, b')
process_stripe_event_again c c' now later event_id type type' o o' created created' b b' e h =
    let (f, t) =
      subst (IsClosed event_id b) h
        (process_stripe_event-IsClosed c now event_id type o created b) in
    processed_again c' later event_id type' o' created' b' e f t
