-- ===== src/Subscriptions/Inbox.antt =====
-- subscriptions/services.py: `process_stripe_event`, the inbox of the webhook events.
use event_management.Base.{
  ℕ, Bool, true, false, ◌∷◌, Option, none, some, ◌==◌, if◌then◌else◌, find, update_if, Result, ok,
  err,
}
use event_management.Subscriptions.Model.{Billing, Settings, Error, InboxStatus, WebhookEvent}
use event_management.Subscriptions.Webhook.{EventType, StripeObject, apply_stripe_event}

abbrev pub is_processed : InboxStatus → Bool
is_processed InboxStatus.processed = true
is_processed _ = false

-- The row that `create` adds.
abbrev pub new_event : ℕ → WebhookEvent
new_event event_id = record {
  stripe_event_id = event_id;
  status = InboxStatus.received;
  processed_at = none;
}

unfoldable pub inbox_row : ℕ → Billing → Option WebhookEvent
inbox_row event_id b = find (λ (x : WebhookEvent). x.stripe_event_id == event_id) b.inbox

unfoldable pub found_or_created : ℕ → Billing → Option WebhookEvent → WebhookEvent × Billing
found_or_created event_id b none =
    (new_event event_id, record b { inbox = new_event event_id ∷ b.inbox })
found_or_created event_id b (some e) = (e, b)

-- `StripeWebhookEvent.objects.get_or_create(…)`
unfoldable pub get_or_create : ℕ → Billing → WebhookEvent × Billing
unfolding found_or_created inbox_row
get_or_create event_id b = found_or_created event_id b (inbox_row event_id b)

unfoldable pub save_event : WebhookEvent → Billing → Billing
save_event e b = record b {
  inbox = update_if (λ x. x.stripe_event_id == e.stripe_event_id) (λ x. e) b.inbox;
}

-- The end of the transaction: an exception has rolled it back, and is raised again.
unfoldable pub close_event :
    ℕ → WebhookEvent → Billing → Result Error Billing → Result Error WebhookEvent × Billing
unfolding save_event
close_event now e b (ok b') =
    let done = record e { status = InboxStatus.processed; processed_at = some now } in
    (ok done, save_event done b')
close_event now e b (err raised) =
    (err raised, save_event (record e { status = InboxStatus.failed }) b)

unfoldable pub process_stripe_event :
    Settings
    → ℕ
    → ℕ
    → EventType
    → StripeObject
    → Option ℕ
    → Billing
    → Result Error WebhookEvent × Billing
unfolding get_or_create close_event
process_stripe_event c now event_id type o created b =
    let (e, b') = get_or_create event_id b in
    if is_processed e.status
    then (ok e, b')
    else close_event now e b' (apply_stripe_event c now type o created b')
