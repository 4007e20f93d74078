-- ===== src/Payments/Webhook.antt =====
-- payments/services.py: the events of connected accounts, `process_connect_event`. An event that
-- the code does not know changes nothing; `customer_subscription` is every type with that prefix.
pub mod Touches
pub mod Handlers
pub mod Events
pub mod Inbox
use event_management.Base.{
  ℕ, ◌+◌, Bool, true, false, ◌&&◌, ◌||◌, not, Option, none, some, List, [], ◌∷◌, ◌++◌, ◌==◌,
  if◌then◌else◌, find, find_last, take, select, update_if, Result, ok, err, raise_if, ◌>>=◌, ◌>>◌,
}
use event_management.Schema.{Db}
use event_management.Schema.Payments.{ConnectedAccount, Order}
use event_management.Payments.Errors.{Error, account_mismatch}
use event_management.Payments.Orders.{mark_order_paid, fail_order}
use event_management.Payments.Refunds.{apply_refund_object}
use event_management.Payments.Objects.{StripeObject, as_payment, as_refund, order_from_object}
use event_management.Payments.Accounts.{
  synchronize_connected_account, mark_connected_account_disconnected,
}
use event_management.Payments.Disputes.{apply_charge, apply_dispute}
use event_management.Payments.Dues.{apply_member_subscription, apply_member_invoice}

-- The types of events that the code distinguishes.
pub data ConnectEventType : Type 0 where
  account_updated application_deauthorized : ConnectEventType
  checkout_completed checkout_async_succeeded checkout_expired checkout_async_failed :
      ConnectEventType
  intent_succeeded intent_failed charge_succeeded : ConnectEventType
  refund_reported customer_subscription invoice_paid invoice_failed : ConnectEventType
  dispute_reported dispute_closed unknown_type : ConnectEventType

-- What the processing reads besides the event: the clock, the codes of new tickets, and the capital
-- letters of a country.
pub record Surroundings : Type 0 where
  pub now : ℕ
  pub codes : List ℕ
  pub upper : ℕ → ℕ

pub record ConnectEvent : Type 0 where
  pub id : ℕ
  pub type : ConnectEventType
  pub object : StripeObject
  pub account : ℕ

-- The result of a handler without what it returns.
abbrev pub tables {ℓ} : {A : Type ℓ} → Result Error (A × Db) → Result Error Db
tables (ok (a, d)) = ok d
tables (err e) = err e

-- The reason that the code gives for an application without authorization.
abbrev pub deauthorized : ℕ
deauthorized = 2

unfoldable pub deauthorize : Surroundings → Option ConnectedAccount → Db → Result Error Db
deauthorize w none d = ok d
deauthorize w (some c) d = tables (mark_connected_account_disconnected w.now c.id deauthorized d)

unfoldable pub pay_if : Surroundings → ConnectEvent → Bool → Option Order → Db → Result Error Db
pay_if w e true (some o) d =
    tables (mark_order_paid w.now w.codes o.id (some (as_payment e.object)) e.id d)
pay_if w e _ _ d = ok d

unfoldable pub fail_if : ConnectEvent → Bool → Option Order → Db → Result Error Db
fail_if e expired none d = ok d
fail_if e expired (some o) d = tables (fail_order o.id e.id expired d)

-- `checkout.session.completed` and `checkout.session.async_payment_succeeded`
unfoldable pub handle_checkout :
    Surroundings → ConnectEvent → Bool → Option Order → Db → Result Error Db
unfolding pay_if
handle_checkout w e is_paid o d =
    if e.object.is_membership
    then tables (apply_member_subscription e.object e.account d)
    else pay_if w e is_paid o d

-- The handlers behind the check of the account, by the type of the event.
unfoldable pub handle_event :
    Surroundings → ConnectEvent → ConnectEventType → Option Order → Db → Result Error Db
unfolding handle_checkout pay_if fail_if
handle_event w e ConnectEventType.checkout_completed o d = handle_checkout w e e.object.is_paid o d
handle_event w e ConnectEventType.checkout_async_succeeded o d = handle_checkout w e true o d
handle_event w e ConnectEventType.intent_succeeded o d = pay_if w e true o d
handle_event w e ConnectEventType.charge_succeeded o d = tables (apply_charge e.object e.account d)
handle_event w e ConnectEventType.checkout_expired o d = fail_if e true o d
handle_event w e ConnectEventType.checkout_async_failed o d = fail_if e false o d
handle_event w e ConnectEventType.intent_failed o d = fail_if e false o d
handle_event w e ConnectEventType.refund_reported o d =
    tables (apply_refund_object w.now (as_refund e.object) e.id e.account d)
handle_event w e ConnectEventType.customer_subscription o d =
    tables (apply_member_subscription e.object e.account d)
handle_event w e ConnectEventType.invoice_paid o d =
    tables (apply_member_invoice e.object true e.account d)
handle_event w e ConnectEventType.invoice_failed o d =
    tables (apply_member_invoice e.object false e.account d)
handle_event w e ConnectEventType.dispute_reported o d =
    tables (apply_dispute e.object false e.account d)
handle_event w e ConnectEventType.dispute_closed o d =
    tables (apply_dispute e.object true e.account d)
handle_event w e _ o d = ok d

-- `order and order.connected_account_id != account_id`
abbrev pub is_of_another : ℕ → Option Order → Bool
is_of_another account_id none = false
is_of_another account_id (some o) = not (o.connected_account_id == account_id)

unfoldable pub handle_order_event :
    Surroundings → ConnectEvent → Option Order → Db → Result Error Db
unfolding handle_event
handle_order_event w e o d = do
  raise_if (is_of_another e.account o) account_mismatch
  handle_event w e e.type o d

-- `_apply_connect_event`
unfoldable pub apply_connect_event :
    Surroundings → ConnectEvent → ConnectEventType → Db → Result Error Db
unfolding deauthorize handle_order_event order_from_object
apply_connect_event w e ConnectEventType.account_updated d =
    ok (synchronize_connected_account w.upper w.now e.object.account none d).1
apply_connect_event w e ConnectEventType.application_deauthorized d =
    deauthorize w (find (λ (c : ConnectedAccount). c.stripe_account_id == e.account) d.accounts) d
apply_connect_event w e _ d = handle_order_event w e (order_from_object e.object d) d

pub data ConnectStatus : Type 0 where
  received processed failed : ConnectStatus

pub record ConnectWebhookEvent : Type 0 where
  pub stripe_event_id : ℕ
  pub connected_account_id : ℕ
  pub object_id : ℕ
  pub status : ConnectStatus
  pub attempts : ℕ
  pub processed_at : Option ℕ

-- The tables with the inbox.
pub record Commerce : Type 0 where
  pub db : Db
  pub inbox : List ConnectWebhookEvent

abbrev pub is_processed : ConnectStatus → Bool
is_processed ConnectStatus.processed = true
is_processed _ = false

unfoldable pub new_connect_event : ConnectEvent → ConnectWebhookEvent
new_connect_event e = record {
  stripe_event_id = e.id;
  connected_account_id = e.account;
  object_id = e.object.id;
  status = ConnectStatus.received;
  attempts = 0;
  processed_at = none;
}

unfoldable pub connect_row : ℕ → Commerce → Option ConnectWebhookEvent
connect_row id m = find (λ (x : ConnectWebhookEvent). x.stripe_event_id == id) m.inbox

-- `ConnectWebhookEvent.objects.get_or_create(…)`
unfoldable pub row_found_or_created :
    ConnectEvent → Option ConnectWebhookEvent → Commerce → ConnectWebhookEvent × Commerce
unfolding new_connect_event
row_found_or_created e (some x) m = (x, m)
row_found_or_created e none m =
    (new_connect_event e, record m { inbox = m.inbox ++ new_connect_event e ∷ [] })

unfoldable pub save_connect_event : ConnectWebhookEvent → Commerce → Commerce
save_connect_event x m = record m {
  inbox =
      update_if (λ (y : ConnectWebhookEvent). y.stripe_event_id == x.stripe_event_id) (λ y. x)
        m.inbox;
}

-- The end of the transaction; an exception has rolled it back, and is raised again.
unfoldable pub close_connect_event :
    ℕ
    → ConnectWebhookEvent
    → Commerce
    → Result Error Db
    → Result Error ConnectWebhookEvent × Commerce
unfolding save_connect_event
close_connect_event now x m (ok d) =
    let done = record x {
      status = ConnectStatus.processed;
      attempts = x.attempts + 1;
      processed_at = some now;
    } in
    (ok done, save_connect_event done (record m { db = d }))
close_connect_event now x m (err raised) = (
  err raised,
  save_connect_event (record x { status = ConnectStatus.failed; attempts = x.attempts + 1 }) m,
)

unfoldable pub process_connect_event :
    Surroundings → ConnectEvent → Commerce → Result Error ConnectWebhookEvent × Commerce
unfolding row_found_or_created connect_row close_connect_event apply_connect_event
process_connect_event w e m =
    let (x, m') = row_found_or_created e (connect_row e.id m) m in
    if is_processed x.status
    then (ok x, m')
    else close_connect_event w.now x m' (apply_connect_event w e e.type m'.db)
