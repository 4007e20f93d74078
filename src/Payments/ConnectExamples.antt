-- ===== src/Payments/ConnectExamples.antt =====
-- Runs of the calls for connected accounts and members on small tables.
use event_management.Base.{
  ◌≡◌, refl, true, false, none, some, [], ◌∷◌, ◌==◌, Option, returned, find, find_last, any,
  count_if, arith, Result, ok, err, Text, text_eq,
}
use event_management.Schema.{Db}
use event_management.Schema.Payments.{ConnectedAccount, Dispute, OrderStatus}
use event_management.Schema.Members.{MemberSubscription}
use event_management.Samples.{selling, order, account}
use event_management.Payments.Errors.{Error}
use event_management.Payments.Orders.{ObjectKind}
use event_management.Payments.Objects.{StatusText, BalanceTransaction, StripeObject}
use event_management.Payments.Accounts.{is_disconnected}
use event_management.Payments.Accounts.Failures.{
  record_failures, three_in_a_row, record_failures-three_in_a_row,
}
use event_management.Payments.Disputes.{apply_dispute}
use event_management.Payments.Disputes.Settled.{Settled, apply_dispute-Settled}
use event_management.Payments.Members.{MembershipRequest, start_member_subscription, new_membership}
use event_management.Payments.Members.Single.{
  IsSingle, Subscribed, start_member_subscription-Subscribed,
}
use event_management.Payments.Webhook.{
  ConnectEventType, Surroundings, ConnectEvent, ConnectWebhookEvent, ConnectStatus, Commerce,
  process_connect_event, connect_row,
}
use event_management.Payments.Orders.Status.{order_at}
use event_management.Payments.Webhook.Touches.{IsKeyed}
use event_management.Payments.Webhook.Inbox.{
  KeepsOrders, process_connect_event_again, process_connect_event-KeepsOrders,
}
use event_management.Payments.Accounts.{AccountAnswer}
use event_management.Payments.Reconcile.{Answers, reconcile_site_commerce, awaits_session}
use event_management.Payments.Reconcile.Sold.{StaysSold}
use event_management.Payments.Reconcile.Calls.{
  Reach, here, next, deliver, reconcile, Reach-StaysSold,
}
use event_management.Payments.Reconcile.Accounted.{IsCaughtUp, reconcile_site_commerce-IsCaughtUp}

abbrev object : StripeObject
object = record {
  kind = ObjectKind.other;
  id = 55;
  metadata_order_id = 0;
  metadata_refund_id = 0;
  metadata_member_subscription_id = 0;
  is_membership = false;
  is_paid = false;
  payment_intent = 90;
  has_null_intent = false;
  has_null_charge = false;
  latest_charge = 0;
  charge = 91;
  status = StatusText.won;
  failure_reason = 0;
  balance_transaction = BalanceTransaction.null;
  customer = 0;
  subscription = 0;
  details_subscription = 0;
  current_period_start = 0;
  current_period_end = 0;
  cancel_at_period_end = false;
  canceled_at = 0;
  amount = 1000;
  amount_due = 0;
  amount_paid = 0;
  paid_at = 0;
  due_by = 0;
  account = record {
    id = 70;
    country = 0;
    charges_enabled = true;
    payouts_enabled = true;
    details_submitted = true;
    currently_due = [];
    disabled_reason = 0;
  };
}

abbrev disputed_order : Db
disputed_order = record selling {
  orders = record order { stripe_payment_intent_id = 90; status = OrderStatus.refunded } ∷ [];
}

disputed_order-IsKeyed : IsKeyed disputed_order.orders
unfolding IsKeyed count_if
disputed_order-IsKeyed k = ground arith

abbrev settled : Option Dispute × Db
settled = returned (none, disputed_order) (apply_dispute object true 70 disputed_order)

apply_dispute-Settled_example :
    Settled object true
      (record order { stripe_payment_intent_id = 90; status = OrderStatus.refunded })
      disputed_order
      settled.1
unfolding apply_dispute find find_last
apply_dispute-Settled_example =
    apply_dispute-Settled object true 70
      (record order { stripe_payment_intent_id = 90; status = OrderStatus.refunded }) disputed_order
      settled.1 settled.0 disputed_order-IsKeyed refl refl refl

abbrev surroundings : Surroundings
surroundings = record { now = 100; codes = 1 ∷ 2 ∷ []; upper = λ c. c }

abbrev closing : ConnectEvent
closing = record { id = 77; type = ConnectEventType.dispute_closed; object = object; account = 70 }

abbrev commerce : Commerce
commerce = record { db = disputed_order; inbox = [] }

abbrev delivered : Result Error ConnectWebhookEvent × Commerce
delivered = process_connect_event surroundings closing commerce

process_connect_event_again_example :
    ((x : ConnectWebhookEvent)
      → delivered.0 ≡ ok x
      → process_connect_event surroundings closing delivered.1 ≡ (ok x, delivered.1))
    × ((raised : Error)
        → delivered.0 ≡ err raised
        → (delivered.1.db ≡ disputed_order)
          × ((x : ConnectWebhookEvent) × (connect_row 77 delivered.1 ≡ some x)
              × (x.status ≡ ConnectStatus.failed)))
process_connect_event_again_example =
    process_connect_event_again surroundings surroundings closing closing commerce delivered.1
      delivered.0 refl refl

process_connect_event-KeepsOrders_example :
    KeepsOrders 70 disputed_order.orders delivered.1.db.orders
process_connect_event-KeepsOrders_example =
    process_connect_event-KeepsOrders surroundings closing commerce disputed_order-IsKeyed

abbrev request : MembershipRequest
request = record {
  site_id = 7;
  plan_id = 12;
  first_name = 65 ∷ [];
  last_name = 66 ∷ [];
  email = 99 ∷ [];
  account_id = 70;
}

abbrev same_text : Text → Text
same_text s = s

selling-IsSingle : IsSingle selling.member_subscriptions
unfolding IsSingle count_if
selling-IsSingle j q = omega arith

abbrev joined : MemberSubscription × Db
joined =
    returned (new_membership 0 0 request, selling)
      (start_member_subscription same_text request selling)

start_member_subscription-Subscribed_example : Subscribed request joined.0 joined.1
unfolding start_member_subscription new_membership find find_last any text_eq
start_member_subscription-Subscribed_example =
    start_member_subscription-Subscribed same_text request selling joined.1 joined.0
      selling-IsSingle refl

record_failures-three_in_a_row_example :
    (d' : Db) × (record_failures 100 8 (true ∷ false ∷ true ∷ true ∷ true ∷ []) selling ≡ ok d')
    × (c' : ConnectedAccount) × (find (λ (c : ConnectedAccount). c.id == 8) d'.accounts ≡ some c')
    × (is_disconnected c'.status ≡ true)
unfolding three_in_a_row find
record_failures-three_in_a_row_example =
    record_failures-three_in_a_row 100 8 (true ∷ false ∷ true ∷ true ∷ true ∷ []) selling account
      refl refl

abbrev answers : Answers
answers = record {
  now = 100;
  upper = λ c. c;
  codes = λ id. 1 ∷ 2 ∷ [];
  account = AccountAnswer.refused true 5;
  session = λ id. some (record object { status = StatusText.expired });
  charge = λ id. none;
  subscription = λ id. none;
}

abbrev waiting : Db
waiting = record selling {
  orders =
      record order { status = OrderStatus.pending; stripe_checkout_session_id = 44 }
      ∷ record order { id = 16; stripe_charge_id = 45 }
      ∷ [];
}

waiting-IsKeyed : IsKeyed waiting.orders
unfolding IsKeyed count_if
waiting-IsKeyed k = ground arith

abbrev paying : Answers
paying = record answers { session = λ id. some (record object { is_paid = true }) }

reconcile_site_commerce-IsCaughtUp_example : IsCaughtUp 6 (reconcile_site_commerce paying 7 waiting)
unfolding find awaits_session order_at
reconcile_site_commerce-IsCaughtUp_example =
    reconcile_site_commerce-IsCaughtUp paying 7 6 account (record object { is_paid = true })
      (record order { status = OrderStatus.pending; stripe_checkout_session_id = 44 }) waiting
      waiting-IsKeyed refl refl refl refl refl refl refl

abbrev reconciled : Commerce
reconciled = record delivered.1 { db = (reconcile_site_commerce answers 7 delivered.1.db).1 }

deliver_then_reconcile : Reach commerce reconciled
deliver_then_reconcile =
    next (next here (deliver surroundings closing refl)) (reconcile answers 7 refl)

Reach-StaysSold_example : StaysSold disputed_order.orders reconciled.db.orders
Reach-StaysSold_example =
    Reach-StaysSold commerce reconciled disputed_order-IsKeyed deliver_then_reconcile
