-- ===== src/Payments/Objects.antt =====
-- payments/services.py: the Stripe objects that events carry, with the keys that the code reads. An
-- identifier, a time or an amount that is missing, null or blank is 0.
use event_management.Base.{
  ℕ, Bool, Option, none, some, List, find, ◌==◌, if◌then◌else◌, ◌||◌, ◌&&◌, not, find_last,
}
use event_management.Schema.{Db}
use event_management.Schema.Payments.{ℤ, Order, DisputeStatus}
use event_management.Payments.Orders.{ObjectKind, PaymentObject}
use event_management.Payments.Refunds.{RefundObject, ProviderRefundStatus}

-- The texts of the key `status` that the code knows, any other, and no such key.
pub data StatusText : Type 0 where
  succeeded pending failed canceled : StatusText
  incomplete incomplete_expired trialing active past_due unpaid paused : StatusText
  expired won warning_closed unknown missing : StatusText

pub record FeeDetail : Type 0 where
  pub is_application_fee : Bool
  pub amount : ℕ

-- The key `balance_transaction`: a text, blank if there is no such key, an object, or null.
pub data BalanceTransaction : Type 0 where
  named : ℕ → BalanceTransaction
  expanded : ℕ → ℕ → List FeeDetail → Option ℤ → BalanceTransaction
  null : BalanceTransaction

-- What an account says of itself.
pub record AccountObject : Type 0 where
  pub id : ℕ
  pub country : ℕ
  pub charges_enabled : Bool
  pub payouts_enabled : Bool
  pub details_submitted : Bool
  pub currently_due : List ℕ
  pub disabled_reason : ℕ

-- `has_null_…` say that a key is there and null, which no row of a query matches, while a blank one
-- matches the rows that are blank. `metadata_…` are the keys of `metadata`; `account` has those of an account.
pub record StripeObject : Type 0 where
  pub kind : ObjectKind
  pub id : ℕ
  pub metadata_order_id : ℕ
  pub metadata_refund_id : ℕ
  pub metadata_member_subscription_id : ℕ
  pub is_membership : Bool
  pub is_paid : Bool
  pub payment_intent : ℕ
  pub latest_charge : ℕ
  pub charge : ℕ
  pub has_null_intent : Bool
  pub has_null_charge : Bool
  pub status : StatusText
  pub failure_reason : ℕ
  pub balance_transaction : BalanceTransaction
  pub customer : ℕ
  pub subscription : ℕ
  pub details_subscription : ℕ
  pub current_period_start : ℕ
  pub current_period_end : ℕ
  pub cancel_at_period_end : Bool
  pub canceled_at : ℕ
  pub amount : ℕ
  pub amount_due : ℕ
  pub amount_paid : ℕ
  pub paid_at : ℕ
  pub due_by : ℕ
  pub account : AccountObject

abbrev pub as_payment : StripeObject → PaymentObject
as_payment s = record {
  kind = s.kind;
  id = s.id;
  payment_intent = s.payment_intent;
  latest_charge = s.latest_charge;
}

-- `_value(stripe_refund, "status", "pending")`
abbrev pub refund_status : StatusText → ProviderRefundStatus
refund_status succeeded = ProviderRefundStatus.succeeded
refund_status pending = ProviderRefundStatus.pending
refund_status failed = ProviderRefundStatus.failed
refund_status canceled = ProviderRefundStatus.canceled
refund_status missing = ProviderRefundStatus.pending
refund_status _ = ProviderRefundStatus.unknown

abbrev pub as_refund : StripeObject → RefundObject
as_refund s = record {
  id = s.id;
  refund_id = s.metadata_refund_id;
  status = refund_status s.status;
  failure_reason = s.failure_reason;
}

abbrev pub dispute_status : StatusText → DisputeStatus
dispute_status won = DisputeStatus.won
dispute_status warning_closed = DisputeStatus.warning_closed
dispute_status _ = DisputeStatus.other_status

-- `_as_datetime`
unfoldable pub as_datetime : ℕ → Option ℕ
as_datetime value = if value == 0 then none else some value

-- The order that names the charge or, if the charge names one, its payment intent.
abbrev pub is_charged : StripeObject → Order → Bool
is_charged s o =
    o.stripe_charge_id == s.id
    || (not (s.payment_intent == 0) && o.stripe_payment_intent_id == s.payment_intent)

-- The queries on the kind of the object; the newest order comes first.
unfoldable pub order_of_kind : ObjectKind → StripeObject → List Order → Option Order
order_of_kind ObjectKind.checkout_session s = find_last (λ o. o.stripe_checkout_session_id == s.id)
order_of_kind ObjectKind.payment_intent s = find_last (λ o. o.stripe_payment_intent_id == s.id)
order_of_kind ObjectKind.charge s = find_last (is_charged s)
order_of_kind _ s = λ orders. none

unfoldable pub order_from_object : StripeObject → Db → Option Order
unfolding order_of_kind
order_from_object s d =
    if s.metadata_order_id == 0
    then order_of_kind s.kind s d.orders
    else find (λ (o : Order). o.id == s.metadata_order_id) d.orders
