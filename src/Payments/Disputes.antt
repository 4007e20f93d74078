-- ===== src/Payments/Disputes.antt =====
-- payments/services.py: charges and disputes, as Stripe reports them.
pub mod Settled
use event_management.Base.{
  ℕ, ◌+◌, ◌-◌, Bool, true, false, ◌&&◌, ◌||◌, not, Option, none, some, List, [], ◌∷◌, ◌++◌, ◌==◌,
  if◌then◌else◌, find, find_last, sum_if, update_if, Result, ok, err, raise_if, ◌>>=◌, ◌>>◌,
}
use event_management.Schema.{Db}
use event_management.Schema.Payments.{Order, OrderStatus, Dispute, DisputeStatus}
use event_management.Payments.Errors.{Error, account_mismatch}
use event_management.Payments.Orders.{get_order, save_order, record_order_transition, or_id}
use event_management.Payments.Refunds.{is_foreign}
use event_management.Payments.Objects.{
  BalanceTransaction, named, expanded, null, StripeObject, FeeDetail, order_from_object,
  dispute_status, as_datetime,
}

-- The columns of the balance transaction; Stripe's fee is what is left without the platform's.
unfoldable pub with_balance : BalanceTransaction → Order → Order
with_balance (named id) o = record o { stripe_balance_transaction_id = id }
with_balance (expanded id fee details net) o = record o {
  stripe_balance_transaction_id = id;
  stripe_fee_cents = some (
      fee - sum_if (λ (x : FeeDetail). x.is_application_fee) (λ (x : FeeDetail). x.amount) details);
  stripe_net_cents = net;
}
with_balance null o = o

unfoldable pub charged : StripeObject → Order → Order
unfolding with_balance
charged s o =
    with_balance s.balance_transaction
      (record o { stripe_charge_id = or_id s.id o.stripe_charge_id })

unfoldable pub charge_found :
    StripeObject → ℕ → Option Order → Db → Result Error (Option Order × Db)
unfolding charged get_order
charge_found s account_id none d = ok (none, d)
charge_found s account_id (some found) d = do
  raise_if (is_foreign account_id found) account_mismatch
  o ← get_order d found.id
  ok (some (charged s o), save_order (charged s o) d)

unfoldable pub apply_charge : StripeObject → ℕ → Db → Result Error (Option Order × Db)
unfolding charge_found
apply_charge s account_id d = charge_found s account_id (order_from_object s d) d

-- `Q(stripe_payment_intent_id=…) | Q(stripe_charge_id=…)`; a key that is null matches no
-- row, a blank one every order whose column is blank.
abbrev pub is_disputed_by : StripeObject → Order → Bool
is_disputed_by s o =
    (not s.has_null_intent && o.stripe_payment_intent_id == s.payment_intent)
    || (not s.has_null_charge && o.stripe_charge_id == s.charge)

unfoldable pub new_dispute : ℕ → StripeObject → Order → Dispute
new_dispute id s o = record {
  id = id;
  site_id = o.site_id;
  order_id = o.id;
  stripe_dispute_id = s.id;
  amount_cents = s.amount;
  status = dispute_status s.status;
  due_by = as_datetime s.due_by;
}

-- The row with these values, under the id that it has.
unfoldable pub store_dispute : StripeObject → Order → Option Dispute → Db → Dispute × Db
unfolding new_dispute
store_dispute s o none d = (
  new_dispute d.next_id s o,
  record d { next_id = d.next_id + 1; disputes = d.disputes ++ new_dispute d.next_id s o ∷ [] },
)
store_dispute s o (some x) d = (
  new_dispute x.id s o,
  record d {
    disputes = update_if (λ (y : Dispute). y.id == x.id) (λ y. new_dispute x.id s o) d.disputes;
  },
)

-- `Dispute.objects.update_or_create(…)`
unfoldable pub update_or_create_dispute : StripeObject → Order → Db → Dispute × Db
unfolding store_dispute
update_or_create_dispute s o d =
    store_dispute s o (find (λ (x : Dispute). x.stripe_dispute_id == s.id) d.disputes) d

-- `RESOLVED_WITHOUT_CHARGEBACK_DISPUTE_STATUSES`
abbrev pub is_resolved : DisputeStatus → Bool
is_resolved DisputeStatus.won = true
is_resolved DisputeStatus.warning_closed = true
is_resolved DisputeStatus.other_status = false

unfoldable pub disputed : Bool → Dispute → Order → Order
disputed closed x o = record o {
  status = if closed && is_resolved x.status then OrderStatus.paid else OrderStatus.disputed;
}

-- The call on the order that it has read; `closed` says that the event closes the dispute.
unfoldable pub dispute_order : StripeObject → Bool → Order → Db → Dispute × Db
unfolding update_or_create_dispute disputed save_order record_order_transition
dispute_order s closed o d =
    let (x, d') = update_or_create_dispute s o d in
    (
      x,
      record_order_transition o.status (disputed closed x o) 0
          (save_order (disputed closed x o) d'),
    )

unfoldable pub dispute_found :
    StripeObject → Bool → ℕ → Option Order → Db → Result Error (Option Dispute × Db)
unfolding dispute_order
dispute_found s closed account_id none d = ok (none, d)
dispute_found s closed account_id (some o) d = do
  raise_if (is_foreign account_id o) account_mismatch
  let r = dispute_order s closed o d
  ok (some r.0, r.1)

unfoldable pub apply_dispute : StripeObject → Bool → ℕ → Db → Result Error (Option Dispute × Db)
unfolding dispute_found
apply_dispute s closed account_id d =
    if s.payment_intent == 0 && s.charge == 0
    then ok (none, d)
    else dispute_found s closed account_id (find_last (is_disputed_by s) d.orders) d
