-- ===== src/Payments/Refunds.antt =====
-- payments/services.py: refunds, disputes and charges, as the operator and Stripe report them.
pub mod Ledger
use event_management.Base.{
  ℕ, ◌+◌, ◌-◌, ◌≤◌, Bool, true, false, ◌&&◌, ◌||◌, not, Option, none, some, List, [], ◌∷◌, ◌++◌,
  ltb, leb, ◌==◌, if◌then◌else◌, find, any, update_if, Result, ok, err, raise_if, or_raise, ◌>>=◌,
  ◌>>◌,
}
use event_management.Schema.{Db}
use event_management.Schema.Events.{Registration, PaymentStatus}
use event_management.Schema.Payments.{
  ℤ, Order, OrderLine, OrderStatus, Ticket, TicketStatus, Refund, RefundStatus, Dispute,
  DisputeStatus, RecordedStatus, Transition, blank, of_order, of_refund, is_refundable,
  has_succeeded, same_refund_status,
}
use event_management.Payments.Errors.{
  Error, not_refundable, amount_out_of_range, account_mismatch, does_not_exist,
}
use event_management.Payments.Fees.{proportional_fee_refund}
use event_management.Payments.Orders.{
  get_order, save_order, record_order_transition, or_id, pay_registration,
}

-- `FinancialTransition.objects.create(…)` for a refund
unfoldable pub record_refund_transition : RecordedStatus → Refund → ℕ → Db → Db
record_refund_transition previous f event_id d = record d {
  next_id = d.next_id + 1;
  transitions =
      d.transitions
      ++ record {
        id = d.next_id;
        site_id = f.site_id;
        order_id = f.order_id;
        refund_id = some f.id;
        previous_status = previous;
        new_status = of_refund f.status;
        stripe_event_id = event_id;
      }
        ∷ [];
}

unfoldable pub new_refund : ℕ → ℕ → Option ℕ → Order → Refund
new_refund id amount_cents actor o = record {
  id = id;
  site_id = o.site_id;
  order_id = o.id;
  amount_cents = amount_cents;
  status = RefundStatus.pending;
  stripe_refund_id = 0;
  created_by = actor;
  succeeded_at = none;
  failure_reason = 0;
}

-- The balance is `total - refunded`, which the source may take below 0.
unfoldable pub prepare_refund : ℕ → ℕ → Option ℕ → Db → Result Error (Refund × Db)
unfolding get_order new_refund record_refund_transition
prepare_refund order_id amount_cents actor d = do
  o ← get_order d order_id
  raise_if (not (is_refundable o.status)) not_refundable
  raise_if (ltb amount_cents 1 || ltb o.total_cents (amount_cents + o.refunded_cents))
      amount_out_of_range
  let f = new_refund d.next_id amount_cents actor o
  let d' = record d { next_id = d.next_id + 1; refunds = d.refunds ++ f ∷ [] }
  ok (f, record_refund_transition blank f 0 d')

-- The `status` key of Stripe's refund; `unknown` is any that the code does not map.
pub data ProviderRefundStatus : Type 0 where
  succeeded pending failed canceled unknown : ProviderRefundStatus

-- The keys of Stripe's refund that the code reads.
pub record RefundObject : Type 0 where
  pub id : ℕ
  pub refund_id : ℕ
  pub status : ProviderRefundStatus
  pub failure_reason : ℕ

-- `status_map.get(provider_status, refund.status)`
unfoldable pub mapped_status : ProviderRefundStatus → RefundStatus → RefundStatus
mapped_status succeeded s = RefundStatus.succeeded
mapped_status pending s = RefundStatus.pending
mapped_status failed s = RefundStatus.failed
mapped_status canceled s = RefundStatus.canceled
mapped_status unknown s = s

abbrev pub or_find : Option Refund → Option Refund → Option Refund
or_find none g = g
or_find (some f) g = some f

-- By the id in the metadata, else by Stripe's own.
unfoldable pub refund_for : RefundObject → Db → Option Refund
refund_for s d =
    or_find
      (if s.refund_id == 0 then none else find (λ (f : Refund). f.id == s.refund_id) d.refunds)
      (find (λ (f : Refund). not (s.id == 0) && f.stripe_refund_id == s.id) d.refunds)

-- The refund with what the object reports.
unfoldable pub updated_refund : RefundObject → Refund → Refund
unfolding mapped_status
updated_refund s f = record f {
  status = mapped_status s.status f.status;
  stripe_refund_id = or_id s.id f.stripe_refund_id;
  failure_reason = s.failure_reason;
}

-- The order with one more refund that has succeeded.
unfoldable pub refunded_order : ℕ → Order → Order
refunded_order amount_cents o =
    let refunded = o.refunded_cents + amount_cents in
    record o {
      refunded_cents = refunded;
      application_fee_refunded_cents =
          proportional_fee_refund o.application_fee_cents refunded o.total_cents;
      status =
          if leb o.total_cents refunded
          then OrderStatus.refunded
          else OrderStatus.partially_refunded;
    }

-- `Ticket.objects.filter(order_line__order=order).update(status=REFUNDED)`
abbrev pub refund_tickets : ℕ → Db → Db
refund_tickets order_id d = record d {
  tickets =
      update_if
        (λ (t : Ticket).
          any (λ (l : OrderLine). l.id == t.order_line_id && l.order_id == order_id) d.lines)
        (λ t. record t { status = TicketStatus.refunded }) d.tickets;
}

-- What a refund's success does to the order, its tickets and its registration.
unfoldable pub apply_success : Refund → Order → Db → Db
unfolding refunded_order save_order
apply_success f o d =
    let o' = refunded_order f.amount_cents o in
    let d' = save_order o' d in
    if leb o'.total_cents o'.refunded_cents
    then pay_registration o.registration_id PaymentStatus.refunded (refund_tickets o.id d')
    else d'

abbrev pub stamp : ℕ → Refund → Refund
stamp now f = record f { succeeded_at = some now }

-- `refund.save()`
unfoldable pub save_refund : Refund → Db → Db
save_refund f d = record d { refunds = update_if (λ (x : Refund). x.id == f.id) (λ x. f) d.refunds }

-- The call on the refund and the order that it has read.
unfoldable pub apply_to : ℕ → RefundObject → ℕ → Refund → Order → Db → Refund × Db
unfolding updated_refund apply_success save_refund record_refund_transition
apply_to now s event_id f o d =
    let f' = updated_refund s f in
    let news = has_succeeded f'.status && not (has_succeeded f.status) in
    let f'' = if news then stamp now f' else f' in
    let d' = save_refund f'' (if news then apply_success f'' o d else d) in
    (
      f'',
      if same_refund_status f.status f''.status
          then d'
          else record_refund_transition (of_refund f.status) f'' event_id d',
    )

abbrev pub is_foreign : ℕ → Order → Bool
is_foreign account_id o = not (account_id == 0) && not (o.connected_account_id == account_id)

unfoldable pub apply_found :
    ℕ → RefundObject → ℕ → ℕ → Option Refund → Db → Result Error (Option Refund × Db)
unfolding get_order apply_to
apply_found now s event_id account_id none d = ok (none, d)
apply_found now s event_id account_id (some f) d = do
  o ← get_order d f.order_id
  raise_if (is_foreign account_id o) account_mismatch
  let r = apply_to now s event_id f o d
  ok (some r.0, r.1)

unfoldable pub apply_refund_object :
    ℕ → RefundObject → ℕ → ℕ → Db → Result Error (Option Refund × Db)
unfolding refund_for apply_found
apply_refund_object now s event_id account_id d =
    apply_found now s event_id account_id (refund_for s d) d
