-- ===== src/Payments/Examples.antt =====
-- Examples of the theorems on payments/fees.py and payments/services.py.
use event_management.Base.{
  ◌+◌, ◌≡◌, refl, none, [], ◌∷◌, ok, returned, find, find_last, any, count_if, sum_if, select,
  update_if, some, Option,
}
use event_management.Schema.{Db}
use event_management.Schema.Payments.{Order, OrderLine, Refund, TicketType}
use event_management.Payments.Fees.{proportional_fee_refund}
use event_management.Payments.Inventory.{remaining, sales_are_open, confirmed, other_holds}
use event_management.Payments.Orders.{mark_order_paid, draw_code, issue_tickets, paid_order}
use event_management.Payments.Orders.Status.{order_at}
use event_management.Payments.Orders.Paid.{Paid, mark_order_paid-Paid}
use event_management.Payments.Checkout.{reserve_ticket_order, ticket_type_for}
use event_management.Payments.Checkout.Stock.{InStock, reserve_ticket_order-InStock}
use event_management.Payments.Refunds.{
  prepare_refund, RefundObject, ProviderRefundStatus, apply_refund_object, refund_for,
}
use event_management.Payments.Refunds.Ledger.{
  Booked, apply_refund_object-Booked, stale_report_recounts,
}
use event_management.Samples.{registration, order, line, refund, selling, paid_up, at_checkout}

abbrev reserved : (Order × OrderLine) × Db
reserved = returned ((order, line), selling) (reserve_ticket_order 100 250 7 4 9 selling)

reserve_ticket_order-InStock_example :
    (t : TicketType) × (ticket_type_for 9 registration selling ≡ ok t) × InStock 100 t reserved.1
unfolding reserve_ticket_order find find_last any count_if sum_if select update_if remaining
    sales_are_open confirmed other_holds
reserve_ticket_order-InStock_example =
    reserve_ticket_order-InStock 100 250 7 4 9 selling reserved.1 reserved.0 registration tt refl
      refl

abbrev settled : Order × Db
settled = returned (order, at_checkout) (mark_order_paid 100 (77 ∷ []) 6 none 5 at_checkout)

mark_order_paid-Paid_example : Paid 6 at_checkout settled
unfolding mark_order_paid find any select update_if issue_tickets draw_code paid_order
mark_order_paid-Paid_example = mark_order_paid-Paid 6 100 5 (77 ∷ []) none at_checkout settled refl

abbrev asked : Refund × Db
asked = returned (refund, paid_up) (prepare_refund 6 400 none paid_up)

abbrev reports : ProviderRefundStatus → RefundObject
reports s = record { id = 12; refund_id = 3; status = s; failure_reason = 0 }

abbrev booked : Option Refund × Db
booked =
    returned (none, paid_up)
      (apply_refund_object 200 (reports ProviderRefundStatus.succeeded) 1 70 paid_up)

apply_refund_object-Booked_example :
    Booked 200 1 (reports ProviderRefundStatus.succeeded) refund paid_up booked.1
unfolding apply_refund_object find update_if proportional_fee_refund
apply_refund_object-Booked_example =
    apply_refund_object-Booked 200 1 70 (reports ProviderRefundStatus.succeeded) refund paid_up
      booked refl refl

-- The report of the success of the refund that was asked for.
abbrev granted : RefundObject
granted = record {
  id = 12;
  refund_id = asked.0.id;
  status = ProviderRefundStatus.succeeded;
  failure_reason = 0;
}

abbrev returned_once : Option Refund × Db
returned_once = returned (none, paid_up) (apply_refund_object 200 granted 1 70 asked.1)

abbrev row : Option Refund → Refund
row none = refund
row (some f) = f

abbrev again : Option Refund × Db
again =
    returned (none, paid_up)
      (apply_refund_object 300 (reports ProviderRefundStatus.pending) 2 70 booked.1)

abbrev twice : Option Refund × Db
twice =
    returned (none, paid_up)
      (apply_refund_object 400 (reports ProviderRefundStatus.succeeded) 3 70 again.1)

stale_report_recounts_example :
    (o' : Order) × (order_at 6 twice.1.orders ≡ some o') × (o'.refunded_cents ≡ 0 + 400 + 400)
unfolding apply_refund_object refund_for find update_if proportional_fee_refund order_at
stale_report_recounts_example =
    stale_report_recounts 200 300 400 1 2 3 70 (reports ProviderRefundStatus.succeeded)
      (reports ProviderRefundStatus.pending) (reports ProviderRefundStatus.succeeded) refund
      (row booked.0) (row again.0) (row twice.0) order paid_up booked.1 again.1 twice.1 refl refl
      refl refl refl refl refl refl refl refl refl
