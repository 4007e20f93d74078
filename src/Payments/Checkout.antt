-- ===== src/Payments/Checkout.antt =====
-- payments/services.py: `reserve_ticket_order`, which holds tickets for a registration that awaits
-- payment while the buyer is at the checkout.
pub mod Stock
use event_management.Base.{
  ℕ, ◌+◌, ◌*◌, Bool, true, false, ◌&&◌, ◌||◌, not, Option, none, some, List, [], ◌∷◌, ◌++◌, ltb,
  ◌==◌, is_some, length, find, find_last, Result, ok, err, raise_if, or_raise, ◌>>=◌, ◌>>◌,
}
use event_management.Schema.{Db}
use event_management.Schema.Events.{Registration, Participant, Occurrence, awaits_payment}
use event_management.Schema.Payments.{
  AccountStatus, ConnectedAccount, TicketType, Order, OrderLine, OrderStatus, Hold, HoldStatus,
  Transition, blank, of_order, is_pending,
}
use event_management.Payments.Errors.{
  Error, not_ready, not_awaiting_payment, no_participants, sales_closed, over_order_limit, sold_out,
  does_not_exist,
}
use event_management.Payments.Fees.{ticket_application_fee}
use event_management.Payments.Inventory.{sales_are_open, remaining, confirmed, other_holds}
use event_management.Payments.Orders.{fail_order, active_participants}

-- `CHECKOUT_HOLD_MINUTES`, in seconds
abbrev pub hold_seconds : ℕ
hold_seconds = 1800

abbrev pub is_ready : AccountStatus → Bool
is_ready AccountStatus.ready = true
is_ready _ = false

-- `ConnectedAccount.commerce_ready`
unfoldable pub commerce_ready : ConnectedAccount → Bool
commerce_ready a =
    is_ready a.status && a.charges_enabled && a.payouts_enabled && not (is_some a.disconnected_at)

unfoldable pub require_commerce_ready : ℕ → Db → Result Error ConnectedAccount
unfolding commerce_ready
require_commerce_ready site_id d = do
  a ← or_raise (find (λ (a : ConnectedAccount). a.site_id == site_id) d.accounts) not_ready
  raise_if (not (commerce_ready a)) not_ready
  ok a

abbrev pub expire_first : Option Order → Db → Result Error Db
expire_first none d = ok d
expire_first (some o) d = do (o', d') ← fail_order o.id 0 true d; ok d'

-- A pending order of the registration expires before the next one is made.
unfoldable pub supersede : ℕ → Db → Result Error Db
supersede registration_id d =
    expire_first
      (find_last (λ (o : Order). o.registration_id == registration_id && is_pending o.status)
        d.orders)
      d

-- `capacity_remaining < quantity`: with no capacity the remainder is the quantity itself, and with
-- one it is `capacity - confirmed - holds`, which may be negative in the source.
unfoldable pub lacks_places : Option ℕ → ℕ → ℕ → ℕ → Bool
lacks_places none taken holds quantity = false
lacks_places (some capacity) taken holds quantity = ltb capacity (taken + holds + quantity)

unfoldable pub new_order : ℕ → ℕ → ℕ → Registration → ConnectedAccount → ℕ → ℕ → Order
new_order id now bps r a total fee = record {
  id = id;
  site_id = r.site_id;
  occurrence_id = r.occurrence_id;
  registration_id = r.id;
  purchaser_id = r.contact_id;
  connected_account_id = a.stripe_account_id;
  subtotal_cents = total;
  total_cents = total;
  refunded_cents = 0;
  application_fee_bps = bps;
  application_fee_cents = fee;
  application_fee_refunded_cents = 0;
  status = OrderStatus.pending;
  stripe_checkout_session_id = 0;
  stripe_payment_intent_id = 0;
  stripe_charge_id = 0;
  stripe_balance_transaction_id = 0;
  stripe_fee_cents = none;
  stripe_net_cents = none;
  checkout_expires_at = some (now + hold_seconds);
  paid_at = none;
}

unfoldable pub new_line : ℕ → ℕ → TicketType → ℕ → OrderLine
new_line id order_id t quantity = record {
  id = id;
  order_id = order_id;
  ticket_type_id = t.id;
  unit_amount_cents = t.amount_cents;
  quantity = quantity;
  line_total_cents = t.amount_cents * quantity;
}

unfoldable pub new_hold : ℕ → ℕ → Registration → TicketType → ℕ → ℕ → Hold
new_hold id now r t order_id quantity = record {
  id = id;
  site_id = r.site_id;
  ticket_type_id = t.id;
  order_id = order_id;
  quantity = quantity;
  status = HoldStatus.held;
  expires_at = now + hold_seconds;
}

-- The four rows that the call creates.
unfoldable pub create_order :
    ℕ → ℕ → Registration → ConnectedAccount → TicketType → ℕ → Db → (Order × OrderLine) × Db
unfolding new_order new_line new_hold
create_order now bps r a t quantity d =
    let total = t.amount_cents * quantity in
    let order = new_order d.next_id now bps r a total (ticket_application_fee total bps) in
    let line = new_line (d.next_id + 1) order.id t quantity in
    let transition : Transition = record {
      id = d.next_id + 3;
      site_id = r.site_id;
      order_id = order.id;
      refund_id = none;
      previous_status = blank;
      new_status = of_order OrderStatus.pending;
      stripe_event_id = 0;
    } in
    (
      (order, line),
      record d {
        next_id = d.next_id + 4;
        orders = d.orders ++ order ∷ [];
        lines = d.lines ++ line ∷ [];
        holds = d.holds ++ new_hold (d.next_id + 2) now r t order.id quantity ∷ [];
        transitions = d.transitions ++ transition ∷ [];
      },
    )

-- `TicketType.objects.get(pk=…, occurrence=…, site=…)`
unfoldable pub ticket_type_for : ℕ → Registration → Db → Result Error TicketType
ticket_type_for ticket_type_id r d =
    or_raise
      (find
        (λ (t : TicketType).
          t.id == ticket_type_id && t.occurrence_id == r.occurrence_id && t.site_id == r.site_id)
        d.ticket_types)
      does_not_exist

-- There are not tickets, or places, for every participant.
unfoldable pub is_sold_out : ℕ → Registration → TicketType → Occurrence → ℕ → Db → Bool
unfolding lacks_places
is_sold_out now r t o quantity d =
    ltb (remaining d t now) quantity
    || lacks_places o.capacity (confirmed d r.occurrence_id) (other_holds d r.occurrence_id now)
        quantity

-- The call once the ticket type and the occurrence have been read.
unfoldable pub reserve_of_type :
    ℕ
    → ℕ
    → Registration
    → ConnectedAccount
    → TicketType
    → Occurrence
    → ℕ
    → Db
    → Result Error ((Order × OrderLine) × Db)
unfolding is_sold_out create_order
reserve_of_type now bps r a t o quantity d = do
  raise_if (not (sales_are_open t now)) sales_closed
  raise_if (ltb t.max_per_order quantity) over_order_limit
  raise_if (is_sold_out now r t o quantity d) sold_out
  ok (create_order now bps r a t quantity d)

-- The call from the moment when the superseded order has expired. The occurrence is a foreign key
-- of the registration, so that reading it does not fail.
unfoldable pub reserve :
    ℕ → ℕ → Registration → ConnectedAccount → ℕ → Db → Result Error ((Order × OrderLine) × Db)
unfolding ticket_type_for reserve_of_type
reserve now bps r a ticket_type_id d = do
  raise_if (ltb (length (active_participants d r.id)) 1) no_participants
  t ← ticket_type_for ticket_type_id r d
  o ← or_raise (find (λ (o : Occurrence). o.id == r.occurrence_id) d.occurrences) does_not_exist
  reserve_of_type now bps r a t o (length (active_participants d r.id)) d

-- `bps` is the setting `TICKET_APPLICATION_FEE_BPS`.
unfoldable pub reserve_ticket_order :
    ℕ → ℕ → ℕ → ℕ → ℕ → Db → Result Error ((Order × OrderLine) × Db)
unfolding require_commerce_ready supersede reserve
reserve_ticket_order now bps site_id registration_id ticket_type_id d = do
  a ← require_commerce_ready site_id d
  r ← or_raise (find (λ (r : Registration). r.id == registration_id) d.registrations) does_not_exist
  raise_if (not (awaits_payment r.payment_status)) not_awaiting_payment
  d' ← supersede r.id d
  reserve now bps r a ticket_type_id d'
