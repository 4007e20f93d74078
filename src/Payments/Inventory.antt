-- ===== src/Payments/Inventory.antt =====
-- payments/services.py and payments/models.py: what of a ticket type is sold, held and on sale.
use event_management.Base.{
  ℕ, ◌-◌, Bool, true, ◌&&◌, Option, none, some, List, ltb, leb, ◌==◌, any, count_if, sum_if,
}
use event_management.Schema.{Db}
use event_management.Schema.Events.{Registration, Participant, is_active, is_settled}
use event_management.Schema.Payments.{TicketType, Order, OrderLine, Hold, is_sold, is_held}

-- `not start or start <= now`, and `not end or end > now`
abbrev pub started : Option ℕ → ℕ → Bool
started none now = true
started (some start) now = leb start now

abbrev pub not_ended : Option ℕ → ℕ → Bool
not_ended none now = true
not_ended (some end) now = ltb now end

-- `TicketType.sales_are_open`
unfoldable pub sales_are_open : TicketType → ℕ → Bool
sales_are_open t now = t.is_active && started t.sales_start_at now && not_ended t.sales_end_at now

-- The order of a line, if it is sold.
unfoldable pub is_sold_order : ℕ → Order → Bool
is_sold_order order_id o = o.id == order_id && is_sold o.status

unfoldable pub is_sold_line : List Order → ℕ → OrderLine → Bool
unfolding is_sold_order
is_sold_line orders ticket_type_id l =
    l.ticket_type_id == ticket_type_id && any (is_sold_order l.order_id) orders

unfoldable pub sold : Db → ℕ → ℕ
unfolding is_sold_line
sold d ticket_type_id =
    sum_if (is_sold_line d.orders ticket_type_id) (λ (l : OrderLine). l.quantity) d.lines

-- Held for an order, and not yet expired.
abbrev pub is_live : ℕ → Hold → Bool
is_live now h = is_held h.status && ltb now h.expires_at

unfoldable pub held : Db → ℕ → ℕ → ℕ
held d ticket_type_id now =
    sum_if (λ (h : Hold). h.ticket_type_id == ticket_type_id && is_live now h)
      (λ (h : Hold). h.quantity) d.holds

-- `ticket_inventory(…)["remaining"]`; the subtraction stops at 0, as `max(0, …)` does.
unfoldable pub remaining : Db → TicketType → ℕ → ℕ
unfolding sold held
remaining d t now = t.quantity - sold d t.id - held d t.id now

-- The participants of an occurrence that need no payment or have paid.
unfoldable pub is_confirmed : List Registration → ℕ → Participant → Bool
is_confirmed registrations occurrence_id p =
    is_active p.status
    && any
        (λ (r : Registration).
          r.id == p.registration_id
          && r.occurrence_id == occurrence_id
          && is_settled r.payment_status)
        registrations

unfoldable pub confirmed : Db → ℕ → ℕ
unfolding is_confirmed
confirmed d occurrence_id = count_if (is_confirmed d.registrations occurrence_id) d.participants

-- A live hold on a ticket type of the occurrence.
unfoldable pub holds_place : List TicketType → ℕ → ℕ → Hold → Bool
holds_place ticket_types occurrence_id now h =
    any (λ (t : TicketType). t.id == h.ticket_type_id && t.occurrence_id == occurrence_id)
      ticket_types
    && is_live now h

unfoldable pub other_holds : Db → ℕ → ℕ → ℕ
unfolding holds_place
other_holds d occurrence_id now =
    sum_if (holds_place d.ticket_types occurrence_id now) (λ (h : Hold). h.quantity) d.holds
