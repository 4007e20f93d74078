-- ===== src/Payments/Orders.antt =====
-- payments/services.py: an order fails, expires or is paid, and its tickets are issued.
pub mod Status
pub mod Paid
use event_management.Base.{
  ℕ, ◌+◌, Bool, true, false, ◌&&◌, not, Option, none, some, List, [], ◌∷◌, ◌++◌, leb, ◌==◌,
  if◌then◌else◌, or_else, find, any, select, update_if, Result, ok, err, or_raise, ◌>>=◌,
}
use event_management.Schema.{Db}
use event_management.Schema.Events.{Registration, Participant, PaymentStatus, is_active}
use event_management.Schema.Payments.{
  Order, OrderLine, OrderStatus, Hold, HoldStatus, Ticket, TicketStatus, Transition, of_order,
  is_pending, is_sold, is_held,
}
use event_management.Payments.Errors.{Error, does_not_exist, draws_exhausted}

unfoldable pub get_order : Db → ℕ → Result Error Order
get_order d order_id = or_raise (find (λ (o : Order). o.id == order_id) d.orders) does_not_exist

-- `order.save()`
unfoldable pub save_order : Order → Db → Db
save_order o d = record d { orders = update_if (λ (x : Order). x.id == o.id) (λ x. o) d.orders }

-- `FinancialTransition.objects.create(…)` for an order
unfoldable pub record_order_transition : OrderStatus → Order → ℕ → Db → Db
record_order_transition previous o event_id d = record d {
  next_id = d.next_id + 1;
  transitions =
      d.transitions
      ++ record {
        id = d.next_id;
        site_id = o.site_id;
        order_id = o.id;
        refund_id = none;
        previous_status = of_order previous;
        new_status = of_order o.status;
        stripe_event_id = event_id;
      }
        ∷ [];
}

abbrev pub release : Hold → Hold
release h = record h { status = HoldStatus.released }

abbrev pub convert : Hold → Hold
convert h = record h { status = HoldStatus.converted }

-- What `fail_order` does to an order that it has read.
unfoldable pub fail : Order → ℕ → Bool → Db → Order × Db
unfolding save_order record_order_transition
fail o event_id expired d =
    if not (is_pending o.status)
    then (o, d)
    else let o' = record o {
      status = if expired then OrderStatus.expired else OrderStatus.failed;
    } in
      let d' = save_order o' d in
      let d'' = record d' {
        holds = update_if (λ (h : Hold). h.order_id == o.id && is_held h.status) release d'.holds;
      } in
      (o', record_order_transition o.status o' event_id d'')

unfoldable pub fail_order : ℕ → ℕ → Bool → Db → Result Error (Order × Db)
unfolding get_order fail
fail_order order_id event_id expired d = do o ← get_order d order_id; ok (fail o event_id expired d)

-- The loop of `release_expired_holds` over the ids that it has read.
unfoldable pub expire_all : List ℕ → Db → Result Error Db
expire_all [] d = ok d
expire_all (k ∷ ks) d = do (o, d') ← fail_order k 0 true d; expire_all ks d'

abbrev pub order_ids : List Hold → List ℕ
order_ids [] = []
order_ids (h ∷ hs) = h.order_id ∷ order_ids hs

unfoldable pub release_expired_holds : ℕ → Db → Result Error Db
unfolding expire_all
release_expired_holds now d =
    expire_all (order_ids (select (λ (h : Hold). is_held h.status && leb h.expires_at now) d.holds))
      d

-- The kind of a Stripe object, from its `object` key.
pub data ObjectKind : Type 0 where
  checkout_session payment_intent charge subscription other : ObjectKind

-- The keys of a Stripe object that a payment reads, 0 for one that is missing, null or blank.
pub record PaymentObject : Type 0 where
  pub kind : ObjectKind
  pub id : ℕ
  pub payment_intent : ℕ
  pub latest_charge : ℕ

abbrev pub is_session : ObjectKind → Bool
is_session checkout_session = true
is_session _ = false

abbrev pub is_intent : ObjectKind → Bool
is_intent payment_intent = true
is_intent _ = false

-- `x or y` on identifiers
abbrev pub or_id : ℕ → ℕ → ℕ
or_id x y = if x == 0 then y else x

-- The payment intent that an object names.
abbrev pub intent_of : PaymentObject → ℕ
intent_of s = if is_intent s.kind then s.id else s.payment_intent

-- An order that is sold takes only the identifiers that it lacks.
unfoldable pub complete_ids : Option PaymentObject → Order → Order
complete_ids none o = o
complete_ids (some s) o = record o {
  stripe_checkout_session_id =
      if is_session s.kind && o.stripe_checkout_session_id == 0
      then s.id
      else o.stripe_checkout_session_id;
  stripe_payment_intent_id = or_id o.stripe_payment_intent_id (intent_of s);
}

-- The order's columns after a payment.
unfoldable pub paid_order : ℕ → Option PaymentObject → Order → Order
paid_order now none o = record o {
  status = OrderStatus.paid;
  paid_at = some (or_else o.paid_at now);
}
paid_order now (some s) o = record o {
  stripe_payment_intent_id = or_id (intent_of s) o.stripe_payment_intent_id;
  stripe_checkout_session_id = if is_session s.kind then s.id else o.stripe_checkout_session_id;
  stripe_charge_id = or_id s.latest_charge o.stripe_charge_id;
  status = OrderStatus.paid;
  paid_at = some (or_else o.paid_at now);
}

abbrev pub has_code : ℕ → Ticket → Bool
has_code code t = t.display_code == code

abbrev pub is_for : ℕ → Ticket → Bool
is_for participant_id t = t.participant_id == participant_id

-- `while Ticket.objects.filter(display_code=code).exists(): code = _ticket_code()` over the codes
-- that will be drawn: the first that is not in use, and those behind it.
unfoldable pub draw_code : List ℕ → List Ticket → Option (ℕ × List ℕ)
draw_code [] tickets = none
draw_code (code ∷ codes) tickets =
    if any (has_code code) tickets then draw_code codes tickets else some (code, codes)

-- The loop over the active participants. It returns the tickets and the next id.
unfoldable pub issue_tickets :
    ℕ → ℕ → List Participant → List ℕ → ℕ → List Ticket → Option (ℕ × List Ticket)
issue_tickets site_id line_id [] codes id tickets = some (id, tickets)
issue_tickets site_id line_id (p ∷ ps) codes id tickets = elim (any (is_for p.id) tickets) [
  | true ↦ issue_tickets site_id line_id ps codes id tickets
  | false ↦ elim (draw_code codes tickets) [
    | none ↦ none
    | some (code, rest) ↦ issue_tickets site_id line_id ps rest (id + 1) (
        tickets
        ++ record {
          id = id;
          site_id = site_id;
          order_line_id = line_id;
          participant_id = p.id;
          display_code = code;
          status = TicketStatus.valid;
        }
          ∷ [])
  ]
]

abbrev pub set_payment : PaymentStatus → Registration → Registration
set_payment s r = record r { payment_status = s }

abbrev pub pay_registration : ℕ → PaymentStatus → Db → Db
pay_registration registration_id s d = record d {
  registrations =
      update_if (λ (r : Registration). r.id == registration_id) (set_payment s) d.registrations;
}

-- `registration.participants.filter(status=ACTIVE)`
abbrev pub active_participants : Db → ℕ → List Participant
active_participants d registration_id =
    select (λ (p : Participant). p.registration_id == registration_id && is_active p.status)
      d.participants

-- `mark_order_paid` on an order that is not sold yet, which has a line from its creation on; `codes` are the ticket codes to be drawn.
unfoldable pub settle :
    ℕ → List ℕ → Order → Option PaymentObject → ℕ → Db → Result Error (Order × Db)
unfolding save_order record_order_transition
settle now codes o object event_id d =
    let o' = paid_order now object o in
    let d1 = save_order o' d in
    let d2 = record d1 { holds = update_if (λ (h : Hold). h.order_id == o.id) convert d1.holds } in
    let d3 = pay_registration o.registration_id PaymentStatus.paid d2 in
    do
      line ← or_raise (find (λ (l : OrderLine). l.order_id == o.id) d3.lines) does_not_exist
      (id, tickets) ←
          or_raise
            (issue_tickets o.site_id line.id (active_participants d3 o.registration_id) codes
              d3.next_id d3.tickets)
            draws_exhausted
      ok (
        o',
        record_order_transition o.status o' event_id
            (record d3 { next_id = id; tickets = tickets }),
      )

-- `mark_order_paid` once the order has been read.
unfoldable pub pay_read :
    ℕ → List ℕ → Order → Option PaymentObject → ℕ → Db → Result Error (Order × Db)
unfolding settle
pay_read now codes o object event_id d =
    if is_sold o.status
    then ok (complete_ids object o, save_order (complete_ids object o) d)
    else settle now codes o object event_id d

unfoldable pub mark_order_paid :
    ℕ → List ℕ → ℕ → Option PaymentObject → ℕ → Db → Result Error (Order × Db)
unfolding get_order pay_read
mark_order_paid now codes order_id object event_id d = do
  o ← get_order d order_id
  pay_read now codes o object event_id d
