-- ===== src/Payments/Checkout/Stock.antt =====
-- A reservation sells no ticket twice, and no place twice.
use event_management.Base.{
  ℕ, ◌+◌, ◌≤◌, ◌<◌, ◌≡◌, refl, sym, ap, ◌∙◌, subst, Bool, true, false, ◌&&◌, ◌||◌, Option, none,
  some, List, [], ◌∷◌, ◌==◌, ltb, length, find, find_last, any, sum_if, All, arith, ok, inl, inr,
  Bool-cases, sum_if-append, sum_if_ext, any-append, any_none, All-mono, All-update_to,
  raise_if-eq-ok, >>=-eq-ok, or_raise-eq-ok, ok_injective, or_raise, some_injective, ltb→le,
  find-test, find-All, not,
}
use event_management.Schema.{Db}
use event_management.Schema.Events.{awaits_payment, Registration, Occurrence}
use event_management.Schema.Payments.{ConnectedAccount, TicketType, Order, OrderLine, is_pending}
use event_management.Payments.Errors.{
  does_not_exist, no_participants, sales_closed, over_order_limit, sold_out, not_awaiting_payment,
}
use event_management.Payments.Inventory.{
  sales_are_open, is_sold_order, is_sold_line, sold, held, remaining, confirmed, other_holds,
  holds_place, is_live,
}
use event_management.Payments.Orders.{active_participants, fail, fail_order, get_order}
use event_management.Payments.Checkout.{
  reserve_of_type, is_sold_out, expire_first, ticket_type_for, lacks_places, create_order, new_hold,
  reserve, reserve_ticket_order, supersede, require_commerce_ready,
}

-- Every order has an id that was handed out.
abbrev pub OrdersFresh : Db → Type 0
OrdersFresh d = All (λ (o : Order). o.id < d.next_id) d.orders

module _ (now bps : ℕ) (r : Registration) (a : ConnectedAccount) (t : TicketType) (n : ℕ)
    (d : Db) where
  abbrev pub created : Db
  created = (create_order now bps r a t n d).1

  same_sale : (k : ℕ) → any (is_sold_order k) created.orders ≡ any (is_sold_order k) d.orders
  unfolding create_order is_sold_order any
  same_sale k = rw (any-append (is_sold_order k) d.orders) (ground arith)

  unsold : OrdersFresh d → any (is_sold_order d.next_id) d.orders ≡ false
  unfolding is_sold_order
  unsold fresh = any_none _ d.orders (All-mono _ _ d.orders (λ o b. ground arith) fresh)

  sold-created : OrdersFresh d → sold created t.id ≡ sold d t.id
  unfolding sold create_order is_sold_line sum_if
  sold-created fresh =
      sum_if-append (is_sold_line created.orders t.id) (λ l. l.quantity) d.lines _
      ∙ (ground (
        arith,
        same_sale d.next_id,
        unsold fresh,
        sum_if_ext (is_sold_line created.orders t.id) (is_sold_line d.orders t.id) (λ l. l.quantity)
            d.lines (λ l. ground (arith, same_sale l.order_id)),
      ))

  held-created : held created t.id now ≡ held d t.id now + n
  unfolding held create_order sum_if
  held-created = ground (
    arith,
    sum_if-append (λ h. h.ticket_type_id == t.id && is_live now h) (λ h. h.quantity) d.holds
        (new_hold (d.next_id + 2) now r t d.next_id n ∷ []),
  )

  other_holds-created : (occ : ℕ) → other_holds created occ now ≤ other_holds d occ now + n
  unfolding other_holds create_order sum_if holds_place
  other_holds-created occ = ground (
    arith,
    sum_if-append (holds_place d.ticket_types occ now) (λ h. h.quantity) d.holds
        (new_hold (d.next_id + 2) now r t d.next_id n ∷ []),
  )

-- What a reservation leaves: the ticket type is not oversold, and the occurrence is not overfull.
pub record InStock (now : ℕ) (t : TicketType) (d : Db) : Type 0 where
  pub stock : sold d t.id + held d t.id now ≤ t.quantity
  pub places :
      (o : Occurrence) (capacity : ℕ)
      → find (λ (x : Occurrence). x.id == t.occurrence_id) d.occurrences ≡ some o
      → o.capacity ≡ some capacity
      → confirmed d t.occurrence_id + other_holds d t.occurrence_id now ≤ capacity

confirmed-created :
    (now bps : ℕ) (r : Registration) (a : ConnectedAccount) (t : TicketType) (n : ℕ) (d : Db)
    (occ : ℕ)
    → confirmed (created now bps r a t n d) occ ≡ confirmed d occ
unfolding confirmed create_order
confirmed-created now bps r a t n d occ = refl

enough_places :
    (capacity : Option ℕ) (taken holds n cap : ℕ)
    → lacks_places capacity taken holds n ≡ false
    → capacity ≡ some cap
    → taken + holds + n ≤ cap
unfolding lacks_places
enough_places none taken holds n cap e h = cc
enough_places (some c) taken holds n cap e h = ground arith

or_false : (x y : Bool) → (x || y) ≡ false → (x ≡ false) × (y ≡ false)
or_false x y h = ground arith

-- From the checks of a reservation, what it writes is in stock.
created-InStock :
    (now bps n : ℕ) (r : Registration) (a : ConnectedAccount) (t : TicketType) (d : Db)
    (o : Occurrence)
    → OrdersFresh d
    → 0 < n
    → find (λ (x : Occurrence). x.id == t.occurrence_id) d.occurrences ≡ some o
    → (ltb (remaining d t now) n
        || lacks_places o.capacity
            (confirmed d t.occurrence_id)
            (other_holds d t.occurrence_id now)
            n)
      ≡ false
    → InStock now t (created now bps r a t n d)
unfolding create_order remaining
created-InStock now bps n r a t d o fresh pos f e =
    let (left, room) = or_false (ltb (remaining d t now) n) _ e in
    record {
      stock = omega (
        arith,
        sold-created now bps r a t n d fresh,
        held-created now bps r a t n d,
        ltb→le (remaining d t now) n left,
      );
      places = λ o' cap g c.
          let bound =
            enough_places o.capacity (confirmed d t.occurrence_id)
              (other_holds d t.occurrence_id now) n cap room
              (ap (λ (x : Occurrence). x.capacity) (some_injective (sym f ∙ g)) ∙ c) in
          omega (
            arith,
            bound,
            confirmed-created now bps r a t n d t.occurrence_id,
            other_holds-created now bps r a t n d t.occurrence_id,
          );
    }

ticket_type_for-occurrence :
    (k : ℕ) (r : Registration) (d : Db) (t : TicketType)
    → ticket_type_for k r d ≡ ok t
    → t.occurrence_id ≡ r.occurrence_id
unfolding ticket_type_for
ticket_type_for-occurrence k r d t h = ground (
  arith,
  find-test
      (λ (t : TicketType).
        t.id == k && t.occurrence_id == r.occurrence_id && t.site_id == r.site_id)
      d.ticket_types t (or_raise-eq-ok _ _ h),
)

reserve_of_type-InStock :
    (now bps n : ℕ) (r : Registration) (a : ConnectedAccount) (t : TicketType) (o : Occurrence)
    (d d' : Db) (b : Order × OrderLine)
    → OrdersFresh d
    → 0 < n
    → t.occurrence_id ≡ r.occurrence_id
    → find (λ (x : Occurrence). x.id == r.occurrence_id) d.occurrences ≡ some o
    → reserve_of_type now bps r a t o n d ≡ ok (b, d')
    → InStock now t d'
unfolding reserve_of_type is_sold_out
reserve_of_type-InStock now bps n r a t o d d' b fresh pos same f h =
    let (c1, h1) = raise_if-eq-ok (not (sales_are_open t now)) sales_closed _ h in
    let (c2, h2) = raise_if-eq-ok (ltb t.max_per_order n) over_order_limit _ h1 in
    let (fits, h3) = raise_if-eq-ok (is_sold_out now r t o n d) sold_out _ h2 in
    subst (λ (x : (Order × OrderLine) × Db). InStock now t x.1) (ok_injective h3)
      (created-InStock now bps n r a t d o fresh pos
        (subst (λ occ. find (λ (x : Occurrence). x.id == occ) d.occurrences ≡ some o) (sym same) f)
        (subst
          (λ occ.
            (ltb (remaining d t now) n
              || lacks_places o.capacity (confirmed d occ) (other_holds d occ now) n)
            ≡ false)
          (sym same) fits))

reserve-InStock :
    (now bps k : ℕ) (r : Registration) (a : ConnectedAccount) (d d' : Db) (b : Order × OrderLine)
    → OrdersFresh d
    → reserve now bps r a k d ≡ ok (b, d')
    → (t : TicketType) × (ticket_type_for k r d ≡ ok t) × InStock now t d'
unfolding reserve
reserve-InStock now bps k r a d d' b fresh h =
    let n = length (active_participants d r.id) in
    let (some_one, h1) = raise_if-eq-ok (ltb n 1) no_participants _ h in
    let (t, ft, h2) = >>=-eq-ok (ticket_type_for k r d) _ h1 in
    let (o, fo, h3) =
      >>=-eq-ok
        (or_raise (find (λ (o : Occurrence). o.id == r.occurrence_id) d.occurrences) does_not_exist)
        _ h2 in
    (
      t,
      ft,
      reserve_of_type-InStock now bps n r a t o d d' b fresh (ltb→le n 1 some_one)
          (ticket_type_for-occurrence k r d t ft) (or_raise-eq-ok _ _ fo) h3,
    )

-- An order that fails keeps the ids of the table, and leaves the ticket types alone.
fail-OrdersFresh :
    (o : Order) (event_id : ℕ) (expired : Bool) (d : Db)
    → o.id < d.next_id
    → OrdersFresh d
    → OrdersFresh (fail o event_id expired d).1
unfolding fail
fail-OrdersFresh o event_id expired d b fresh = elim (Bool-cases (is_pending o.status)) [
  | inl p ↦ rw p (
      All-update_to _ (λ (x : Order). x.id == o.id) _ d.orders (omega arith)
        (All-mono _ _ d.orders (λ x lt. omega arith) fresh))
  | inr p ↦ rw p fresh
]

fail-ticket_types :
    (o : Order) (event_id : ℕ) (expired : Bool) (d : Db)
    → (fail o event_id expired d).1.ticket_types ≡ d.ticket_types
unfolding fail
fail-ticket_types o event_id expired d = ground arith

pub record Kept (d d' : Db) : Type 0 where
  pub fresh : OrdersFresh d'
  pub ticket_types : d'.ticket_types ≡ d.ticket_types

fail_order-Kept :
    (k event_id : ℕ) (expired : Bool) (d : Db) (t : Order × Db)
    → OrdersFresh d
    → fail_order k event_id expired d ≡ ok t
    → Kept d t.1
unfolding fail_order get_order
fail_order-Kept k event_id expired d t fresh h =
    let (o, fo, h1) = >>=-eq-ok (get_order d k) _ h in
    subst (λ (x : Order × Db). Kept d x.1) (ok_injective h1)
      (record {
        fresh =
            fail-OrdersFresh o event_id expired d
              (find-All (λ (x : Order). x.id < d.next_id) _ d.orders o (or_raise-eq-ok _ _ fo)
                fresh)
              fresh;
        ticket_types = fail-ticket_types o event_id expired d;
      })

expire_first-Kept :
    (x : Option Order) (d d' : Db) → OrdersFresh d → expire_first x d ≡ ok d' → Kept d d'
expire_first-Kept none d d' fresh h =
    subst (Kept d) (ok_injective h) (record { fresh = fresh; ticket_types = refl })
expire_first-Kept (some o) d d' fresh h =
    let (t, ft, h1) = >>=-eq-ok (fail_order o.id 0 true d) _ h in
    subst (Kept d) (ok_injective h1) (fail_order-Kept o.id 0 true d t fresh ft)

-- A reservation that succeeds leaves its ticket type with no more tickets sold and held than it
-- has, and its occurrence with no more confirmed participants and live holds than its capacity.
pub reserve_ticket_order-InStock :
    (now bps site rid k : ℕ) (d d' : Db) (b : Order × OrderLine) (r : Registration)
    → OrdersFresh d
    → find (λ (x : Registration). x.id == rid) d.registrations ≡ some r
    → reserve_ticket_order now bps site rid k d ≡ ok (b, d')
    → (t : TicketType) × (ticket_type_for k r d ≡ ok t) × InStock now t d'
unfolding reserve_ticket_order supersede ticket_type_for
reserve_ticket_order-InStock now bps site rid k d d' b r fresh f h =
    let (a, fa, h1) = >>=-eq-ok (require_commerce_ready site d) _ h in
    let (r', fr, h2) =
      >>=-eq-ok (or_raise (find (λ (x : Registration). x.id == rid) d.registrations) does_not_exist)
        _ h1 in
    let (c, h3) =
      raise_if-eq-ok (not (awaits_payment r'.payment_status)) not_awaiting_payment _ h2 in
    let (d1, fd, h4) = >>=-eq-ok (supersede r'.id d) _ h3 in
    let kept =
      expire_first-Kept
        (find_last (λ (o : Order). o.registration_id == r'.id && is_pending o.status) d.orders) d d1
        fresh fd in
    let (t, ft, stock) = reserve-InStock now bps k r' a d1 d' b kept.fresh h4 in
    let same : r' ≡ r = some_injective (sym (or_raise-eq-ok _ _ fr) ∙ f) in
    (
      t,
      subst (λ x. ticket_type_for k x d ≡ ok t) same
          (subst
            (λ (ts : List TicketType).
              or_raise
                (find
                  (λ (t : TicketType).
                    t.id == k && t.occurrence_id == r'.occurrence_id && t.site_id == r'.site_id)
                  ts)
                does_not_exist
              ≡ ok t)
            kept.ticket_types ft),
      stock,
    )
