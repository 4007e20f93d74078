-- ===== src/Payments/Orders/Paid.antt =====
-- `mark_order_paid`: the order is sold afterwards, a second report changes no status, and each
-- ticket has its own participant and its own code.
use event_management.Base.{
  ℕ, ◌+◌, ◌≤◌, ◌≡◌, refl, sym, ap, ◌∙◌, subst, true, false, Option, some, List, [], ◌∷◌, ◌++◌, ◌==◌,
  if◌then◌else◌, find, any, count_if, arith, Result, ok, Option-cases, ◌⊎◌, inl, inr, Bool-cases,
  >>=-eq-ok, or_raise-eq-ok, ok_injective, some_injective, or_raise, count_if-append, count_if-any,
}
use event_management.Schema.{Db}
use event_management.Schema.Events.{Participant}
use event_management.Schema.Payments.{Order, OrderLine, Ticket, TicketStatus, is_sold, OrderStatus}
use event_management.Payments.Errors.{Error, does_not_exist, draws_exhausted}
use event_management.Payments.Orders.{
  get_order, save_order, PaymentObject, complete_ids, has_code, is_for, draw_code, issue_tickets,
  settle, pay_read, mark_order_paid, active_participants,
}
use event_management.Payments.Orders.Status.{
  order_at, order_at-update, IsSold, save-IsSold, get_order-at, complete_ids-keeps,
  paid_order-keeps,
}

-- No participant has two tickets, and no code is on two tickets.
pub record Unique (tickets : List Ticket) : Type 0 where
  pub participant : (k : ℕ) → count_if (is_for k) tickets ≤ 1
  pub code : (k : ℕ) → count_if (has_code k) tickets ≤ 1

-- The code that is drawn is not in use.
pub draw_code-fresh :
    (codes : List ℕ) (tickets : List Ticket) (c : ℕ) (rest : List ℕ)
    → draw_code codes tickets ≡ some (c, rest)
    → any (has_code c) tickets ≡ false
unfolding draw_code
draw_code-fresh [] tickets c rest h = cc
draw_code-fresh (x ∷ xs) tickets c rest h = elim (Bool-cases (any (has_code x) tickets)) [
  | inl used ↦ draw_code-fresh xs tickets c rest (ground arith)
  | inr free ↦ subst (λ y. any (has_code y) tickets ≡ false) (ground arith) free
]

add_ticket-Unique :
    (t : Ticket) (tickets : List Ticket)
    → any (is_for t.participant_id) tickets ≡ false
    → any (has_code t.display_code) tickets ≡ false
    → Unique tickets
    → Unique (tickets ++ t ∷ [])
unfolding count_if
add_ticket-Unique t tickets hp hc u = record {
  participant = λ k. ground (
    arith,
    count_if-append (is_for k) tickets (t ∷ []),
    u.participant k,
    count_if-any (is_for t.participant_id) tickets hp,
    ap (λ i. count_if (is_for i) tickets) {x = k} {y = t.participant_id},
  );
  code = λ k. ground (
    arith,
    count_if-append (has_code k) tickets (t ∷ []),
    u.code k,
    count_if-any (has_code t.display_code) tickets hc,
    ap (λ i. count_if (has_code i) tickets) {x = k} {y = t.display_code},
  );
}

abbrev ticket : ℕ → ℕ → ℕ → Participant → ℕ → Ticket
ticket id site_id line_id p code = record {
  id = id;
  site_id = site_id;
  order_line_id = line_id;
  participant_id = p.id;
  display_code = code;
  status = TicketStatus.valid;
}

module _ (site line : ℕ) where
  -- The loop over the participants keeps the tickets unique.
  issue_tickets-Unique :
      (ps : List Participant) (codes : List ℕ) (id : ℕ) (ts : List Ticket) (r : ℕ × List Ticket)
      → issue_tickets site line ps codes id ts ≡ some r
      → Unique ts
      → Unique r.1
  unfolding issue_tickets
  issue_tickets-Unique [] codes id ts r h u =
      subst (λ (x : ℕ × List Ticket). Unique x.1) (some_injective h) u
  issue_tickets-Unique (p ∷ ps) codes id ts r h u = elim (Bool-cases (any (is_for p.id) ts)) [
    | inl t ↦ issue_tickets-Unique ps codes id ts r (ground arith) u
    | inr f ↦ elim (Option-cases (draw_code codes ts)) [
      | inl e ↦ absurd (ground arith)
      | inr ((c, rest), e) ↦
          issue_tickets-Unique ps rest (id + 1) (ts ++ ticket id site line p c ∷ []) r
            (ground arith)
            (add_ticket-Unique (ticket id site line p c) ts f (draw_code-fresh codes ts c rest e) u)
    ]
  ]

-- What a payment has done, on either branch.
pub record Paid (k : ℕ) (d : Db) (t : Order × Db) : Type 0 where
  pub order : Order
  pub was : order_at k d.orders ≡ some order
  pub saved : t.1.orders ≡ (save_order t.0 d).orders
  pub same_id : t.0.id ≡ k
  pub same_account : t.0.connected_account_id ≡ order.connected_account_id
  pub status : t.0.status ≡ (if is_sold order.status then order.status else OrderStatus.paid)
  pub tickets : Unique d.tickets → Unique t.1.tickets

settle-Paid :
    (k now : ℕ) (codes : List ℕ) (o : Order) (obj : Option PaymentObject) (ev : ℕ) (d : Db)
    (t : Order × Db)
    → order_at k d.orders ≡ some o
    → o.id ≡ k
    → is_sold o.status ≡ false
    → settle now codes o obj ev d ≡ ok t
    → Paid k d t
unfolding settle
settle-Paid k now codes o obj ev d t f same n h =
    let (line, fl, h1) =
      >>=-eq-ok (or_raise (find (λ (l : OrderLine). l.order_id == o.id) d.lines) does_not_exist) _
        h in
    let ((id, ts), ft, h2) =
      >>=-eq-ok
        (or_raise
          (issue_tickets o.site_id line.id (active_participants d o.registration_id) codes d.next_id
            d.tickets)
          draws_exhausted)
        _ h1 in
    let (status, id, account) = paid_order-keeps now obj o in
    subst (Paid k d) (ok_injective h2) (record {
      order = o;
      was = f;
      saved = refl;
      same_id = id ∙ same;
      same_account = account;
      status = rw n status;
      tickets =
          issue_tickets-Unique o.site_id line.id (active_participants d o.registration_id) codes
            d.next_id d.tickets _ (or_raise-eq-ok _ _ ft);
    })

pay_read-Paid :
    (k now : ℕ) (codes : List ℕ) (o : Order) (obj : Option PaymentObject) (ev : ℕ) (d : Db)
    (t : Order × Db)
    → order_at k d.orders ≡ some o
    → o.id ≡ k
    → pay_read now codes o obj ev d ≡ ok t
    → Paid k d t
unfolding pay_read
pay_read-Paid k now codes o obj ev d t f same h = elim (Bool-cases (is_sold o.status)) [
  | inr n ↦ settle-Paid k now codes o obj ev d t f same n (ground arith)
  | inl y ↦
      let (status, id, account) = complete_ids-keeps obj o in
      let e : ◌≡◌ {A = Result Error (Order × Db)}
          (ok (complete_ids obj o, save_order (complete_ids obj o) d)) (ok t) =
        ground arith in
      subst (Paid k d) (ok_injective e) (record {
        order = o;
        was = f;
        saved = refl;
        same_id = id ∙ same;
        same_account = account;
        status = rw y status;
        tickets = λ u. u;
      })
]

-- A reported payment leaves the order sold: an order that was sold keeps its status, any other
-- becomes paid. The ticket table gets no second ticket for a participant or a code.
pub mark_order_paid-Paid :
    (k now ev : ℕ) (codes : List ℕ) (obj : Option PaymentObject) (d : Db) (t : Order × Db)
    → mark_order_paid now codes k obj ev d ≡ ok t
    → Paid k d t
unfolding mark_order_paid
mark_order_paid-Paid k now ev codes obj d t h =
    let (o, fo, h1) = >>=-eq-ok (get_order d k) _ h in
    let (at, same) = get_order-at k d o fo in pay_read-Paid k now codes o obj ev d t at same h1

-- A paid order is sold, and what was sold stays sold.
pub mark_order_paid-IsSold :
    (k j now ev : ℕ) (codes : List ℕ) (obj : Option PaymentObject) (d : Db) (t : Order × Db)
    → mark_order_paid now codes j obj ev d ≡ ok t
    → IsSold k d.orders ⊎ (k ≡ j)
    → IsSold k t.1.orders
unfolding save_order
mark_order_paid-IsSold k j now ev codes obj d t h s =
    let p = mark_order_paid-Paid j now ev codes obj d t h in
    let sold : is_sold t.0.status ≡ true = ground (arith, p.status) in
    subst (IsSold k) (sym p.saved) (elim s [
      | inl s ↦ save-IsSold k t.0 d.orders (λ e. sold) s
      | inr e ↦ (
        t.0,
        order_at-update k t.0 d.orders
            ∙ ground (arith, p.was, p.same_id, e, ap (λ i. order_at i d.orders) e),
        sold,
      )
    ])
