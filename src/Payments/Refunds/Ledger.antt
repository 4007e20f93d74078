-- ===== src/Payments/Refunds/Ledger.antt =====
-- What refunds do to the books of an order.
use event_management.Base.{
  ℕ, ◌+◌, ◌≤◌, ◌≡◌, refl, sym, ap, ◌∙◌, subst, Bool, true, false, ◌&&◌, not, Option, some, ◌==◌,
  if◌then◌else◌, arith, ok, Option-cases, inl, inr, ◌↔◌, Bool-cases, >>=-eq-ok, raise_if-eq-ok,
  ok_injective, some_injective, ==_iff,
}
use event_management.Schema.{Db}
use event_management.Schema.Payments.{
  Order, OrderStatus, Refund, RefundStatus, is_refundable, is_sold, has_succeeded,
}
use event_management.Payments.Errors.{account_mismatch}
use event_management.Payments.Fees.Bounds.{refund-le-fee}
use event_management.Payments.Orders.{get_order, save_order}
use event_management.Payments.Orders.Status.{order_at, order_at-update, IsSold, get_order-at}
use event_management.Payments.Refunds.{
  RefundObject, ProviderRefundStatus, refund_for, mapped_status, updated_refund, refunded_order,
  apply_to, apply_found, apply_refund_object, is_foreign,
}

-- What a refund is asked under.
record Granted (k amount : ℕ) (d : Db) (f : Refund) (d' : Db) : Type 0 where
  order : Order
  found : order_at k d.orders ≡ some order
  refundable : is_refundable order.status ≡ true
  positive : 1 ≤ amount
  within_balance : order.refunded_cents + amount ≤ order.total_cents
  of_order : f.order_id ≡ k
  amount_kept : f.amount_cents ≡ amount
  pending : f.status ≡ RefundStatus.pending
  orders : d'.orders ≡ d.orders

-- The refund's success is new.
abbrev pub is_news : RefundObject → Refund → Bool
is_news s f = has_succeeded (mapped_status s.status f.status) && not (has_succeeded f.status)

-- The orders after a report: one more refund on the books if it is news, else as before.
pub orders-apply_to :
    (now ev : ℕ) (s : RefundObject) (f : Refund) (o : Order) (d : Db)
    → (apply_to now s ev f o d).1.orders
      ≡ (if is_news s f then (save_order (refunded_order f.amount_cents o) d).orders else d.orders)
unfolding apply_to
orders-apply_to now ev s f o d = ground arith

refund-apply_to :
    (now ev : ℕ) (s : RefundObject) (f : Refund) (o : Order) (d : Db)
    → ((apply_to now s ev f o d).0.status ≡ mapped_status s.status f.status)
      × ((apply_to now s ev f o d).0.amount_cents ≡ f.amount_cents)
unfolding apply_to
refund-apply_to now ev s f o d = (ground arith, ground arith)

order_id-apply_to :
    (now ev : ℕ) (s : RefundObject) (f : Refund) (o : Order) (d : Db)
    → (apply_to now s ev f o d).0.order_id ≡ f.order_id
unfolding apply_to updated_refund
order_id-apply_to now ev s f o d = ground arith

-- The order that a refund belongs to, before and after a report.
pub record Booked (now ev : ℕ) (s : RefundObject) (f : Refund) (d d' : Db) : Type 0 where
  pub order : Order
  pub was : order_at f.order_id d.orders ≡ some order
  pub now_is :
      order_at f.order_id d'.orders
      ≡ some (if is_news s f then refunded_order f.amount_cents order else order)
  pub others : (k : ℕ) → (k == f.order_id) ≡ false → order_at k d'.orders ≡ order_at k d.orders

apply_to-Booked :
    (now ev : ℕ) (s : RefundObject) (f : Refund) (o : Order) (d : Db)
    → order_at f.order_id d.orders ≡ some o
    → o.id ≡ f.order_id
    → Booked now ev s f d (apply_to now s ev f o d).1
unfolding save_order refunded_order
apply_to-Booked now ev s f o d at same = record {
  order = o;
  was = at;
  now_is =
      ap (order_at f.order_id) (orders-apply_to now ev s f o d)
      ∙ ground
          (arith, order_at-update f.order_id (refunded_order f.amount_cents o) d.orders, at, same);
  others = λ k ne.
      ap (order_at k) (orders-apply_to now ev s f o d)
      ∙ ground (arith, order_at-update k (refunded_order f.amount_cents o) d.orders, same);
}

-- A report on a known refund adds the refund to the books of its order exactly when it has
-- succeeded and the row did not say so before. Every other order is left alone.
pub apply_refund_object-Booked :
    (now ev account : ℕ) (s : RefundObject) (f : Refund) (d : Db) (t : Option Refund × Db)
    → refund_for s d ≡ some f
    → apply_refund_object now s ev account d ≡ ok t
    → Booked now ev s f d t.1
unfolding apply_refund_object
apply_refund_object-Booked now ev account s f d t e h =
    let h0 : apply_found now s ev account (some f) d ≡ ok t =
      subst (λ x. apply_found now s ev account x d ≡ ok t) e h in
    let (o, fo, h1) = >>=-eq-ok (get_order d f.order_id) _ (unfold apply_found in h0) in
    let (at, same) = get_order-at f.order_id d o fo in
    let (c, h2) = raise_if-eq-ok (is_foreign account o) account_mismatch _ h1 in
    subst (λ (x : Option Refund × Db). Booked now ev s f d x.1) (ok_injective h2)
      (apply_to-Booked now ev s f o d at same)

-- The books of an order after one refund within its balance: the refunds stay within the total,
-- the fee returned within the fee, and the order is refunded exactly when nothing is left.
pub refunded_order-balanced :
    (amount : ℕ) (o : Order)
    → o.refunded_cents + amount ≤ o.total_cents
    → let o' = refunded_order amount o in
      (o'.refunded_cents ≡ o.refunded_cents + amount)
      × (o'.refunded_cents ≤ o'.total_cents)
      × (o'.application_fee_refunded_cents ≤ o'.application_fee_cents)
      × ((o'.status ≡ OrderStatus.refunded) ↔ (o'.refunded_cents ≡ o'.total_cents))
unfolding refunded_order
refunded_order-balanced amount o h = (
  refl,
  h,
  refund-le-fee o.application_fee_cents (o.refunded_cents + amount) o.total_cents,
  ((λ e. ground arith), (λ e. ground arith)),
)

-- A refund that was asked for and has succeeded, on the books of its order.
pub record Returned (k amount : ℕ) (d d' : Db) : Type 0 where
  pub before : Order
  pub was : order_at k d.orders ≡ some before
  pub after : Order
  pub now_is : order_at k d'.orders ≡ some after
  pub asked : 1 ≤ amount
  pub added : after.refunded_cents ≡ before.refunded_cents + amount
  pub within_total : after.refunded_cents ≤ after.total_cents
  pub within_fee : after.application_fee_refunded_cents ≤ after.application_fee_cents
  pub spent : (after.status ≡ OrderStatus.refunded) ↔ (after.refunded_cents ≡ after.total_cents)

-- The row that a report returns, and the books of its order.
record Reported (s : RefundObject) (f g : Refund) (d d' : Db) : Type 0 where
  status : g.status ≡ mapped_status s.status f.status
  amount : g.amount_cents ≡ f.amount_cents
  of_order : g.order_id ≡ f.order_id
  books :
      (o : Order)
      → order_at f.order_id d.orders ≡ some o
      → order_at f.order_id d'.orders
        ≡ some (if is_news s f then refunded_order f.amount_cents o else o)

apply_refund_object-Reported :
    (now ev account : ℕ) (s : RefundObject) (f g : Refund) (d d' : Db)
    → refund_for s d ≡ some f
    → apply_refund_object now s ev account d ≡ ok (some g, d')
    → Reported s f g d d'
unfolding apply_refund_object
apply_refund_object-Reported now ev account s f g d d' e h =
    let b = apply_refund_object-Booked now ev account s f d (some g, d') e h in
    let h0 : apply_found now s ev account (some f) d ≡ ok (some g, d') =
      subst (λ x. apply_found now s ev account x d ≡ ok (some g, d')) e h in
    let (o, fo, h1) = >>=-eq-ok (get_order d f.order_id) _ (unfold apply_found in h0) in
    let (c, h2) = raise_if-eq-ok (is_foreign account o) account_mismatch _ h1 in
    let same : (apply_to now s ev f o d).0 ≡ g =
      some_injective (ap (λ (x : Option Refund × Db). x.0) (ok_injective h2)) in
    let (status, amount) = refund-apply_to now ev s f o d in
    record {
      status = subst (λ (x : Refund). x.status ≡ mapped_status s.status f.status) same status;
      amount = subst (λ (x : Refund). x.amount_cents ≡ f.amount_cents) same amount;
      of_order =
          subst (λ (x : Refund). x.order_id ≡ f.order_id) same (order_id-apply_to now ev s f o d);
      books = λ x at.
          b.now_is
          ∙ ap (λ (y : Order). some (if is_news s f then refunded_order f.amount_cents y else y))
              (some_injective (sym b.was ∙ at));
    }

-- A refund that has not succeeded yet is reported as succeeded, then as pending, and then as succeeded
-- again, each time about the row that the call before has left: if the three calls return, the books
-- of its order hold the refund twice.
pub stale_report_recounts :
    (now now' now'' ev ev' ev'' account : ℕ) (s s' s'' : RefundObject) (f g g' g'' : Refund)
    (o : Order) (d d' d'' d3 : Db)
    → has_succeeded f.status ≡ false
    → order_at f.order_id d.orders ≡ some o
    → s.status ≡ ProviderRefundStatus.succeeded
    → s'.status ≡ ProviderRefundStatus.pending
    → s''.status ≡ ProviderRefundStatus.succeeded
    → refund_for s d ≡ some f
    → apply_refund_object now s ev account d ≡ ok (some g, d')
    → refund_for s' d' ≡ some g
    → apply_refund_object now' s' ev' account d' ≡ ok (some g', d'')
    → refund_for s'' d'' ≡ some g'
    → apply_refund_object now'' s'' ev'' account d'' ≡ ok (some g'', d3)
    → (o' : Order) × (order_at f.order_id d3.orders ≡ some o')
      × (o'.refunded_cents ≡ o.refunded_cents + f.amount_cents + f.amount_cents)
unfolding mapped_status refunded_order
stale_report_recounts now now' now'' ev ev' ev'' account s s' s'' f g g' g'' o d d' d'' d3 u at m m'
      m'' e h e' h' e'' h'' =
    let a = apply_refund_object-Reported now ev account s f g d d' e h in
    let b = apply_refund_object-Reported now' ev' account s' g g' d' d'' e' h' in
    let c = apply_refund_object-Reported now'' ev'' account s'' g' g'' d'' d3 e'' h'' in
    let first : is_news s f ≡ true = rw (m, u) refl in
    let o1 = refunded_order f.amount_cents o in
    let at1 : order_at f.order_id d'.orders ≡ some o1 = rw first at (a.books o at) in
    let second : is_news s' g ≡ false = rw m' refl in
    let at2 : order_at g.order_id d''.orders ≡ some o1 =
      rw second at
        (b.books o1 (subst (λ i. order_at i d'.orders ≡ some o1) (sym a.of_order) at1)) in
    let waits : g'.status ≡ RefundStatus.pending = b.status ∙ rw m' refl in
    let third : is_news s'' g' ≡ true = rw (m'', waits) refl in
    let at3 : order_at g'.order_id d3.orders ≡ some (refunded_order g'.amount_cents o1) =
      rw third at
        (c.books o1 (subst (λ i. order_at i d''.orders ≡ some o1) (sym b.of_order) at2)) in
    (
      refunded_order g'.amount_cents o1,
      subst (λ i. order_at i d3.orders ≡ some (refunded_order g'.amount_cents o1))
          (b.of_order ∙ a.of_order) at3,
      rw (b.amount, a.amount) refl,
    )

Booked-IsSold :
    (k now ev : ℕ) (s : RefundObject) (f : Refund) (d d' : Db)
    → Booked now ev s f d d'
    → IsSold k d.orders
    → IsSold k d'.orders
unfolding refunded_order
Booked-IsSold k now ev s f d d' b (o, at, sold) = elim (Bool-cases (k == f.order_id)) [
  | inr ne ↦ (o, b.others k ne ∙ at, sold)
  | inl eq ↦
      let e = (==_iff k f.order_id).0 eq in
      let same : b.order ≡ o =
        some_injective (sym b.was ∙ (subst (λ i. order_at i d.orders ≡ some o) e at)) in
      let s' : is_sold b.order.status ≡ true =
        subst (λ (x : Order). is_sold x.status ≡ true) (sym same) sold in
      (
        if is_news s f then refunded_order f.amount_cents b.order else b.order,
        subst
            (λ i.
              order_at i d'.orders
              ≡ some (if is_news s f then refunded_order f.amount_cents b.order else b.order))
            (sym e) b.now_is,
        ground arith,
      )
]

-- A refund's report leaves every order sold that was sold.
pub apply_refund_object-IsSold :
    (k now ev account : ℕ) (s : RefundObject) (d : Db) (t : Option Refund × Db)
    → apply_refund_object now s ev account d ≡ ok t
    → IsSold k d.orders
    → IsSold k t.1.orders
unfolding apply_refund_object
apply_refund_object-IsSold k now ev account s d t h sold = elim (Option-cases (refund_for s d)) [
  | inl e ↦
      subst (λ (x : Option Refund × Db). IsSold k x.1.orders)
        (ok_injective
          (unfold apply_found in subst (λ x. apply_found now s ev account x d ≡ ok t) e h))
        sold
  | inr (f, e) ↦
      Booked-IsSold k now ev s f d t.1
        (apply_refund_object-Booked now ev account s f d t e (unfold apply_refund_object in h)) sold
]
