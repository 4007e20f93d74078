-- ===== src/Payments/Webhook/Handlers.antt =====
-- What the handlers of an event save of the orders.
use event_management.Base.{
  ℕ, ◌≡◌, refl, sym, ap, ◌∙◌, subst, Bool, true, false, ◌&&◌, Option, none, some, List, ◌==◌, find,
  find_last, update_if, arith, inl, inr, Bool-cases, ==_iff, some_injective, ok, >>=-eq-ok,
  raise_if-eq-ok, ok_injective, find-test,
}
use event_management.Schema.{Db}
use event_management.Schema.Payments.{Order, OrderStatus, Refund, Dispute, is_sold, is_pending}
use event_management.Payments.Errors.{account_mismatch}
use event_management.Payments.Orders.{
  get_order, save_order, fail, fail_order, PaymentObject, mark_order_paid, ObjectKind, or_id,
  record_order_transition,
}
use event_management.Payments.Orders.Status.{order_at, get_order-at}
use event_management.Payments.Orders.Paid.{mark_order_paid-Paid}
use event_management.Payments.Refunds.{
  is_foreign, RefundObject, refunded_order, apply_to, apply_found, refund_for, apply_refund_object,
}
use event_management.Payments.Refunds.Ledger.{orders-apply_to, is_news}
use event_management.Payments.Objects.{
  BalanceTransaction, StripeObject, order_of_kind, order_from_object,
}
use event_management.Payments.Disputes.{
  with_balance, charged, charge_found, apply_charge, is_disputed_by, update_or_create_dispute,
  store_dispute, disputed, dispute_order, dispute_found, apply_dispute,
}
use event_management.Payments.Webhook.Touches.{
  Touches, none_saved, one_saved, IsKeyed, find_last-order_at,
}

-- The order that an object names is the one with its id.
order_of_kind-order_at :
    (kind : ObjectKind) (s : StripeObject) (xs : List Order) (o : Order)
    → IsKeyed xs
    → order_of_kind kind s xs ≡ some o
    → order_at o.id xs ≡ some o
unfolding order_of_kind
order_of_kind-order_at ObjectKind.checkout_session s xs o v e = find_last-order_at _ xs o v e
order_of_kind-order_at ObjectKind.payment_intent s xs o v e = find_last-order_at _ xs o v e
order_of_kind-order_at ObjectKind.charge s xs o v e = find_last-order_at _ xs o v e
order_of_kind-order_at ObjectKind.subscription s xs o v e = cc
order_of_kind-order_at ObjectKind.other s xs o v e = cc

pub order_from_object-order_at :
    (s : StripeObject) (d : Db) (o : Order)
    → IsKeyed d.orders
    → order_from_object s d ≡ some o
    → order_at o.id d.orders ≡ some o
unfolding order_from_object order_at
order_from_object-order_at s d o v e = elim (Bool-cases (s.metadata_order_id == 0)) [
  | inl t ↦ order_of_kind-order_at s.kind s d.orders o v (rw t at e)
  | inr t ↦
      let f = rw t at e in
      let id = (==_iff o.id s.metadata_order_id).0 (find-test _ d.orders o f) in
      subst (λ i. find (λ (x : Order). x.id == i) d.orders ≡ some o) (sym id) f
]

module _ (account_id : ℕ) where
  fail-Touches :
      (o : Order) (event_id : ℕ) (expired : Bool) (d : Db)
      → order_at o.id d.orders ≡ some o
      → is_foreign account_id o ≡ false
      → Touches account_id d.orders (fail o event_id expired d).1.orders
  unfolding fail
  fail-Touches o event_id expired d at own = elim (Bool-cases (is_pending o.status)) [
    | inr p ↦ rw p (none_saved refl)
    | inl p ↦ rw p (one_saved o _ at refl (λ s. absurd (pending_sold o.status p s)) own refl)
  ]
    where
      pending_sold : (s : OrderStatus) → is_pending s ≡ true → is_sold s ≡ true → ⊥
      pending_sold OrderStatus.pending p e = cc
      pending_sold OrderStatus.paid p e = cc
      pending_sold OrderStatus.failed p e = cc
      pending_sold OrderStatus.expired p e = cc
      pending_sold OrderStatus.partially_refunded p e = cc
      pending_sold OrderStatus.refunded p e = cc
      pending_sold OrderStatus.disputed p e = cc

  pub fail_order-Touches :
      (k event_id : ℕ) (expired : Bool) (d : Db) (t : Order × Db)
      → ((o : Order) → order_at k d.orders ≡ some o → is_foreign account_id o ≡ false)
      → fail_order k event_id expired d ≡ ok t
      → Touches account_id d.orders t.1.orders
  unfolding fail_order
  fail_order-Touches k event_id expired d t own h =
      let (o, fo, h1) = >>=-eq-ok (get_order d k) _ h in
      let (at, same) = get_order-at k d o fo in
      subst (λ (x : Order × Db). Touches account_id d.orders x.1.orders) (ok_injective h1)
        (fail-Touches o event_id expired d (subst (λ i. order_at i d.orders ≡ some o) (sym same) at)
          (own o at))

  pub mark_order_paid-Touches :
      (k now event_id : ℕ) (codes : List ℕ) (obj : Option PaymentObject) (d : Db) (t : Order × Db)
      → ((o : Order) → order_at k d.orders ≡ some o → is_foreign account_id o ≡ false)
      → mark_order_paid now codes k obj event_id d ≡ ok t
      → Touches account_id d.orders t.1.orders
  unfolding save_order
  mark_order_paid-Touches k now event_id codes obj d t own h =
      let p = mark_order_paid-Paid k now event_id codes obj d t h in
      one_saved p.order t.0 (subst (λ i. order_at i d.orders ≡ some p.order) (sym p.same_id) p.was)
        p.same_account (λ s. ground (arith, p.status, s)) (own p.order p.was) p.saved

  apply_to-Touches :
      (now event_id : ℕ) (s : RefundObject) (f : Refund) (o : Order) (d : Db)
      → order_at o.id d.orders ≡ some o
      → is_foreign account_id o ≡ false
      → Touches account_id d.orders (apply_to now s event_id f o d).1.orders
  unfolding save_order refunded_order
  apply_to-Touches now event_id s f o d at own = elim (Bool-cases (is_news s f)) [
    | inl t ↦
        one_saved o (refunded_order f.amount_cents o) at refl (λ q. ground arith) own
          (orders-apply_to now event_id s f o d ∙ rw t refl)
    | inr t ↦ none_saved (orders-apply_to now event_id s f o d ∙ rw t refl)
  ]

  apply_found-Touches :
      (now event_id : ℕ) (s : RefundObject) (r : Option Refund) (d : Db) (t : Option Refund × Db)
      → apply_found now s event_id account_id r d ≡ ok t
      → Touches account_id d.orders t.1.orders
  unfolding apply_found
  apply_found-Touches now event_id s none d t h =
      none_saved (ap (λ (x : Option Refund × Db). x.1.orders) (sym (ok_injective h)))
  apply_found-Touches now event_id s (some f) d t h =
      let (o, fo, h1) = >>=-eq-ok (get_order d f.order_id) _ h in
      let (at, same) = get_order-at f.order_id d o fo in
      let (c, h2) = raise_if-eq-ok (is_foreign account_id o) account_mismatch _ h1 in
      subst (λ (x : Option Refund × Db). Touches account_id d.orders x.1.orders) (ok_injective h2)
        (apply_to-Touches now event_id s f o d
          (subst (λ i. order_at i d.orders ≡ some o) (sym same) at) c)

  pub apply_refund_object-Touches :
      (now event_id : ℕ) (s : RefundObject) (d : Db) (t : Option Refund × Db)
      → apply_refund_object now s event_id account_id d ≡ ok t
      → Touches account_id d.orders t.1.orders
  unfolding apply_refund_object
  apply_refund_object-Touches now event_id s d t h =
      apply_found-Touches now event_id s (refund_for s d) d t h

  with_balance-keeps :
      (b : BalanceTransaction) (o : Order)
      → ((with_balance b o).id ≡ o.id)
        × ((with_balance b o).connected_account_id ≡ o.connected_account_id)
        × ((with_balance b o).status ≡ o.status)
  unfolding with_balance
  with_balance-keeps (BalanceTransaction.named id) o = (refl, refl, refl)
  with_balance-keeps (BalanceTransaction.expanded id fee details net) o = (refl, refl, refl)
  with_balance-keeps BalanceTransaction.null o = (refl, refl, refl)

  charge_found-Touches :
      (s : StripeObject) (r : Option Order) (d : Db) (t : Option Order × Db)
      → IsKeyed d.orders
      → order_from_object s d ≡ r
      → charge_found s account_id r d ≡ ok t
      → Touches account_id d.orders t.1.orders
  unfolding charge_found charged save_order
  charge_found-Touches s none d t v q h =
      none_saved (ap (λ (x : Option Order × Db). x.1.orders) (sym (ok_injective h)))
  charge_found-Touches s (some f) d t v q h =
      let (c, h1) = raise_if-eq-ok (is_foreign account_id f) account_mismatch _ h in
      let (o, fo, h2) = >>=-eq-ok (get_order d f.id) _ h1 in
      let (at, same) = get_order-at f.id d o fo in
      let one : f ≡ o = some_injective (sym (order_from_object-order_at s d f v q) ∙ at) in
      let (id, account, status) =
        with_balance-keeps s.balance_transaction
          (record o { stripe_charge_id = or_id s.id o.stripe_charge_id }) in
      subst (λ (x : Option Order × Db). Touches account_id d.orders x.1.orders) (ok_injective h2)
        (one_saved o (charged s o) (subst (λ i. order_at i d.orders ≡ some o) (sym (id ∙ same)) at)
          account (λ e. ap is_sold status ∙ e) (subst (λ y. is_foreign account_id y ≡ false) one c)
          refl)

  pub apply_charge-Touches :
      (s : StripeObject) (d : Db) (t : Option Order × Db)
      → IsKeyed d.orders
      → apply_charge s account_id d ≡ ok t
      → Touches account_id d.orders t.1.orders
  unfolding apply_charge
  apply_charge-Touches s d t v h = charge_found-Touches s (order_from_object s d) d t v refl h

  stored_orders :
      (s : StripeObject) (o : Order) (x : Option Dispute) (d : Db)
      → (store_dispute s o x d).1.orders ≡ d.orders
  unfolding store_dispute
  stored_orders s o none d = refl
  stored_orders s o (some x) d = refl

  disputed_sold :
      (closed : Bool) (x : Dispute) (o : Order) → is_sold (disputed closed x o).status ≡ true
  unfolding disputed
  disputed_sold closed x o = ground arith

  dispute_order-Touches :
      (s : StripeObject) (closed : Bool) (o : Order) (d : Db)
      → order_at o.id d.orders ≡ some o
      → is_foreign account_id o ≡ false
      → Touches account_id d.orders (dispute_order s closed o d).1.orders
  unfolding dispute_order update_or_create_dispute save_order record_order_transition disputed
  dispute_order-Touches s closed o d at own =
      let x = find (λ (x : Dispute). x.stripe_dispute_id == s.id) d.disputes in
      one_saved o _ at refl (λ e. disputed_sold closed (store_dispute s o x d).0 o) own
        (ap
          (update_if (λ (y : Order). y.id == o.id)
            (λ y. disputed closed (store_dispute s o x d).0 o))
          (stored_orders s o x d))

  dispute_found-Touches :
      (s : StripeObject) (closed : Bool) (r : Option Order) (d : Db) (t : Option Dispute × Db)
      → IsKeyed d.orders
      → find_last (is_disputed_by s) d.orders ≡ r
      → dispute_found s closed account_id r d ≡ ok t
      → Touches account_id d.orders t.1.orders
  unfolding dispute_found
  dispute_found-Touches s closed none d t v q h =
      none_saved (ap (λ (x : Option Dispute × Db). x.1.orders) (sym (ok_injective h)))
  dispute_found-Touches s closed (some o) d t v q h =
      let (c, h1) = raise_if-eq-ok (is_foreign account_id o) account_mismatch _ h in
      subst (λ (x : Option Dispute × Db). Touches account_id d.orders x.1.orders) (ok_injective h1)
        (dispute_order-Touches s closed o d (find_last-order_at (is_disputed_by s) d.orders o v q)
          c)

  pub apply_dispute-Touches :
      (s : StripeObject) (closed : Bool) (d : Db) (t : Option Dispute × Db)
      → IsKeyed d.orders
      → apply_dispute s closed account_id d ≡ ok t
      → Touches account_id d.orders t.1.orders
  unfolding apply_dispute
  apply_dispute-Touches s closed d t v h =
      elim (Bool-cases (s.payment_intent == 0 && s.charge == 0)) [
        | inl q ↦
            none_saved
              (ap (λ (x : Option Dispute × Db). x.1.orders) (sym (ok_injective (rw q at h))))
        | inr q ↦ dispute_found-Touches s closed _ d t v refl (rw q at h)
      ]
