-- ===== src/Payments/Webhook/Events.antt =====
-- What the processing of a whole event saves of the orders.
use event_management.Base.{
  ℕ, ◌≡◌, refl, sym, ap, ◌∙◌, subst, Bool, true, false, Option, none, some, arith, inl, inr,
  Bool-cases, some_injective, Result, ok, err, >>=-eq-ok, raise_if-eq-ok, ok_injective,
}
use event_management.Schema.{Db}
use event_management.Schema.Payments.{ConnectedAccount, Order}
use event_management.Schema.Members.{MemberSubscription, MembershipPayment}
use event_management.Payments.Errors.{Error, account_mismatch, integrity_error}
use event_management.Payments.Orders.{fail_order, mark_order_paid}
use event_management.Payments.Orders.Status.{order_at}
use event_management.Payments.Refunds.{is_foreign, apply_refund_object}
use event_management.Payments.Objects.{
  StripeObject, AccountObject, as_payment, as_refund, order_from_object,
}
use event_management.Payments.Accounts.{
  synchronize_connected_account, synchronize_found, mark_connected_account_disconnected,
  get_account, save_connected_account,
}
use event_management.Payments.Disputes.{apply_charge, apply_dispute}
use event_management.Payments.Dues.{
  apply_member_subscription, member_found, member_subscription_from_object, reported_membership,
  is_taken, is_foreign_member, save_membership, apply_member_invoice, invoice_found, store_payment,
}
use event_management.Payments.Webhook.{
  ConnectEventType, Surroundings, ConnectEvent, tables, deauthorize, deauthorized, pay_if, fail_if,
  handle_checkout, handle_event, is_of_another, handle_order_event, apply_connect_event,
}
use event_management.Payments.Webhook.Touches.{Touches, none_saved, IsKeyed}
use event_management.Payments.Webhook.Handlers.{
  order_from_object-order_at, fail_order-Touches, mark_order_paid-Touches,
  apply_refund_object-Touches, apply_charge-Touches, apply_dispute-Touches,
}

-- A handler, without what it returns.
pub tables-ok {ℓ} :
    {A : Type ℓ} (r : Result Error (A × Db)) {d : Db} → tables r ≡ ok d → (a : A) × (r ≡ ok (a, d))
tables-ok (ok (a, d)) h = (a, ap (λ x. ok (a, x)) (ok_injective h))
tables-ok (err e) h = cc

store_payment-orders :
    (s : StripeObject) (paid : Bool) (x : MemberSubscription) (p : Option MembershipPayment)
    (d : Db)
    → (store_payment s paid x p d).orders ≡ d.orders
unfolding store_payment
store_payment-orders s paid x none d = refl
store_payment-orders s paid x (some p) d = refl

invoice_found-orders :
    (s : StripeObject) (paid : Bool) (a : ℕ) (r : Option MemberSubscription) (d : Db)
    (t : Option MemberSubscription × Db)
    → invoice_found s paid a r d ≡ ok t
    → t.1.orders ≡ d.orders
unfolding invoice_found save_membership
invoice_found-orders s paid a none d t h =
    ap (λ (x : Option MemberSubscription × Db). x.1.orders) (sym (ok_injective h))
invoice_found-orders s paid a (some x) d t h =
    let (c, h1) = raise_if-eq-ok (is_foreign_member a x) account_mismatch _ h in
    ap (λ (x : Option MemberSubscription × Db). x.1.orders) (sym (ok_injective h1))
    ∙ store_payment-orders s paid x _ _

pub member_found-orders :
    (s : StripeObject) (a : ℕ) (r : Option MemberSubscription) (d : Db)
    (t : Option MemberSubscription × Db)
    → member_found s a r d ≡ ok t
    → t.1.orders ≡ d.orders
unfolding member_found save_membership
member_found-orders s a none d t h =
    ap (λ (x : Option MemberSubscription × Db). x.1.orders) (sym (ok_injective h))
member_found-orders s a (some x) d t h =
    let (c, h1) = raise_if-eq-ok (is_foreign_member a x) account_mismatch _ h in
    let (c2, h2) = raise_if-eq-ok (is_taken (reported_membership s x) d) integrity_error _ h1 in
    ap (λ (x : Option MemberSubscription × Db). x.1.orders) (sym (ok_injective h2))

synchronize_found-orders :
    (upper : ℕ → ℕ) (now : ℕ) (a : AccountObject) (c : Option ConnectedAccount) (d : Db)
    → (synchronize_found upper now a none c d).1.orders ≡ d.orders
unfolding synchronize_found save_connected_account
synchronize_found-orders upper now a none d = refl
synchronize_found-orders upper now a (some c) d = refl

deauthorize-orders :
    (w : Surroundings) (c : Option ConnectedAccount) (d d' : Db)
    → deauthorize w c d ≡ ok d'
    → d'.orders ≡ d.orders
unfolding deauthorize mark_connected_account_disconnected save_connected_account
deauthorize-orders w none d d' h = ap (λ (x : Db). x.orders) (sym (ok_injective h))
deauthorize-orders w (some c) d d' h =
    let (c', h1) = tables-ok (mark_connected_account_disconnected w.now c.id deauthorized d) h in
    let (x, hx, h2) = >>=-eq-ok (get_account d c.id) _ h1 in
    ap (λ (y : ConnectedAccount × Db). y.1.orders) (sym (ok_injective h2))

module _ (w : Surroundings) (e : ConnectEvent) (d d' : Db) (v : IsKeyed d.orders) where
  -- The order of the event is the account's own.
  Owns : Option Order → Type 0
  Owns none = Unit
  Owns (some o) = (order_at o.id d.orders ≡ some o) × (is_foreign e.account o ≡ false)

  own_at :
      (o : Order)
      → Owns (some o)
      → (x : Order) → order_at o.id d.orders ≡ some x
      → is_foreign e.account x ≡ false
  unfolding Owns
  own_at o (at, own) x f =
      subst (λ y. is_foreign e.account y ≡ false) (some_injective (sym at ∙ f)) own

  pay_if-Touches :
      (b : Bool) (o : Option Order)
      → Owns o
      → pay_if w e b o d ≡ ok d'
      → Touches e.account d.orders d'.orders
  unfolding pay_if
  pay_if-Touches true (some o) u h =
      let (t, h1) =
        tables-ok (mark_order_paid w.now w.codes o.id (some (as_payment e.object)) e.id d) h in
      mark_order_paid-Touches e.account o.id w.now e.id w.codes _ d (t, d') (own_at o u) h1
  pay_if-Touches true none u h = none_saved (ap (λ (x : Db). x.orders) (sym (ok_injective h)))
  pay_if-Touches false o u h = none_saved (ap (λ (x : Db). x.orders) (sym (ok_injective h)))

  fail_if-Touches :
      (b : Bool) (o : Option Order)
      → Owns o
      → fail_if e b o d ≡ ok d'
      → Touches e.account d.orders d'.orders
  unfolding fail_if
  fail_if-Touches b none u h = none_saved (ap (λ (x : Db). x.orders) (sym (ok_injective h)))
  fail_if-Touches b (some o) u h =
      let (t, h1) = tables-ok (fail_order o.id e.id b d) h in
      fail_order-Touches e.account o.id e.id b d (t, d') (own_at o u) h1

  member-Touches :
      tables (apply_member_subscription e.object e.account d) ≡ ok d'
      → Touches e.account d.orders d'.orders
  unfolding apply_member_subscription
  member-Touches h =
      let (t, h1) = tables-ok (apply_member_subscription e.object e.account d) h in
      none_saved (
        member_found-orders e.object e.account (member_subscription_from_object e.object d) d
          (t, d') h1)

  invoice-Touches :
      (paid : Bool)
      → tables (apply_member_invoice e.object paid e.account d) ≡ ok d'
      → Touches e.account d.orders d'.orders
  unfolding apply_member_invoice
  invoice-Touches paid h =
      let (t, h1) = tables-ok (apply_member_invoice e.object paid e.account d) h in
      none_saved (invoice_found-orders e.object paid e.account _ d (t, d') h1)

  checkout-Touches :
      (b : Bool) (o : Option Order)
      → Owns o
      → handle_checkout w e b o d ≡ ok d'
      → Touches e.account d.orders d'.orders
  unfolding handle_checkout apply_member_subscription
  checkout-Touches b o u h = elim (Bool-cases e.object.is_membership) [
    | inl t ↦ member-Touches (rw t at h)
    | inr t ↦ pay_if-Touches b o u (rw t at h)
  ]

  dispute-Touches :
      (closed : Bool)
      → tables (apply_dispute e.object closed e.account d) ≡ ok d'
      → Touches e.account d.orders d'.orders
  dispute-Touches closed h =
      let (t, h1) = tables-ok (apply_dispute e.object closed e.account d) h in
      apply_dispute-Touches e.account e.object closed d (t, d') v h1

  same-Touches : ◌≡◌ {A = Result Error Db} (ok d) (ok d') → Touches e.account d.orders d'.orders
  same-Touches h = none_saved (ap (λ (x : Db). x.orders) (sym (ok_injective h)))

  handle_event-Touches :
      (type : ConnectEventType) (o : Option Order)
      → Owns o
      → handle_event w e type o d ≡ ok d'
      → Touches e.account d.orders d'.orders
  unfolding handle_event
  handle_event-Touches ConnectEventType.account_updated o u h = same-Touches h
  handle_event-Touches ConnectEventType.application_deauthorized o u h = same-Touches h
  handle_event-Touches ConnectEventType.unknown_type o u h = same-Touches h
  handle_event-Touches ConnectEventType.checkout_completed o u h =
      checkout-Touches e.object.is_paid o u h
  handle_event-Touches ConnectEventType.checkout_async_succeeded o u h = checkout-Touches true o u h
  handle_event-Touches ConnectEventType.checkout_expired o u h = fail_if-Touches true o u h
  handle_event-Touches ConnectEventType.checkout_async_failed o u h = fail_if-Touches false o u h
  handle_event-Touches ConnectEventType.intent_succeeded o u h = pay_if-Touches true o u h
  handle_event-Touches ConnectEventType.intent_failed o u h = fail_if-Touches false o u h
  handle_event-Touches ConnectEventType.charge_succeeded o u h =
      let (t, h1) = tables-ok (apply_charge e.object e.account d) h in
      apply_charge-Touches e.account e.object d (t, d') v h1
  handle_event-Touches ConnectEventType.refund_reported o u h =
      let (t, h1) = tables-ok (apply_refund_object w.now (as_refund e.object) e.id e.account d) h in
      apply_refund_object-Touches e.account w.now e.id (as_refund e.object) d (t, d') h1
  handle_event-Touches ConnectEventType.customer_subscription o u h = member-Touches h
  handle_event-Touches ConnectEventType.invoice_paid o u h = invoice-Touches true h
  handle_event-Touches ConnectEventType.invoice_failed o u h = invoice-Touches false h
  handle_event-Touches ConnectEventType.dispute_reported o u h = dispute-Touches false h
  handle_event-Touches ConnectEventType.dispute_closed o u h = dispute-Touches true h

  owned :
      (o : Option Order)
      → order_from_object e.object d ≡ o
      → is_of_another e.account o ≡ false
      → Owns o
  unfolding Owns
  owned none q c = tt
  owned (some o) q c = (order_from_object-order_at e.object d o v q, ground arith)

  order_event-Touches :
      handle_order_event w e (order_from_object e.object d) d ≡ ok d'
      → Touches e.account d.orders d'.orders
  unfolding handle_order_event
  order_event-Touches h =
      let (c, h1) =
        raise_if-eq-ok (is_of_another e.account (order_from_object e.object d)) account_mismatch _
          h in
      handle_event-Touches e.type (order_from_object e.object d) (owned _ refl c) h1

  pub apply_connect_event-Touches :
      (type : ConnectEventType)
      → apply_connect_event w e type d ≡ ok d'
      → Touches e.account d.orders d'.orders
  unfolding apply_connect_event synchronize_connected_account
  apply_connect_event-Touches ConnectEventType.account_updated h = none_saved (
      ap (λ (x : Db). x.orders) (sym (ok_injective h))
      ∙ synchronize_found-orders w.upper w.now e.object.account _ d)
  apply_connect_event-Touches ConnectEventType.application_deauthorized h =
      none_saved (deauthorize-orders w _ d d' h)
  apply_connect_event-Touches _ h = order_event-Touches h
