-- ===== src/Payments/Disputes/Settled.antt =====
-- payments/services.py: what a dispute makes of the order, whatever status that had.
use event_management.Base.{
  ℕ, ◌↔◌, ◌⊎◌, inl, inr, ◌≡◌, refl, ◌∙◌, subst, Bool, true, false, ◌&&◌, Option, none, some, List,
  [], ◌∷◌, ◌==◌, if◌then◌else◌, find, find_end, find_last, update_if, arith, ==_refl, ok,
  raise_if-eq-ok, ok_injective,
}
use event_management.Schema.{Db}
use event_management.Schema.Payments.{Order, OrderStatus, Dispute}
use event_management.Payments.Errors.{account_mismatch}
use event_management.Payments.Orders.{save_order, record_order_transition}
use event_management.Payments.Orders.Status.{order_at, order_at-update}
use event_management.Payments.Refunds.{is_foreign}
use event_management.Payments.Objects.{StripeObject, StatusText, dispute_status}
use event_management.Payments.Disputes.{
  is_disputed_by, new_dispute, store_dispute, update_or_create_dispute, disputed, dispute_order,
  dispute_found, apply_dispute, is_resolved,
}
use event_management.Payments.Webhook.Touches.{IsKeyed, find_last-order_at}

find-store :
    (q : Dispute → Bool) (v x : Dispute) (xs : List Dispute)
    → find q xs ≡ some x
    → q v ≡ true
    → find q (update_if (λ (y : Dispute). y.id == x.id) (λ y. v) xs) ≡ some v
unfolding find update_if
find-store q v x [] f t = cc
find-store q v x (y ∷ ys) f t = ground (arith, find-store q v x ys, ==_refl x.id)

-- The dispute as it is stored.
record Stored (s : StripeObject) (o : Order) (d : Db) (r : Dispute × Db) : Type 0 where
  row : find (λ (x : Dispute). x.stripe_dispute_id == s.id) r.1.disputes ≡ some r.0
  of_order : r.0.order_id ≡ o.id
  amount : r.0.amount_cents ≡ s.amount
  status : r.0.status ≡ dispute_status s.status
  orders : r.1.orders ≡ d.orders

store_dispute-Stored :
    (s : StripeObject) (o : Order) (x : Option Dispute) (d : Db)
    → find (λ (x : Dispute). x.stripe_dispute_id == s.id) d.disputes ≡ x
    → Stored s o d (store_dispute s o x d)
unfolding store_dispute new_dispute
store_dispute-Stored s o none d f = record {
  row = find_end _ (new_dispute d.next_id s o) d.disputes f (==_refl s.id);
  of_order = refl;
  amount = refl;
  status = refl;
  orders = refl;
}
store_dispute-Stored s o (some x) d f = record {
  row = find-store _ (new_dispute x.id s o) x d.disputes f (==_refl s.id);
  of_order = refl;
  amount = refl;
  status = refl;
  orders = refl;
}

-- What a report of a dispute leaves, given the order that it is about.
pub record Settled (s : StripeObject) (closed : Bool) (o : Order) (d d' : Db) : Type 0 where
  pub dispute : Dispute
  pub row : find (λ (x : Dispute). x.stripe_dispute_id == s.id) d'.disputes ≡ some dispute
  pub of_order : dispute.order_id ≡ o.id
  pub amount : dispute.amount_cents ≡ s.amount
  pub after : Order
  pub order : order_at o.id d'.orders ≡ some after
  pub same : after ≡ record o { status = after.status }
  pub paid :
      (after.status ≡ OrderStatus.paid)
      ↔ ((closed ≡ true) × ((s.status ≡ StatusText.won) ⊎ (s.status ≡ StatusText.warning_closed)))
  pub disputed_else : (after.status ≡ OrderStatus.paid) ⊎ (after.status ≡ OrderStatus.disputed)
  pub others : (k : ℕ) → (k == o.id) ≡ false → order_at k d'.orders ≡ order_at k d.orders

resolved_text :
    (t : StatusText)
    → (is_resolved (dispute_status t) ≡ true)
      ↔ ((t ≡ StatusText.won) ⊎ (t ≡ StatusText.warning_closed))
resolved_text StatusText.succeeded = ((λ h. cc), (λ h. elim h [ inl e ↦ cc | inr e ↦ cc ]))
resolved_text StatusText.pending = ((λ h. cc), (λ h. elim h [ inl e ↦ cc | inr e ↦ cc ]))
resolved_text StatusText.failed = ((λ h. cc), (λ h. elim h [ inl e ↦ cc | inr e ↦ cc ]))
resolved_text StatusText.canceled = ((λ h. cc), (λ h. elim h [ inl e ↦ cc | inr e ↦ cc ]))
resolved_text StatusText.incomplete = ((λ h. cc), (λ h. elim h [ inl e ↦ cc | inr e ↦ cc ]))
resolved_text StatusText.incomplete_expired = ((λ h. cc), (λ h. elim h [ inl e ↦ cc | inr e ↦ cc ]))
resolved_text StatusText.trialing = ((λ h. cc), (λ h. elim h [ inl e ↦ cc | inr e ↦ cc ]))
resolved_text StatusText.active = ((λ h. cc), (λ h. elim h [ inl e ↦ cc | inr e ↦ cc ]))
resolved_text StatusText.past_due = ((λ h. cc), (λ h. elim h [ inl e ↦ cc | inr e ↦ cc ]))
resolved_text StatusText.unpaid = ((λ h. cc), (λ h. elim h [ inl e ↦ cc | inr e ↦ cc ]))
resolved_text StatusText.paused = ((λ h. cc), (λ h. elim h [ inl e ↦ cc | inr e ↦ cc ]))
resolved_text StatusText.expired = ((λ h. cc), (λ h. elim h [ inl e ↦ cc | inr e ↦ cc ]))
resolved_text StatusText.won = ((λ h. inl refl), (λ h. refl))
resolved_text StatusText.warning_closed = ((λ h. inr refl), (λ h. refl))
resolved_text StatusText.unknown = ((λ h. cc), (λ h. elim h [ inl e ↦ cc | inr e ↦ cc ]))
resolved_text StatusText.missing = ((λ h. cc), (λ h. elim h [ inl e ↦ cc | inr e ↦ cc ]))

abbrev status_if : Bool → OrderStatus
status_if b = if b then OrderStatus.paid else OrderStatus.disputed

paid_if :
    (closed : Bool) (t : StatusText)
    → (status_if (closed && is_resolved (dispute_status t)) ≡ OrderStatus.paid)
      ↔ ((closed ≡ true) × ((t ≡ StatusText.won) ⊎ (t ≡ StatusText.warning_closed)))
paid_if false t = ((λ h. cc), (λ h. cc))
paid_if true t =
    ((λ h. (refl, (resolved_text t).0 (ground arith))), (λ h. rw ((resolved_text t).1 h.1) refl))

paid_or_disputed :
    (b : Bool) → (status_if b ≡ OrderStatus.paid) ⊎ (status_if b ≡ OrderStatus.disputed)
paid_or_disputed true = inl refl
paid_or_disputed false = inr refl

dispute_order-Settled :
    (s : StripeObject) (closed : Bool) (o : Order) (d : Db)
    → order_at o.id d.orders ≡ some o
    → Settled s closed o d (dispute_order s closed o d).1
unfolding dispute_order update_or_create_dispute save_order record_order_transition disputed
dispute_order-Settled s closed o d at =
    let x = find (λ (x : Dispute). x.stripe_dispute_id == s.id) d.disputes in
    let r = store_dispute s o x d in
    let t = store_dispute-Stored s o x d refl in
    let v = disputed closed r.0 o in
    record {
      dispute = r.0;
      row = t.row;
      of_order = t.of_order;
      amount = t.amount;
      after = record o { status = status_if (closed && is_resolved (dispute_status s.status)) };
      order = order_at-update o.id v r.1.orders ∙ rw (==_refl o.id, t.orders, at, t.status) refl;
      same = refl;
      paid = paid_if closed s.status;
      disputed_else = paid_or_disputed (closed && is_resolved (dispute_status s.status));
      others = λ k n. order_at-update k v r.1.orders ∙ rw (n, t.orders) refl;
    }

-- A report of a dispute that is accepted, about the order that the lookup by its payment intent or its charge
-- finds among orders with distinct ids: the dispute is stored under its id with its amount, and the order is
-- disputed, or paid if the report closes the dispute as won or as a warning, whatever status the
-- order had, also a refunded one. Nothing else of the order changes, and no other order.
pub apply_dispute-Settled :
    (s : StripeObject) (closed : Bool) (account_id : ℕ) (o : Order) (d d' : Db) (r : Option Dispute)
    → IsKeyed d.orders
    → find_last (is_disputed_by s) d.orders ≡ some o
    → (s.payment_intent == 0 && s.charge == 0) ≡ false
    → apply_dispute s closed account_id d ≡ ok (r, d')
    → Settled s closed o d d'
unfolding apply_dispute dispute_found
apply_dispute-Settled s closed account_id o d d' r v f n h =
    let (c, h1) = raise_if-eq-ok (is_foreign account_id o) account_mismatch _ (rw (n, f) at h) in
    subst (λ (x : Option Dispute × Db). Settled s closed o d x.1) (ok_injective h1)
      (dispute_order-Settled s closed o d (find_last-order_at (is_disputed_by s) d.orders o v f))
