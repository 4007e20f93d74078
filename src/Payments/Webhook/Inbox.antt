-- ===== src/Payments/Webhook/Inbox.antt =====
-- payments/services.py: an event of a connected account that is delivered again, and one that fails.
use event_management.Base.{
  ℕ, ◌+◌, ◌≡◌, refl, sym, ap, subst, true, Option, none, some, List, [], ◌∷◌, ◌==◌, find, find_end,
  update_if, arith, inl, inr, Bool-cases, find-test, ==_iff, ==_refl, Result, ok, err,
}
use event_management.Schema.{Db}
use event_management.Schema.Payments.{Order}
use event_management.Payments.Errors.{Error}
use event_management.Payments.Orders.Status.{order_at, IsSold}
use event_management.Payments.Refunds.{is_foreign}
use event_management.Payments.Webhook.{
  Surroundings, ConnectEvent, ConnectStatus, ConnectWebhookEvent, Commerce, apply_connect_event,
  is_processed, row_found_or_created, connect_row, close_connect_event, save_connect_event,
  process_connect_event, new_connect_event,
}
use event_management.Payments.Webhook.Touches.{
  Touches, none_saved, IsKeyed, Touches-IsSold, Touches-foreign, Touches-IsKeyed,
}
use event_management.Payments.Webhook.Events.{apply_connect_event-Touches}

find-store :
    (k : ℕ) (v x : ConnectWebhookEvent) (xs : List ConnectWebhookEvent)
    → v.stripe_event_id ≡ k
    → find (λ (y : ConnectWebhookEvent). y.stripe_event_id == k) xs ≡ some x
    → find
        (λ (y : ConnectWebhookEvent). y.stripe_event_id == k)
        (update_if (λ y. y.stripe_event_id == v.stripe_event_id) (λ y. v) xs)
      ≡ some v
unfolding find update_if
find-store k v x [] h f = cc
find-store k v x (y ∷ ys) h f = ground (arith, find-store k v x ys, ==_refl k)

saved_row :
    (k : ℕ) (v x : ConnectWebhookEvent) (m : Commerce)
    → v.stripe_event_id ≡ k
    → connect_row k m ≡ some x
    → connect_row k (save_connect_event v m) ≡ some v
unfolding connect_row save_connect_event
saved_row k v x m h f = find-store k v x m.inbox h f

-- The row that an event finds or creates.
created_row :
    (e : ConnectEvent) (m : Commerce) (x : Option ConnectWebhookEvent)
    → connect_row e.id m ≡ x
    → (connect_row e.id (row_found_or_created e x m).1 ≡ some (row_found_or_created e x m).0)
      × ((row_found_or_created e x m).0.stripe_event_id ≡ e.id)
      × ((row_found_or_created e x m).1.db ≡ m.db)
unfolding row_found_or_created connect_row new_connect_event
created_row e m none h = (find_end _ (new_connect_event e) m.inbox h (==_refl e.id), refl, refl)
created_row e m (some x) h = (h, (==_iff x.stripe_event_id e.id).0 (find-test _ m.inbox x h), refl)

-- What the processing of an event leaves in the inbox.
abbrev pub IsClosed : ℕ → Commerce → Result Error ConnectWebhookEvent × Commerce → Type 0
IsClosed id m (ok x, m') = (connect_row id m' ≡ some x) × (is_processed x.status ≡ true)
IsClosed id m (err raised, m') =
    (m'.db ≡ m.db)
    × ((x : ConnectWebhookEvent) × (connect_row id m' ≡ some x) × (x.status ≡ ConnectStatus.failed))

close_connect_event-IsClosed :
    (now id : ℕ) (x : ConnectWebhookEvent) (m m1 : Commerce) (r : Result Error Db)
    → x.stripe_event_id ≡ id
    → connect_row id m1 ≡ some x
    → m1.db ≡ m.db
    → IsClosed id m (close_connect_event now x m1 r)
unfolding close_connect_event connect_row save_connect_event
close_connect_event-IsClosed now id x m m1 (ok d) h f g = (
  find-store id
      (record x {
        status = ConnectStatus.processed;
        attempts = x.attempts + 1;
        processed_at = some now;
      })
      x m1.inbox h f,
  refl,
)
close_connect_event-IsClosed now id x m m1 (err raised) h f g =
    let failed = record x { status = ConnectStatus.failed; attempts = x.attempts + 1 } in
    (g, (failed, find-store id failed x m1.inbox h f, refl))

process_connect_event-IsClosed :
    (w : Surroundings) (e : ConnectEvent) (m : Commerce)
    → IsClosed e.id m (process_connect_event w e m)
unfolding process_connect_event
process_connect_event-IsClosed w e m =
    let (x, m1) = row_found_or_created e (connect_row e.id m) m in
    let (f, h, g) = created_row e m (connect_row e.id m) refl in
    elim (Bool-cases (is_processed x.status)) [
      | inl t ↦ rw t (f, t)
      | inr t ↦ rw t (
          close_connect_event-IsClosed w.now e.id x m m1 (apply_connect_event w e e.type m1.db) h f
            g)
    ]

processed_again :
    (w : Surroundings) (e : ConnectEvent) (m : Commerce) (x : ConnectWebhookEvent)
    → connect_row e.id m ≡ some x
    → is_processed x.status ≡ true
    → process_connect_event w e m ≡ (ok x, m)
unfolding process_connect_event row_found_or_created
processed_again w e m x f t = rw (f, t) refl

-- An event of a connected account that has been accepted and is delivered again under its id, later
-- and with whatever contents, returns the same row and changes nothing. One that has raised has left
-- all tables but the inbox as they were, and is marked as failed there.
pub process_connect_event_again :
    (w w' : Surroundings) (e e' : ConnectEvent) (m m' : Commerce)
    (r : Result Error ConnectWebhookEvent)
    → e'.id ≡ e.id
    → process_connect_event w e m ≡ (r, m')
    → ((x : ConnectWebhookEvent) → r ≡ ok x → process_connect_event w' e' m' ≡ (ok x, m'))
      × ((raised : Error)
          → r ≡ err raised
          → (m'.db ≡ m.db)
            × ((x : ConnectWebhookEvent) × (connect_row e.id m' ≡ some x)
                × (x.status ≡ ConnectStatus.failed)))
process_connect_event_again w w' e e' m m' r same h =
    let closed : IsClosed e.id m (r, m') =
      subst (IsClosed e.id m) h (process_connect_event-IsClosed w e m) in
    (
      λ x q.
          let (f, t) = subst (λ y. IsClosed e.id m (y, m')) q closed in
          processed_again w' e' m' x (subst (λ i. connect_row i m' ≡ some x) (sym same) f) t,
      λ raised q. subst (λ y. IsClosed e.id m (y, m')) q closed,
    )

-- What an event may do to the orders.
pub record KeepsOrders (account_id : ℕ) (xs xs' : List Order) : Type 0 where
  pub sold : (k : ℕ) → IsSold k xs → IsSold k xs'
  pub foreign :
      (k : ℕ) (o : Order)
      → order_at k xs ≡ some o
      → is_foreign account_id o ≡ true
      → order_at k xs' ≡ some o
  pub keyed : IsKeyed xs'

Touches-KeepsOrders :
    (account_id : ℕ) (xs xs' : List Order)
    → IsKeyed xs
    → Touches account_id xs xs'
    → KeepsOrders account_id xs xs'
Touches-KeepsOrders a xs xs' v t = record {
  sold = λ k. Touches-IsSold a k xs xs' t;
  foreign = λ k o. Touches-foreign a k xs xs' o t;
  keyed = Touches-IsKeyed a xs xs' t v;
}

close-Touches :
    (now a : ℕ) (x : ConnectWebhookEvent) (m : Commerce) (r : Result Error Db)
    → ((d : Db) → r ≡ ok d → Touches a m.db.orders d.orders)
    → Touches a m.db.orders (close_connect_event now x m r).1.db.orders
unfolding close_connect_event save_connect_event
close-Touches now a x m (ok d) h = h d refl
close-Touches now a x m (err raised) h = none_saved refl

pub process-Touches :
    (w : Surroundings) (e : ConnectEvent) (m : Commerce)
    → IsKeyed m.db.orders
    → Touches e.account m.db.orders (process_connect_event w e m).1.db.orders
unfolding process_connect_event
process-Touches w e m v =
    let (x, m1) = row_found_or_created e (connect_row e.id m) m in
    let (f, h, g) = created_row e m (connect_row e.id m) refl in
    elim (Bool-cases (is_processed x.status)) [
      | inl t ↦ rw t (none_saved (ap (λ (d : Db). d.orders) g))
      | inr t ↦ rw t (
          subst
            (λ (d : Db).
              Touches e.account d.orders
                (close_connect_event w.now x m1 (apply_connect_event w e e.type m1.db)).1.db.orders)
            g
            (close-Touches w.now e.account x m1 (apply_connect_event w e e.type m1.db) (λ d.
              apply_connect_event-Touches w e m1.db d
                (subst (λ (d : Db). IsKeyed d.orders) (sym g) v) e.type)))
    ]

-- Whatever an event of a connected account says, an order that was sold is sold afterwards. If the
-- event names an account, every order of another account stays as it was. Order ids stay distinct,
-- which is assumed of the orders before.
pub process_connect_event-KeepsOrders :
    (w : Surroundings) (e : ConnectEvent) (m : Commerce)
    → IsKeyed m.db.orders
    → KeepsOrders e.account m.db.orders (process_connect_event w e m).1.db.orders
process_connect_event-KeepsOrders w e m v =
    Touches-KeepsOrders e.account m.db.orders _ v (process-Touches w e m v)
