-- ===== src/Payments/Orders/Status.antt =====
-- The status of an order: what is sold stays sold.
use event_management.Base.{
  ℕ, ◌≡◌, refl, sym, ◌∙◌, subst, Bool, true, Option, none, some, List, [], ◌∷◌, ◌==◌, if◌then◌else◌,
  find, update_if, arith, ok, inl, inr, Bool-cases, >>=-eq-ok, or_raise-eq-ok, ok_injective,
  find-test, ==_iff, some_injective,
}
use event_management.Schema.{Db}
use event_management.Schema.Payments.{Order, OrderStatus, is_sold, is_pending}
use event_management.Payments.Orders.{
  get_order, fail, fail_order, expire_all, release_expired_holds, PaymentObject, complete_ids,
  paid_order,
}

unfoldable pub order_at : ℕ → List Order → Option Order
order_at k = find (λ (o : Order). o.id == k)

abbrev pub replace : Option Order → Order → Option Order
replace none o = none
replace (some _) o = some o

-- A row that is saved takes the place of the row with its id.
pub order_at-update :
    (k : ℕ) (v : Order) (xs : List Order)
    → order_at k (update_if (λ (x : Order). x.id == v.id) (λ x. v) xs)
      ≡ (if k == v.id then replace (order_at k xs) v else order_at k xs)
unfolding order_at find update_if
order_at-update k v [] = ground arith
order_at-update k v (x ∷ xs) = ground (arith, order_at-update k v xs)

-- The order is in the table, and sold.
abbrev pub IsSold : ℕ → List Order → Type 0
IsSold k xs = (o : Order) × (order_at k xs ≡ some o) × (is_sold o.status ≡ true)

-- Saving a sold order, or another one, keeps what is sold.
pub save-IsSold :
    (k : ℕ) (v : Order) (xs : List Order)
    → (k ≡ v.id → is_sold v.status ≡ true)
    → IsSold k xs
    → IsSold k (update_if (λ (x : Order). x.id == v.id) (λ x. v) xs)
save-IsSold k v xs h (o, f, s) = elim (Bool-cases (k == v.id)) [
  | inl t ↦ (v, order_at-update k v xs ∙ (rw (t, f) refl), h ((==_iff k v.id).0 t))
  | inr t ↦ (o, order_at-update k v xs ∙ (rw (t) f), s)
]

-- The row that `get` reads.
pub get_order-at :
    (k : ℕ) (d : Db) (o : Order)
    → get_order d k ≡ ok o
    → (order_at k d.orders ≡ some o) × (o.id ≡ k)
unfolding get_order order_at
get_order-at k d o h =
    let f = or_raise-eq-ok _ _ h in
    (f, (==_iff o.id k).0 (find-test (λ (o : Order). o.id == k) d.orders o f))

pending_not_sold :
    (k : ℕ) (o : Order) (xs : List Order)
    → order_at o.id xs ≡ some o
    → is_pending o.status ≡ true
    → k ≡ o.id
    → IsSold k xs
    → ⊥
pending_not_sold k o xs f p e (x, g, s) =
    let same : x ≡ o = some_injective (sym g ∙ (rw e f)) in
    let sold : is_sold o.status ≡ true = subst (λ (y : Order). is_sold y.status ≡ true) same s in
    ground arith

fail-IsSold :
    (k : ℕ) (o : Order) (event_id : ℕ) (expired : Bool) (d : Db)
    → order_at o.id d.orders ≡ some o
    → IsSold k d.orders
    → IsSold k (fail o event_id expired d).1.orders
unfolding fail
fail-IsSold k o event_id expired d f s = elim (Bool-cases (is_pending o.status)) [
  | inr p ↦ rw p s
  | inl p ↦ rw p (save-IsSold k _ d.orders (λ e. absurd (pending_not_sold k o d.orders f p e s)) s)
]

-- An order that fails or expires un-sells nothing: every order that was sold is sold still.
pub fail_order-IsSold :
    (k j event_id : ℕ) (expired : Bool) (d : Db) (t : Order × Db)
    → fail_order j event_id expired d ≡ ok t
    → IsSold k d.orders
    → IsSold k t.1.orders
unfolding fail_order
fail_order-IsSold k j event_id expired d t h s =
    let (o, fo, h1) = >>=-eq-ok (get_order d j) _ h in
    let (at, same) = get_order-at j d o fo in
    subst (λ (x : Order × Db). IsSold k x.1.orders) (ok_injective h1)
      (fail-IsSold k o event_id expired d (subst (λ i. order_at i d.orders ≡ some o) (sym same) at)
        s)

expire_all-IsSold :
    (k : ℕ) (ids : List ℕ) (d d' : Db)
    → expire_all ids d ≡ ok d'
    → IsSold k d.orders
    → IsSold k d'.orders
unfolding expire_all
expire_all-IsSold k [] d d' h s = subst (λ (x : Db). IsSold k x.orders) (ok_injective h) s
expire_all-IsSold k (j ∷ ids) d d' h s =
    let (t, ft, h1) = >>=-eq-ok (fail_order j 0 true d) _ h in
    expire_all-IsSold k ids t.1 d' h1 (fail_order-IsSold k j 0 true d t ft s)

-- The sweep of expired holds leaves every order sold that was sold.
pub release_expired_holds-IsSold :
    (k now : ℕ) (d d' : Db)
    → release_expired_holds now d ≡ ok d'
    → IsSold k d.orders
    → IsSold k d'.orders
unfolding release_expired_holds
release_expired_holds-IsSold k now d d' h s = expire_all-IsSold k _ d d' h s

pub complete_ids-keeps :
    (obj : Option PaymentObject) (o : Order)
    → ((complete_ids obj o).status ≡ o.status)
      × ((complete_ids obj o).id ≡ o.id)
      × ((complete_ids obj o).connected_account_id ≡ o.connected_account_id)
unfolding complete_ids
complete_ids-keeps none o = (refl, refl, refl)
complete_ids-keeps (some s) o = (refl, refl, refl)

pub paid_order-keeps :
    (now : ℕ) (obj : Option PaymentObject) (o : Order)
    → ((paid_order now obj o).status ≡ OrderStatus.paid)
      × ((paid_order now obj o).id ≡ o.id)
      × ((paid_order now obj o).connected_account_id ≡ o.connected_account_id)
unfolding paid_order
paid_order-keeps now none o = (refl, refl, refl)
paid_order-keeps now (some s) o = (refl, refl, refl)
