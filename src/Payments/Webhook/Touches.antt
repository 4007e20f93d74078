-- ===== src/Payments/Webhook/Touches.antt =====
-- What the calls on orders save: at most one order, of an account that may, and never one that
-- is sold as one that is not.
use event_management.Base.{
  ℕ, ◌+◌, ◌≤◌, ◌≡◌, ◌⊎◌, refl, sym, ap, ◌∙◌, subst, Bool, true, false, Option, none, some, List, [],
  ◌∷◌, ◌==◌, if◌then◌else◌, find, find_last, count_if, count_if-update, update_if, arith, inl, inr,
  Bool-cases, ==_iff, ==_refl, some_injective,
}
use event_management.Schema.Payments.{Order, is_sold}
use event_management.Payments.Orders.Status.{order_at, order_at-update, IsSold, save-IsSold}
use event_management.Payments.Refunds.{is_foreign}

-- No two orders have the same id.
unfoldable pub IsKeyed : List Order → Type 0
IsKeyed xs = (k : ℕ) → count_if (λ (x : Order). x.id == k) xs ≤ 1

-- From the orders before to the orders after a call in the name of an account.
pub data Touches (account_id : ℕ) (xs xs' : List Order) : Type 0 where
  none_saved : xs' ≡ xs → Touches account_id xs xs'
  one_saved :
      (o v : Order)
      → order_at v.id xs ≡ some o
      → v.connected_account_id ≡ o.connected_account_id
      → (is_sold o.status ≡ true → is_sold v.status ≡ true)
      → is_foreign account_id o ≡ false
      → xs' ≡ update_if (λ (x : Order). x.id == v.id) (λ x. v) xs
      → Touches account_id xs xs'

-- What is sold stays sold.
pub Touches-IsSold :
    (account_id k : ℕ) (xs xs' : List Order)
    → Touches account_id xs xs'
    → IsSold k xs
    → IsSold k xs'
Touches-IsSold a k xs xs' (none_saved e) s = subst (IsSold k) (sym e) s
Touches-IsSold a k xs xs' (one_saved o v f c t n e) (x, g, s) = subst (IsSold k) (sym e) (
    save-IsSold k v xs
      (λ q.
        let same : x ≡ o = some_injective (sym g ∙ subst (λ i. order_at i xs ≡ some o) (sym q) f) in
        t (subst (λ (y : Order). is_sold y.status ≡ true) same s))
      (x, g, s))

-- The orders of other accounts are left alone.
pub Touches-foreign :
    (account_id k : ℕ) (xs xs' : List Order) (x : Order)
    → Touches account_id xs xs'
    → order_at k xs ≡ some x
    → is_foreign account_id x ≡ true
    → order_at k xs' ≡ some x
Touches-foreign a k xs xs' x (none_saved e) g n = ap (order_at k) e ∙ g
Touches-foreign a k xs xs' x (one_saved o v f c t m e) g n = elim (Bool-cases (k == v.id)) [
  | inr q ↦ ap (order_at k) e ∙ order_at-update k v xs ∙ rw q g
  | inl q ↦
      let at = subst (λ i. order_at i xs ≡ some o) (sym ((==_iff k v.id).0 q)) f in
      let same : x ≡ o = some_injective (sym g ∙ at) in
      let own : is_foreign a x ≡ false = subst (λ y. is_foreign a y ≡ false) (sym same) m in
      absurd (clash (is_foreign a x) n own)
]
  where
    clash : (b : Bool) → b ≡ true → b ≡ false → ⊥
    clash b t f = cc

pub Touches-IsKeyed :
    (account_id : ℕ) (xs xs' : List Order) → Touches account_id xs xs' → IsKeyed xs → IsKeyed xs'
unfolding IsKeyed
Touches-IsKeyed a xs xs' (none_saved e) v = subst IsKeyed (sym e) v
Touches-IsKeyed a xs xs' (one_saved o w f c t m e) v = subst IsKeyed (sym e) (λ k.
    subst (λ n. n ≤ 1)
      (sym (
        count_if-update (λ (x : Order). x.id == k) (λ (x : Order). x.id == k)
          (λ (x : Order). x.id == w.id) (λ x. w) xs (same_key w k)))
      (v k))
  where
    same_key :
        (w : Order) (k : ℕ) (x : Order) → ((if x.id == w.id then w else x).id == k) ≡ (x.id == k)
    same_key w k x = elim (Bool-cases (x.id == w.id)) [
      | inl t ↦ rw (t, (==_iff x.id w.id).0 t) refl
      | inr t ↦ rw t refl
    ]

-- The newest of several rows is among the later ones, or it is the first.
pick :
    (r : Option Order) (b : Bool) (x o : Order)
    → (elim r [ some y ↦ some y | none ↦ (if b then some x else none) ]) ≡ some o
    → (r ≡ some o) ⊎ (x ≡ o)
pick (some y) b x o e = inl e
pick none true x o e = inr (some_injective e)
pick none false x o e = cc

find_last-cons :
    (p : Order → Bool) (x : Order) (xs : List Order) (o : Order)
    → find_last p (x ∷ xs) ≡ some o
    → (find_last p xs ≡ some o) ⊎ (x ≡ o)
unfolding find_last
find_last-cons p x xs o e = pick (find_last p xs) (p x) x o e

-- A row that a query finds is counted.
find_last-count :
    (p : Order → Bool) (xs : List Order) (o : Order)
    → find_last p xs ≡ some o
    → 1 ≤ count_if (λ (x : Order). x.id == o.id) xs
unfolding find_last count_if
find_last-count p [] o e = cc
find_last-count p (x ∷ xs) o e = elim (find_last-cons p x xs o e) [
  | inl f ↦ omega (arith, find_last-count p xs o f)
  | inr q ↦ rw (q, ==_refl o.id) (omega arith)
]

-- The newest row that a query finds is the one with its id.
pub find_last-order_at :
    (p : Order → Bool) (xs : List Order) (o : Order)
    → IsKeyed xs
    → find_last p xs ≡ some o
    → order_at o.id xs ≡ some o
unfolding IsKeyed find_last order_at find count_if
find_last-order_at p [] o v e = cc
find_last-order_at p (x ∷ xs) o v e = elim (find_last-cons p x xs o e) [
  | inr q ↦ rw (q, ==_refl o.id) refl
  | inl f ↦ elim (Bool-cases (x.id == o.id)) [
    | inr n ↦ rw n (find_last-order_at p xs o (λ k. omega (arith, v k)) f)
    | inl t ↦
        let w : (if x.id == o.id then 1 else 0) + count_if (λ (y : Order). y.id == o.id) xs ≤ 1 =
          v o.id in
        let twice = rw t at w in absurd (omega (arith, twice, find_last-count p xs o f))
  ]
]
