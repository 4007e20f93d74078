-- ===== src/Base/RowLaws.antt =====
-- How the queries of `Rows` see an update and an insertion.
use Prim.Native.Nat.{ℕ, ◌+◌, ◌≤◌}
use mathlib.Core.Path.{◌≡◌, refl, sym, subst}
use mathlib.Core.Bool.{Bool, true, false}
use mathlib.Core.Option.{none, some}
use mathlib.Core.List.{List, [], ◌∷◌, ◌++◌}
use native.Mathlib.Omega.{arith}
use event_management.Base.Tests.{if◌then◌else◌, Bool-cases}
use mathlib.Core.Logic.{inl, inr}
use event_management.Base.Outcome.{some_injective}
use event_management.Base.Rows.{length, find, any, count_if, sum_if, select, update_if, All}

module _ {ℓ} {A : Type ℓ} where
  pub length-append : (xs ys : List A) → length (xs ++ ys) ≡ length xs + length ys
  length-append [] ys = omega arith
  length-append (x ∷ xs) ys = omega (arith, length-append xs ys)

  pub count_if-append :
      (p : A → Bool) (xs ys : List A) → count_if p (xs ++ ys) ≡ count_if p xs + count_if p ys
  unfolding count_if
  count_if-append p [] ys = omega arith
  count_if-append p (x ∷ xs) ys = omega (arith, count_if-append p xs ys)

  pub sum_if-append :
      (p : A → Bool) (q : A → ℕ) (xs ys : List A)
      → sum_if p q (xs ++ ys) ≡ sum_if p q xs + sum_if p q ys
  unfolding sum_if
  sum_if-append p q [] ys = omega arith
  sum_if-append p q (x ∷ xs) ys = omega (arith, sum_if-append p q xs ys)

  -- A count after an update, when the update makes of `r` what `r` counts.
  pub count_if-update :
      (p r q : A → Bool) (f : A → A) (xs : List A)
      → ((x : A) → p (if q x then f x else x) ≡ r x)
      → count_if p (update_if q f xs) ≡ count_if r xs
  unfolding count_if update_if
  count_if-update p r q f [] h = refl
  count_if-update p r q f (x ∷ xs) h = rw (h x, count_if-update p r q f xs h)

  pub count_if_mono :
      (p r : A → Bool) (xs : List A)
      → ((x : A) → p x ≡ true → r x ≡ true)
      → count_if p xs ≤ count_if r xs
  unfolding count_if
  count_if_mono p r [] h = omega arith
  count_if_mono p r (x ∷ xs) h = ground (arith, h x, count_if_mono p r xs h)

  pub count_if-le-length : (p : A → Bool) (xs : List A) → count_if p xs ≤ length xs
  unfolding count_if
  count_if-le-length p [] = omega arith
  count_if-le-length p (x ∷ xs) = ground (arith, count_if-le-length p xs)

  pub any-append :
      (p : A → Bool) (xs ys : List A) → any p (xs ++ ys) ≡ (if any p xs then true else any p ys)
  unfolding any
  any-append p [] ys = refl
  any-append p (x ∷ xs) ys = ground (arith, any-append p xs ys)

  pub any-update :
      (p r q : A → Bool) (f : A → A) (xs : List A)
      → ((x : A) → p (if q x then f x else x) ≡ r x)
      → any p (update_if q f xs) ≡ any r xs
  unfolding any update_if
  any-update p r q f [] h = refl
  any-update p r q f (x ∷ xs) h = rw (h x, any-update p r q f xs h)

  pub any_none : (p : A → Bool) (xs : List A) → All (λ x. p x ≡ false) xs → any p xs ≡ false
  unfolding any
  any_none p [] h = refl
  any_none p (x ∷ xs) h = rw h.0 (any_none p xs h.1)

  pub any-false : (xs : List A) → any (λ x. false) xs ≡ false
  unfolding any
  any-false [] = refl
  any-false (x ∷ xs) = any-false xs

  pub All-mono {κ μ} :
      (P : A → Type κ) (Q : A → Type μ) (xs : List A) → ((x : A) → P x → Q x) → All P xs → All Q xs
  All-mono P Q [] h a = tt
  All-mono P Q (x ∷ xs) h a = (h x a.0, All-mono P Q xs h a.1)

  pub All-append {κ} : (P : A → Type κ) (xs ys : List A) → All P xs → All P ys → All P (xs ++ ys)
  All-append P [] ys a b = b
  All-append P (x ∷ xs) ys a b = (a.0, All-append P xs ys a.1 b)

  -- A row that a query finds is one of the table's, and passes the query's test.
  pub find-test : (p : A → Bool) (xs : List A) (x : A) → find p xs ≡ some x → p x ≡ true
  unfolding find
  find-test p [] x h = cc
  find-test p (y ∷ ys) x h = ground (arith, find-test p ys x)

  pub find-All {κ} :
      (P : A → Type κ) (p : A → Bool) (xs : List A) (x : A) → find p xs ≡ some x → All P xs → P x
  unfolding find
  find-All P p [] x h a = cc
  find-All P p (y ∷ ys) x h a = elim (Bool-cases (p y)) [
    | inl t ↦ subst P (ground arith) a.0
    | inr t ↦ find-All P p ys x (ground arith) a.1
  ]

module _ {ℓ} {A : Type ℓ} where
  pub select-append :
      (p : A → Bool) (xs ys : List A) → select p (xs ++ ys) ≡ select p xs ++ select p ys
  unfolding select
  select-append p [] ys = refl
  select-append p (x ∷ xs) ys = ground (arith, select-append p xs ys)

  -- An update of rows that a query does not see, and that it keeps from being seen.
  pub select-update :
      (p q : A → Bool) (f : A → A) (xs : List A)
      → ((x : A) → q x ≡ true → p x ≡ false)
      → ((x : A) → q x ≡ true → p (f x) ≡ false)
      → select p (update_if q f xs) ≡ select p xs
  unfolding select update_if
  select-update p q f [] h k = refl
  select-update p q f (x ∷ xs) h k = ground (arith, h x, k x, select-update p q f xs h k)

  pub select_none : (p : A → Bool) (xs : List A) → All (λ x. p x ≡ false) xs → select p xs ≡ []
  unfolding select
  select_none p [] h = refl
  select_none p (x ∷ xs) h = rw h.0 (select_none p xs h.1)

  -- An update of some rows, seen row by row.
  pub All-update_cases {κ μ} :
      (P : A → Type κ) (Q : A → Type μ) (q : A → Bool) (f : A → A) (xs : List A)
      → ((x : A) → q x ≡ true → P x → Q (f x))
      → ((x : A) → q x ≡ false → P x → Q x)
      → All P xs
      → All Q (update_if q f xs)
  unfolding update_if
  All-update_cases P Q q f [] h k a = tt
  All-update_cases P Q q f (x ∷ xs) h k a = elim (Bool-cases (q x)) [
    | inl t ↦ rw t (h x t a.0, All-update_cases P Q q f xs h k a.1)
    | inr t ↦ rw t (k x t a.0, All-update_cases P Q q f xs h k a.1)
  ]

  pub All-update {κ} :
      (P : A → Type κ) (q : A → Bool) (f : A → A) (xs : List A)
      → ((x : A) → P x → P (f x))
      → All P xs
      → All P (update_if q f xs)
  unfolding update_if
  All-update P q f [] h a = tt
  All-update P q f (x ∷ xs) h a = elim (Bool-cases (q x)) [
    | inl t ↦ rw t (h x a.0, All-update P q f xs h a.1)
    | inr t ↦ rw t (a.0, All-update P q f xs h a.1)
  ]

  pub count_if_zero : (xs : List A) → count_if (λ x. false) xs ≡ 0
  unfolding count_if
  count_if_zero [] = refl
  count_if_zero (x ∷ xs) = rw (count_if_zero xs) (omega arith)

  -- Nothing found, nothing counted.
  pub count_if-find : (p : A → Bool) (xs : List A) → find p xs ≡ none → count_if p xs ≡ 0
  unfolding find count_if
  count_if-find p [] h = refl
  count_if-find p (x ∷ xs) h = ground (arith, count_if-find p xs)

  pub find-none : (p : A → Bool) (xs : List A) → All (λ x. p x ≡ false) xs → find p xs ≡ none
  unfolding find
  find-none p [] h = refl
  find-none p (x ∷ xs) h = rw h.0 (find-none p xs h.1)

  pub sum_if_ext :
      (p r : A → Bool) (q : A → ℕ) (xs : List A)
      → ((x : A) → p x ≡ r x)
      → sum_if p q xs ≡ sum_if r q xs
  unfolding sum_if
  sum_if_ext p r q [] h = refl
  sum_if_ext p r q (x ∷ xs) h = rw (h x, sum_if_ext p r q xs h)

  -- An update that stores one row.
  pub All-update_to {κ} :
      (P : A → Type κ) (q : A → Bool) (v : A) (xs : List A)
      → P v
      → All P xs
      → All P (update_if q (λ x. v) xs)
  All-update_to P q v xs h a = All-update P q (λ x. v) xs (λ x b. h) a

  pub count_if-any : (p : A → Bool) (xs : List A) → any p xs ≡ false → count_if p xs ≡ 0
  unfolding any count_if
  count_if-any p [] h = refl
  count_if-any p (x ∷ xs) h = ground (arith, count_if-any p xs)

  pub find_end :
      (q : A → Bool) (v : A) (xs : List A)
      → find q xs ≡ none
      → q v ≡ true
      → find q (xs ++ v ∷ []) ≡ some v
  unfolding find
  find_end q v [] e h = ground (arith, h)
  find_end q v (x ∷ xs) e h = ground (arith, find_end q v xs)

  -- The row that a query finds, after an update of it that the query does not see.
  pub find-update :
      (q p : A → Bool) (f : A → A) (x : A) (xs : List A)
      → ((y : A) → q (f y) ≡ q y)
      → find q xs ≡ some x
      → p x ≡ true
      → find q (update_if p f xs) ≡ some (f x)
  unfolding find update_if
  find-update q p f x [] h e t = cc
  find-update q p f x (y ∷ ys) h e t = elim (Bool-cases (q y)) [
    | inl i ↦
        let a : y ≡ x = some_injective (rw i at e) in
        subst (λ z. find q (update_if p f (y ∷ ys)) ≡ some (f z)) a
          (rw (subst (λ z. p z ≡ true) (sym a) t, h y, i) refl)
    | inr i ↦
        let a : q (if p y then f y else y) ≡ false = ground (arith, h y, i) in
        rw a (find-update q p f x ys h (rw i at e) t)
  ]
