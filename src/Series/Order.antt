-- ===== src/Series/Order.antt =====
-- events/services.py: the starts of a series come one after another.
use event_management.Base.{
  ℕ, zero, suc, ◌+◌, ◌*◌, ◌≤◌, ◌<◌, ◌≡◌, refl, sym, ap, ◌∙◌, subst, true, false, Option, none, some,
  List, [], ◌∷◌, map, length, get_elem?, ◌==◌, arith, Bool-cases, ==_iff, inl, inr, some_injective,
  ok,
}
use event_management.Series.Dates.{
  DateTime, next_day, then_next_day, add_days, add_months, is_after,
}
use event_management.Series.Starts.{Recurrence, is_single, next_start, occurrence_starts}
use event_management.Series.Months.{
  IsValid, date_key, days_in_month_bounds, add_months-Moved, next_day-Later, is_after-of_lt,
}
use event_management.Series.Spec.{start_at, start_range, Yields, occurrence_starts-Yields}

-- The day before the one that `then_next_day` returns.
then_next_day-eq_some :
    (x : Option DateTime) (u : DateTime)
    → then_next_day x ≡ some u
    → (t : DateTime) × (x ≡ some t) × (next_day t ≡ some u)
then_next_day-eq_some none u h = cc
then_next_day-eq_some (some t) u h = (t, refl, h)

add_days-IsValid : (n : ℕ) (t u : DateTime) → IsValid t → add_days n t ≡ some u → IsValid u
unfolding add_days
add_days-IsValid zero t u v e = subst IsValid (some_injective e) v
add_days-IsValid (suc n) t u v e =
    let (w, f, g) = then_next_day-eq_some _ u e in
    (next_day-Later w u (add_days-IsValid n t w v f) g).valid

lt_of_ne : (j n : ℕ) → j < suc n → (j == n) ≡ false → j < n
lt_of_ne j n l h = ground arith

add_days-lt :
    (j k : ℕ) (t a b : DateTime)
    → IsValid t
    → j < k
    → add_days j t ≡ some a
    → add_days k t ≡ some b
    → date_key a < date_key b
unfolding add_days
add_days-lt j zero t a b v l e f = absurd (omega arith)
add_days-lt j (suc n) t a b v l e f =
    let (w, g, h) = then_next_day-eq_some _ b f in
    let step = (next_day-Later w b (add_days-IsValid n t w v g) h).later in
    elim (Bool-cases (j == n)) [
      | inl s ↦
          let same = (==_iff j n).0 s in
          let x : a ≡ w = some_injective (sym e ∙ ap (λ i. add_days i t) same ∙ g) in
          subst (λ (y : DateTime). date_key y < date_key b) (sym x) step
      | inr s ↦ let before = add_days-lt j n t a w v (lt_of_ne j n l s) e g in omega arith
    ]

add_months-lt :
    (j k : ℕ) (t a b : DateTime)
    → IsValid t
    → j < k
    → add_months t j ≡ some a
    → add_months t k ≡ some b
    → date_key a < date_key b
add_months-lt j k t a b v l e f =
    let p = add_months-Moved t a j v e in
    let q = add_months-Moved t b k v f in
    omega (
      arith,
      p.number,
      q.number,
      p.valid.day_in,
      q.valid.day_in,
      days_in_month_bounds a.year a.month,
      days_in_month_bounds b.year b.month,
    )

times_mono : (i j k : ℕ) → 1 ≤ i → j < k → i * j < i * k
times_mono i j k h l = grind arith

-- A valid date after a valid one.
record InOrder (a b : DateTime) : Type 0 where
  first_valid : IsValid a
  second_valid : IsValid b
  ordered : date_key a < date_key b

add_days-InOrder :
    (j k : ℕ) (t a b : DateTime)
    → IsValid t
    → j < k
    → add_days j t ≡ some a
    → add_days k t ≡ some b
    → InOrder a b
add_days-InOrder j k t a b v l e f = record {
  first_valid = add_days-IsValid j t a v e;
  second_valid = add_days-IsValid k t b v f;
  ordered = add_days-lt j k t a b v l e f;
}

add_months-InOrder :
    (j k : ℕ) (t a b : DateTime)
    → IsValid t
    → j < k
    → add_months t j ≡ some a
    → add_months t k ≡ some b
    → InOrder a b
add_months-InOrder j k t a b v l e f = record {
  first_valid = (add_months-Moved t a j v e).valid;
  second_valid = (add_months-Moved t b k v f).valid;
  ordered = add_months-lt j k t a b v l e f;
}

add_months-InOrder_first :
    (k : ℕ) (t b : DateTime) → IsValid t → 0 < k → add_months t k ≡ some b → InOrder t b
add_months-InOrder_first k t b v l f = record {
  first_valid = v;
  second_valid = (add_months-Moved t b k v f).valid;
  ordered = omega (
    arith,
    (add_months-Moved t b k v f).number,
    v.day_in,
    days_in_month_bounds t.year t.month,
    (add_months-Moved t b k v f).valid.day_in,
  );
}

start_at-InOrder :
    (first_start : DateTime) (recurrence : Recurrence) (interval : ℕ) (until : Option DateTime)
    (j k : ℕ) (a b : DateTime)
    → IsValid first_start
    → 1 ≤ interval
    → j < k
    → start_at first_start recurrence interval until j ≡ some a
    → start_at first_start recurrence interval until k ≡ some b
    → InOrder a b
unfolding start_at next_start
start_at-InOrder t recurrence i until j zero a b v p l e f = absurd (omega arith)
start_at-InOrder t Recurrence.single i until j (suc k) a b v p l e f = cc
start_at-InOrder t Recurrence.weekly i until zero (suc k) a b v p l e f =
    add_days-InOrder 0 (7 * (i * suc k)) t a b v (grind arith) (unfold add_days in e) f
start_at-InOrder t Recurrence.weekly i until (suc j) (suc k) a b v p l e f =
    add_days-InOrder (7 * (i * suc j)) (7 * (i * suc k)) t a b v
      (omega (arith, times_mono i (suc j) (suc k) p l)) e f
start_at-InOrder t Recurrence.monthly i until zero (suc k) a b v p l e f =
    subst (λ (x : DateTime). InOrder x b) (some_injective e)
      (add_months-InOrder_first (i * suc k) t b v (grind arith) f)
start_at-InOrder t Recurrence.monthly i until (suc j) (suc k) a b v p l e f =
    add_months-InOrder (i * suc j) (i * suc k) t a b v (times_mono i (suc j) (suc k) p l) e f

range_elem :
    (t : DateTime) (recurrence : Recurrence) (i : ℕ) (until : Option DateTime) (c k : ℕ)
    (ts : List DateTime) (a : DateTime)
    → map some ts ≡ start_range t recurrence i until c (length ts)
    → get_elem? ts k ≡ some a
    → start_at t recurrence i until (c + k) ≡ some a
unfolding start_range
range_elem t recurrence i until c k [] a e h = cc
range_elem t recurrence i until c zero (x ∷ ts) a e h =
    let same : c + 0 ≡ c = omega arith in rw same (cc)
range_elem t recurrence i until c (suc k) (x ∷ ts) a e h =
    let same : c + suc k ≡ suc c + k = omega arith in
    rw same (range_elem t recurrence i until (suc c) k ts a (cc) h)

-- The starts of an event that repeats at a positive interval, the first one being a valid date, are
-- valid dates, and each one is after all before it.
pub occurrence_starts-is_after :
    (first_start : DateTime) (recurrence : Recurrence) (interval : ℕ) (until : Option DateTime)
    (ts : List DateTime) (j k : ℕ) (a b : DateTime)
    → is_single recurrence ≡ false
    → IsValid first_start
    → 1 ≤ interval
    → occurrence_starts first_start recurrence interval until ≡ ok ts
    → j < k
    → get_elem? ts j ≡ some a
    → get_elem? ts k ≡ some b
    → IsValid a × IsValid b × (is_after b a ≡ true)
occurrence_starts-is_after t recurrence i until ts j k a b m v p e l f g =
    let starts =
      (subst (Yields t recurrence i until 0) e
        (occurrence_starts-Yields t recurrence i until m)).0 in
    let o =
      start_at-InOrder t recurrence i until (0 + j) (0 + k) a b v p (omega arith)
        (range_elem t recurrence i until 0 j ts a starts f)
        (range_elem t recurrence i until 0 k ts b starts g) in
    (o.first_valid, o.second_valid, is_after-of_lt b a o.second_valid o.first_valid o.ordered)
