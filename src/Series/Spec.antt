-- ===== src/Series/Spec.antt =====
-- events/services.py: what `occurrence_starts` gives, for every event that repeats.
use event_management.Base.{
  ℕ, zero, suc, ◌+◌, ◌≤◌, ◌<◌, ◌≡◌, refl, subst, true, false, Option, none, some, List, [], ◌∷◌,
  map, length, leb, arith, inl, inr, Bool-cases, Option-cases, Result, ok, err,
}
use event_management.Series.Dates.{DateTime}
use event_management.Series.Starts.{
  Recurrence, Error, too_many_occurrences, date_overflow, stuck, is_single, next_start, is_past,
  starts_from, occurrence_starts, max_materialized_occurrences,
}

module _ (first_start : DateTime) (recurrence : Recurrence) (interval : ℕ)
    (until : Option DateTime) where
  -- The start with a number, counted from the first one; `none` past the end of the calendar.
  unfoldable pub start_at : ℕ → Option DateTime
  start_at zero = some first_start
  start_at (suc k) = next_start first_start recurrence interval (suc k)

  -- The starts from one number on.
  unfoldable pub start_range : ℕ → ℕ → List (Option DateTime)
  start_range k zero = []
  start_range k (suc n) = start_at k ∷ start_range (suc k) n

  -- The starts after the first and before the number `n` exist and are not past the last date.
  abbrev pub GoesOn : ℕ → Type 0
  GoesOn n =
      (k : ℕ) → 0 < k → k < n → (t : DateTime) × (start_at k ≡ some t) × (is_past until t ≡ false)

  -- The first start that is left out is past the last date.
  abbrev pub Ends : ℕ → Type 0
  Ends n = (t : DateTime) × (start_at n ≡ some t) × (is_past until t ≡ true)

  -- What the loop returns once `count` starts have been given.
  abbrev pub Yields : ℕ → Result Error (List DateTime) → Type 0
  Yields count (ok ts) =
      (map some ts ≡ start_range count (length ts))
      × (1 ≤ length ts)
      × (count + length ts < max_materialized_occurrences)
      × GoesOn (count + length ts)
      × Ends (count + length ts)
  Yields count (err too_many_occurrences) = GoesOn max_materialized_occurrences
  Yields count (err date_overflow) =
      (k : ℕ) × (k < max_materialized_occurrences) × GoesOn k × (start_at k ≡ none)
  Yields count (err stuck) = ⊥

  GoesOn-suc :
      (n : ℕ) (t : DateTime)
      → start_at n ≡ some t
      → is_past until t ≡ false
      → GoesOn n
      → GoesOn (suc n)
  GoesOn-suc n t s p g k h l = elim (Bool-cases (leb n k)) [
    | inl e ↦
        let same : n ≡ k = ground arith in
        subst (λ (j : ℕ). (t : DateTime) × (start_at j ≡ some t) × (is_past until t ≡ false)) same
          (t, s, p)
    | inr e ↦ g k h (ground arith)
  ]

  -- A round puts its start before those of the next.
  Yields-cons :
      (count : ℕ) (current : DateTime) (r : Result Error (List DateTime))
      → start_at count ≡ some current
      → Yields (suc count) r
      → Yields count (elim r as (λ x. Result Error (List DateTime)) [
        | err e ↦ err e
        | ok ts ↦ ok (current ∷ ts)
      ])
  unfolding start_range
  Yields-cons count current (ok ts) s (e, l, b, g, x) =
      let same : suc count + length ts ≡ count + suc (length ts) = omega arith in
      (rw (s, e) refl, omega arith, omega arith, subst GoesOn same g, subst Ends same x)
  Yields-cons count current (err too_many_occurrences) s y = y
  Yields-cons count current (err date_overflow) s y = y
  Yields-cons count current (err stuck) s y = y

  loop-Yields :
      (left count : ℕ) (current : DateTime)
      → is_single recurrence ≡ false
      → left + count ≡ max_materialized_occurrences
      → count < max_materialized_occurrences
      → start_at count ≡ some current
      → GoesOn (suc count)
      → Yields count (starts_from first_start recurrence interval until left count current)
  unfolding starts_from start_range start_at
  loop-Yields zero count current m f l s g = absurd (omega arith)
  loop-Yields (suc left) count current m f l s g =
      rw m (elim (Bool-cases (leb max_materialized_occurrences (suc count))) [
        | inl e ↦
            let same : suc count ≡ max_materialized_occurrences = ground arith in
            rw e (subst GoesOn same g)
        | inr e ↦ rw e (elim (Option-cases (start_at (suc count))) [
          | inl n ↦ rw n (suc count, ground arith, g, n)
          | inr (t, n) ↦ rw n (elim (Bool-cases (is_past until t)) [
            | inl p ↦
                let same : suc count ≡ count + 1 = omega arith in
                rw p (
                  rw s refl,
                  omega arith,
                  ground arith,
                  subst GoesOn same g,
                  subst Ends same (t, n, p),
                )
            | inr p ↦ rw p (
                Yields-cons count current _ s (
                  loop-Yields left (suc count) t m (omega arith) (ground arith) n
                    (GoesOn-suc (suc count) t n p g)))
          ])
        ])
      ])

  -- The starts of an event that repeats: the loop always ends. The list that it gives is that of the
  -- first start and those one, two and more intervals after it, up to the last one that is not past
  -- the last date, and there are fewer than 500. It raises the error of too many occurrences only if
  -- the first 500 starts are not past the last date, and the overflow only if a start that the series
  -- goes on to does not exist.
  pub occurrence_starts-Yields :
      is_single recurrence ≡ false
      → Yields 0 (occurrence_starts first_start recurrence interval until)
  unfolding occurrence_starts start_at
  occurrence_starts-Yields m =
      loop-Yields max_materialized_occurrences 0 first_start m (omega arith) (omega arith) refl
        (λ k h l. absurd (omega arith))

  Yields-full :
      (r : Result Error (List DateTime))
      → GoesOn max_materialized_occurrences
      → Yields 0 r
      → r ≡ err too_many_occurrences
  unfolding start_at
  Yields-full (ok ts) g (e, l, b, h, x) =
      let (t, s, p) = x in let (t', s', p') = g (0 + length ts) (omega arith) b in cc
  Yields-full (err too_many_occurrences) g y = refl
  Yields-full (err date_overflow) g (zero, l, h, n) = cc
  Yields-full (err date_overflow) g (suc k, l, h, n) =
      let (t, s, p) = g (suc k) (omega arith) l in cc
  Yields-full (err stuck) g y = absurd y

  -- A series of exactly 500 occurrences is refused, as a longer one is: 500 starts that are not past
  -- the last date suffice for the error.
  pub occurrence_starts_full :
      is_single recurrence ≡ false
      → GoesOn max_materialized_occurrences
      → occurrence_starts first_start recurrence interval until ≡ err too_many_occurrences
  occurrence_starts_full m g = Yields-full _ g (occurrence_starts-Yields m)
