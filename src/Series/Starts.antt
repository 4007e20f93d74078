-- ===== src/Series/Starts.antt =====
-- events/services.py: `occurrence_starts`.
use event_management.Base.{
  ℕ, zero, suc, ◌*◌, Bool, true, false, Option, none, some, List, [], ◌∷◌, leb, if◌then◌else◌,
  Result, ok, err,
}
use event_management.Series.Dates.{DateTime, add_days, add_months, is_after}

-- `Event.Recurrence`
pub data Recurrence : Type 0 where
  single weekly monthly : Recurrence

-- The `ValueError` of the code, the overflow of a date past the last year, and `stuck` for a loop
-- without rounds left.
pub data Error : Type 0 where
  too_many_occurrences date_overflow stuck : Error

-- `MAX_MATERIALIZED_OCCURRENCES`
abbrev pub max_materialized_occurrences : ℕ
max_materialized_occurrences = 500

abbrev pub is_single : Recurrence → Bool
is_single Recurrence.single = true
is_single _ = false

-- The next start, counted from the first one.
unfoldable pub next_start : DateTime → Recurrence → ℕ → ℕ → Option DateTime
next_start first_start Recurrence.weekly interval count =
    add_days (7 * (interval * count)) first_start
next_start first_start Recurrence.monthly interval count = add_months first_start (interval * count)
next_start first_start Recurrence.single interval count = none

-- `until and current.date() > until`
unfoldable pub is_past : Option DateTime → DateTime → Bool
unfolding is_after
is_past none t = false
is_past (some until) t = is_after t until

-- The loop with `count` starts given and `left` rounds allowed: the starts from `current` on.
unfoldable pub starts_from :
    DateTime → Recurrence → ℕ → Option DateTime → ℕ → ℕ → DateTime → Result Error (List DateTime)
unfolding next_start is_past
starts_from first_start recurrence interval until zero count current = err stuck
starts_from first_start recurrence interval until (suc left) count current =
    if is_single recurrence
    then ok (current ∷ [])
    else if leb max_materialized_occurrences (suc count)
    then err too_many_occurrences
    else elim (next_start first_start recurrence interval (suc count)) [
      | none ↦ err date_overflow
      | some t ↦ elim (is_past until t) [
        | true ↦ ok (current ∷ [])
        | false ↦ elim (starts_from first_start recurrence interval until left (suc count) t) [
          | err e ↦ err e
          | ok ts ↦ ok (current ∷ ts)
        ]
      ]
    ]

unfoldable pub occurrence_starts :
    DateTime → Recurrence → ℕ → Option DateTime → Result Error (List DateTime)
unfolding starts_from
occurrence_starts first_start recurrence interval until =
    starts_from first_start recurrence interval until max_materialized_occurrences 0 first_start
