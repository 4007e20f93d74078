-- ===== src/Series/Months.antt =====
-- The calendar of events/services.py: valid dates, in order.
use event_management.Base.{ℕ, ◌+◌, ◌-◌, ◌*◌, ◌/◌, ◌%◌, ◌≤◌, ◌<◌, min, ◌≡◌, true, some, arith}
use event_management.Series.Dates.{
  DateTime, max_year, days_in_month, next_day, add_months, is_after,
}

pub record IsValid (t : DateTime) : Type 0 where
  pub year_in : t.year ≤ max_year
  pub month_in : (1 ≤ t.month) × (t.month ≤ 12)
  pub day_in : (1 ≤ t.day) × (t.day ≤ days_in_month t.year t.month)

-- The number of a month, and a number that orders the dates.
abbrev pub month_number : DateTime → ℕ
month_number t = t.year * 12 + (t.month - 1)

abbrev pub date_key : DateTime → ℕ
date_key t = month_number t * 32 + t.day

pub days_in_month_bounds : (y m : ℕ) → (28 ≤ days_in_month y m) × (days_in_month y m ≤ 31)
unfolding days_in_month
days_in_month_bounds y m = ground arith

-- What `_add_months` returns.
pub record Moved (t : DateTime) (months : ℕ) (u : DateTime) : Type 0 where
  pub valid : IsValid u
  pub number : month_number u ≡ month_number t + months
  pub day_is : u.day ≡ min t.day (days_in_month u.year u.month)
  pub second_is : u.second ≡ t.second

-- For a valid date, `_add_months` returns a valid one that is so many months later, on the same day
-- of the month or on the month's last if it is shorter, at the same time of the day.
pub add_months-Moved :
    (t u : DateTime) (months : ℕ) → IsValid t → add_months t months ≡ some u → Moved t months u
unfolding add_months
add_months-Moved t u months v e = ground (
  arith,
  days_in_month_bounds (t.year + (t.month - 1 + months) / 12) ((t.month - 1 + months) % 12 + 1),
  v.month_in,
  v.day_in,
)

-- After, as an order of numbers.
pub is_after-of_lt :
    (t d : DateTime) → IsValid t → IsValid d → date_key d < date_key t → is_after t d ≡ true
unfolding is_after
is_after-of_lt t d v w h =
    ground (arith, days_in_month_bounds t.year t.month, days_in_month_bounds d.year d.month)

pub record Later (t u : DateTime) : Type 0 where
  pub valid : IsValid u
  pub later : date_key t < date_key u

pub next_day-Later : (t u : DateTime) → IsValid t → next_day t ≡ some u → Later t u
unfolding next_day
next_day-Later t u v e = ground (
  arith,
  days_in_month_bounds t.year t.month,
  days_in_month_bounds t.year (t.month + 1),
  days_in_month_bounds (t.year + 1) 1,
)
