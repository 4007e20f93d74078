-- ===== src/Series/Dates.antt =====
-- Python's `datetime`, as far as events/services.py uses it: calendar dates of the years 1 to 9999,
-- and `_add_months`. A date time is a date with the second of its day, on the site's clock.
use event_management.Base.{
  ℕ, zero, suc, ◌+◌, ◌-◌, ◌/◌, ◌%◌, min, Bool, ◌&&◌, ◌||◌, not, Option, none, some, ltb, leb, ◌==◌,
  if◌then◌else◌,
}

pub record DateTime : Type 0 where
  pub year : ℕ
  pub month : ℕ
  pub day : ℕ
  pub second : ℕ

abbrev pub max_year : ℕ
max_year = 9999

-- `calendar.isleap`
unfoldable pub is_leap : ℕ → Bool
is_leap y = (y % 4 == 0) && (not (y % 100 == 0) || (y % 400 == 0))

-- `calendar.monthrange(y, m)[1]`
unfoldable pub days_in_month : ℕ → ℕ → ℕ
unfolding is_leap
days_in_month y m =
    if m == 2
    then (if is_leap y then 29 else 28)
    else if (m == 4) || (m == 6) || (m == 9) || (m == 11)
    then 30
    else 31

-- `t + timedelta(days=1)`; `none` is the `OverflowError` at the end of the calendar.
unfoldable pub next_day : DateTime → Option DateTime
unfolding days_in_month
next_day t =
    if ltb t.day (days_in_month t.year t.month)
    then some (record t { day = t.day + 1 })
    else if ltb t.month 12
    then some (record t { month = t.month + 1; day = 1 })
    else if ltb t.year max_year
    then some (record t { year = t.year + 1; month = 1; day = 1 })
    else none

abbrev pub then_next_day : Option DateTime → Option DateTime
then_next_day none = none
then_next_day (some t) = next_day t

-- `t + timedelta(days=n)`
unfoldable pub add_days : ℕ → DateTime → Option DateTime
unfolding next_day
add_days zero t = some t
add_days (suc n) t = then_next_day (add_days n t)

-- `_add_months`; `none` is the `ValueError` of `replace` for a year past the last.
unfoldable pub add_months : DateTime → ℕ → Option DateTime
unfolding days_in_month
add_months t months =
    let month_index = t.month - 1 + months in
    let year = t.year + month_index / 12 in
    let month = month_index % 12 + 1 in
    let day = min t.day (days_in_month year month) in
    if leb year max_year then some (record t { year = year; month = month; day = day }) else none

-- `t.date() > d`, by the date's three parts
unfoldable pub is_after : DateTime → DateTime → Bool
is_after t d =
    ltb d.year t.year
    || (t.year == d.year && (ltb d.month t.month || (t.month == d.month && ltb d.day t.day)))
