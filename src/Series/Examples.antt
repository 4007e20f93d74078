-- ===== src/Series/Examples.antt =====
-- Runs of a monthly series, and of updates of a small table.
use event_management.Base.{
  update_if, true, ◌&&◌, ℕ, zero, suc, ◌+◌, ◌*◌, ◌<◌, ◌/◌, ◌%◌, min, ◌≡◌, refl, none, some, List,
  [], ◌∷◌, arith, find, any, select, map, is_some, returned, err, if◌then◌else◌,
}
use event_management.Schema.{Db}
use event_management.Schema.Events.{Occurrence, OccurrenceStatus}
use event_management.Subscriptions.Model.{SiteStatus}
use event_management.Lifecycle.Model.{accepts_public_traffic}
use event_management.Samples.{empty, event, occurrence}
use event_management.Series.Dates.{DateTime, is_leap, days_in_month, add_months}
use event_management.Series.Starts.{
  Recurrence, too_many_occurrences, next_start, is_past, occurrence_starts,
}
use event_management.Series.Update.{Scope, Values, moved, update_occurrences_from}
use event_management.Series.Page.{
  RequestSite, public_occurrence_url, occurrence_detail, occurrence_detail-public_occurrence_url,
}
use event_management.Series.Months.{IsValid, Moved, add_months-Moved}
use event_management.Series.Spec.{
  start_at, Yields, GoesOn, occurrence_starts-Yields, occurrence_starts_full,
}
use event_management.Series.Shift.{update_occurrences_from_undone}

abbrev date : ℕ → ℕ → ℕ → DateTime
date y m d = record { year = y; month = m; day = d; second = 36000 }

abbrev first : DateTime
first = date 2024 1 31

first-IsValid : IsValid first
unfolding days_in_month
first-IsValid = omega arith

occurrence_starts-Yields_example :
    Yields first Recurrence.monthly 1
      (some (date 2024 4 29))
      0
      (occurrence_starts first Recurrence.monthly 1 (some (date 2024 4 29)))
occurrence_starts-Yields_example =
    occurrence_starts-Yields first Recurrence.monthly 1 (some (date 2024 4 29)) refl

abbrev months_on : ℕ → DateTime
months_on m = record first {
  year = 2024 + m / 12;
  month = m % 12 + 1;
  day = min 31 (days_in_month (2024 + m / 12) (m % 12 + 1));
}

add_months_on : (m n : ℕ) → n ≡ m → m < 500 → add_months first n ≡ some (months_on m)
unfolding add_months
add_months_on m n e l = ground arith

goes_on : GoesOn first Recurrence.monthly 1 none 500
unfolding start_at next_start is_past
goes_on zero h l = absurd (omega arith)
goes_on (suc k) h l = (months_on (suc k), add_months_on (suc k) (1 * suc k) (omega arith) l, refl)

occurrence_starts_full_example :
    occurrence_starts first Recurrence.monthly 1 none ≡ err too_many_occurrences
occurrence_starts_full_example = occurrence_starts_full first Recurrence.monthly 1 none refl goes_on

add_months-Moved_example : Moved first 13 (date 2025 2 28)
unfolding add_months days_in_month is_leap
add_months-Moved_example = add_months-Moved first (date 2025 2 28) 13 first-IsValid refl

abbrev later : Occurrence
later = record occurrence { id = 8; starts_at = 9000; ends_at = 9500 }

abbrev table : Db
table = record empty { occurrences = occurrence ∷ later ∷ [] }

abbrev values : Values
values = record {
  starts_at = 4000;
  ends_at = 4600;
  capacity = none;
  status = OccurrenceStatus.scheduled;
}

abbrev back : Values
back = record values { starts_at = 5000; ends_at = 6000 }

abbrev moved_table : List Occurrence × Db
moved_table = returned ([], table) (update_occurrences_from occurrence Scope.all values table)

abbrev edited : Occurrence
edited = record occurrence { starts_at = 4000; ends_at = 4600; capacity = none }

abbrev restored_table : List Occurrence × Db
restored_table =
    returned ([], moved_table.1) (update_occurrences_from edited Scope.all back moved_table.1)

update_occurrences_from_undone_example :
    map (λ (x : Occurrence). x.starts_at) restored_table.1.occurrences
    ≡ map (λ (x : Occurrence). x.starts_at) table.occurrences
unfolding update_occurrences_from find any select moved update_if
update_occurrences_from_undone_example =
    update_occurrences_from_undone occurrence edited values back table moved_table.1
      restored_table.1 moved_table.0 restored_table.0 refl refl refl refl

abbrev site : RequestSite
site = record { id = 7; status = SiteStatus.active; is_published = true }

occurrence_detail-public_occurrence_url_example :
    occurrence_detail (some site) empty (103 ∷ [], 2) ≡ (
      if accepts_public_traffic SiteStatus.active
        && true
        && is_some (public_occurrence_url event occurrence)
      then some occurrence
      else none)
unfolding find
occurrence_detail-public_occurrence_url_example =
    occurrence_detail-public_occurrence_url empty site occurrence event refl refl refl
