-- ===== src/Series/Update.antt =====
-- events/services.py: `update_occurrences_from`. An instant is its number of seconds since the first
-- one of the calendar; a shift that would go below it is the `OverflowError`.
use event_management.Base.{
  ℕ, ◌+◌, ◌-◌, Bool, true, false, ◌&&◌, Option, List, [], ◌∷◌, map, ◌||◌, ltb, leb, ◌==◌, select,
  update_if, any, Result, ok, raise_if, ◌>>◌,
}
use event_management.Schema.{Db}
use event_management.Schema.Events.{Occurrence, OccurrenceStatus}

-- The texts of `scope` that the code knows, and any other.
pub data Scope : Type 0 where
  one future all other : Scope

pub record Values : Type 0 where
  pub starts_at : ℕ
  pub ends_at : ℕ
  pub capacity : Option ℕ
  pub status : OccurrenceStatus

pub data Error : Type 0 where
  unknown_scope date_overflow integrity_error : Error

-- The filters of the query.
unfoldable pub in_scope : Occurrence → Scope → Occurrence → Bool
in_scope o Scope.one x = x.site_id == o.site_id && x.event_id == o.event_id && x.id == o.id
in_scope o Scope.future x =
    x.site_id == o.site_id && x.event_id == o.event_id && leb o.starts_at x.starts_at
in_scope o Scope.all x = x.site_id == o.site_id && x.event_id == o.event_id
in_scope o Scope.other x = false

abbrev pub is_unknown : Scope → Bool
is_unknown Scope.other = true
is_unknown _ = false

-- `starts_at + start_delta`, and the end at `duration` after it
unfoldable pub moved : Occurrence → Values → Occurrence → Occurrence
moved o v x = record x {
  starts_at = x.starts_at + v.starts_at - o.starts_at;
  ends_at = x.starts_at + v.starts_at - o.starts_at + v.ends_at - v.starts_at;
  capacity = v.capacity;
  status = v.status;
}

-- A sum that the calendar has no date time for.
unfoldable pub overflows : Occurrence → Values → Occurrence → Bool
overflows o v x =
    ltb (x.starts_at + v.starts_at) o.starts_at
    || ltb (x.starts_at + v.starts_at - o.starts_at + v.ends_at) v.starts_at

-- `.order_by("starts_at")`
unfoldable pub insert_by_start : Occurrence → List Occurrence → List Occurrence
insert_by_start x [] = x ∷ []
insert_by_start x (y ∷ ys) = elim (leb x.starts_at y.starts_at) [
  | true ↦ x ∷ y ∷ ys
  | false ↦ y ∷ insert_by_start x ys
]

unfoldable pub sort_by_start : List Occurrence → List Occurrence
unfolding insert_by_start
sort_by_start [] = []
sort_by_start (x ∷ xs) = insert_by_start x (sort_by_start xs)

-- The constraints of the table: an occurrence ends after its start, and no two of an event start
-- together. They are read on the rows that an update leaves; a database that checks each row as it
-- is written may refuse more.
unfoldable pub starts_with : Occurrence → Occurrence → Bool
starts_with x y = y.event_id == x.event_id && y.starts_at == x.starts_at

unfoldable pub violates : List Occurrence → Bool
unfolding starts_with
violates [] = false
violates (x ∷ xs) = leb x.ends_at x.starts_at || any (starts_with x) xs || violates xs

unfoldable pub update_occurrences_from :
    Occurrence → Scope → Values → Db → Result Error (List Occurrence × Db)
unfolding in_scope moved overflows sort_by_start violates
update_occurrences_from o scope v d = do
  raise_if (is_unknown scope) unknown_scope
  raise_if (any (overflows o v) (select (in_scope o scope) d.occurrences)) date_overflow
  raise_if (violates (update_if (in_scope o scope) (moved o v) d.occurrences)) integrity_error
  ok (
    map (moved o v) (sort_by_start (select (in_scope o scope) d.occurrences)),
    record d { occurrences = update_if (in_scope o scope) (moved o v) d.occurrences },
  )
