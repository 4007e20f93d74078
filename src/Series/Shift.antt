-- ===== src/Series/Shift.antt =====
-- events/services.py: `update_occurrences_from` on whole series.
use event_management.Base.{
  ℕ, ◌≡◌, refl, sym, ap, ◌∙◌, Bool, true, false, ◌||◌, not, Option, none, some, List, [], ◌∷◌, map,
  ltb, ◌==◌, if◌then◌else◌, select, update_if, any, find, arith, Bool-cases, inl, inr, ok,
  raise_if-eq-ok, ok_injective,
}
use event_management.Schema.{Db}
use event_management.Schema.Events.{Occurrence}
use event_management.Series.Update.{
  Scope, Values, unknown_scope, date_overflow, integrity_error, violates, is_unknown, in_scope,
  moved, overflows, update_occurrences_from,
}

abbrev pub map_some : (Occurrence → Occurrence) → Option Occurrence → Option Occurrence
map_some f none = none
map_some f (some x) = some (f x)

-- What a call that returns has written, and that no sum was out of the calendar.
record Written (o : Occurrence) (scope : Scope) (v : Values) (d d' : Db) : Type 0 where
  known : is_unknown scope ≡ false
  fits : any (overflows o v) (select (in_scope o scope) d.occurrences) ≡ false
  rows : d'.occurrences ≡ update_if (in_scope o scope) (moved o v) d.occurrences

update_occurrences_from-Written :
    (o : Occurrence) (scope : Scope) (v : Values) (d d' : Db) (us : List Occurrence)
    → update_occurrences_from o scope v d ≡ ok (us, d')
    → Written o scope v d d'
unfolding update_occurrences_from
update_occurrences_from-Written o scope v d d' us h =
    let (a, h1) = raise_if-eq-ok (is_unknown scope) unknown_scope _ h in
    let (b, h2) = raise_if-eq-ok _ date_overflow _ h1 in
    let (c, h3) =
      raise_if-eq-ok (violates (update_if (in_scope o scope) (moved o v) d.occurrences))
        integrity_error _ h2 in
    record {
      known = a;
      fits = b;
      rows = ap (λ (x : List Occurrence × Db). x.1.occurrences) (sym (ok_injective h3));
    }

-- The rows that an update does not reach, by their ids.
pub find-update :
    (o : Occurrence) (scope : Scope) (v : Values) (k : ℕ) (xs : List Occurrence)
    → find (λ (x : Occurrence). x.id == k) (update_if (in_scope o scope) (moved o v) xs)
      ≡ map_some
          (λ x. if in_scope o scope x then moved o v x else x)
          (find (λ (x : Occurrence). x.id == k) xs)
unfolding find update_if moved
find-update o scope v k [] = refl
find-update o scope v k (x ∷ xs) = ground (arith, find-update o scope v k xs)

moved_to :
    (o o' : Occurrence) (v : Values)
    → o' ≡ moved o v o
    → (o'.starts_at ≡ v.starts_at) × ((o'.site_id ≡ o.site_id) × (o'.event_id ≡ o.event_id))
unfolding moved
moved_to o o' v same = rw same (omega arith, (refl, refl))

-- The rows that an update of a scope leaves alone.
abbrev pub is_spared : Occurrence → Scope → Occurrence → Bool
is_spared o Scope.one x = not (x.event_id == o.event_id) || not (x.id == o.id)
is_spared o Scope.future x = not (x.event_id == o.event_id) || ltb x.starts_at o.starts_at
is_spared o _ x = not (x.event_id == o.event_id)

-- A row that a whole series' update has moved is moved back by the next one.
moved_back :
    (o o' x : Occurrence) (v w : Values)
    → overflows o v x ≡ false
    → w.starts_at ≡ o.starts_at
    → o'.starts_at ≡ v.starts_at
    → (moved o' w (moved o v x)).starts_at ≡ x.starts_at
unfolding overflows moved
moved_back o o' x v w h e f = ground arith

scope_of_moved :
    (o o' x : Occurrence) (v : Values)
    → (o'.site_id ≡ o.site_id) × (o'.event_id ≡ o.event_id)
    → (in_scope o' Scope.all (moved o v x) ≡ in_scope o Scope.all x)
      × (in_scope o' Scope.all x ≡ in_scope o Scope.all x)
unfolding in_scope moved
scope_of_moved o o' x v k = (rw (k.0, k.1) refl, rw (k.0, k.1) refl)

if_true-false : (b : Bool) {c : Bool} → (if b then true else c) ≡ false → (b ≡ false) × (c ≡ false)
if_true-false true h = cc
if_true-false false h = (refl, h)

all_back :
    (o o' : Occurrence) (v w : Values) (xs : List Occurrence)
    → any (overflows o v) (select (in_scope o Scope.all) xs) ≡ false
    → w.starts_at ≡ o.starts_at
    → o'.starts_at ≡ v.starts_at
    → (o'.site_id ≡ o.site_id) × (o'.event_id ≡ o.event_id)
    → map
        (λ (x : Occurrence). x.starts_at)
        (update_if
          (in_scope o' Scope.all)
          (moved o' w)
          (update_if (in_scope o Scope.all) (moved o v) xs))
      ≡ map (λ (x : Occurrence). x.starts_at) xs
unfolding any select update_if
all_back o o' v w [] h e f k = refl
all_back o o' v w (x ∷ xs) h e f k =
    let (p, q) = scope_of_moved o o' x v k in
    elim (Bool-cases (in_scope o Scope.all x)) [
      | inl t ↦
          let (a, b) = if_true-false (overflows o v x) (rw t at h) in
          rw (t, p ∙ t, moved_back o o' x v w a e f)
            (ap (λ ts. x.starts_at ∷ ts) (all_back o o' v w xs b e f k))
      | inr t ↦ rw (t, q ∙ t) (ap (λ ts. x.starts_at ∷ ts) (all_back o o' v w xs (rw t at h) e f k))
    ]

-- Moving a whole series and moving it back puts every occurrence of the table where it started: if
-- an update of all occurrences returns, and a second one, which takes the occurrence that was edited
-- back to its old start, returns as well.
pub update_occurrences_from_undone :
    (o o' : Occurrence) (v w : Values) (d d' d'' : Db) (us us' : List Occurrence)
    → update_occurrences_from o Scope.all v d ≡ ok (us, d')
    → o' ≡ moved o v o
    → w.starts_at ≡ o.starts_at
    → update_occurrences_from o' Scope.all w d' ≡ ok (us', d'')
    → map (λ (x : Occurrence). x.starts_at) d''.occurrences
      ≡ map (λ (x : Occurrence). x.starts_at) d.occurrences
update_occurrences_from_undone o o' v w d d' d'' us us' h same e g =
    let a = update_occurrences_from-Written o Scope.all v d d' us h in
    let b = update_occurrences_from-Written o' Scope.all w d' d'' us' g in
    let (start, keys) = moved_to o o' v same in
    rw (b.rows, a.rows) (all_back o o' v w d.occurrences a.fits e start keys)

-- What an update does to the rows that the ids name.
pub record Rescheduled (o : Occurrence) (scope : Scope) (v : Values) (d d' : Db) : Type 0 where
  pub edited :
      find (λ (x : Occurrence). x.id == o.id) d'.occurrences
      ≡ some (record o {
        starts_at = v.starts_at;
        ends_at = v.ends_at;
        capacity = v.capacity;
        status = v.status;
      })
  pub kept :
      (k : ℕ) (x : Occurrence)
      → find (λ (x : Occurrence). x.id == k) d.occurrences ≡ some x
      → is_spared o scope x ≡ true
      → find (λ (x : Occurrence). x.id == k) d'.occurrences ≡ some x
