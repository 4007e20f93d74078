-- ===== src/Reviews/Writing.antt =====
-- reviews/services.py: what attendees write, and the answer of the site.
use event_management.Base.{
  ℕ, ◌+◌, Bool, true, false, ◌&&◌, not, Option, none, some, [], ◌∷◌, ◌++◌, leb, ◌==◌, is_some, find,
  any, update_if, Text, strip, Result, ok, or_raise, raise_if, ◌>>=◌, ◌>>◌,
}
use event_management.Schema.{Db}
use event_management.Schema.Events.{Registration, Occurrence, Participant, is_active}
use event_management.Schema.Attendance.{AttendanceStatus}
use event_management.Reviews.Model.{
  ModerationStatus, Review, Board, Error, not_attended, integrity_error, does_not_exist, get_review,
}

-- `checked_in`, which is false when there is no status
abbrev pub is_present : Option AttendanceStatus → Bool
is_present none = false
is_present (some s) = is_some s.checked_in_at

unfoldable pub participant_can_review : ℕ → Participant → Occurrence → Db → Bool
participant_can_review now p o d =
    is_present (find (λ (s : AttendanceStatus). s.participant_id == p.id) d.attendance)
    && is_active p.status
    && leb o.ends_at now

-- The participant with the registration's occurrence, as the query joins them.
unfoldable pub get_attended : ℕ → Db → Result Error (Participant × Occurrence)
get_attended participant_id d = do
  p ← or_raise (find (λ (p : Participant). p.id == participant_id) d.participants) does_not_exist
  r ←
      or_raise (find (λ (r : Registration). r.id == p.registration_id) d.registrations)
        does_not_exist
  o ← or_raise (find (λ (o : Occurrence). o.id == r.occurrence_id) d.occurrences) does_not_exist
  ok (p, o)

-- The constraint on the rating.
unfoldable pub is_rating : ℕ → Bool
is_rating rating = leb 1 rating && leb rating 5

unfoldable pub edited : ℕ → ℕ → Text → Review → Review
edited now rating comment x = record x {
  rating = rating;
  comment = comment;
  deleted_at = none;
  edited_at = some now;
}

unfoldable pub new_review : ℕ → Participant → Occurrence → ℕ → Text → Review
new_review id p o rating comment = record {
  id = id;
  site_id = p.site_id;
  occurrence_id = o.id;
  participant_id = p.id;
  rating = rating;
  comment = comment;
  edited_at = none;
  deleted_at = none;
  moderation_status = ModerationStatus.visible;
  response = [];
  responded_at = none;
  responded_by = none;
}

-- The filter of `get_or_create`.
unfoldable pub is_review_of : Participant → Review → Bool
is_review_of p x = x.site_id == p.site_id && x.participant_id == p.id

-- The row that `get_or_create` found is edited, or a new one is added. A participant has at most
-- one review, by a constraint of the table.
unfoldable pub store_review :
    ℕ
    → Participant
    → Occurrence
    → ℕ
    → Text
    → Board
    → Option Review
    → Result Error ((Review × Bool) × Board)
unfolding edited new_review
store_review now p o rating comment b (some x) = ok (
  (edited now rating comment x, false),
  record b { reviews = update_if (λ y. y.id == x.id) (edited now rating comment) b.reviews },
)
store_review now p o rating comment b none = do
  raise_if (any (λ (x : Review). x.participant_id == p.id) b.reviews) integrity_error
  ok (
    (new_review b.next_id p o rating comment, true),
    record b {
      next_id = b.next_id + 1;
      reviews = b.reviews ++ new_review b.next_id p o rating comment ∷ [];
    },
  )

unfoldable pub save_review : ℕ → ℕ → ℕ → Text → Board → Result Error ((Review × Bool) × Board)
unfolding store_review participant_can_review get_attended is_rating is_review_of
save_review now participant_id rating comment b = do
  (p, o) ← get_attended participant_id b.db
  raise_if (not (participant_can_review now p o b.db)) not_attended
  raise_if (not (is_rating rating)) integrity_error
  store_review now p o rating comment b (find (is_review_of p) b.reviews)

unfoldable pub deleted : ℕ → Review → Review
deleted now x = record x { comment = []; deleted_at = some now; edited_at = some now }

unfoldable pub delete_review : ℕ → ℕ → Board → Result Error (Review × Board)
unfolding deleted get_review
delete_review now id b = do
  x ← get_review id b
  ok (
    deleted now x,
    record b { reviews = update_if (λ (y : Review). y.id == id) (deleted now) b.reviews },
  )

unfoldable pub responded : ℕ → ℕ → Text → Review → Review
responded now actor response x = record x {
  response = strip response;
  responded_by = some actor;
  responded_at = some now;
}

unfoldable pub respond_to_review : ℕ → ℕ → ℕ → Text → Board → Result Error (Review × Board)
unfolding responded get_review
respond_to_review now id actor response b = do
  x ← get_review id b
  ok (
    responded now actor response x,
    record b {
      reviews = update_if (λ (y : Review). y.id == id) (responded now actor response) b.reviews;
    },
  )
