-- ===== src/Reviews/Saved.antt =====
-- reviews/services.py: what `save_review` stores, and a report that is given an old copy of a review.
use event_management.Base.{
  find_end, find-update, is_some, leb, ◌&&◌, ℕ, ◌≤◌, ◌≡◌, refl, subst, Bool, true, false, not,
  Option, none, some, ◌==◌, find, any, arith, find-test, Text, ok, >>=-eq-ok, raise_if-eq-ok,
  or_raise, or_raise-eq-ok, ok_injective, not-eq-false, ==_refl,
}
use event_management.Schema.Events.{
  Occurrence, Participant, ParticipantStatus, Registration, is_active,
}
use event_management.Schema.{Db}
use event_management.Schema.Attendance.{AttendanceStatus}
use event_management.Attendance.Marks.{status_active}
use event_management.Reviews.Model.{
  ModerationStatus, Review, Board, is_visible, is_hidden, is_public, not_attended, integrity_error,
  does_not_exist,
}
use event_management.Reviews.Writing.{
  is_present, get_attended, participant_can_review, is_rating, edited, new_review, is_review_of,
  store_review, save_review,
}
use event_management.Reviews.Moderation.{with_status, report_review}

abbrev pub status_before : Option Review → ModerationStatus
status_before none = ModerationStatus.visible
status_before (some x) = x.moderation_status

-- What a call that returns has stored.
pub record Saved (now id rating : ℕ) (comment : Text) (b b' : Board) : Type 0 where
  pub participant : Participant
  pub occurrence : Occurrence
  pub known : find (λ (p : Participant). p.id == id) b.db.participants ≡ some participant
  pub registration : Registration
  pub of_participant :
      find (λ (r : Registration). r.id == participant.registration_id) b.db.registrations
      ≡ some registration
  pub of_registration :
      find (λ (o : Occurrence). o.id == registration.occurrence_id) b.db.occurrences
      ≡ some occurrence
  pub active : participant.status ≡ ParticipantStatus.active
  pub attendance : AttendanceStatus
  pub of_attendance :
      find (λ (s : AttendanceStatus). s.participant_id == participant.id) b.db.attendance
      ≡ some attendance
  pub checked_in : is_some attendance.checked_in_at ≡ true
  pub over : occurrence.ends_at ≤ now
  pub review : Review
  pub stored : find (is_review_of participant) b'.reviews ≡ some review
  pub rated : (review.rating ≡ rating) × (1 ≤ rating) × (rating ≤ 5)
  pub commented : review.comment ≡ comment
  pub shown : review.deleted_at ≡ none
  pub kept : review.moderation_status ≡ status_before (find (is_review_of participant) b.reviews)

Stored : (rating : ℕ) (comment : Text) (p : Participant) (b b' : Board) → Type 0
Stored rating comment p b b' =
    (x : Review) × (find (is_review_of p) b'.reviews ≡ some x)
    × (x.rating ≡ rating)
    × (x.comment ≡ comment)
    × (x.deleted_at ≡ none)
    × (x.moderation_status ≡ status_before (find (is_review_of p) b.reviews))

store_review-Stored :
    (now : ℕ) (p : Participant) (o : Occurrence) (rating : ℕ) (comment : Text) (b b' : Board)
    (found : Option Review) (x : Review × Bool)
    → find (is_review_of p) b.reviews ≡ found
    → store_review now p o rating comment b found ≡ ok (x, b')
    → Stored rating comment p b b'
unfolding store_review edited new_review is_review_of Stored
store_review-Stored now p o rating comment b b' (some y) x e h =
    subst (λ (z : (Review × Bool) × Board). Stored rating comment p b z.1) (ok_injective h)
      (
        edited now rating comment y,
        find-update (is_review_of p) _ (edited now rating comment) y b.reviews (λ z. refl) e
            (==_refl y.id),
        refl,
        refl,
        refl,
        rw e refl,
      )
store_review-Stored now p o rating comment b b' none x e h =
    let (a, h1) =
      raise_if-eq-ok (any (λ (x : Review). x.participant_id == p.id) b.reviews) integrity_error _
        h in
    subst (λ (z : (Review × Bool) × Board). Stored rating comment p b z.1) (ok_injective h1)
      (
        new_review b.next_id p o rating comment,
        find_end (is_review_of p) (new_review b.next_id p o rating comment) b.reviews e
            (rw (==_refl p.site_id, ==_refl p.id) refl),
        refl,
        refl,
        refl,
        rw e refl,
      )

-- The rows that the query joins.
record Joined (id : ℕ) (b : Board) (po : Participant × Occurrence) : Type 0 where
  known : find (λ (p : Participant). p.id == id) b.db.participants ≡ some po.0
  registration : Registration
  of_participant :
      find (λ (r : Registration). r.id == po.0.registration_id) b.db.registrations
      ≡ some registration
  of_registration :
      find (λ (o : Occurrence). o.id == registration.occurrence_id) b.db.occurrences ≡ some po.1

get_attended-Joined :
    (id : ℕ) (b : Board) (po : Participant × Occurrence)
    → get_attended id b.db ≡ ok po
    → Joined id b po
unfolding get_attended
get_attended-Joined id b po h =
    let (p, hp, h1) =
      >>=-eq-ok (or_raise (find (λ (p : Participant). p.id == id) b.db.participants) does_not_exist)
        _ h in
    let (r, hr, h2) =
      >>=-eq-ok
        (or_raise (find (λ (r : Registration). r.id == p.registration_id) b.db.registrations)
          does_not_exist)
        _ h1 in
    let (o, ho, h3) =
      >>=-eq-ok
        (or_raise (find (λ (o : Occurrence). o.id == r.occurrence_id) b.db.occurrences)
          does_not_exist)
        _ h2 in
    subst (Joined id b) (ok_injective h3) (record {
      known = or_raise-eq-ok _ _ hp;
      registration = r;
      of_participant = or_raise-eq-ok _ _ hr;
      of_registration = or_raise-eq-ok _ _ ho;
    })

record CanReview (now : ℕ) (p : Participant) (o : Occurrence) (d : Db) : Type 0 where
  active : p.status ≡ ParticipantStatus.active
  attendance : AttendanceStatus
  found : find (λ (s : AttendanceStatus). s.participant_id == p.id) d.attendance ≡ some attendance
  checked_in : is_some attendance.checked_in_at ≡ true
  over : o.ends_at ≤ now

present_status :
    (x : Option AttendanceStatus)
    → is_present x ≡ true
    → (s : AttendanceStatus) × (x ≡ some s) × (is_some s.checked_in_at ≡ true)
present_status none h = cc
present_status (some s) h = (s, refl, h)

participant_can_review-CanReview :
    (now : ℕ) (p : Participant) (o : Occurrence) (d : Db)
    → participant_can_review now p o d ≡ true
    → CanReview now p o d
unfolding participant_can_review
participant_can_review-CanReview now p o d h =
    let x = find (λ (s : AttendanceStatus). s.participant_id == p.id) d.attendance in
    let (a, b, c) = three (is_present x) (is_active p.status) (leb o.ends_at now) h in
    let s = present_status x a in
    record {
      active = status_active p.status b;
      attendance = s.0;
      found = s.1;
      checked_in = s.2;
      over = ground arith;
    }
  where
    three : (a b c : Bool) → (a && b && c) ≡ true → (a ≡ true) × (b ≡ true) × (c ≡ true)
    three a b c h = ground arith

-- A call that returns comes from an active participant who is checked in, and whose registration is
-- for an occurrence that is over, with a rating from one to five. Afterwards this participant has a review with that rating
-- and comment, which is not deleted; its moderation status is that of the participant's review
-- before the call, deleted or not, and visible if there was none.
pub save_review-Saved :
    (now id rating : ℕ) (comment : Text) (b b' : Board) (x : Review × Bool)
    → save_review now id rating comment b ≡ ok (x, b')
    → Saved now id rating comment b b'
unfolding save_review is_rating Stored
save_review-Saved now id rating comment b b' x h =
    let (po, hp, h1) = >>=-eq-ok (get_attended id b.db) _ h in
    let j = get_attended-Joined id b po hp in
    let (c, h2) =
      raise_if-eq-ok (not (participant_can_review now po.0 po.1 b.db)) not_attended _ h1 in
    let can = participant_can_review-CanReview now po.0 po.1 b.db (not-eq-false _ c) in
    let (r, h3) = raise_if-eq-ok (not (is_rating rating)) integrity_error _ h2 in
    let within : is_rating rating ≡ true = not-eq-false _ r in
    let s = store_review-Stored now po.0 po.1 rating comment b b' _ x refl h3 in
    record {
      participant = po.0;
      occurrence = po.1;
      known = j.known;
      registration = j.registration;
      of_participant = j.of_participant;
      of_registration = j.of_registration;
      active = can.active;
      attendance = can.attendance;
      of_attendance = can.found;
      checked_in = can.checked_in;
      over = can.over;
      review = s.0;
      stored = s.1;
      rated = (s.2, ground arith, ground arith);
      commented = s.3;
      shown = s.4;
      kept = s.5;
    }

-- A report that is given a copy of a review, read while the review was visible, makes the review
-- public again if the review was hidden since and is not deleted.
pub report_review-is_public :
    (review x : Review) (actor : ℕ) (reason : Text) (b : Board)
    → is_visible review.moderation_status ≡ true
    → find (λ (x : Review). x.id == review.id) b.reviews ≡ some x
    → x.deleted_at ≡ none
    → is_hidden x.moderation_status ≡ true
    → (is_public x ≡ false)
      × (y : Review) × (find
            (λ (x : Review). x.id == review.id)
            (report_review review actor reason b).1.reviews
          ≡ some y)
      × (is_public y ≡ true)
unfolding report_review is_public
report_review-is_public review x actor reason b v e d t = (
  rw (d, t) refl,
  with_status ModerationStatus.reported x,
  rw v (
      find-update (λ (x : Review). x.id == review.id) _ (with_status ModerationStatus.reported) x
        b.reviews (λ y. refl) e (find-test _ b.reviews x e)),
  rw d refl,
)
