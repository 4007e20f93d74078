-- ===== src/Reviews/Presence.antt =====
-- attendance/services.py and reviews/services.py together: who can review after a check-in is set.
use event_management.Base.{
  ℕ, ◌≡◌, refl, ap, sym, ◌∙◌, subst, Bool, true, false, ◌&&◌, not, Option, none, some, List, [],
  ◌∷◌, leb, ◌==◌, if◌then◌else◌, is_some, same_bool, find, All, All-append, All-update_to, find-All,
  Text, ok, >>=-eq-ok, raise_if-eq-ok, ok_injective, some_injective, inl, inr, Bool-cases, ==_refl,
  ==_iff,
}
use event_management.Schema.{Db}
use event_management.Schema.Events.{
  Occurrence, Participant, ParticipantStatus, Registration, is_active,
}
use event_management.Schema.Attendance.{AttendanceStatus, AttendanceRecord}
use event_management.Attendance.{
  not_admitted, integrity_error, has_other_status, is_admitted, status_of, status_or_created,
  toggled, change_status, set_check_in, check_in_registered, registration_of_participant,
  participant_at,
}
use event_management.Attendance.Track.{is_checked_in, IsTracked, created-found}
use event_management.Attendance.Marks.{set_check_in-Marked}
use event_management.Reviews.Writing.{is_present, participant_can_review}

-- The statuses of a participant are on the participant's site.
unfoldable pub IsSited : Participant → Db → Type 0
IsSited p d = All (λ s. s.participant_id ≡ p.id → s.site_id ≡ p.site_id) d.attendance

and_false : (b : Bool) → (b && false) ≡ false
and_false true = refl
and_false false = refl

and_middle : (a b : Bool) → (a && true && b) ≡ (a && b)
and_middle true b = refl
and_middle false b = refl

-- Looking for the status by the participant alone finds the same one.
find_by_participant :
    (p : Participant) (xs : List AttendanceStatus)
    → All (λ s. s.participant_id ≡ p.id → s.site_id ≡ p.site_id) xs
    → find (λ (s : AttendanceStatus). s.participant_id == p.id) xs
      ≡ find (status_of p.site_id p.id) xs
unfolding find status_of
find_by_participant p [] h = refl
find_by_participant p (x ∷ xs) h = elim (Bool-cases (x.participant_id == p.id)) [
  | inl t ↦ rw (t, h.0 ((==_iff x.participant_id p.id).0 t), ==_refl p.site_id) refl
  | inr t ↦ rw (t, and_false (x.site_id == p.site_id)) (find_by_participant p xs h.1)
]

created-IsSited :
    (p : Participant) (x : Option AttendanceStatus) (d : Db)
    → IsSited p d
    → IsSited p (status_or_created p x d).1
unfolding status_or_created IsSited
created-IsSited p none d v = All-append _ d.attendance _ v (λ e. refl, tt)
created-IsSited p (some s) d v = v

changed-IsSited :
    (now : ℕ) (p q : Participant) (r : Registration) (actor : ℕ) (checked_in : Bool) (note : Text)
    (s : AttendanceStatus) (test : AttendanceStatus → Bool) (d : Db)
    → IsSited p d
    → find test d.attendance ≡ some s
    → IsSited p (change_status now q r actor checked_in note s d).1
unfolding change_status toggled IsSited
changed-IsSited now p q r actor checked_in note s test d v e =
    elim (Bool-cases (same_bool (is_some s.checked_in_at) checked_in)) [
      | inl t ↦ rw t v
      | inr t ↦ rw t (
          All-update_to _ _ (toggled now actor checked_in s) d.attendance
            (find-All _ test d.attendance s e v) v)
    ]

set_check_in-IsSited :
    (now k actor : ℕ) (checked_in : Bool) (note : Text) (d d' : Db)
    (t : AttendanceStatus × Option AttendanceRecord) (p : Participant)
    → find (λ (x : Participant). x.id == k) d.participants ≡ some p
    → IsSited p d
    → set_check_in now k actor checked_in note d ≡ ok (t, d')
    → IsSited p d'
unfolding set_check_in check_in_registered participant_at
set_check_in-IsSited now k actor checked_in note d d' t p known v h =
    let h0 = rw known at h in
    let (r, hr, h1) =
      >>=-eq-ok (registration_of_participant d p)
        (check_in_registered now actor checked_in note d p) h0 in
    let x = find (status_of p.site_id p.id) d.attendance in
    let (a, h2) = raise_if-eq-ok (not (is_admitted p r)) not_admitted _ h1 in
    let (b, h3) = raise_if-eq-ok (has_other_status p x d) integrity_error _ h2 in
    subst (λ (y : (AttendanceStatus × Option AttendanceRecord) × Db). IsSited p y.1)
      (ok_injective h3)
      (changed-IsSited now p p r actor checked_in note (status_or_created p x d).0 _
        (status_or_created p x d).1 (created-IsSited p x d v) (created-found p x d refl))

is_present-is_checked_in : (x : Option AttendanceStatus) → is_present x ≡ is_checked_in x
is_present-is_checked_in none = refl
is_present-is_checked_in (some s) = refl

active_participant :
    (q p : Participant) → q ≡ p → q.status ≡ ParticipantStatus.active → is_active p.status ≡ true
active_participant q p e h =
    subst (λ (x : Participant). is_active x.status ≡ true) e (ap is_active h)

own_check :
    (q p : Participant) (c b : Bool)
    → q ≡ p
    → (if q.site_id == p.site_id && q.id == p.id then c else b) ≡ c
own_check q p c b e =
    rw
      (
        ap (λ (x : Participant). x.site_id) e,
        ap (λ (x : Participant). x.id) e,
        ==_refl p.site_id,
        ==_refl p.id,
      )
      refl

-- After an accepted call of `set_check_in` for a participant whose statuses are on the participant's
-- site, with statuses that say what the history says, the participant can review exactly if the call
-- checks in and the occurrence is over.
pub participant_can_review-set_check_in :
    (now later k actor : ℕ) (checked_in : Bool) (note : Text) (d d' : Db)
    (t : AttendanceStatus × Option AttendanceRecord) (p : Participant) (o : Occurrence)
    → IsTracked d
    → find (λ (x : Participant). x.id == k) d.participants ≡ some p
    → IsSited p d
    → set_check_in now k actor checked_in note d ≡ ok (t, d')
    → participant_can_review later p o d' ≡ (checked_in && leb o.ends_at later)
unfolding participant_can_review IsSited
participant_can_review-set_check_in now later k actor checked_in note d d' t p o v known sited h =
    let m = set_check_in-Marked now k actor checked_in note d d' t v h in
    let same : m.participant ≡ p = some_injective (sym m.known ∙ known) in
    let after = set_check_in-IsSited now k actor checked_in note d d' t p known sited h in
    let present : is_present
          (find (λ (s : AttendanceStatus). s.participant_id == p.id) d'.attendance)
        ≡ checked_in =
      is_present-is_checked_in _
      ∙ ap is_checked_in (find_by_participant p d'.attendance after)
      ∙ m.tracked.shown p.site_id p.id
      ∙ m.checked p.site_id p.id
      ∙ own_check m.participant p checked_in _ same in
    rw (present, active_participant m.participant p same m.active)
      (and_middle checked_in (leb o.ends_at later))
