-- ===== src/Attendance.antt =====
-- attendance/services.py: `set_check_in`.
pub mod Lookup
pub mod Track
pub mod Marks
mod Examples
use event_management.Base.{
  ℕ, ◌+◌, Bool, true, false, ◌&&◌, not, Option, none, some, List, [], ◌∷◌, ◌++◌, ◌==◌,
  if◌then◌else◌, is_some, same_bool, any, find, update_if, Text, Result, ok, err, raise_if,
  or_raise, ◌>>=◌, ◌>>◌, take,
}
use event_management.Schema.{Db}
use event_management.Schema.Events.{Registration, Participant, is_going, is_settled, is_active}
use event_management.Schema.Attendance.{AttendanceStatus, AttendanceRecord, Action}

-- The validation error, and a row that is not there.
pub data Error : Type 0 where
  not_admitted does_not_exist integrity_error : Error

-- A participant whom the code lets check in.
unfoldable pub is_admitted : Participant → Registration → Bool
is_admitted p r = is_active p.status && is_going r.response && is_settled r.payment_status

-- The filter of `get_or_create`.
unfoldable pub status_of : ℕ → ℕ → AttendanceStatus → Bool
status_of site_id participant_id s = s.site_id == site_id && s.participant_id == participant_id

abbrev pub new_status : ℕ → Participant → AttendanceStatus
new_status id p = record {
  id = id;
  site_id = p.site_id;
  participant_id = p.id;
  checked_in_at = none;
  checked_in_by = none;
}

-- `AttendanceStatus.objects.get_or_create(…)`
unfoldable pub status_or_created :
    Participant → Option AttendanceStatus → Db → AttendanceStatus × Db
status_or_created p none d = (
  new_status d.next_id p,
  record d { next_id = d.next_id + 1; attendance = d.attendance ++ new_status d.next_id p ∷ [] },
)
status_or_created p (some s) d = (s, d)

-- A participant has one status at most, by a constraint of the table.
abbrev pub has_other_status : Participant → Option AttendanceStatus → Db → Bool
has_other_status p found d =
    not (is_some found) && any (λ (s : AttendanceStatus). s.participant_id == p.id) d.attendance

abbrev pub action_for : Bool → Action
action_for checked_in = if checked_in then Action.checked_in else Action.undone

-- The fields that a change of the check-in assigns.
unfoldable pub toggled : ℕ → ℕ → Bool → AttendanceStatus → AttendanceStatus
toggled now actor checked_in s = record s {
  checked_in_at = if checked_in then some now else none;
  checked_in_by = if checked_in then some actor else none;
}

unfoldable pub new_record : ℕ → ℕ → Participant → Registration → Bool → ℕ → Text → AttendanceRecord
new_record id now p r checked_in actor note = record {
  id = id;
  site_id = p.site_id;
  participant_id = p.id;
  occurrence_id = r.occurrence_id;
  action = action_for checked_in;
  actor = actor;
  note = take 300 note;
  recorded_at = now;
}

-- The call once the status row has been read or created.
unfoldable pub change_status :
    ℕ
    → Participant
    → Registration
    → ℕ
    → Bool
    → Text
    → AttendanceStatus
    → Db
    → (AttendanceStatus × Option AttendanceRecord) × Db
unfolding toggled new_record
change_status now p r actor checked_in note s d =
    if same_bool (is_some s.checked_in_at) checked_in
    then ((s, none), d)
    else let s' = toggled now actor checked_in s in
      let made = new_record d.next_id now p r checked_in actor note in
      (
        (s', some made),
        record d {
          next_id = d.next_id + 1;
          attendance = update_if (λ x. x.id == s.id) (λ x. s') d.attendance;
          attendance_records = d.attendance_records ++ made ∷ [];
        },
      )

-- The call once the participant's registration has been read.
unfoldable pub check_in_registered :
    ℕ
    → ℕ
    → Bool
    → Text
    → Db
    → Participant
    → Registration
    → Result Error ((AttendanceStatus × Option AttendanceRecord) × Db)
unfolding is_admitted status_of status_or_created change_status
check_in_registered now actor checked_in note d p r = do
  raise_if (not (is_admitted p r)) not_admitted
  raise_if (has_other_status p (find (status_of p.site_id p.id) d.attendance) d) integrity_error
  let (s, d') = status_or_created p (find (status_of p.site_id p.id) d.attendance) d
  ok (change_status now p r actor checked_in note s d')

unfoldable pub registration_of_participant : Db → Participant → Result Error Registration
registration_of_participant d p =
    or_raise (find (λ (r : Registration). r.id == p.registration_id) d.registrations) does_not_exist

unfoldable pub participant_at : Db → ℕ → Result Error Participant
participant_at d id =
    or_raise (find (λ (p : Participant). p.id == id) d.participants) does_not_exist

unfoldable pub set_check_in :
    ℕ → ℕ → ℕ → Bool → Text → Db → Result Error ((AttendanceStatus × Option AttendanceRecord) × Db)
unfolding check_in_registered registration_of_participant participant_at
set_check_in now participant_id actor checked_in note d = do
  p ← participant_at d participant_id
  r ← registration_of_participant d p
  check_in_registered now actor checked_in note d p r
