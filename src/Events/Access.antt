-- ===== src/Events/Access.antt =====
-- events/registration.py: who may respond to an occurrence of an event.
use event_management.Base.{
  ℕ, Bool, true, false, ◌&&◌, ◌||◌, not, Option, none, some, Text, is_blank, ◌==◌, Result, raise_if,
  ◌>>◌,
}
use event_management.Schema.Events.{
  Event, Occurrence, Invitation, EventStatus, OccurrenceStatus, Visibility, Source,
}

-- `RegistrationUnavailable` with its reasons, `CapacityExceeded`, `PublicResponseAlreadyExists`
-- with the registration's id, and `DoesNotExist`.
pub data Error : Type 0 where
  occurrence_closed event_closed invitation_required invitation_mismatch : Error
  foreign_contact primary_name_required guest_name_required too_many_guests : Error
  paid_locked capacity_exceeded does_not_exist : Error
  response_exists : ℕ → Error

-- A guest's dictionary, with `""` for a missing key.
pub record Guest : Type 0 where
  pub first_name : Text
  pub last_name : Text
  pub email : Text
  pub phone : Text

abbrev pub is_scheduled : OccurrenceStatus → Bool
is_scheduled OccurrenceStatus.scheduled = true
is_scheduled _ = false

abbrev pub is_published : EventStatus → Bool
is_published EventStatus.published = true
is_published _ = false

abbrev pub is_invite_only : Visibility → Bool
is_invite_only Visibility.invite_only = true
is_invite_only _ = false

abbrev pub from_invitation : Source → Bool
from_invitation Source.invitation = true
from_invitation _ = false

-- `source in (INVITATION, MANAGER)`
abbrev pub is_trusted : Source → Bool
is_trusted Source.invitation = true
is_trusted Source.manager = true
is_trusted _ = false

-- `invitation is None or invitation.occurrence_id != occurrence.id`
abbrev pub mismatches : Option Invitation → ℕ → Bool
mismatches none occurrence_id = true
mismatches (some i) occurrence_id = not (i.occurrence_id == occurrence_id)

-- `_validate_registration_access`
unfoldable pub validate_registration_access :
    Occurrence → Event → Source → Option Invitation → Result Error (Unit {0})
validate_registration_access occurrence event source invitation = do
  raise_if (not (is_scheduled occurrence.status)) occurrence_closed
  raise_if (not (is_published event.status)) event_closed
  raise_if (is_invite_only event.visibility && not (is_trusted source)) invitation_required
  raise_if (from_invitation source && mismatches invitation occurrence.id) invitation_mismatch

-- `any(not first_name.strip() or not last_name.strip())`
unfoldable pub lacks_name : Guest → Bool
lacks_name g = is_blank g.first_name || is_blank g.last_name
