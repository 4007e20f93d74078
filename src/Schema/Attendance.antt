-- ===== src/Schema/Attendance.antt =====
-- attendance/models.py: the present state of each participant's check-in, and its history.
use event_management.Base.{ℕ, Option, Text}

pub record AttendanceStatus : Type 0 where
  pub id : ℕ
  pub site_id : ℕ
  pub participant_id : ℕ
  pub checked_in_at : Option ℕ
  pub checked_in_by : Option ℕ

pub data Action : Type 0 where
  checked_in undone : Action

pub record AttendanceRecord : Type 0 where
  pub id : ℕ
  pub site_id : ℕ
  pub participant_id : ℕ
  pub occurrence_id : ℕ
  pub action : Action
  pub actor : ℕ
  pub note : Text
  pub recorded_at : ℕ
