-- ===== src/Attendance/Examples.antt =====
-- Runs of `set_check_in` on a small table.
use event_management.Base.{refl, true, none, [], ◌∷◌, Option, returned, find, any}
use event_management.Schema.{Db}
use event_management.Schema.Events.{PaymentStatus}
use event_management.Schema.Attendance.{AttendanceStatus, AttendanceRecord}
use event_management.Samples.{empty, registration, participant}
use event_management.Attendance.{set_check_in}
use event_management.Attendance.Track.{IsTracked, replay, alternates}
use event_management.Attendance.Marks.{Marked, set_check_in-Marked}

abbrev settled : Db
settled = record empty {
  registrations = record registration { payment_status = PaymentStatus.paid } ∷ [];
  participants = participant ∷ [];
}

settled-IsTracked : IsTracked settled
unfolding replay alternates find
settled-IsTracked = record {
  owner = λ k. (0, 0);
  owned = tt;
  shown = λ i j. refl;
  alternating = λ i j. refl;
}

abbrev arrived : (AttendanceStatus × Option AttendanceRecord) × Db
arrived =
    returned
      (
        (
          record {
            id = 0;
            site_id = 0;
            participant_id = 0;
            checked_in_at = none;
            checked_in_by = none;
          },
          none,
        ),
        settled,
      )
      (set_check_in 100 5 9 true [] settled)

set_check_in-Marked_example : Marked 5 true settled arrived.1
unfolding set_check_in find any
set_check_in-Marked_example =
    set_check_in-Marked 100 5 9 true [] settled arrived.1 arrived.0 settled-IsTracked refl
