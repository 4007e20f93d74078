-- ===== src/Reviews/Examples.antt =====
-- Runs of the review calls on a small board.
use event_management.Base.{
  ◌≡◌, refl, true, false, none, some, [], ◌∷◌, Option, returned, find, count_if, any, ◌==◌,
  update_if, Bool, arith,
}
use event_management.Schema.{Db}
use event_management.Schema.Attendance.{AttendanceStatus, AttendanceRecord}
use event_management.Schema.Events.{PaymentStatus}
use event_management.Samples.{empty, registration, participant, occurrence}
use event_management.Attendance.{set_check_in}
use event_management.Attendance.Track.{IsTracked, replay, alternates}
use event_management.Reviews.Model.{
  ModerationStatus, Review, Action, ReviewModeration, Board, is_public,
}
use event_management.Reviews.Writing.{participant_can_review, save_review, new_review}
use event_management.Reviews.Moderation.{report_review, with_status, moderate_review}
use event_management.Reviews.Ledger.{IsModerated}
use event_management.Reviews.Calls.{Reach, here, next, save, report, moderate, Reach-IsModerated}
use event_management.Reviews.Saved.{Saved, save_review-Saved, report_review-is_public}
use event_management.Reviews.Presence.{IsSited, participant_can_review-set_check_in}

abbrev attended : Db
attended = record empty {
  occurrences = occurrence ∷ [];
  registrations = record registration { payment_status = PaymentStatus.paid } ∷ [];
  participants = participant ∷ [];
  attendance =
      record {
        id = 8;
        site_id = 7;
        participant_id = 5;
        checked_in_at = some 5500;
        checked_in_by = some 9;
      }
      ∷ [];
}

abbrev board : Board
board = record { next_id = 20; db = attended; reviews = []; reports = []; moderations = [] }

board-IsModerated : IsModerated board
unfolding count_if
board-IsModerated = record {
  statuses = tt;
  ids = tt;
  reported = tt;
  moderated = tt;
  rated = tt;
  single = λ j. ground arith;
}

abbrev review : Review
review = new_review 20 participant occurrence 4 (71 ∷ [])

abbrev written : (Review × Bool) × Board
written = returned ((review, false), board) (save_review 7000 5 4 (71 ∷ []) board)

save_review-Saved_example : Saved 7000 5 4 (71 ∷ []) board written.1
unfolding save_review find any
save_review-Saved_example = save_review-Saved 7000 5 4 (71 ∷ []) board written.1 written.0 refl

abbrev complained : Board
complained = (report_review written.0.0 9 (72 ∷ []) written.1).1

abbrev moderation : ReviewModeration
moderation = record {
  id = 0;
  site_id = 0;
  review_id = 0;
  action = Action.hidden;
  reason = [];
  actor = 0;
}

abbrev taken_down : ReviewModeration × Board
taken_down =
    returned (moderation, complained) (moderate_review 7200 20 1 (some Action.hidden) [] complained)

report_then_hide : Reach board taken_down.1
unfolding save_review report_review moderate_review find any new_review update_if
report_then_hide =
    next
      (next (next here (save 7000 5 4 (71 ∷ []) written.0 refl))
        (report written.0.0 9 (72 ∷ []) refl refl))
      (moderate 7200 20 1 Action.hidden [] taken_down.0 refl)

Reach-IsModerated_example : IsModerated taken_down.1
Reach-IsModerated_example = Reach-IsModerated board taken_down.1 board-IsModerated report_then_hide

abbrev hidden_review : Review
hidden_review = with_status ModerationStatus.hidden review

abbrev hidden_board : Board
hidden_board = record board { reviews = hidden_review ∷ [] }

report_review-is_public_example :
    (is_public hidden_review ≡ false)
    × (y : Review) × (find
          (λ (x : Review). x.id == review.id)
          (report_review review 9 [] hidden_board).1.reviews
        ≡ some y)
    × (is_public y ≡ true)
unfolding find new_review
report_review-is_public_example =
    report_review-is_public review hidden_review 9 [] hidden_board refl refl refl refl

attended-IsTracked : IsTracked (record attended { attendance = [] })
unfolding replay alternates find
attended-IsTracked = record {
  owner = λ k. (0, 0);
  owned = tt;
  shown = λ i j. refl;
  alternating = λ i j. refl;
}

abbrev expected : Db
expected = record attended { attendance = [] }

abbrev came : (AttendanceStatus × Option AttendanceRecord) × Db
came =
    returned
      (
        (
          record {
            id = 0;
            site_id = 0;
            participant_id = 0;
            checked_in_at = none;
            checked_in_by = none;
          },
          none,
        ),
        expected,
      )
      (set_check_in 5500 5 9 true [] expected)

participant_can_review-set_check_in_example :
    participant_can_review 7000 participant occurrence came.1 ≡ true
unfolding set_check_in find IsSited any
participant_can_review-set_check_in_example =
    participant_can_review-set_check_in 5500 7000 5 9 true [] expected came.1 came.0 participant
      occurrence attended-IsTracked refl tt refl
