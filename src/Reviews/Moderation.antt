-- ===== src/Reviews/Moderation.antt =====
-- reviews/services.py: reports of a review, and its moderation by the platform.
use event_management.Base.{
  ℕ, ◌+◌, Bool, ◌&&◌, not, Option, none, some, List, [], ◌∷◌, ◌++◌, ◌==◌, is_some, if◌then◌else◌,
  update_if, Text, strip, Result, ok, err, ◌>>=◌,
}
use event_management.Reviews.Model.{
  ModerationStatus, Review, ReviewReport, Action, ReviewModeration, Board, Error, unknown_action,
  is_visible, get_review,
}

unfoldable pub new_report : ℕ → Review → ℕ → Text → ReviewReport
new_report id review actor reason = record {
  id = id;
  site_id = review.site_id;
  review_id = review.id;
  reported_by = actor;
  reason = strip reason;
  resolved_at = none;
}

abbrev pub with_status : ModerationStatus → Review → Review
with_status status x = record x { moderation_status = status }

-- `report_review`, with the copy of the row that the caller has read before.
unfoldable pub report_review : Review → ℕ → Text → Board → ReviewReport × Board
unfolding new_report
report_review review actor reason b = (
  new_report b.next_id review actor reason,
  record b {
    next_id = b.next_id + 1;
    reports = b.reports ++ new_report b.next_id review actor reason ∷ [];
    reviews =
        (if is_visible review.moderation_status
          then update_if (λ x. x.id == review.id) (with_status ModerationStatus.reported) b.reviews
          else b.reviews);
  },
)

unfoldable pub status_after : Action → ModerationStatus
status_after Action.hidden = ModerationStatus.hidden
status_after Action.restored = ModerationStatus.visible

-- `.filter(resolved_at__isnull=True)` on the reports of a review
unfoldable pub is_open : ℕ → ReviewReport → Bool
is_open id x = x.review_id == id && not (is_some x.resolved_at)

unfoldable pub resolve_reports : ℕ → ℕ → Action → List ReviewReport → List ReviewReport
unfolding is_open
resolve_reports now id Action.hidden reports = reports
resolve_reports now id Action.restored reports =
    update_if (is_open id) (λ (x : ReviewReport). record x { resolved_at = some now }) reports

unfoldable pub new_moderation : ℕ → Review → ℕ → Action → Text → ReviewModeration
new_moderation id review actor action reason = record {
  id = id;
  site_id = review.site_id;
  review_id = review.id;
  action = action;
  reason = strip reason;
  actor = actor;
}

-- `moderate_review` with a text that names an action, or any other.
unfoldable pub moderate_review :
    ℕ → ℕ → ℕ → Option Action → Text → Board → Result Error (ReviewModeration × Board)
unfolding new_moderation resolve_reports status_after get_review
moderate_review now id actor none reason b = err unknown_action
moderate_review now id actor (some action) reason b = do
  x ← get_review id b
  ok (
    new_moderation b.next_id x actor action reason,
    record b {
      next_id = b.next_id + 1;
      reviews =
          update_if (λ (y : Review). y.id == id) (with_status (status_after action)) b.reviews;
      moderations = b.moderations ++ new_moderation b.next_id x actor action reason ∷ [];
      reports = resolve_reports now id action b.reports;
    },
  )
