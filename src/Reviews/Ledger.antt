-- ===== src/Reviews/Ledger.antt =====
-- reviews/services.py: what the reports and the moderations of a review say of its status.
use event_management.Base.{
  ℕ, ◌<◌, ◌≤◌, ◌≡◌, refl, Bool, true, false, some, List, [], ◌∷◌, ◌++◌, ◌==◌, if◌then◌else◌, any,
  count_if, update_if, All, All-update, arith,
}
use event_management.Reviews.Model.{
  ModerationStatus, Review, ReviewReport, Action, ReviewModeration, Board,
}
use event_management.Reviews.Moderation.{is_open, resolve_reports}

abbrev pub hides : Action → Bool
hides Action.hidden = true
hides Action.restored = false

-- Whether a review is hidden after these moderations, being so before them or not.
unfoldable pub replay : ℕ → Bool → List ReviewModeration → Bool
replay id b [] = b
replay id b (x ∷ xs) = replay id (if x.review_id == id then hides x.action else b) xs

-- The status of a review, given whether its last moderation hides it and whether a report is open.
abbrev pub status_for : Bool → Bool → ModerationStatus
status_for true is_reported = ModerationStatus.hidden
status_for false true = ModerationStatus.reported
status_for false false = ModerationStatus.visible

abbrev pub told : List ReviewModeration → List ReviewReport → ℕ → ModerationStatus
told moderations reports id = status_for (replay id false moderations) (any (is_open id) reports)

-- The statuses are what the history says, the rows are numbered, a participant has at most one
-- review, and ratings are from one to five.
pub record IsModerated (b : Board) : Type 0 where
  pub statuses : All (λ x. x.moderation_status ≡ told b.moderations b.reports x.id) b.reviews
  pub ids : All (λ x. x.id < b.next_id) b.reviews
  pub reported : All (λ x. x.review_id < b.next_id) b.reports
  pub moderated : All (λ x. x.review_id < b.next_id) b.moderations
  pub rated : All (λ x. (1 ≤ x.rating) × (x.rating ≤ 5)) b.reviews
  pub single : (j : ℕ) → count_if (λ (x : Review). x.participant_id == j) b.reviews ≤ 1

pub replay-append :
    (id : ℕ) (b : Bool) (xs : List ReviewModeration) (x : ReviewModeration)
    → replay id b (xs ++ x ∷ []) ≡ (if x.review_id == id then hides x.action else replay id b xs)
unfolding replay
replay-append id b [] x = refl
replay-append id b (y ∷ ys) x =
    replay-append id (if y.review_id == id then hides y.action else b) ys x

-- Nothing is said of a review that is not there yet.
pub replay_fresh :
    (id : ℕ) (b : Bool) (xs : List ReviewModeration)
    → All (λ x. x.review_id < id) xs
    → replay id b xs ≡ b
unfolding replay
replay_fresh id b [] h = refl
replay_fresh id b (x ∷ xs) h =
    let e : (x.review_id == id) ≡ false = ground (arith, h.0) in rw e (replay_fresh id b xs h.1)

pub any_fresh :
    (id : ℕ) (xs : List ReviewReport) → All (λ x. x.review_id < id) xs → any (is_open id) xs ≡ false
unfolding any is_open
any_fresh id [] h = refl
any_fresh id (x ∷ xs) h =
    let e : (x.review_id == id) ≡ false = ground (arith, h.0) in rw e (any_fresh id xs h.1)

open_unresolved :
    (now id k : ℕ) (x : ReviewReport)
    → is_open k (if is_open id x then record x { resolved_at = some now } else x)
      ≡ (if id == k then false else is_open k x)
unfolding is_open
open_unresolved now id k x = ground arith

-- A restored review has no open report, and the others have those that they had.
pub resolve_reports-open :
    (now id k : ℕ) (action : Action) (xs : List ReviewReport)
    → any (is_open k) (resolve_reports now id action xs) ≡ (
        if id == k
        then (if hides action then any (is_open k) xs else false)
        else any (is_open k) xs)
unfolding resolve_reports any update_if
resolve_reports-open now id k Action.hidden xs = ground arith
resolve_reports-open now id k Action.restored [] = ground arith
resolve_reports-open now id k Action.restored (x ∷ xs) =
    rw (open_unresolved now id k x, resolve_reports-open now id k Action.restored xs) (ground arith)

pub resolve_reports-All :
    (now id n : ℕ) (action : Action) (xs : List ReviewReport)
    → All (λ x. x.review_id < n) xs
    → All (λ x. x.review_id < n) (resolve_reports now id action xs)
unfolding resolve_reports
resolve_reports-All now id n Action.hidden xs h = h
resolve_reports-All now id n Action.restored xs h = All-update _ (is_open id) _ xs (λ x e. e) h
