-- ===== src/Reviews/Model.antt =====
-- reviews/models.py: the rows, and the tables that reviews/services.py works on. `next_id` stands
-- for the UUIDs of rows to come.
use event_management.Base.{
  ℕ, Bool, true, false, ◌&&◌, not, Option, List, ◌==◌, is_some, find, Text, Result, or_raise,
}
use event_management.Schema.{Db}

pub data ModerationStatus : Type 0 where
  visible reported hidden : ModerationStatus

pub record Review : Type 0 where
  pub id : ℕ
  pub site_id : ℕ
  pub occurrence_id : ℕ
  pub participant_id : ℕ
  pub rating : ℕ
  pub comment : Text
  pub edited_at : Option ℕ
  pub deleted_at : Option ℕ
  pub moderation_status : ModerationStatus
  pub response : Text
  pub responded_at : Option ℕ
  pub responded_by : Option ℕ

pub record ReviewReport : Type 0 where
  pub id : ℕ
  pub site_id : ℕ
  pub review_id : ℕ
  pub reported_by : ℕ
  pub reason : Text
  pub resolved_at : Option ℕ

-- `ReviewModeration.Action`
pub data Action : Type 0 where
  hidden restored : Action

pub record ReviewModeration : Type 0 where
  pub id : ℕ
  pub site_id : ℕ
  pub review_id : ℕ
  pub action : Action
  pub reason : Text
  pub actor : ℕ

pub record Board : Type 0 where
  pub next_id : ℕ
  pub db : Db
  pub reviews : List Review
  pub reports : List ReviewReport
  pub moderations : List ReviewModeration

-- The validation errors, the constraints of the tables, and a row that is not there.
pub data Error : Type 0 where
  not_attended unknown_action integrity_error does_not_exist : Error

abbrev pub is_visible : ModerationStatus → Bool
is_visible ModerationStatus.visible = true
is_visible _ = false

abbrev pub is_hidden : ModerationStatus → Bool
is_hidden ModerationStatus.hidden = true
is_hidden _ = false

-- `Review.is_public`
unfoldable pub is_public : Review → Bool
is_public x = not (is_some x.deleted_at) && not (is_hidden x.moderation_status)

-- `Review.objects.get(pk=id)`
unfoldable pub get_review : ℕ → Board → Result Error Review
get_review id b = or_raise (find (λ (x : Review). x.id == id) b.reviews) does_not_exist
