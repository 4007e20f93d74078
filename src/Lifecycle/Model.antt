-- ===== src/Lifecycle/Model.antt =====
-- sites/models.py and ops/models.py: a site with its subscription, and the requests to delete sites.
use event_management.Base.{
  ℕ, Bool, true, false, Option, none, some, List, ◌==◌, find, update_if, Text, Result, or_raise,
}
use event_management.Subscriptions.Model.{SiteStatus, Account}

pub record Site : Type 0 where
  pub id : ℕ
  pub account : Account

-- `SiteDeletionRequest.Status`
pub data DeletionStatus : Type 0 where
  requested approved canceled completed : DeletionStatus

pub record SiteDeletionRequest : Type 0 where
  pub id : ℕ
  pub site : Option ℕ
  pub site_id_snapshot : ℕ
  pub reason : Text
  pub status : DeletionStatus
  pub requested_by : ℕ
  pub approved_by : Option ℕ
  pub approved_at : Option ℕ
  pub deletion_eligible_at : Option ℕ
  pub completed_at : Option ℕ

pub record Platform : Type 0 where
  pub next_id : ℕ
  pub sites : List Site
  pub deletions : List SiteDeletionRequest

-- The validation errors, and a row that is not there.
pub data Error : Type 0 where
  reason_required not_live trial_ended stripe_failed still_live not_pending same_person not_open
        no_pending_hold not_eligible does_not_exist :
      Error

-- `Site.accepts_public_traffic`
unfoldable pub accepts_public_traffic : SiteStatus → Bool
accepts_public_traffic SiteStatus.trialing = true
accepts_public_traffic SiteStatus.active = true
accepts_public_traffic SiteStatus.grace = true
accepts_public_traffic _ = false

abbrev pub is_requested : DeletionStatus → Bool
is_requested DeletionStatus.requested = true
is_requested _ = false

abbrev pub is_approved : DeletionStatus → Bool
is_approved DeletionStatus.approved = true
is_approved _ = false

abbrev pub is_completed : DeletionStatus → Bool
is_completed DeletionStatus.completed = true
is_completed _ = false

-- `status__in=(REQUESTED, APPROVED)`
unfoldable pub is_pending : DeletionStatus → Bool
is_pending DeletionStatus.requested = true
is_pending DeletionStatus.approved = true
is_pending _ = false

-- `site=site`
abbrev pub is_site : ℕ → Option ℕ → Bool
is_site id none = false
is_site id (some site_id) = site_id == id

unfoldable pub get_site : ℕ → Platform → Result Error Site
get_site id m = or_raise (find (λ (x : Site). x.id == id) m.sites) does_not_exist

unfoldable pub get_deletion : ℕ → Platform → Result Error SiteDeletionRequest
get_deletion id m =
    or_raise (find (λ (x : SiteDeletionRequest). x.id == id) m.deletions) does_not_exist

-- `deletion.save()`: the row with the same id
unfoldable pub save_deletion :
    SiteDeletionRequest → List SiteDeletionRequest → List SiteDeletionRequest
save_deletion x = update_if (λ y. y.id == x.id) (λ y. x)
