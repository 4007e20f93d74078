-- ===== src/Lifecycle/Guarded.antt =====
-- sites/services.py and ops/services.py: who has approved a deletion, and how long it waits.
use event_management.Base.{
  ℕ, ◌+◌, ◌*◌, ◌≡◌, refl, Bool, true, false, Option, none, some, List, ◌==◌, All, All-update,
  All-update_to, ◌⊎◌, inl, inr, Text, ==_refl,
}
use event_management.Lifecycle.Model.{
  DeletionStatus, SiteDeletionRequest, Platform, is_approved, is_completed, save_deletion,
}
use event_management.Lifecycle.Access.{new_deletion, as_canceled, held, site_deletion_hold_days}
use event_management.Lifecycle.Deletion.{granted, executed, delete_site}

-- The request has been granted, by a second person for the long wait or by the holder for the short
-- one; once completed, it has no site.
pub record Granted (retention_days hold_days : ℕ) (x : SiteDeletionRequest) : Type 0 where
  pub person : ℕ
  pub approver : x.approved_by ≡ some person
  pub at : ℕ
  pub approval : x.approved_at ≡ some at
  pub terms :
      (((x.requested_by == person) ≡ false)
        × (x.deletion_eligible_at ≡ some (at + 86400 * retention_days)))
      ⊎ (((x.requested_by == person) ≡ true)
          × (x.deletion_eligible_at ≡ some (at + 86400 * site_deletion_hold_days hold_days)))

abbrev pub is_granted : DeletionStatus → Bool
is_granted DeletionStatus.approved = true
is_granted DeletionStatus.completed = true
is_granted _ = false

pub record IsGuarded (retention_days hold_days : ℕ) (x : SiteDeletionRequest) : Type 0 where
  pub granted : is_granted x.status ≡ true → Granted retention_days hold_days x
  pub gone : is_completed x.status ≡ true → x.site ≡ none

module _ (retention_days hold_days : ℕ) where
  abbrev pub AllGuarded : Platform → Type 0
  AllGuarded m = All (IsGuarded retention_days hold_days) m.deletions

  pub held-IsGuarded :
      (now actor : ℕ) (reason : Text) (x : SiteDeletionRequest)
      → IsGuarded retention_days hold_days
          (held now (86400 * site_deletion_hold_days hold_days) actor reason x)
  unfolding held
  held-IsGuarded now actor reason x = record {
    granted = λ e. record {
      person = actor;
      approver = refl;
      at = now;
      approval = refl;
      terms = inr (==_refl actor, refl);
    };
    gone = λ e. cc;
  }

  pub new-IsGuarded :
      (id site_id actor : ℕ) (reason : Text)
      → IsGuarded retention_days hold_days (new_deletion id site_id actor reason)
  unfolding new_deletion
  new-IsGuarded id site_id actor reason = record { granted = λ e. cc; gone = λ e. cc }

  pub canceled-IsGuarded :
      (x : SiteDeletionRequest) → IsGuarded retention_days hold_days (as_canceled x)
  canceled-IsGuarded x = record { granted = λ e. cc; gone = λ e. cc }

  pub granted-IsGuarded :
      (now actor : ℕ) (x : SiteDeletionRequest)
      → (x.requested_by == actor) ≡ false
      → IsGuarded retention_days hold_days (granted now retention_days actor x)
  unfolding granted
  granted-IsGuarded now actor x e = record {
    granted = λ _. record {
      person = actor;
      approver = refl;
      at = now;
      approval = refl;
      terms = inl (e, refl);
    };
    gone = λ e. cc;
  }

  pub executed-IsGuarded :
      (now : ℕ) (x : SiteDeletionRequest)
      → is_approved x.status ≡ true
      → IsGuarded retention_days hold_days x
      → IsGuarded retention_days hold_days (executed now x)
  unfolding executed
  executed-IsGuarded now x a v =
      let g = v.granted (granted_if x.status a) in
      record {
        granted = λ e. record {
          person = g.person;
          approver = g.approver;
          at = g.at;
          approval = g.approval;
          terms = g.terms;
        };
        gone = λ e. refl;
      }
    where
      granted_if : (s : DeletionStatus) → is_approved s ≡ true → is_granted s ≡ true
      granted_if DeletionStatus.requested e = cc
      granted_if DeletionStatus.approved e = refl
      granted_if DeletionStatus.canceled e = cc
      granted_if DeletionStatus.completed e = cc

  pub saved-AllGuarded :
      (x : SiteDeletionRequest) (xs : List SiteDeletionRequest)
      → IsGuarded retention_days hold_days x
      → All (IsGuarded retention_days hold_days) xs
      → All (IsGuarded retention_days hold_days) (save_deletion x xs)
  unfolding save_deletion
  saved-AllGuarded x xs v a = All-update_to _ _ x xs v a

  siteless-IsGuarded :
      (x : SiteDeletionRequest)
      → IsGuarded retention_days hold_days x
      → IsGuarded retention_days hold_days (record x { site = none })
  siteless-IsGuarded x v = record {
    granted = λ e.
        let g = v.granted e in
        record {
          person = g.person;
          approver = g.approver;
          at = g.at;
          approval = g.approval;
          terms = g.terms;
        };
    gone = λ e. refl;
  }

  pub deleted-AllGuarded :
      (id : Option ℕ) (m : Platform) → AllGuarded m → AllGuarded (delete_site id m)
  unfolding delete_site
  deleted-AllGuarded none m a = a
  deleted-AllGuarded (some id) m a = All-update _ _ _ m.deletions siteless-IsGuarded a
