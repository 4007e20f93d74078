-- ===== src/Lifecycle/Deletion.antt =====
-- ops/services.py: the request, the approval, the cancelation and the execution of a deletion.
use event_management.Base.{
  ℕ, ◌+◌, ◌*◌, Bool, true, false, ◌&&◌, not, Option, none, some, [], ◌∷◌, ◌++◌, leb, ◌==◌, is_some,
  select, update_if, Text, is_blank, Result, ok, raise_if, ◌>>=◌, ◌>>◌,
}
use event_management.Subscriptions.Model.{SiteStatus}
use event_management.Lifecycle.Model.{
  Site, DeletionStatus, SiteDeletionRequest, Platform, Error, reason_required, still_live,
  not_pending, same_person, not_open, not_eligible, is_requested, is_approved, is_pending, is_site,
  get_site, get_deletion, save_deletion,
}
use event_management.Lifecycle.Access.{pending_deletion, new_deletion, as_canceled}

-- The statuses of a site that may be deleted.
unfoldable pub is_down : SiteStatus → Bool
is_down SiteStatus.suspended = true
is_down SiteStatus.canceled = true
is_down SiteStatus.archived = true
is_down _ = false

unfoldable pub request_or_pending :
    ℕ → ℕ → Text → Option SiteDeletionRequest → Platform → SiteDeletionRequest × Platform
unfolding new_deletion
request_or_pending id actor reason (some x) m = (x, m)
request_or_pending id actor reason none m =
    let x = new_deletion m.next_id id actor reason in
    (x, record m { next_id = m.next_id + 1; deletions = m.deletions ++ x ∷ [] })

unfoldable pub request_site_deletion :
    ℕ → ℕ → Text → Platform → Result Error (SiteDeletionRequest × Platform)
unfolding is_down request_or_pending pending_deletion get_site
request_site_deletion id actor reason m = do
  s ← get_site id m
  raise_if (is_blank reason) reason_required
  raise_if (not (is_down s.account.site_status)) still_live
  ok (request_or_pending id actor reason (pending_deletion id m) m)

unfoldable pub granted : ℕ → ℕ → ℕ → SiteDeletionRequest → SiteDeletionRequest
granted now retention_days actor x = record x {
  status = DeletionStatus.approved;
  approved_by = some actor;
  approved_at = some now;
  deletion_eligible_at = some (now + 86400 * retention_days);
}

unfoldable pub approve_site_deletion :
    ℕ → ℕ → ℕ → ℕ → Platform → Result Error (SiteDeletionRequest × Platform)
unfolding granted get_deletion save_deletion
approve_site_deletion retention_days now id actor m = do
  x ← get_deletion id m
  raise_if (not (is_requested x.status)) not_pending
  raise_if (x.requested_by == actor) same_person
  ok (
    granted now retention_days actor x,
    record m { deletions = save_deletion (granted now retention_days actor x) m.deletions },
  )

unfoldable pub cancel_site_deletion :
    ℕ → Text → Platform → Result Error (SiteDeletionRequest × Platform)
unfolding get_deletion save_deletion is_pending
cancel_site_deletion id reason m = do
  x ← get_deletion id m
  raise_if (not (is_pending x.status)) not_open
  raise_if (is_blank reason) reason_required
  ok (as_canceled x, record m { deletions = save_deletion (as_canceled x) m.deletions })

abbrev pub is_due : Option ℕ → ℕ → Bool
is_due none now = false
is_due (some eligible) now = leb eligible now

unfoldable pub is_eligible : ℕ → SiteDeletionRequest → Bool
is_eligible now x = is_approved x.status && is_due x.deletion_eligible_at now && is_some x.site

unfoldable pub executed : ℕ → SiteDeletionRequest → SiteDeletionRequest
executed now x = record x {
  site = none;
  status = DeletionStatus.completed;
  completed_at = some now;
}

-- `site.delete()`, which clears the site of its deletion requests.
unfoldable pub delete_site : Option ℕ → Platform → Platform
delete_site none m = m
delete_site (some id) m = record m {
  sites = select (λ (x : Site). not (x.id == id)) m.sites;
  deletions =
      update_if (λ (x : SiteDeletionRequest). is_site id x.site)
        (λ (x : SiteDeletionRequest). record x { site = none }) m.deletions;
}

abbrev pub complete : ℕ → SiteDeletionRequest → Platform → Platform
complete now x m = record m { deletions = save_deletion (executed now x) m.deletions }

unfoldable pub execute_site_deletion :
    ℕ → ℕ → Platform → Result Error (SiteDeletionRequest × Platform)
unfolding is_eligible executed delete_site get_deletion save_deletion
execute_site_deletion now id m = do
  x ← get_deletion id m
  raise_if (not (is_eligible now x)) not_eligible
  ok (executed now x, complete now x (delete_site x.site m))
