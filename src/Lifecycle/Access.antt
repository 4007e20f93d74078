-- ===== src/Lifecycle/Access.antt =====
-- sites/services.py: suspending and resuming a site, and the hold before it is deleted. A call is
-- given the site as it stands. The call of Stripe that changes the end of a subscription is a
-- parameter: it returns, or it fails.
use event_management.Base.{
  ℕ, ◌+◌, ◌*◌, Bool, true, false, ◌&&◌, not, Option, none, some, [], ◌∷◌, ◌++◌, ltb, ◌==◌,
  if◌then◌else◌, max, find_last, update_if, Text, strip, is_blank, Result, ok, err, raise_if, ◌>>=◌,
  ◌>>◌,
}
use event_management.Subscriptions.Model.{SubscriptionStatus, Subscription, Account}
use event_management.Subscriptions.Access.{site_status_by_subscription}
use event_management.Lifecycle.Model.{
  Site, DeletionStatus, SiteDeletionRequest, Platform, Error, reason_required, not_live,
  trial_ended, stripe_failed, no_pending_hold, accepts_public_traffic, is_pending, is_site,
  get_site, save_deletion,
}

-- `_resume_subscription_status`
unfoldable pub resume_subscription_status : ℕ → Account → Result Error SubscriptionStatus
resume_subscription_status now a =
    if a.is_exempt
    then ok SubscriptionStatus.active
    else if not (a.subscription.stripe_customer_id == 0)
        && not (a.subscription.stripe_subscription_id == 0)
    then ok SubscriptionStatus.active
    else if ltb now a.subscription.trial_ends_at
    then ok SubscriptionStatus.trialing
    else err trial_ended

-- `_apply_site_and_subscription_status`
unfoldable pub apply_status : SubscriptionStatus → Site → Site
unfolding site_status_by_subscription
apply_status status s = record s {
  account = record s.account {
    subscription = record s.account.subscription { status = status };
    site_status = site_status_by_subscription status;
  };
}

abbrev pub with_subscription : (Subscription → Subscription) → Site → Site
with_subscription f s = record s {
  account = record s.account { subscription = f s.account.subscription };
}

-- `suspend_site_access` on the site's row
unfoldable pub suspended : ℕ → Site → Site
unfolding apply_status
suspended now s =
    with_subscription (λ x. record x { suspended_at = some now })
      (apply_status SubscriptionStatus.suspended s)

abbrev pub change_site : ℕ → (Site → Site) → Platform → Platform
change_site id f m = record m { sites = update_if (λ x. x.id == id) f m.sites }

unfoldable pub suspend_site_access : ℕ → ℕ → Text → Platform → Result Error (Site × Platform)
unfolding suspended accepts_public_traffic get_site
suspend_site_access now id reason m = do
  s ← get_site id m
  raise_if (is_blank reason) reason_required
  raise_if (not (accepts_public_traffic s.account.site_status)) not_live
  ok (suspended now s, change_site id (suspended now) m)

abbrev pub is_canceled : SubscriptionStatus → Bool
is_canceled SubscriptionStatus.canceled = true
is_canceled _ = false

unfoldable pub resumed : SubscriptionStatus → Site → Site
unfolding apply_status
resumed status s =
    let canceled_at =
      if is_canceled s.account.subscription.status
      then none
      else s.account.subscription.canceled_at in
    with_subscription (λ x. record x { suspended_at = none; canceled_at = canceled_at })
      (apply_status status s)

-- A site that is down, with its new status.
unfoldable pub resume_down : ℕ → Site → Platform → Result Error (Site × Platform)
unfolding resume_subscription_status resumed
resume_down now s m = do
  status ← resume_subscription_status now s.account
  ok (resumed status s, change_site s.id (resumed status) m)

unfoldable pub resume_site_access : ℕ → ℕ → Platform → Result Error (Site × Platform)
unfolding resume_down accepts_public_traffic get_site
resume_site_access now id m = do
  s ← get_site id m
  (if accepts_public_traffic s.account.site_status then ok (s, m) else resume_down now s m)

-- `_sync_stripe_cancel_schedule`, which calls Stripe for a subscription that Stripe knows
unfoldable pub sync_stripe_cancel_schedule :
    (Subscription → Bool → Bool) → Subscription → Bool → Bool
sync_stripe_cancel_schedule stripe s cancel_at_period_end =
    if s.stripe_subscription_id == 0 then true else stripe s cancel_at_period_end

-- The site's row under a hold.
unfoldable pub on_hold : ℕ → Site → Site
unfolding apply_status
on_hold now s =
    with_subscription
      (λ x. record x {
        suspended_at = some now;
        canceled_at = some now;
        cancel_at_period_end = true;
      })
      (apply_status SubscriptionStatus.canceled s)

-- The site's pending request, the newest first.
unfoldable pub pending_deletion : ℕ → Platform → Option SiteDeletionRequest
unfolding is_pending
pending_deletion id m =
    find_last (λ (x : SiteDeletionRequest). is_site id x.site && is_pending x.status) m.deletions

unfoldable pub held : ℕ → ℕ → ℕ → Text → SiteDeletionRequest → SiteDeletionRequest
held now hold_seconds actor reason x = record x {
  reason = strip reason;
  status = DeletionStatus.approved;
  requested_by = actor;
  approved_by = some actor;
  approved_at = some now;
  deletion_eligible_at = some (now + hold_seconds);
}

unfoldable pub new_deletion : ℕ → ℕ → ℕ → Text → SiteDeletionRequest
new_deletion id site_id actor reason = record {
  id = id;
  site = some site_id;
  site_id_snapshot = site_id;
  reason = strip reason;
  status = DeletionStatus.requested;
  requested_by = actor;
  approved_by = none;
  approved_at = none;
  deletion_eligible_at = none;
  completed_at = none;
}

-- The request of the hold: the pending one, or a new one.
unfoldable pub hold_deletion :
    ℕ → ℕ → ℕ → ℕ → Text → Option SiteDeletionRequest → Platform → SiteDeletionRequest × Platform
unfolding held new_deletion save_deletion
hold_deletion now hold_seconds id actor reason none m =
    let x = held now hold_seconds actor reason (new_deletion m.next_id id actor reason) in
    (x, record m { next_id = m.next_id + 1; deletions = m.deletions ++ x ∷ [] })
hold_deletion now hold_seconds id actor reason (some d) m =
    let x = held now hold_seconds actor reason d in
    (x, record m { deletions = save_deletion x m.deletions })

-- `site_deletion_hold_days`, given the setting
unfoldable pub site_deletion_hold_days : ℕ → ℕ
site_deletion_hold_days days = max 1 days

unfoldable pub start_site_delete_hold :
    (Subscription → Bool → Bool)
    → ℕ
    → ℕ
    → ℕ
    → ℕ
    → Text
    → Platform
    → Result Error (SiteDeletionRequest × Platform)
unfolding sync_stripe_cancel_schedule on_hold hold_deletion pending_deletion get_site
    site_deletion_hold_days
start_site_delete_hold stripe days now id actor reason m = do
  s ← get_site id m
  raise_if (is_blank reason) reason_required
  raise_if (not (sync_stripe_cancel_schedule stripe s.account.subscription true)) stripe_failed
  ok (
      hold_deletion now (86400 * site_deletion_hold_days days) id actor reason
        (pending_deletion id m) (change_site id (on_hold now) m))

abbrev pub as_canceled : SiteDeletionRequest → SiteDeletionRequest
as_canceled x = record x { status = DeletionStatus.canceled }

unfoldable pub cancel_hold :
    (Subscription → Bool → Bool)
    → ℕ
    → ℕ
    → Site
    → Option SiteDeletionRequest
    → Platform
    → Result Error (SiteDeletionRequest × Platform)
unfolding sync_stripe_cancel_schedule resume_site_access save_deletion
cancel_hold stripe now id s none m = err no_pending_hold
cancel_hold stripe now id s (some d) m = do
  raise_if (not (sync_stripe_cancel_schedule stripe s.account.subscription false)) stripe_failed
  r ← resume_site_access now id (record m { deletions = save_deletion (as_canceled d) m.deletions })
  ok (as_canceled d, r.1)

unfoldable pub cancel_site_delete_hold :
    (Subscription → Bool → Bool)
    → ℕ
    → ℕ
    → Text
    → Platform
    → Result Error (SiteDeletionRequest × Platform)
unfolding cancel_hold pending_deletion get_site
cancel_site_delete_hold stripe now id reason m = do
  s ← get_site id m
  raise_if (is_blank reason) reason_required
  cancel_hold stripe now id s (pending_deletion id m) m
