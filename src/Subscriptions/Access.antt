-- ===== src/Subscriptions/Access.antt =====
-- subscriptions/services.py: the status of a subscription and its site, and the end of a trial or
-- of a grace period.
use event_management.Base.{
  ℕ, Bool, true, false, ◌&&◌, Option, none, some, leb, ◌==◌, if◌then◌else◌, find, update_if, Result,
  ok, or_raise, ◌>>=◌,
}
use event_management.Subscriptions.Model.{
  SubscriptionStatus, SiteStatus, Subscription, Account, Billing, Error, does_not_exist,
}

-- `SITE_STATUS_BY_SUBSCRIPTION`
unfoldable pub site_status_by_subscription : SubscriptionStatus → SiteStatus
site_status_by_subscription SubscriptionStatus.trialing = SiteStatus.trialing
site_status_by_subscription SubscriptionStatus.active = SiteStatus.active
site_status_by_subscription SubscriptionStatus.grace = SiteStatus.grace
site_status_by_subscription SubscriptionStatus.suspended = SiteStatus.suspended
site_status_by_subscription SubscriptionStatus.canceled = SiteStatus.canceled
site_status_by_subscription SubscriptionStatus.archived = SiteStatus.archived

-- The new `suspended_at`.
unfoldable pub suspension : ℕ → SubscriptionStatus → Option ℕ → Option ℕ
suspension now SubscriptionStatus.suspended previous = some now
suspension now SubscriptionStatus.active previous = none
suspension now SubscriptionStatus.trialing previous = none
suspension now SubscriptionStatus.grace previous = none
suspension now _ previous = previous

-- `_set_status` on the subscription as it stands in memory
unfoldable pub set_status : ℕ → SubscriptionStatus → Subscription → Account → Account
unfolding suspension site_status_by_subscription
set_status now status s a = record a {
  subscription = record s { status = status; suspended_at = suspension now status s.suspended_at };
  site_status = site_status_by_subscription status;
}

unfoldable pub save_account : Account → Billing → Billing
save_account a b = record b {
  accounts = update_if (λ x. x.subscription.id == a.subscription.id) (λ x. a) b.accounts;
}

abbrev pub is_trialing : SubscriptionStatus → Bool
is_trialing SubscriptionStatus.trialing = true
is_trialing _ = false

abbrev pub is_grace : SubscriptionStatus → Bool
is_grace SubscriptionStatus.grace = true
is_grace _ = false

-- `grace_ends_at and grace_ends_at <= now`
abbrev pub has_ended : Option ℕ → ℕ → Bool
has_ended none now = false
has_ended (some end) now = leb end now

-- What `synchronize_access` makes of an account.
unfoldable pub synchronize : ℕ → Account → Account
unfolding set_status
synchronize now a =
    if a.is_exempt
    then a
    else if is_trialing a.subscription.status && leb a.subscription.trial_ends_at now
    then set_status now SubscriptionStatus.suspended a.subscription a
    else if is_grace a.subscription.status && has_ended a.subscription.grace_ends_at now
    then set_status now SubscriptionStatus.suspended a.subscription a
    else a

unfoldable pub synchronize_access : ℕ → ℕ → Billing → Result Error (Account × Billing)
unfolding synchronize save_account
synchronize_access subscription_id now b = do
  a ←
      or_raise (find (λ (x : Account). x.subscription.id == subscription_id) b.accounts)
        does_not_exist
  ok (synchronize now a, save_account (synchronize now a) b)
