-- ===== src/Lifecycle/Examples.antt =====
-- Runs of the calls on one site.
use event_management.Base.{
  ◌≡◌, refl, true, false, none, some, [], ◌∷◌, ◌==◌, returned, find, find_last, update_if, is_blank,
  Bool,
}
use event_management.Subscriptions.Model.{
  SubscriptionStatus, SiteStatus, BillingInterval, Subscription,
}
use event_management.Lifecycle.Model.{Site, SiteDeletionRequest, Platform, accepts_public_traffic}
use event_management.Lifecycle.Access.{start_site_delete_hold, resume_site_access, new_deletion}
use event_management.Lifecycle.Deletion.{execute_site_deletion, is_eligible}
use event_management.Lifecycle.Guarded.{AllGuarded}
use event_management.Lifecycle.Calls.{Reach, here, next, hold, execute, Reach-AllGuarded}
use event_management.Lifecycle.Live.{Removed, execute_site_deletion-resume_site_access}

abbrev site : Site
site = record {
  id = 7;
  account = record {
    subscription = record {
      id = 1;
      status = SubscriptionStatus.active;
      stripe_customer_id = 3;
      stripe_subscription_id = 4;
      stripe_price_id = 5;
      billing_interval = BillingInterval.monthly;
      trial_started_at = 0;
      trial_ends_at = 10;
      current_period_ends_at = none;
      grace_ends_at = none;
      cancel_at_period_end = false;
      canceled_at = none;
      suspended_at = none;
      last_stripe_event_created_at = none;
    };
    site_status = SiteStatus.active;
    is_exempt = false;
  };
}

abbrev platform : Platform
platform = record { next_id = 20; sites = site ∷ []; deletions = [] }

abbrev stripe : Subscription → Bool → Bool
stripe s cancel_at_period_end = true

abbrev no_request : SiteDeletionRequest
no_request = new_deletion 0 0 0 []

abbrev on_hold : SiteDeletionRequest × Platform
on_hold =
    returned (no_request, platform) (start_site_delete_hold stripe 3 1000 7 9 (71 ∷ []) platform)

abbrev removed : SiteDeletionRequest × Platform
removed = returned (no_request, platform) (execute_site_deletion 300000 20 on_hold.1)

hold_then_execute : Reach 90 3 stripe platform removed.1
unfolding start_site_delete_hold execute_site_deletion find find_last is_blank
hold_then_execute =
    next (next here (hold 1000 7 9 (71 ∷ []) on_hold.0 refl)) (execute 300000 20 removed.0 refl)

Reach-AllGuarded_example : AllGuarded 90 3 removed.1
Reach-AllGuarded_example = Reach-AllGuarded 90 3 stripe platform removed.1 tt hold_then_execute

abbrev back : Site × Platform
back = returned (site, platform) (resume_site_access 2000 7 on_hold.1)

execute_site_deletion-resume_site_access_example :
    (accepts_public_traffic back.0.account.site_status ≡ true)
    × (find (λ (y : Site). y.id == 7) back.1.sites ≡ some back.0)
    × Removed 300000 7 20 back.1
unfolding start_site_delete_hold resume_site_access is_eligible find find_last is_blank update_if
execute_site_deletion-resume_site_access_example =
    execute_site_deletion-resume_site_access 2000 300000 7 20 on_hold.1 back.1 back.0 on_hold.0 refl
      refl refl refl
