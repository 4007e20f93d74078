-- ===== src/Subscriptions/Model.antt =====
-- subscriptions/models.py, and the status of a site from sites/models.py. A site and its one
-- subscription are one row, with what the code asks of the site's roles.
use event_management.Base.{ℕ, Bool, Option, List}

pub data SubscriptionStatus : Type 0 where
  trialing active grace suspended canceled archived : SubscriptionStatus

pub data SiteStatus : Type 0 where
  draft trialing active grace suspended canceled archived : SiteStatus

-- `BillingInterval`, and the blank that an unpaid subscription has
pub data BillingInterval : Type 0 where
  blank monthly yearly : BillingInterval

-- `PlatformSubscription`
pub record Subscription : Type 0 where
  pub id : ℕ
  pub status : SubscriptionStatus
  pub stripe_customer_id : ℕ
  pub stripe_subscription_id : ℕ
  pub stripe_price_id : ℕ
  pub billing_interval : BillingInterval
  pub trial_started_at : ℕ
  pub trial_ends_at : ℕ
  pub current_period_ends_at : Option ℕ
  pub grace_ends_at : Option ℕ
  pub cancel_at_period_end : Bool
  pub canceled_at : Option ℕ
  pub suspended_at : Option ℕ
  pub last_stripe_event_created_at : Option ℕ

-- `is_exempt` says that an active administrator of the site is exempt from paying.
pub record Account : Type 0 where
  pub subscription : Subscription
  pub site_status : SiteStatus
  pub is_exempt : Bool

pub data InboxStatus : Type 0 where
  received processed failed : InboxStatus

-- `StripeWebhookEvent`
pub record WebhookEvent : Type 0 where
  pub stripe_event_id : ℕ
  pub status : InboxStatus
  pub processed_at : Option ℕ

pub record Billing : Type 0 where
  pub accounts : List Account
  pub inbox : List WebhookEvent

-- The settings of the deployment; a price that is not configured is blank.
pub record Settings : Type 0 where
  pub standard_monthly_price_id : ℕ
  pub standard_yearly_price_id : ℕ
  pub grace_seconds : ℕ

pub data Error : Type 0 where
  does_not_exist : Error
