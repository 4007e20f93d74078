-- ===== src/Subscriptions/Examples.antt =====
-- Runs of the subscriptions app on small tables.
use event_management.Base.{◌≡◌, refl, false, none, some, [], ◌∷◌, find, ok, arith}
use event_management.Subscriptions.Model.{
  SubscriptionStatus, SiteStatus, BillingInterval, Account, Billing, Settings, WebhookEvent,
  InboxStatus,
}
use event_management.Subscriptions.Access.{synchronize, site_status_by_subscription}
use event_management.Subscriptions.Webhook.{
  EventType, ProviderStatus, StripeObject, react, apply_stripe_event, apply_provider_event,
}
use event_management.Subscriptions.Inbox.{
  process_stripe_event, get_or_create, found_or_created, close_event, inbox_row,
}
use event_management.Subscriptions.Status.{InSync, AllInSync, process_stripe_event-AllInSync}
use event_management.Subscriptions.Delivery.{process_stripe_event_again}
use event_management.Subscriptions.Deadlines.{active-overdue}

abbrev settings : Settings
settings = record {
  standard_monthly_price_id = 11;
  standard_yearly_price_id = 12;
  grace_seconds = 100;
}

abbrev overdue : Account
overdue = record {
  subscription = record {
    id = 1;
    status = SubscriptionStatus.grace;
    stripe_customer_id = 5;
    stripe_subscription_id = 6;
    stripe_price_id = 11;
    billing_interval = BillingInterval.monthly;
    trial_started_at = 1;
    trial_ends_at = 50;
    current_period_ends_at = none;
    grace_ends_at = some 200;
    cancel_at_period_end = false;
    canceled_at = none;
    suspended_at = none;
    last_stripe_event_created_at = some 90;
  };
  site_status = SiteStatus.grace;
  is_exempt = false;
}

abbrev table : Billing
table = record { accounts = overdue ∷ []; inbox = [] }

abbrev report : ProviderStatus → StripeObject
report status = record {
  id = 6;
  subscription = 6;
  customer = 5;
  metadata_subscription_id = 0;
  metadata_price_id = 0;
  metadata_interval = BillingInterval.blank;
  item_price_id = 12;
  status = status;
  cancel_at_period_end = false;
  current_period_end = 900;
}

table-AllInSync : AllInSync table
unfolding AllInSync InSync site_status_by_subscription
table-AllInSync = ((refl, refl), tt)

abbrev delivered : Billing
delivered =
    (process_stripe_event settings 210 77 EventType.invoice_paid (report ProviderStatus.active)
      (some 95) table).1

abbrev done : WebhookEvent
done = record { stripe_event_id = 77; status = InboxStatus.processed; processed_at = some 210 }

process_stripe_event-AllInSync_example : AllInSync delivered
process_stripe_event-AllInSync_example =
    process_stripe_event-AllInSync settings 210 77 EventType.invoice_paid
      (report ProviderStatus.active) (some 95) table table-AllInSync

process_stripe_event_again_example :
    process_stripe_event settings 400 77 EventType.subscription_deleted
      (report ProviderStatus.canceled)
      (some 99)
      delivered
    ≡ (ok done, delivered)
unfolding process_stripe_event get_or_create found_or_created inbox_row find close_event
    apply_stripe_event apply_provider_event
process_stripe_event_again_example =
    process_stripe_event_again settings settings 210 400 77 EventType.invoice_paid
      EventType.subscription_deleted (report ProviderStatus.active) (report ProviderStatus.canceled)
      (some 95) (some 99) table delivered done refl

active-overdue_example :
    (synchronize 250 (
      react settings 250 EventType.subscription_updated (report ProviderStatus.past_due) (some 99) (
        react settings 150 EventType.subscription_updated
          (report ProviderStatus.active)
          (some 95)
          overdue))).subscription.status
    ≡ SubscriptionStatus.suspended
active-overdue_example =
    active-overdue settings 150 250 200 (report ProviderStatus.active)
      (report ProviderStatus.past_due) (some 95) (some 99) overdue refl refl (omega arith) refl refl
