-- ===== src/Subscriptions/Webhook.antt =====
-- subscriptions/services.py: `_apply_stripe_event`, what a webhook event does to a subscription.
use event_management.Base.{
  ℕ, ◌+◌, Bool, true, false, ◌&&◌, not, Option, none, some, ltb, ◌==◌, if◌then◌else◌, or_else, find,
  Result, ok, or_raise, ◌>>=◌,
}
use event_management.Subscriptions.Model.{
  SubscriptionStatus, BillingInterval, Subscription, Account, Billing, Settings, Error,
  does_not_exist,
}
use event_management.Subscriptions.Access.{set_status, save_account}

-- The event types that the code tells apart.
pub data EventType : Type 0 where
  checkout_completed invoice_paid invoice_payment_failed : EventType
  subscription_resumed subscription_deleted subscription_paused : EventType
  subscription_created subscription_updated other_subscription other_event : EventType

-- The `status` of Stripe's subscription.
pub data ProviderStatus : Type 0 where
  active trialing past_due unpaid canceled paused other : ProviderStatus

-- The keys of the event's object that the code reads, 0 for one that is missing or blank.
pub record StripeObject : Type 0 where
  pub id : ℕ
  pub subscription : ℕ
  pub customer : ℕ
  pub metadata_subscription_id : ℕ
  pub metadata_price_id : ℕ
  pub metadata_interval : BillingInterval
  pub item_price_id : ℕ
  pub status : ProviderStatus
  pub cancel_at_period_end : Bool
  pub current_period_end : ℕ

-- `_as_datetime`
abbrev pub as_datetime : ℕ → Option ℕ
as_datetime t = if t == 0 then none else some t

-- `_billing_interval_for_price`
unfoldable pub billing_interval_for_price : Settings → ℕ → BillingInterval
billing_interval_for_price c price_id =
    if price_id == 0
    then BillingInterval.blank
    else if price_id == c.standard_monthly_price_id
    then BillingInterval.monthly
    else if price_id == c.standard_yearly_price_id
    then BillingInterval.yearly
    else BillingInterval.blank

abbrev pub is_blank_interval : BillingInterval → Bool
is_blank_interval BillingInterval.blank = true
is_blank_interval _ = false

abbrev pub same_interval : BillingInterval → BillingInterval → Bool
same_interval BillingInterval.blank BillingInterval.blank = true
same_interval BillingInterval.monthly BillingInterval.monthly = true
same_interval BillingInterval.yearly BillingInterval.yearly = true
same_interval _ _ = false

-- `_apply_billing_selection`
unfoldable pub apply_billing_selection :
    Settings → ℕ → BillingInterval → Subscription → Subscription
unfolding billing_interval_for_price
apply_billing_selection c price_id interval s =
    let configured = billing_interval_for_price c price_id in
    if is_blank_interval configured
    then s
    else if not (is_blank_interval interval) && not (same_interval interval configured)
    then s
    else record s { stripe_price_id = price_id; billing_interval = configured }

-- `_event_is_stale`
unfoldable pub event_is_stale : Subscription → Option ℕ → Bool
event_is_stale s none = false
event_is_stale s (some created) = elim s.last_stripe_event_created_at [
  | none ↦ false
  | some last ↦ ltb created last
]

abbrev pub or_previous_time : Option ℕ → Option ℕ → Option ℕ
or_previous_time none last = last
or_previous_time (some created) last = some created

-- The time of the last event is that of this one, if it has a time.
abbrev pub stamp : Option ℕ → Subscription → Subscription
stamp created s = record s {
  last_stripe_event_created_at = or_previous_time created s.last_stripe_event_created_at;
}

-- The fields that a completed checkout assigns.
unfoldable pub complete_checkout : Settings → StripeObject → Option ℕ → Subscription → Subscription
unfolding apply_billing_selection
complete_checkout c o created s =
    let s' = record s {
      stripe_customer_id = o.customer;
      stripe_subscription_id =
          if o.subscription == 0 then s.stripe_subscription_id else o.subscription;
    } in
    let s'' = apply_billing_selection c o.metadata_price_id o.metadata_interval s' in
    stamp created s''

-- The grace period of a provider status that is overdue: the one that runs, or a new one.
abbrev pub grace_end : Settings → ℕ → Option ℕ → Option ℕ
grace_end c now grace = some (or_else grace (now + c.grace_seconds))

-- What the provider's status makes of the account.
unfoldable pub follow_provider : Settings → ℕ → ProviderStatus → Subscription → Account → Account
unfolding set_status
follow_provider c now ProviderStatus.active s a = set_status now SubscriptionStatus.active s a
follow_provider c now ProviderStatus.trialing s a = set_status now SubscriptionStatus.trialing s a
follow_provider c now ProviderStatus.past_due s a =
    set_status now SubscriptionStatus.grace
      (record s { grace_ends_at = grace_end c now s.grace_ends_at }) a
follow_provider c now ProviderStatus.unpaid s a =
    set_status now SubscriptionStatus.grace
      (record s { grace_ends_at = grace_end c now s.grace_ends_at }) a
follow_provider c now ProviderStatus.canceled s a = set_status now SubscriptionStatus.suspended s a
follow_provider c now ProviderStatus.paused s a = set_status now SubscriptionStatus.suspended s a
follow_provider c now ProviderStatus.other s a = record a { subscription = s }

-- The fields that a created or updated subscription assigns first.
unfoldable pub mirror_provider : Settings → StripeObject → Subscription → Subscription
unfolding apply_billing_selection
mirror_provider c o s =
    let s' = apply_billing_selection c o.item_price_id BillingInterval.blank s in
    record s' {
      cancel_at_period_end = o.cancel_at_period_end;
      current_period_ends_at = as_datetime o.current_period_end;
    }

-- The account after an event that is not stale; an event of another type saves nothing.
unfoldable pub react : Settings → ℕ → EventType → StripeObject → Option ℕ → Account → Account
unfolding set_status follow_provider mirror_provider
react c now type o created a =
    let s = stamp created a.subscription in
    elim type [
      | invoice_paid ↦
          set_status now SubscriptionStatus.active (record s { grace_ends_at = none }) a
      | subscription_resumed ↦
          set_status now SubscriptionStatus.active (record s { grace_ends_at = none }) a
      | invoice_payment_failed ↦
          set_status now SubscriptionStatus.grace
            (record s { grace_ends_at = some (now + c.grace_seconds) }) a
      | subscription_deleted ↦
          set_status now SubscriptionStatus.canceled (record s { canceled_at = some now }) a
      | subscription_paused ↦ set_status now SubscriptionStatus.suspended s a
      | subscription_created ↦ follow_provider c now o.status (mirror_provider c o s) a
      | subscription_updated ↦ follow_provider c now o.status (mirror_provider c o s) a
      | _ ↦ a
    ]

abbrev pub is_checkout : EventType → Bool
is_checkout checkout_completed = true
is_checkout _ = false

-- The subscription that an event names: `startswith("customer.subscription.")` reads the object's
-- own id.
unfoldable pub named_subscription : EventType → StripeObject → ℕ
named_subscription checkout_completed o = o.subscription
named_subscription invoice_paid o = o.subscription
named_subscription invoice_payment_failed o = o.subscription
named_subscription other_event o = o.subscription
named_subscription _ o = o.id

unfoldable pub apply_checkout : Settings → StripeObject → Option ℕ → Billing → Result Error Billing
unfolding complete_checkout event_is_stale save_account
apply_checkout c o created b = if o.metadata_subscription_id == 0 then ok b else do
  a ←
      or_raise (find (λ (x : Account). x.subscription.id == o.metadata_subscription_id) b.accounts)
        does_not_exist
  ok (
      if event_is_stale a.subscription created
      then b
      else save_account (record a { subscription = complete_checkout c o created a.subscription })
          b)

unfoldable pub apply_provider_event :
    Settings → ℕ → EventType → StripeObject → Option ℕ → Billing → Result Error Billing
unfolding react event_is_stale save_account named_subscription
apply_provider_event c now type o created b = if named_subscription type o == 0 then ok b else do
  a ←
      or_raise
        (find (λ (x : Account). x.subscription.stripe_subscription_id == named_subscription type o)
          b.accounts)
        does_not_exist
  ok (
      if event_is_stale a.subscription created
      then b
      else save_account (react c now type o created a) b)

-- `_apply_stripe_event`
unfoldable pub apply_stripe_event :
    Settings → ℕ → EventType → StripeObject → Option ℕ → Billing → Result Error Billing
unfolding apply_checkout apply_provider_event
apply_stripe_event c now type o created b =
    if is_checkout type
    then apply_checkout c o created b
    else apply_provider_event c now type o created b
