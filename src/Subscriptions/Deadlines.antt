-- ===== src/Subscriptions/Deadlines.antt =====
-- subscriptions/services.py: when a site that owes a payment is suspended.
use event_management.Base.{
  ℕ, ◌+◌, ◌≤◌, ◌≡◌, refl, ap, ◌∙◌, or_else, false, Option, some, leb, if◌then◌else◌, arith,
}
use event_management.Subscriptions.Model.{SubscriptionStatus, Subscription, Account, Settings}
use event_management.Subscriptions.Access.{synchronize}
use event_management.Subscriptions.Webhook.{
  EventType, ProviderStatus, StripeObject, react, stamp, follow_provider, mirror_provider,
  apply_billing_selection,
}

-- The status once the grace period is checked at time `t`.
abbrev pub grace_until : ℕ → ℕ → SubscriptionStatus
grace_until end t = if leb end t then SubscriptionStatus.suspended else SubscriptionStatus.grace

-- After a failed payment, a site that is not exempt keeps its grace status until the whole grace
-- period is over, and a check from then on suspends it.
pub payment_failed-grace :
    (c : Settings) (now t : ℕ) (o : StripeObject) (created : Option ℕ) (a : Account)
    → a.is_exempt ≡ false
    → (synchronize t (react c now EventType.invoice_payment_failed o created a)).subscription.status
      ≡ grace_until (now + c.grace_seconds) t
unfolding synchronize react
payment_failed-grace c now t o created a h = ground arith

mirror_keeps_grace :
    (c : Settings) (o : StripeObject) (s : Subscription)
    → (mirror_provider c o s).grace_ends_at ≡ s.grace_ends_at
unfolding mirror_provider apply_billing_selection
mirror_keeps_grace c o s = ground arith

-- An overdue subscription is suspended when the grace period that runs, or a new one, is over.
overdue-grace :
    (c : Settings) (now t : ℕ) (s : Subscription) (a : Account)
    → a.is_exempt ≡ false
    → (synchronize t (follow_provider c now ProviderStatus.past_due s a)).subscription.status
      ≡ grace_until (or_else s.grace_ends_at (now + c.grace_seconds)) t
unfolding synchronize follow_provider
overdue-grace c now t s a h = ground arith

next_overdue :
    (c : Settings) (now t : ℕ) (o : StripeObject) (created : Option ℕ) (a : Account)
    → a.is_exempt ≡ false
    → o.status ≡ ProviderStatus.past_due
    → (synchronize t (react c now EventType.subscription_updated o created a)).subscription.status
      ≡ grace_until (or_else a.subscription.grace_ends_at (now + c.grace_seconds)) t
unfolding react
next_overdue c now t o created a h k =
    let s = stamp created a.subscription in
    rw k (
      overdue-grace c now t (mirror_provider c o s) a h
      ∙ ap (λ g. grace_until (or_else g (now + c.grace_seconds)) t) (mirror_keeps_grace c o s))

active_keeps_grace :
    (c : Settings) (now : ℕ) (o : StripeObject) (created : Option ℕ) (a : Account)
    → o.status ≡ ProviderStatus.active
    → ((react c now EventType.subscription_updated o created a).is_exempt ≡ a.is_exempt)
      × ((react c now EventType.subscription_updated o created a).subscription.grace_ends_at
          ≡ a.subscription.grace_ends_at)
unfolding react follow_provider
active_keeps_grace c now o created a k =
    rw k (refl, mirror_keeps_grace c o (stamp created a.subscription))

-- A paid invoice clears the grace period: if the provider reports the subscription as overdue
-- afterwards, a site that is not exempt has a whole new grace period.
pub paid-overdue :
    (c : Settings) (paid_at now t : ℕ) (o o' : StripeObject) (created created' : Option ℕ)
    (a : Account)
    → a.is_exempt ≡ false
    → o'.status ≡ ProviderStatus.past_due
    → (synchronize t (
        react c now EventType.subscription_updated o' created'
          (react c paid_at EventType.invoice_paid o created a))).subscription.status
      ≡ grace_until (now + c.grace_seconds) t
unfolding react
paid-overdue c paid_at now t o o' created created' a h k =
    next_overdue c now t o' created' (react c paid_at EventType.invoice_paid o created a) h k

-- A provider report that the subscription is active again leaves the old end of the grace period in
-- place: when that end has passed and the provider next reports the subscription as overdue, the
-- first check suspends a site that is not exempt, without any grace period.
pub active-overdue :
    (c : Settings) (active_at now end : ℕ) (o o' : StripeObject) (created created' : Option ℕ)
    (a : Account)
    → a.is_exempt ≡ false
    → a.subscription.grace_ends_at ≡ some end
    → end ≤ now
    → o.status ≡ ProviderStatus.active
    → o'.status ≡ ProviderStatus.past_due
    → (synchronize now (
        react c now EventType.subscription_updated o' created'
          (react c active_at EventType.subscription_updated o created a))).subscription.status
      ≡ SubscriptionStatus.suspended
unfolding react follow_provider
active-overdue c active_at now end o o' created created' a h g l k k' =
    let (x, f) = active_keeps_grace c active_at o created a k in
    next_overdue c now now o' created'
      (react c active_at EventType.subscription_updated o created a) (x ∙ h) k'
    ∙ ap (λ y. grace_until (or_else y (now + c.grace_seconds)) now) (f ∙ g)
    ∙ ground arith
