-- ===== src/Subscriptions/Status.antt =====
-- subscriptions/services.py: the site follows its subscription.
use event_management.Base.{
  ℕ, ◌≡◌, refl, subst, Bool, true, false, Option, none, some, ◌==◌, if◌then◌else◌, find, Result, ok,
  err, or_raise, ◌>>=◌, All, All-update_to, find-All, arith, >>=-eq-ok, or_raise-eq-ok,
  ok_injective,
}
use event_management.Subscriptions.Model.{
  SubscriptionStatus, BillingInterval, Subscription, Account, Billing, Settings, Error,
  WebhookEvent, does_not_exist,
}
use event_management.Subscriptions.Access.{
  site_status_by_subscription, suspension, set_status, save_account, synchronize,
  synchronize_access,
}
use event_management.Subscriptions.Webhook.{
  EventType, ProviderStatus, StripeObject, apply_billing_selection, complete_checkout,
  follow_provider, mirror_provider, grace_end, stamp, react, apply_checkout, apply_provider_event,
  apply_stripe_event, event_is_stale, named_subscription, is_checkout,
}
use event_management.Subscriptions.Inbox.{
  process_stripe_event, found_or_created, get_or_create, close_event, save_event, inbox_row,
  is_processed,
}

-- A suspended subscription has the time of it, and one that gives access has none.
abbrev pub is_dated : SubscriptionStatus → Option ℕ → Bool
is_dated SubscriptionStatus.suspended none = false
is_dated SubscriptionStatus.active (some t) = false
is_dated SubscriptionStatus.trialing (some t) = false
is_dated SubscriptionStatus.grace (some t) = false
is_dated _ _ = true

-- The site has the status of its subscription, and the suspension is dated.
unfoldable pub InSync : Account → Type 0
InSync a =
    (a.site_status ≡ site_status_by_subscription a.subscription.status)
    × (is_dated a.subscription.status a.subscription.suspended_at ≡ true)

set_status-InSync :
    (now : ℕ) (status : SubscriptionStatus) (s : Subscription) (a : Account)
    → is_dated status (suspension now status s.suspended_at) ≡ true
    → InSync (set_status now status s a)
unfolding set_status InSync
set_status-InSync now status s a h = (refl, h)

-- What both branches of a test have, the test has.
pub if_both {ℓ κ} :
    {A : Type ℓ} (P : A → Type κ) (c : Bool) {x y : A} → P x → P y → P (if c then x else y)
if_both P true h k = h
if_both P false h k = k

synchronize-InSync : (now : ℕ) (a : Account) → InSync a → InSync (synchronize now a)
unfolding synchronize suspension
synchronize-InSync now a h =
    let suspended = set_status-InSync now SubscriptionStatus.suspended a.subscription a refl in
    if_both InSync a.is_exempt h (if_both InSync _ suspended (if_both InSync _ suspended h))

-- Fields that the selection of a price leaves alone.
selection_keeps :
    (c : Settings) (price_id : ℕ) (interval : BillingInterval) (s : Subscription)
    → ((apply_billing_selection c price_id interval s).status ≡ s.status)
      × ((apply_billing_selection c price_id interval s).suspended_at ≡ s.suspended_at)
unfolding apply_billing_selection
selection_keeps c price_id interval s = ground arith

follow_provider-InSync :
    (c : Settings) (now : ℕ) (p : ProviderStatus) (s : Subscription) (a : Account)
    → InSync (record a { subscription = s })
    → InSync (follow_provider c now p s a)
unfolding follow_provider suspension
follow_provider-InSync c now ProviderStatus.active s a h = set_status-InSync now _ s a refl
follow_provider-InSync c now ProviderStatus.trialing s a h = set_status-InSync now _ s a refl
follow_provider-InSync c now ProviderStatus.past_due s a h =
    set_status-InSync now _ (record s { grace_ends_at = grace_end c now s.grace_ends_at }) a refl
follow_provider-InSync c now ProviderStatus.unpaid s a h =
    set_status-InSync now _ (record s { grace_ends_at = grace_end c now s.grace_ends_at }) a refl
follow_provider-InSync c now ProviderStatus.canceled s a h = set_status-InSync now _ s a refl
follow_provider-InSync c now ProviderStatus.paused s a h = set_status-InSync now _ s a refl
follow_provider-InSync c now ProviderStatus.other s a h = h

mirror_provider-InSync :
    (c : Settings) (o : StripeObject) (s : Subscription) (a : Account)
    → InSync (record a { subscription = s })
    → InSync (record a { subscription = mirror_provider c o s })
unfolding mirror_provider InSync
mirror_provider-InSync c o s a (h, k) =
    let (e, f) = selection_keeps c o.item_price_id BillingInterval.blank s in
    (rw (e) h, rw (e, f) k)

stamp-InSync :
    (created : Option ℕ) (a : Account)
    → InSync a
    → InSync (record a { subscription = stamp created a.subscription })
unfolding InSync
stamp-InSync created a h = h

react-InSync :
    (c : Settings) (now : ℕ) (type : EventType) (o : StripeObject) (created : Option ℕ)
    (a : Account)
    → InSync a
    → InSync (react c now type o created a)
unfolding react suspension InSync
react-InSync c now EventType.checkout_completed o created a h = h
react-InSync c now EventType.invoice_paid o created a h = (refl, refl)
react-InSync c now EventType.subscription_resumed o created a h = (refl, refl)
react-InSync c now EventType.invoice_payment_failed o created a h = (refl, refl)
react-InSync c now EventType.subscription_deleted o created a h = (refl, refl)
react-InSync c now EventType.subscription_paused o created a h = (refl, refl)
react-InSync c now EventType.subscription_created o created a h =
    follow_provider-InSync c now o.status _ a
      (mirror_provider-InSync c o (stamp created a.subscription) a (stamp-InSync created a h))
react-InSync c now EventType.subscription_updated o created a h =
    follow_provider-InSync c now o.status _ a
      (mirror_provider-InSync c o (stamp created a.subscription) a (stamp-InSync created a h))
react-InSync c now EventType.other_subscription o created a h = h
react-InSync c now EventType.other_event o created a h = h

complete_checkout-InSync :
    (c : Settings) (o : StripeObject) (created : Option ℕ) (a : Account)
    → InSync a
    → InSync (record a { subscription = complete_checkout c o created a.subscription })
unfolding complete_checkout InSync
complete_checkout-InSync c o created a (h, k) =
    let (e, f) =
      selection_keeps c o.metadata_price_id o.metadata_interval (record (a.subscription) {
        stripe_customer_id = o.customer;
        stripe_subscription_id =
            if o.subscription == 0 then a.subscription.stripe_subscription_id else o.subscription;
      }) in
    (rw (e) h, rw (e, f) k)

-- Every site is in step with its subscription.
unfoldable pub AllInSync : Billing → Type 0
AllInSync b = All InSync b.accounts

save_account-AllInSync :
    (a : Account) (b : Billing) → InSync a → AllInSync b → AllInSync (save_account a b)
unfolding save_account AllInSync
save_account-AllInSync a b h all = All-update_to InSync _ a b.accounts h all

-- What holds of the tables, and of those with the row that an event finds saved, holds of those
-- that a call returns.
pub saved_rule {κ} :
    (P : Billing → Type κ) (p stale : Account → Bool) (f : Account → Account) (b b' : Billing)
    → P b
    → ((a : Account) → find p b.accounts ≡ some a → P (save_account (f a) b))
    → ◌>>=◌
        (or_raise (find p b.accounts) does_not_exist)
        (λ a. ok (if stale a then b else save_account (f a) b))
      ≡ ok b'
    → P b'
saved_rule P p stale f b b' h k e =
    let (a, found, saved) = >>=-eq-ok _ _ e in
    subst P (ok_injective saved) (if_both P (stale a) h (k a (or_raise-eq-ok _ _ found)))

saved-AllInSync :
    (p stale : Account → Bool) (f : Account → Account) (b b' : Billing)
    → ((a : Account) → InSync a → InSync (f a))
    → AllInSync b
    → ◌>>=◌
        (or_raise (find p b.accounts) does_not_exist)
        (λ a. ok (if stale a then b else save_account (f a) b))
      ≡ ok b'
    → AllInSync b'
unfolding AllInSync
saved-AllInSync p stale f b b' h all =
    saved_rule AllInSync p stale f b b' all (λ a found.
      save_account-AllInSync (f a) b (h a (find-All InSync p b.accounts a found all)) all)

-- A property of what a call returned, by the call's branches.
pub if_ok {κ} :
    (t : Bool) {x y : Result Error Billing} {b' : Billing} {P : Type κ}
    → (x ≡ ok b' → P)
    → (y ≡ ok b' → P)
    → (if t then x else y) ≡ ok b'
    → P
if_ok true h k = h
if_ok false h k = k

apply_stripe_event-AllInSync :
    (c : Settings) (now : ℕ) (type : EventType) (o : StripeObject) (created : Option ℕ)
    (b b' : Billing)
    → AllInSync b
    → apply_stripe_event c now type o created b ≡ ok b'
    → AllInSync b'
unfolding apply_stripe_event apply_checkout apply_provider_event
apply_stripe_event-AllInSync c now type o created b b' all =
    if_ok (is_checkout type)
      (if_ok (o.metadata_subscription_id == 0) (λ e. subst AllInSync (ok_injective e) all)
        (saved-AllInSync _ (λ a. event_is_stale a.subscription created)
          (λ a. record a { subscription = complete_checkout c o created a.subscription }) b b'
          (complete_checkout-InSync c o created) all))
      (if_ok (named_subscription type o == 0) (λ e. subst AllInSync (ok_injective e) all)
        (saved-AllInSync _ (λ a. event_is_stale a.subscription created) (react c now type o created)
          b b' (react-InSync c now type o created) all))

save_event-AllInSync : (e : WebhookEvent) (b : Billing) → AllInSync b → AllInSync (save_event e b)
unfolding save_event AllInSync
save_event-AllInSync e b all = all

found_or_created-AllInSync :
    (event_id : ℕ) (b : Billing) (x : Option WebhookEvent)
    → AllInSync b
    → AllInSync (found_or_created event_id b x).1
unfolding found_or_created AllInSync
found_or_created-AllInSync event_id b none all = all
found_or_created-AllInSync event_id b (some e) all = all

get_or_create-AllInSync :
    (event_id : ℕ) (b : Billing) → AllInSync b → AllInSync (get_or_create event_id b).1
unfolding get_or_create
get_or_create-AllInSync event_id b = found_or_created-AllInSync event_id b (inbox_row event_id b)

-- What applying the event keeps, closing it keeps.
close_event-AllInSync :
    (now : ℕ) (e : WebhookEvent) (b : Billing) (r : Result Error Billing)
    → AllInSync b
    → ((b' : Billing) → r ≡ ok b' → AllInSync b')
    → AllInSync (close_event now e b r).1
unfolding close_event
close_event-AllInSync now e b (ok b') all h = save_event-AllInSync _ b' (h b' refl)
close_event-AllInSync now e b (err raised) all h = save_event-AllInSync _ b all

-- Whatever an event is, applied or refused, and also if it is delivered again: if every site has
-- the status that belongs to its subscription's, every suspended subscription has the time of it,
-- and none that gives access has one, then this is so again after the webhook.
pub process_stripe_event-AllInSync :
    (c : Settings) (now event_id : ℕ) (type : EventType) (o : StripeObject) (created : Option ℕ)
    (b : Billing)
    → AllInSync b
    → AllInSync (process_stripe_event c now event_id type o created b).1
unfolding process_stripe_event
process_stripe_event-AllInSync c now event_id type o created b all =
    let (e, b') = get_or_create event_id b in
    let all' = get_or_create-AllInSync event_id b all in
    if_both (λ (x : Result Error WebhookEvent × Billing). AllInSync x.1) (is_processed e.status)
      all'
      (close_event-AllInSync now e b' (apply_stripe_event c now type o created b') all'
        (λ x. apply_stripe_event-AllInSync c now type o created b' x all'))

-- If every site has the status that belongs to its subscription's, every suspended subscription has
-- the time of it, and none that gives access has one, then this is so again after a deadline's
-- check that returns.
pub synchronize_access-AllInSync :
    (subscription_id now : ℕ) (b : Billing) (a : Account) (b' : Billing)
    → AllInSync b
    → synchronize_access subscription_id now b ≡ ok (a, b')
    → AllInSync b'
unfolding synchronize_access AllInSync
synchronize_access-AllInSync subscription_id now b a b' all e =
    let (x, found, saved) = >>=-eq-ok _ _ e in
    let h = find-All InSync _ b.accounts x (or_raise-eq-ok _ _ found) all in
    subst (λ r. All InSync r.1.accounts) (ok_injective saved)
      (save_account-AllInSync (synchronize now x) b (synchronize-InSync now x h) all)
