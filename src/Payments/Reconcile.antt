-- ===== src/Payments/Reconcile.antt =====
-- payments/services.py: `reconcile_site_commerce`, which asks Stripe again about what may have
-- changed, and `retry_failed_connect_events`. What Stripe answers is a parameter: `none` is a call
-- that raises. An error of one item is noted, and the others go on.
pub mod Sold
pub mod Calls
pub mod Accounted
use mathlib.Core.List.{reverse}
use event_management.Base.{
  ℕ, ◌+◌, Bool, true, false, ◌&&◌, not, Option, none, some, List, [], ◌∷◌, ◌++◌, ◌==◌,
  if◌then◌else◌, is_some, find, select, take, Result, ok, err, ◌>>=◌,
}
use event_management.Schema.{Db}
use event_management.Schema.Members.{MemberSubscription}
use event_management.Schema.Payments.{ConnectedAccount, Order, OrderStatus, is_pending}
use event_management.Payments.Errors.{Error, stripe_error}
use event_management.Payments.Orders.{mark_order_paid, fail_order}
use event_management.Payments.Objects.{StatusText, StripeObject, as_payment}
use event_management.Payments.Accounts.{AccountAnswer, refresh_connected_account}
use event_management.Payments.Disputes.{apply_charge}
use event_management.Payments.Dues.{apply_member_subscription}
use event_management.Payments.Webhook.{
  Surroundings, ConnectEvent, ConnectWebhookEvent, ConnectStatus, Commerce, tables,
  process_connect_event,
}

-- What Stripe answers about the site's account, and about an order's session, its charge and a
-- member's subscription by their local ids; `codes` are the ticket codes drawn for an order.
pub record Answers : Type 0 where
  pub now : ℕ
  pub upper : ℕ → ℕ
  pub codes : ℕ → List ℕ
  pub account : AccountAnswer
  pub session : ℕ → Option StripeObject
  pub charge : ℕ → Option StripeObject
  pub subscription : ℕ → Option StripeObject

-- An entry of `results["errors"]`.
pub data Failure : Type 0 where
  of_account : Failure
  of_order of_fee of_member : ℕ → Failure

-- `results`
pub record Results : Type 0 where
  pub account : ℕ
  pub orders : ℕ
  pub member_subscriptions : ℕ
  pub errors : List Failure

abbrev pub nothing_done : Results
nothing_done = record { account = 0; orders = 0; member_subscriptions = 0; errors = [] }

abbrev pub add_error : Failure → Results → Results
add_error f r = record r { errors = r.errors ++ f ∷ [] }

abbrev pub is_expired : StatusText → Bool
is_expired StatusText.expired = true
is_expired _ = false

-- What a session says of its order.
unfoldable pub settle_session : Answers → ℕ → Option StripeObject → Db → Result Error Db
settle_session a id none d = err stripe_error
settle_session a id (some s) d =
    if s.is_paid
    then tables (mark_order_paid a.now (a.codes id) id (some (as_payment s)) 0 d)
    else if is_expired s.status
    then tables (fail_order id 0 true d)
    else ok d

-- The end of one round of the first loop.
abbrev pub count_order : ℕ → Results → Db → Result Error Db → Results × Db
count_order id r d (ok d') = (record r { orders = r.orders + 1 }, d')
count_order id r d (err e) = (add_error (of_order id) r, d)

unfoldable pub reconcile_orders : Answers → List Order → Results → Db → Results × Db
unfolding settle_session
reconcile_orders a [] r d = (r, d)
reconcile_orders a (o ∷ os) r d =
    let (r', d') = count_order o.id r d (settle_session a o.id (a.session o.id) d) in
    reconcile_orders a os r' d'

unfoldable pub settle_charge : Order → Option StripeObject → Db → Result Error Db
settle_charge o none d = err stripe_error
settle_charge o (some s) d = tables (apply_charge s o.connected_account_id d)

abbrev pub count_fee : ℕ → Results → Db → Result Error Db → Results × Db
count_fee id r d (ok d') = (r, d')
count_fee id r d (err e) = (add_error (of_fee id) r, d)

unfoldable pub reconcile_fees : Answers → List Order → Results → Db → Results × Db
unfolding settle_charge
reconcile_fees a [] r d = (r, d)
reconcile_fees a (o ∷ os) r d =
    let (r', d') = count_fee o.id r d (settle_charge o (a.charge o.id) d) in
    reconcile_fees a os r' d'

unfoldable pub settle_membership : Option StripeObject → Db → Result Error Db
settle_membership none d = err stripe_error
settle_membership (some s) d = tables (apply_member_subscription s 0 d)

abbrev pub count_member : ℕ → Results → Db → Result Error Db → Results × Db
count_member id r d (ok d') = (record r { member_subscriptions = r.member_subscriptions + 1 }, d')
count_member id r d (err e) = (add_error (of_member id) r, d)

unfoldable pub reconcile_members : Answers → List MemberSubscription → Results → Db → Results × Db
unfolding settle_membership
reconcile_members a [] r d = (r, d)
reconcile_members a (x ∷ xs) r d =
    let (r', d') = count_member x.id r d (settle_membership (a.subscription x.id) d) in
    reconcile_members a xs r' d'

-- The queries of the three loops, newest first.
unfoldable pub awaits_session : ℕ → Order → Bool
awaits_session site_id o =
    o.site_id == site_id && is_pending o.status && not (o.stripe_checkout_session_id == 0)

abbrev pub is_charged_status : OrderStatus → Bool
is_charged_status OrderStatus.paid = true
is_charged_status OrderStatus.partially_refunded = true
is_charged_status _ = false

unfoldable pub awaits_fee : ℕ → Order → Bool
awaits_fee site_id o =
    o.site_id == site_id
    && is_charged_status o.status
    && not (is_some o.stripe_fee_cents)
    && not (o.stripe_charge_id == 0)

unfoldable pub has_subscription : ℕ → MemberSubscription → Bool
has_subscription site_id x = x.site_id == site_id && not (x.stripe_subscription_id == 0)

-- `results["account"]`, after the refresh
abbrev pub count_account : Db → Result Error (Bool × Db) → Results × Db
count_account d (ok (true, d')) = (record nothing_done { account = 1 }, d')
count_account d (ok (false, d')) = (add_error of_account nothing_done, d')
count_account d (err e) = (add_error of_account nothing_done, d)

-- The three loops.
unfoldable pub reconcile_loops : Answers → ℕ → Results × Db → Results × Db
unfolding reconcile_orders reconcile_fees reconcile_members awaits_session awaits_fee
    has_subscription
reconcile_loops a site_id (r, d) =
    let (r1, d1) = reconcile_orders a (reverse (select (awaits_session site_id) d.orders)) r d in
    let (r2, d2) = reconcile_fees a (reverse (select (awaits_fee site_id) d1.orders)) r1 d1 in
    reconcile_members a (reverse (select (has_subscription site_id) d2.member_subscriptions)) r2 d2

unfoldable pub reconcile_connected : Answers → ℕ → Option ConnectedAccount → Db → Results × Db
unfolding reconcile_loops refresh_connected_account
reconcile_connected a site_id none d = (nothing_done, d)
reconcile_connected a site_id (some c) d =
    reconcile_loops a site_id
      (count_account d (refresh_connected_account a.upper a.now c a.account d))

unfoldable pub reconcile_site_commerce : Answers → ℕ → Db → Results × Db
unfolding reconcile_connected
reconcile_site_commerce a site_id d =
    reconcile_connected a site_id (find (λ (c : ConnectedAccount). c.site_id == site_id) d.accounts)
      d

abbrev pub is_failed : ConnectStatus → Bool
is_failed ConnectStatus.failed = true
is_failed _ = false

-- `results` of the retries: how many returned, and the events that raised
abbrev pub count_retry : ℕ → ℕ × List ℕ → Result Error ConnectWebhookEvent → ℕ × List ℕ
count_retry id (retried, errors) (ok x) = (retried + 1, errors)
count_retry id (retried, errors) (err e) = (retried, errors ++ id ∷ [])

-- The loop over the failed events; Stripe gives the event again, or raises.
unfoldable pub retry_events :
    Surroundings
    → (ℕ → Option ConnectEvent)
    → List ConnectWebhookEvent
    → ℕ × List ℕ
    → Commerce
    → (ℕ × List ℕ) × Commerce
retry_events w retrieve [] r m = (r, m)
retry_events w retrieve (x ∷ xs) r m = elim (retrieve x.stripe_event_id) [
  | none ↦ retry_events w retrieve xs (r.0, r.1 ++ x.stripe_event_id ∷ []) m
  | some e ↦
      let (result, m') = process_connect_event w e m in
      retry_events w retrieve xs (count_retry x.stripe_event_id r result) m'
]

-- The oldest failed events first; rows are kept in the order in which they were received.
unfoldable pub retry_failed_connect_events :
    Surroundings → (ℕ → Option ConnectEvent) → ℕ → Commerce → (ℕ × List ℕ) × Commerce
unfolding retry_events
retry_failed_connect_events w retrieve limit m =
    retry_events w retrieve
      (take limit (select (λ (x : ConnectWebhookEvent). is_failed x.status) m.inbox)) (0, []) m
