-- ===== src/Payments/Reconcile/Calls.antt =====
-- payments/services.py: the events of connected accounts, the sweeps and the reconciliations, one
-- after another.
use mathlib.Core.List.{reverse}
use event_management.Base.{ℕ, ◌≡◌, refl, subst, Option, none, some, select, ok}
use event_management.Schema.{Db}
use event_management.Schema.Payments.{ConnectedAccount}
use event_management.Payments.Orders.{release_expired_holds}
use event_management.Payments.Accounts.{refresh_connected_account}
use event_management.Payments.Webhook.{Surroundings, ConnectEvent, Commerce, process_connect_event}
use event_management.Payments.Webhook.Touches.{IsKeyed}
use event_management.Payments.Webhook.Inbox.{process-Touches}
use event_management.Payments.Reconcile.{
  Answers, Results, count_account, reconcile_orders, reconcile_fees, reconcile_loops,
  reconcile_connected, reconcile_site_commerce, awaits_session, awaits_fee, has_subscription,
}
use event_management.Payments.Reconcile.Sold.{
  StaysSold, stay, also, Touches-StaysSold, expire_all-StaysSold, reconcile_orders-StaysSold,
  reconcile_fees-StaysSold, reconcile_members-StaysSold, account_orders,
}

-- One call. A sweep that raises leaves the tables alone.
pub data Step (m m' : Commerce) : Type 0 where
  deliver : (w : Surroundings) (e : ConnectEvent) → (process_connect_event w e m).1 ≡ m' → Step m m'
  sweep :
      (now : ℕ) (d : Db)
      → release_expired_holds now m.db ≡ ok d
      → record m { db = d } ≡ m'
      → Step m m'
  reconcile :
      (a : Answers) (site_id : ℕ)
      → record m { db = (reconcile_site_commerce a site_id m.db).1 } ≡ m'
      → Step m m'

pub data Reach (m : Commerce) : Commerce → Type 0 where
  here : Reach m m
  next : {m' m'' : Commerce} → Reach m m' → Step m' m'' → Reach m m''

reconcile_loops-StaysSold :
    (a : Answers) (site_id : ℕ) (t : Results × Db)
    → IsKeyed t.1.orders
    → StaysSold t.1.orders (reconcile_loops a site_id t).1.orders
unfolding reconcile_loops
reconcile_loops-StaysSold a site_id (r, d) v =
    let os = reverse (select (awaits_session site_id) d.orders) in
    let t1 = reconcile_orders a os r d in
    let s1 = reconcile_orders-StaysSold a os r d v in
    let fs = reverse (select (awaits_fee site_id) t1.1.orders) in
    let t2 = reconcile_fees a fs t1.0 t1.1 in
    let s2 = reconcile_fees-StaysSold a fs t1.0 t1.1 s1.keyed in
    also d.orders t1.1.orders _ s1 (
      also t1.1.orders t2.1.orders _ s2 (
        reconcile_members-StaysSold a
          (reverse (select (has_subscription site_id) t2.1.member_subscriptions)) t2.0 t2.1
          s2.keyed))

connected-StaysSold :
    (a : Answers) (site_id : ℕ) (c : Option ConnectedAccount) (d : Db)
    → IsKeyed d.orders
    → StaysSold d.orders (reconcile_connected a site_id c d).1.orders
unfolding reconcile_connected
connected-StaysSold a site_id none d v = stay d.orders d.orders v refl
connected-StaysSold a site_id (some c) d v =
    let t = count_account d (refresh_connected_account a.upper a.now c a.account d) in
    let s = stay d.orders t.1.orders v (account_orders a.upper a.now c a.account d) in
    also d.orders t.1.orders _ s (reconcile_loops-StaysSold a site_id t s.keyed)

Step-StaysSold :
    (m m' : Commerce) → IsKeyed m.db.orders → Step m m' → StaysSold m.db.orders m'.db.orders
unfolding release_expired_holds reconcile_site_commerce
Step-StaysSold m m' v (deliver w e h) =
    subst (λ (x : Commerce). StaysSold m.db.orders x.db.orders) h
      (Touches-StaysSold e.account m.db.orders _ v (process-Touches w e m v))
Step-StaysSold m m' v (sweep now d h g) =
    subst (λ (x : Commerce). StaysSold m.db.orders x.db.orders) g
      (expire_all-StaysSold _ m.db d v h)
Step-StaysSold m m' v (reconcile a site_id h) =
    subst (λ (x : Commerce). StaysSold m.db.orders x.db.orders) h
      (connected-StaysSold a site_id _ m.db v)

-- Whatever events of connected accounts, sweeps of expired holds and reconciliations follow one
-- another, in any order and with whatever Stripe says, every order that was sold is sold still, and
-- the ids of the orders stay distinct, as they are assumed to be at first.
pub Reach-StaysSold :
    (m m' : Commerce) → IsKeyed m.db.orders → Reach m m' → StaysSold m.db.orders m'.db.orders
Reach-StaysSold m m' v here = stay m.db.orders m.db.orders v refl
Reach-StaysSold m m' v (next {m' = n} r s) =
    let t = Reach-StaysSold m n v r in
    also m.db.orders n.db.orders m'.db.orders t (Step-StaysSold n m' t.keyed s)
