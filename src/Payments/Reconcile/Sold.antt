-- ===== src/Payments/Reconcile/Sold.antt =====
-- payments/services.py: whatever the calls that move orders do, what is sold stays sold.
use event_management.Base.{
  ℕ, ◌≡◌, refl, sym, ap, subst, Bool, true, false, Option, none, some, List, [], ◌∷◌, inl, inr,
  Bool-cases, Result, ok, err, ◌>>=◌, leb, >>=-eq-ok, ok_injective,
}
use event_management.Schema.{Db}
use event_management.Schema.Members.{MemberSubscription}
use event_management.Schema.Payments.{ConnectedAccount, Order}
use event_management.Payments.Errors.{Error}
use event_management.Payments.Orders.{mark_order_paid, fail_order, expire_all}
use event_management.Payments.Orders.Status.{IsSold}
use event_management.Payments.Objects.{StripeObject, AccountObject, as_payment}
use event_management.Payments.Accounts.{
  AccountAnswer, refresh_connected_account, synchronize_connected_account, synchronize_found,
  save_connected_account, get_account, record_connected_account_sync_failure,
  mark_connected_account_disconnected, failed_sync, permanently_rejected,
}
use event_management.Payments.Disputes.{apply_charge}
use event_management.Payments.Dues.{apply_member_subscription, member_subscription_from_object}
use event_management.Payments.Webhook.{tables}
use event_management.Payments.Webhook.Touches.{Touches, IsKeyed, Touches-IsSold, Touches-IsKeyed}
use event_management.Payments.Webhook.Handlers.{
  fail_order-Touches, mark_order_paid-Touches, apply_charge-Touches,
}
use event_management.Payments.Webhook.Events.{tables-ok, member_found-orders}
use event_management.Payments.Reconcile.{
  Answers, Results, settle_session, settle_charge, settle_membership, count_order, count_fee,
  count_member, count_account, reconcile_orders, reconcile_fees, reconcile_members, is_expired,
}

-- From orders with distinct ids to such orders, with all that was sold.
pub record StaysSold (xs xs' : List Order) : Type 0 where
  pub keyed : IsKeyed xs'
  pub sold : (k : ℕ) → IsSold k xs → IsSold k xs'

pub stay : (xs xs' : List Order) → IsKeyed xs → xs' ≡ xs → StaysSold xs xs'
stay xs xs' v e = subst (StaysSold xs) (sym e) (record { keyed = v; sold = λ k s. s })

pub also : (xs ys zs : List Order) → StaysSold xs ys → StaysSold ys zs → StaysSold xs zs
also xs ys zs a b = record { keyed = b.keyed; sold = λ k s. b.sold k (a.sold k s) }

pub Touches-StaysSold :
    (a : ℕ) (xs xs' : List Order) → IsKeyed xs → Touches a xs xs' → StaysSold xs xs'
Touches-StaysSold a xs xs' v t = record {
  keyed = Touches-IsKeyed a xs xs' t v;
  sold = λ k. Touches-IsSold a k xs xs' t;
}

pub expire_all-StaysSold :
    (ids : List ℕ) (d d' : Db)
    → IsKeyed d.orders
    → expire_all ids d ≡ ok d'
    → StaysSold d.orders d'.orders
unfolding expire_all
expire_all-StaysSold [] d d' v h =
    stay d.orders d'.orders v (ap (λ (x : Db). x.orders) (sym (ok_injective h)))
expire_all-StaysSold (k ∷ ks) d d' v h =
    let (t, ft, h1) = >>=-eq-ok (fail_order k 0 true d) _ h in
    let a =
      Touches-StaysSold 0 d.orders t.1.orders v
        (fail_order-Touches 0 k 0 true d t (λ o e. refl) ft) in
    also d.orders t.1.orders d'.orders a (expire_all-StaysSold ks t.1 d' a.keyed h1)

settle_session-StaysSold :
    (a : Answers) (id : ℕ) (s : Option StripeObject) (d d' : Db)
    → IsKeyed d.orders
    → settle_session a id s d ≡ ok d'
    → StaysSold d.orders d'.orders
unfolding settle_session
settle_session-StaysSold a id none d d' v h = cc
settle_session-StaysSold a id (some s) d d' v h = elim (Bool-cases s.is_paid) [
  | inl t ↦
      let (o, h1) =
        tables-ok (mark_order_paid a.now (a.codes id) id (some (as_payment s)) 0 d) (paid t) in
      Touches-StaysSold 0 d.orders d'.orders v
        (mark_order_paid-Touches 0 id a.now 0 (a.codes id) _ d (o, d') (λ o e. refl) h1)
  | inr t ↦ elim (Bool-cases (is_expired s.status)) [
    | inl u ↦
        let (o, h1) = tables-ok (fail_order id 0 true d) (rw (t, u) at h) in
        Touches-StaysSold 0 d.orders d'.orders v
          (fail_order-Touches 0 id 0 true d (o, d') (λ o e. refl) h1)
    | inr u ↦
        stay d.orders d'.orders v (ap (λ (x : Db). x.orders) (sym (ok_injective (rw (t, u) at h))))
  ]
]
  where
    paid :
        s.is_paid ≡ true
        → tables (mark_order_paid a.now (a.codes id) id (some (as_payment s)) 0 d) ≡ ok d'
    paid t = cc

count_order-StaysSold :
    (id : ℕ) (r : Results) (d : Db) (x : Result Error Db)
    → IsKeyed d.orders
    → ((d' : Db) → x ≡ ok d' → StaysSold d.orders d'.orders)
    → StaysSold d.orders (count_order id r d x).1.orders
count_order-StaysSold id r d (ok d') v h = h d' refl
count_order-StaysSold id r d (err e) v h = stay d.orders d.orders v refl

count_fee-StaysSold :
    (id : ℕ) (r : Results) (d : Db) (x : Result Error Db)
    → IsKeyed d.orders
    → ((d' : Db) → x ≡ ok d' → StaysSold d.orders d'.orders)
    → StaysSold d.orders (count_fee id r d x).1.orders
count_fee-StaysSold id r d (ok d') v h = h d' refl
count_fee-StaysSold id r d (err e) v h = stay d.orders d.orders v refl

count_member-StaysSold :
    (id : ℕ) (r : Results) (d : Db) (x : Result Error Db)
    → IsKeyed d.orders
    → ((d' : Db) → x ≡ ok d' → StaysSold d.orders d'.orders)
    → StaysSold d.orders (count_member id r d x).1.orders
count_member-StaysSold id r d (ok d') v h = h d' refl
count_member-StaysSold id r d (err e) v h = stay d.orders d.orders v refl

pub reconcile_orders-StaysSold :
    (a : Answers) (os : List Order) (r : Results) (d : Db)
    → IsKeyed d.orders
    → StaysSold d.orders (reconcile_orders a os r d).1.orders
unfolding reconcile_orders
reconcile_orders-StaysSold a [] r d v = stay d.orders d.orders v refl
reconcile_orders-StaysSold a (o ∷ os) r d v =
    let t = count_order o.id r d (settle_session a o.id (a.session o.id) d) in
    let s =
      count_order-StaysSold o.id r d (settle_session a o.id (a.session o.id) d) v
        (λ d'. settle_session-StaysSold a o.id (a.session o.id) d d' v) in
    also d.orders t.1.orders _ s (reconcile_orders-StaysSold a os t.0 t.1 s.keyed)

settle_charge-StaysSold :
    (o : Order) (s : Option StripeObject) (d d' : Db)
    → IsKeyed d.orders
    → settle_charge o s d ≡ ok d'
    → StaysSold d.orders d'.orders
unfolding settle_charge
settle_charge-StaysSold o none d d' v h = cc
settle_charge-StaysSold o (some s) d d' v h =
    let (x, h1) = tables-ok (apply_charge s o.connected_account_id d) h in
    Touches-StaysSold o.connected_account_id d.orders d'.orders v
      (apply_charge-Touches o.connected_account_id s d (x, d') v h1)

pub reconcile_fees-StaysSold :
    (a : Answers) (os : List Order) (r : Results) (d : Db)
    → IsKeyed d.orders
    → StaysSold d.orders (reconcile_fees a os r d).1.orders
unfolding reconcile_fees
reconcile_fees-StaysSold a [] r d v = stay d.orders d.orders v refl
reconcile_fees-StaysSold a (o ∷ os) r d v =
    let t = count_fee o.id r d (settle_charge o (a.charge o.id) d) in
    let s =
      count_fee-StaysSold o.id r d (settle_charge o (a.charge o.id) d) v
        (λ d'. settle_charge-StaysSold o (a.charge o.id) d d' v) in
    also d.orders t.1.orders _ s (reconcile_fees-StaysSold a os t.0 t.1 s.keyed)

settle_membership-StaysSold :
    (s : Option StripeObject) (d d' : Db)
    → IsKeyed d.orders
    → settle_membership s d ≡ ok d'
    → StaysSold d.orders d'.orders
unfolding settle_membership apply_member_subscription
settle_membership-StaysSold none d d' v h = cc
settle_membership-StaysSold (some s) d d' v h =
    let (x, h1) = tables-ok (apply_member_subscription s 0 d) h in
    stay d.orders d'.orders v
      (member_found-orders s 0 (member_subscription_from_object s d) d (x, d') h1)

pub reconcile_members-StaysSold :
    (a : Answers) (xs : List MemberSubscription) (r : Results) (d : Db)
    → IsKeyed d.orders
    → StaysSold d.orders (reconcile_members a xs r d).1.orders
unfolding reconcile_members
reconcile_members-StaysSold a [] r d v = stay d.orders d.orders v refl
reconcile_members-StaysSold a (x ∷ xs) r d v =
    let t = count_member x.id r d (settle_membership (a.subscription x.id) d) in
    let s =
      count_member-StaysSold x.id r d (settle_membership (a.subscription x.id) d) v
        (λ d'. settle_membership-StaysSold (a.subscription x.id) d d' v) in
    also d.orders t.1.orders _ s (reconcile_members-StaysSold a xs t.0 t.1 s.keyed)

synchronized_orders :
    (upper : ℕ → ℕ) (now : ℕ) (a : AccountObject) (site : Option ℕ) (c : Option ConnectedAccount)
    (d : Db)
    → (synchronize_found upper now a site c d).1.orders ≡ d.orders
unfolding synchronize_found save_connected_account
synchronized_orders upper now a site (some c) d = refl
synchronized_orders upper now a none none d = refl
synchronized_orders upper now a (some s) none d = refl

disconnected_orders :
    (now id reason : ℕ) (d : Db) (t : ConnectedAccount × Db)
    → mark_connected_account_disconnected now id reason d ≡ ok t
    → t.1.orders ≡ d.orders
unfolding mark_connected_account_disconnected save_connected_account
disconnected_orders now id reason d t h =
    let (c, hc, h1) = >>=-eq-ok (get_account d id) _ h in
    ap (λ (x : ConnectedAccount × Db). x.1.orders) (sym (ok_injective h1))

failed_orders :
    (now id error : ℕ) (b : Bool) (d : Db) (t : ConnectedAccount × Db)
    → record_connected_account_sync_failure now id b error d ≡ ok t
    → t.1.orders ≡ d.orders
unfolding record_connected_account_sync_failure save_connected_account
failed_orders now id error b d t h =
    let (c, hc, h1) = >>=-eq-ok (get_account d id) _ h in
    elim (Bool-cases (leb 3 (failed_sync now b error c).permanent_sync_failure_count)) [
      | inl q ↦
          disconnected_orders now id permanently_rejected
            (save_connected_account (failed_sync now b error c) d) t (rw q at h1)
      | inr q ↦ ap (λ (x : ConnectedAccount × Db). x.1.orders) (sym (ok_injective (rw q at h1)))
    ]

refused_orders :
    (d : Db) (x : Result Error (ConnectedAccount × Db))
    → ((t : ConnectedAccount × Db) → x ≡ ok t → t.1.orders ≡ d.orders)
    → (count_account d (◌>>=◌ x (λ t. ok (false, t.1)))).1.orders ≡ d.orders
refused_orders d (ok t) h = h t refl
refused_orders d (err e) h = refl

pub account_orders :
    (upper : ℕ → ℕ) (now : ℕ) (c : ConnectedAccount) (a : AccountAnswer) (d : Db)
    → (count_account d (refresh_connected_account upper now c a d)).1.orders ≡ d.orders
unfolding refresh_connected_account synchronize_connected_account
account_orders upper now c (AccountAnswer.retrieved a) d =
    synchronized_orders upper now a (some c.site_id) _ d
account_orders upper now c (AccountAnswer.refused b e) d =
    refused_orders d (record_connected_account_sync_failure now c.id b e d)
      (λ t. failed_orders now c.id e b d t)
