-- ===== src/Payments/Reconcile/Accounted.antt =====
-- payments/services.py: what a reconciliation makes of orders that have been paid at Stripe.
use mathlib.Core.List.{reverse, reverse-cons}
use event_management.Base.{
  ℕ, ◌≡◌, refl, ap, ◌∙◌, sym, some_injective, subst, ◌⊎◌, inl, inr, Bool, true, false, some, List,
  [], ◌∷◌, ◌==◌, if◌then◌else◌, any, any-append, find, select, Result, ok, err, Bool-cases, ==_iff,
  ==_refl,
}
use event_management.Schema.{Db}
use event_management.Schema.Members.{MemberSubscription}
use event_management.Schema.Payments.{ConnectedAccount, Order, OrderStatus}
use event_management.Payments.Errors.{Error}
use event_management.Payments.Orders.{mark_order_paid}
use event_management.Payments.Orders.Status.{order_at, IsSold}
use event_management.Payments.Orders.Paid.{mark_order_paid-IsSold}
use event_management.Payments.Objects.{StripeObject, as_payment}
use event_management.Payments.Accounts.{refresh_connected_account}
use event_management.Payments.Webhook.Touches.{IsKeyed}
use event_management.Payments.Webhook.Events.{tables-ok}
use event_management.Payments.Reconcile.{
  Answers, Results, Failure, add_error, settle_session, settle_charge, settle_membership,
  count_order, count_fee, count_member, count_account, reconcile_orders, reconcile_fees,
  reconcile_members, reconcile_loops, reconcile_connected, reconcile_site_commerce, awaits_session,
  awaits_fee, has_subscription,
}
use event_management.Payments.Reconcile.Sold.{
  account_orders, reconcile_orders-StaysSold, reconcile_fees-StaysSold, reconcile_members-StaysSold,
}

abbrev pub names_order : ℕ → Failure → Bool
names_order k (Failure.of_order id) = id == k
names_order k _ = false

-- The errors name the order.
abbrev pub IsNoted : ℕ → Results → Type 0
IsNoted k r = any (names_order k) r.errors ≡ true

-- The order is sold, or the errors name it.
abbrev pub IsCaughtUp : ℕ → Results × Db → Type 0
IsCaughtUp k (r, d) = IsSold k d.orders ⊎ IsNoted k r

add_error-IsNoted : (k : ℕ) (f : Failure) (r : Results) → IsNoted k r → IsNoted k (add_error f r)
add_error-IsNoted k f r n = any-append (names_order k) r.errors (f ∷ []) ∙ rw n refl

own-IsNoted : (k : ℕ) (r : Results) → IsNoted k (add_error (Failure.of_order k) r)
unfolding any
own-IsNoted k r =
    any-append (names_order k) r.errors (Failure.of_order k ∷ [])
    ∙ rw (==_refl k) (if_true (any (names_order k) r.errors))
  where
    if_true : (b : Bool) → (if b then true else true) ≡ true
    if_true true = refl
    if_true false = refl

count_order-IsNoted :
    (k id : ℕ) (r : Results) (d : Db) (x : Result Error Db)
    → IsNoted k r
    → IsNoted k (count_order id r d x).0
count_order-IsNoted k id r d (ok d') n = n
count_order-IsNoted k id r d (err e) n = add_error-IsNoted k (Failure.of_order id) r n

count_fee-IsNoted :
    (k id : ℕ) (r : Results) (d : Db) (x : Result Error Db)
    → IsNoted k r
    → IsNoted k (count_fee id r d x).0
count_fee-IsNoted k id r d (ok d') n = n
count_fee-IsNoted k id r d (err e) n = add_error-IsNoted k (Failure.of_fee id) r n

count_member-IsNoted :
    (k id : ℕ) (r : Results) (d : Db) (x : Result Error Db)
    → IsNoted k r
    → IsNoted k (count_member id r d x).0
count_member-IsNoted k id r d (ok d') n = n
count_member-IsNoted k id r d (err e) n = add_error-IsNoted k (Failure.of_member id) r n

module _ (a : Answers) (k : ℕ) where
  reconcile_orders-IsNoted :
      (os : List Order) (r : Results) (d : Db)
      → IsNoted k r
      → IsNoted k (reconcile_orders a os r d).0
  unfolding reconcile_orders
  reconcile_orders-IsNoted [] r d n = n
  reconcile_orders-IsNoted (o ∷ os) r d n =
      let x = settle_session a o.id (a.session o.id) d in
      let t = count_order o.id r d x in
      reconcile_orders-IsNoted os t.0 t.1 (count_order-IsNoted k o.id r d x n)

  reconcile_fees-IsNoted :
      (os : List Order) (r : Results) (d : Db) → IsNoted k r → IsNoted k (reconcile_fees a os r d).0
  unfolding reconcile_fees
  reconcile_fees-IsNoted [] r d n = n
  reconcile_fees-IsNoted (o ∷ os) r d n =
      let x = settle_charge o (a.charge o.id) d in
      let t = count_fee o.id r d x in
      reconcile_fees-IsNoted os t.0 t.1 (count_fee-IsNoted k o.id r d x n)

  reconcile_members-IsNoted :
      (xs : List MemberSubscription) (r : Results) (d : Db)
      → IsNoted k r
      → IsNoted k (reconcile_members a xs r d).0
  unfolding reconcile_members
  reconcile_members-IsNoted [] r d n = n
  reconcile_members-IsNoted (x ∷ xs) r d n =
      let y = settle_membership (a.subscription x.id) d in
      let t = count_member x.id r d y in
      reconcile_members-IsNoted xs t.0 t.1 (count_member-IsNoted k x.id r d y n)

  -- The round of the first loop for an order that Stripe says is paid.
  settled-IsCaughtUp :
      (s : StripeObject) (r : Results) (d : Db) (x : Result Error Db)
      → s.is_paid ≡ true
      → settle_session a k (some s) d ≡ x
      → IsCaughtUp k (count_order k r d x)
  unfolding settle_session
  settled-IsCaughtUp s r d (err e) paid h = inr (own-IsNoted k r)
  settled-IsCaughtUp s r d (ok d') paid h =
      let (o, h1) =
        tables-ok (mark_order_paid a.now (a.codes k) k (some (as_payment s)) 0 d) (rw paid at h) in
      inl (
        mark_order_paid-IsSold k k a.now 0 (a.codes k) (some (as_payment s)) d (o, d') h1
          (inr refl))

  reconcile_orders-IsCaughtUp :
      (s : StripeObject) (os : List Order) (r : Results) (d : Db)
      → IsKeyed d.orders
      → a.session k ≡ some s
      → s.is_paid ≡ true
      → any (λ (o : Order). o.id == k) os ≡ true
      → IsCaughtUp k (reconcile_orders a os r d)
  unfolding reconcile_orders any
  reconcile_orders-IsCaughtUp s [] r d v e paid h = cc
  reconcile_orders-IsCaughtUp s (o ∷ os) r d v e paid h =
      let t = count_order o.id r d (settle_session a o.id (a.session o.id) d) in
      let w = reconcile_orders-StaysSold a (o ∷ []) r d v in
      elim (Bool-cases (o.id == k)) [
        | inr ne ↦ reconcile_orders-IsCaughtUp s os t.0 t.1 w.keyed e paid (rw ne at h)
        | inl eq ↦
            let own : IsCaughtUp k t =
              subst (λ i. IsCaughtUp k (count_order i r d (settle_session a i (a.session i) d)))
                (sym ((==_iff o.id k).0 eq))
                (rw e (settled-IsCaughtUp s r d (settle_session a k (some s) d) paid refl)) in
            elim own [
              | inl sold ↦ inl ((reconcile_orders-StaysSold a os t.0 t.1 w.keyed).sold k sold)
              | inr noted ↦ inr (reconcile_orders-IsNoted os t.0 t.1 noted)
            ]
      ]

any-reverse : (q : Order → Bool) (xs : List Order) → any q xs ≡ true → any q (reverse xs) ≡ true
unfolding any
any-reverse q [] h = cc
any-reverse q (x ∷ xs) h =
    ap (any q) (reverse-cons x xs) ∙ any-append q (reverse xs) (x ∷ []) ∙ elim (Bool-cases (q x)) [
      | inl t ↦ rw t (either (any q (reverse xs)))
      | inr t ↦ rw (any-reverse q xs (rw t at h)) refl
    ]
  where
    either : (b : Bool) → (if b then true else true) ≡ true
    either true = refl
    either false = refl

any-select :
    (k : ℕ) (p : Order → Bool) (o : Order) (xs : List Order)
    → order_at k xs ≡ some o
    → p o ≡ true
    → any (λ (x : Order). x.id == k) (select p xs) ≡ true
unfolding order_at find select any
any-select k p o [] e h = cc
any-select k p o (x ∷ xs) e h = elim (Bool-cases (x.id == k)) [
  | inl t ↦
      let same : x ≡ o = some_injective (rw t at e) in
      let kept : p x ≡ true = subst (λ (y : Order). p y ≡ true) (sym same) h in rw (kept, t) refl
  | inr t ↦
      let rest = any-select k p o xs (rw t at e) h in
      elim (Bool-cases (p x)) [ inl u ↦ rw (u, t) rest | inr u ↦ rw u rest ]
]

reconcile_loops-IsCaughtUp :
    (a : Answers) (site_id k : ℕ) (s : StripeObject) (o : Order) (t : Results × Db)
    → IsKeyed t.1.orders
    → order_at k t.1.orders ≡ some o
    → awaits_session site_id o ≡ true
    → a.session k ≡ some s
    → s.is_paid ≡ true
    → IsCaughtUp k (reconcile_loops a site_id t)
unfolding reconcile_loops
reconcile_loops-IsCaughtUp a site_id k s o (r, d) v at w e paid =
    let os = reverse (select (awaits_session site_id) d.orders) in
    let t1 = reconcile_orders a os r d in
    let v1 = (reconcile_orders-StaysSold a os r d v).keyed in
    let fs = reverse (select (awaits_fee site_id) t1.1.orders) in
    let t2 = reconcile_fees a fs t1.0 t1.1 in
    let f = reconcile_fees-StaysSold a fs t1.0 t1.1 v1 in
    let xs = reverse (select (has_subscription site_id) t2.1.member_subscriptions) in
    let listed = any-select k (awaits_session site_id) o d.orders at w in
    elim (reconcile_orders-IsCaughtUp a k s os r d v e paid
      (any-reverse (λ (x : Order). x.id == k) (select (awaits_session site_id) d.orders) listed)) [
        | inl sold ↦
            inl ((reconcile_members-StaysSold a xs t2.0 t2.1 f.keyed).sold k (f.sold k sold))
        | inr noted ↦ inr (
            reconcile_members-IsNoted a k xs t2.0 t2.1
              (reconcile_fees-IsNoted a k fs t1.0 t1.1 noted))
      ]

-- On tables whose orders have distinct ids, a reconciliation of a site that has a connected account
-- leaves every pending order of the site sold that has a checkout session which Stripe reports as paid, or names
-- the order in its errors, whatever Stripe answers about the account and everything else.
pub reconcile_site_commerce-IsCaughtUp :
    (a : Answers) (site_id k : ℕ) (c : ConnectedAccount) (s : StripeObject) (o : Order) (d : Db)
    → IsKeyed d.orders
    → find (λ (c : ConnectedAccount). c.site_id == site_id) d.accounts ≡ some c
    → order_at k d.orders ≡ some o
    → o.site_id ≡ site_id
    → o.status ≡ OrderStatus.pending
    → (o.stripe_checkout_session_id == 0) ≡ false
    → a.session k ≡ some s
    → s.is_paid ≡ true
    → IsCaughtUp k (reconcile_site_commerce a site_id d)
unfolding reconcile_site_commerce reconcile_connected awaits_session
reconcile_site_commerce-IsCaughtUp a site_id k c s o d v f at own waits opened e paid =
    let w : awaits_session site_id o ≡ true = rw (own, waits, opened, ==_refl site_id) refl in
    let t = count_account d (refresh_connected_account a.upper a.now c a.account d) in
    let same : t.1.orders ≡ d.orders = account_orders a.upper a.now c a.account d in
    rw f (
      reconcile_loops-IsCaughtUp a site_id k s o t (subst IsKeyed (sym same) v)
        (ap (order_at k) same ∙ at) w e paid)
