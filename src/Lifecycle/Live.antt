-- ===== src/Lifecycle/Live.antt =====
-- sites/services.py and ops/services.py together: a site that is resumed while its deletion is approved.
use event_management.Base.{
  ℕ, ◌≡◌, refl, ap, ◌∙◌, subst, Bool, true, false, ◌&&◌, not, none, some, List, [], ◌∷◌, ◌==◌, ltb,
  if◌then◌else◌, find, find-update, select, inl, inr, ok, err, >>=-eq-ok, or_raise-eq-ok,
  ok_injective, Bool-cases, ==_refl,
}
use event_management.Subscriptions.Model.{Account, SubscriptionStatus}
use event_management.Subscriptions.Access.{site_status_by_subscription}
use event_management.Lifecycle.Model.{
  Site, SiteDeletionRequest, Platform, trial_ended, accepts_public_traffic, get_site, get_deletion,
}
use event_management.Lifecycle.Access.{
  resume_down, resume_site_access, resume_subscription_status, resumed, apply_status,
}
use event_management.Lifecycle.Deletion.{
  is_eligible, executed, delete_site, complete, execute_site_deletion,
}
use event_management.Lifecycle.Kept.{resume_keeps}

-- What the execution of a request gives: the rows of sites without this one.
unfoldable pub Removed : (later id k : ℕ) (m : Platform) → Type 0
Removed later id k m =
    (r : SiteDeletionRequest × Platform) × (execute_site_deletion later k m ≡ ok r)
    × (find (λ (y : Site). y.id == id) r.1.sites ≡ none)

find-select :
    (id : ℕ) (xs : List Site)
    → find (λ (y : Site). y.id == id) (select (λ (y : Site). not (y.id == id)) xs) ≡ none
unfolding find select
find-select id [] = refl
find-select id (x ∷ xs) = elim (Bool-cases (x.id == id)) [
  | inl t ↦ rw t (find-select id xs)
  | inr t ↦ rw (t, t) (find-select id xs)
]

IsLive : SubscriptionStatus → Type 0
IsLive status = accepts_public_traffic (site_status_by_subscription status) ≡ true

choice-IsLive :
    (e c t : Bool) (status : SubscriptionStatus)
    → (if e
        then ok SubscriptionStatus.active
        else if c
        then ok SubscriptionStatus.active
        else if t
        then ok SubscriptionStatus.trialing
        else err trial_ended)
      ≡ ok status
    → IsLive status
unfolding IsLive accepts_public_traffic site_status_by_subscription
choice-IsLive true c t status h = subst IsLive (ok_injective h) refl
choice-IsLive false true t status h = subst IsLive (ok_injective h) refl
choice-IsLive false false true status h = subst IsLive (ok_injective h) refl
choice-IsLive false false false status h = cc

resumed_status :
    (now : ℕ) (a : Account) (status : SubscriptionStatus)
    → resume_subscription_status now a ≡ ok status
    → accepts_public_traffic (site_status_by_subscription status) ≡ true
unfolding resume_subscription_status IsLive
resumed_status now a status h =
    choice-IsLive a.is_exempt
      (not (a.subscription.stripe_customer_id == 0)
        && not (a.subscription.stripe_subscription_id == 0))
      (ltb now a.subscription.trial_ends_at) status h

execute_due :
    (later k id : ℕ) (m : Platform) (x : SiteDeletionRequest)
    → find (λ (y : SiteDeletionRequest). y.id == k) m.deletions ≡ some x
    → x.site ≡ some id
    → is_eligible later x ≡ true
    → Removed later id k m
unfolding execute_site_deletion get_deletion delete_site Removed
execute_due later k id m x e o t = (
  (executed later x, complete later x (delete_site x.site m)),
  rw (e, t) refl,
  rw o (find-select id m.sites),
)

-- The site as it stands after a resumption.
resume_down-live :
    (now id : ℕ) (s s' : Site) (m m' : Platform)
    → find (λ (y : Site). y.id == id) m.sites ≡ some s
    → resume_down now s m ≡ ok (s', m')
    → (accepts_public_traffic s'.account.site_status ≡ true)
      × (find (λ (y : Site). y.id == id) m'.sites ≡ some s')
unfolding resume_down resumed apply_status
resume_down-live now id s s' m m' e h =
    let (status, hs, h1) = >>=-eq-ok (resume_subscription_status now s.account) _ h in
    subst
      (λ (r : Site × Platform).
        (accepts_public_traffic r.0.account.site_status ≡ true)
        × (find (λ (y : Site). y.id == id) r.1.sites ≡ some r.0))
      (ok_injective h1)
      (
        resumed_status now s.account status hs,
        find-update (λ y. y.id == id) _ (resumed status) s m.sites (λ y. refl) e (==_refl s.id),
      )

-- A site that is resumed while a request to delete it is approved and still to be carried out is
-- live, and its request stays: once the waiting time of the request is over, its execution is
-- accepted and removes the live site.
pub execute_site_deletion-resume_site_access :
    (now later id k : ℕ) (m m' : Platform) (s : Site) (x : SiteDeletionRequest)
    → resume_site_access now id m ≡ ok (s, m')
    → find (λ (y : SiteDeletionRequest). y.id == k) m.deletions ≡ some x
    → x.site ≡ some id
    → is_eligible later x ≡ true
    → (accepts_public_traffic s.account.site_status ≡ true)
      × (find (λ (y : Site). y.id == id) m'.sites ≡ some s)
      × Removed later id k m'
unfolding resume_site_access get_site
execute_site_deletion-resume_site_access now later id k m m' s x h e o t =
    let (r, hr, h1) = >>=-eq-ok (get_site id m) _ h in
    let found = or_raise-eq-ok _ _ hr in
    let removed =
      execute_due later k id m' x
        (ap (find (λ (y : SiteDeletionRequest). y.id == k))
            (resume_keeps 0 0 (λ s b. true) now id m m' s h)
          ∙ e)
        o t in
    elim (Bool-cases (accepts_public_traffic r.account.site_status)) [
      | inl q ↦
          let same = ok_injective (rw q at h1) in
          subst
            (λ (y : Site × Platform).
              (accepts_public_traffic y.0.account.site_status ≡ true)
              × (find (λ (z : Site). z.id == id) y.1.sites ≡ some y.0)
              × Removed later id k m')
            same (q, found, removed)
      | inr q ↦ let (a, b) = resume_down-live now id r s m m' found (rw q at h1) in (a, b, removed)
    ]
