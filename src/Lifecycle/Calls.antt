-- ===== src/Lifecycle/Calls.antt =====
-- sites/services.py and ops/services.py: the calls, one after another.
use event_management.Base.{ℕ, ◌≡◌, sym, subst, Bool, All, Text, ok}
use event_management.Subscriptions.Model.{Subscription}
use event_management.Lifecycle.Model.{Site, SiteDeletionRequest, Platform}
use event_management.Lifecycle.Access.{
  resume_site_access, suspend_site_access, start_site_delete_hold, cancel_site_delete_hold,
}
use event_management.Lifecycle.Deletion.{
  request_site_deletion, approve_site_deletion, cancel_site_deletion, execute_site_deletion,
}
use event_management.Lifecycle.Guarded.{AllGuarded}
use event_management.Lifecycle.Kept.{
  suspend_keeps, resume_keeps, start-AllGuarded, release-AllGuarded, request-AllGuarded,
  approve-AllGuarded, cancel-AllGuarded, execute-AllGuarded,
}

module _ (retention_days hold_days : ℕ) (stripe : Subscription → Bool → Bool) where
  -- One call that returns; a call that raises leaves the tables alone.
  pub data Step (m m' : Platform) : Type 0 where
    suspend :
        (now id : ℕ) (reason : Text) (s : Site)
        → suspend_site_access now id reason m ≡ ok (s, m')
        → Step m m'
    resume : (now id : ℕ) (s : Site) → resume_site_access now id m ≡ ok (s, m') → Step m m'
    hold :
        (now id actor : ℕ) (reason : Text) (x : SiteDeletionRequest)
        → start_site_delete_hold stripe hold_days now id actor reason m ≡ ok (x, m')
        → Step m m'
    release :
        (now id : ℕ) (reason : Text) (x : SiteDeletionRequest)
        → cancel_site_delete_hold stripe now id reason m ≡ ok (x, m')
        → Step m m'
    request :
        (id actor : ℕ) (reason : Text) (x : SiteDeletionRequest)
        → request_site_deletion id actor reason m ≡ ok (x, m')
        → Step m m'
    approve :
        (now id actor : ℕ) (x : SiteDeletionRequest)
        → approve_site_deletion retention_days now id actor m ≡ ok (x, m')
        → Step m m'
    cancel :
        (id : ℕ) (reason : Text) (x : SiteDeletionRequest)
        → cancel_site_deletion id reason m ≡ ok (x, m')
        → Step m m'
    execute :
        (now id : ℕ) (x : SiteDeletionRequest)
        → execute_site_deletion now id m ≡ ok (x, m')
        → Step m m'

  pub data Reach (m : Platform) : Platform → Type 0 where
    here : Reach m m
    next : {m' m'' : Platform} → Reach m m' → Step m' m'' → Reach m m''

  Step-AllGuarded :
      (m m' : Platform)
      → AllGuarded retention_days hold_days m
      → Step m m'
      → AllGuarded retention_days hold_days m'
  Step-AllGuarded m m' v (suspend now id reason s h) =
      subst (All _) (sym (suspend_keeps retention_days hold_days stripe now id reason m m' s h)) v
  Step-AllGuarded m m' v (resume now id s h) =
      subst (All _) (sym (resume_keeps retention_days hold_days stripe now id m m' s h)) v
  Step-AllGuarded m m' v (hold now id actor reason x h) =
      start-AllGuarded retention_days hold_days stripe now id actor reason m m' x v h
  Step-AllGuarded m m' v (release now id reason x h) =
      release-AllGuarded retention_days hold_days stripe now id reason m m' x v h
  Step-AllGuarded m m' v (request id actor reason x h) =
      request-AllGuarded retention_days hold_days stripe id actor reason m m' x v h
  Step-AllGuarded m m' v (approve now id actor x h) =
      approve-AllGuarded retention_days hold_days stripe now id actor m m' x v h
  Step-AllGuarded m m' v (cancel id reason x h) =
      cancel-AllGuarded retention_days hold_days stripe id reason m m' x v h
  Step-AllGuarded m m' v (execute now id x h) =
      execute-AllGuarded retention_days hold_days stripe now id m m' x v h

  -- Whatever calls follow one another on tables whose deletion requests are guarded, they stay so:
  -- a request that is approved or carried out was approved by another person than the one who asked
  -- for it, for the days of retention from the approval on, or by the person who put the site on
  -- hold, for the days of the hold; and one that is carried out has no site any more.
  pub Reach-AllGuarded :
      (m m' : Platform)
      → AllGuarded retention_days hold_days m
      → Reach m m'
      → AllGuarded retention_days hold_days m'
  Reach-AllGuarded m m' v here = v
  Reach-AllGuarded m m' v (next r s) = Step-AllGuarded _ m' (Reach-AllGuarded m _ v r) s
