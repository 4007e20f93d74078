-- ===== src/Lifecycle/Kept.antt =====
-- sites/services.py and ops/services.py: each call keeps the deletion requests guarded.
use event_management.Base.{
  ℕ, ◌*◌, ◌≡◌, refl, ap, sym, subst, Bool, true, false, ◌&&◌, not, Option, none, some, ◌==◌,
  is_some, All, All-append, find-All, inl, inr, Text, ok, >>=-eq-ok, raise_if-eq-ok, or_raise-eq-ok,
  ok_injective, not-eq-false, Bool-cases, is_blank,
}
use event_management.Subscriptions.Model.{Subscription}
use event_management.Lifecycle.Model.{
  Site, SiteDeletionRequest, Platform, not_pending, same_person, not_open, not_eligible, not_live,
  reason_required, stripe_failed, still_live, accepts_public_traffic, is_requested, is_approved,
  is_pending, get_site, get_deletion, save_deletion,
}
use event_management.Lifecycle.Access.{
  pending_deletion, new_deletion, as_canceled, hold_deletion, resume_down, resume_site_access,
  resume_subscription_status, suspend_site_access, start_site_delete_hold,
  sync_stripe_cancel_schedule, cancel_hold, cancel_site_delete_hold, change_site, on_hold,
  site_deletion_hold_days,
}
use event_management.Lifecycle.Deletion.{
  request_or_pending, request_site_deletion, approve_site_deletion, cancel_site_deletion, is_due,
  is_eligible, executed, delete_site, execute_site_deletion, is_down,
}
use event_management.Lifecycle.Guarded.{
  AllGuarded, held-IsGuarded, new-IsGuarded, canceled-IsGuarded, granted-IsGuarded,
  executed-IsGuarded, saved-AllGuarded, deleted-AllGuarded,
}

module _ (retention_days hold_days : ℕ) (stripe : Subscription → Bool → Bool) where
  pub suspend_keeps :
      (now id : ℕ) (reason : Text) (m m' : Platform) (s : Site)
      → suspend_site_access now id reason m ≡ ok (s, m')
      → m'.deletions ≡ m.deletions
  unfolding suspend_site_access
  suspend_keeps now id reason m m' s h =
      let (r, hr, h1) = >>=-eq-ok (get_site id m) _ h in
      let (a, h2) = raise_if-eq-ok (is_blank reason) reason_required _ h1 in
      let (b, h3) =
        raise_if-eq-ok (not (accepts_public_traffic r.account.site_status)) not_live _ h2 in
      ap (λ (x : Site × Platform). x.1.deletions) (sym (ok_injective h3))

  resume_down_keeps :
      (now : ℕ) (s : Site) (m m' : Platform) (s' : Site)
      → resume_down now s m ≡ ok (s', m')
      → m'.deletions ≡ m.deletions
  unfolding resume_down
  resume_down_keeps now s m m' s' h =
      let (r, hr, h1) = >>=-eq-ok (resume_subscription_status now s.account) _ h in
      ap (λ (x : Site × Platform). x.1.deletions) (sym (ok_injective h1))

  pub resume_keeps :
      (now id : ℕ) (m m' : Platform) (s : Site)
      → resume_site_access now id m ≡ ok (s, m')
      → m'.deletions ≡ m.deletions
  unfolding resume_site_access
  resume_keeps now id m m' s h =
      let (r, hr, h1) = >>=-eq-ok (get_site id m) _ h in
      elim (Bool-cases (accepts_public_traffic r.account.site_status)) [
        | inl t ↦ ap (λ (x : Site × Platform). x.1.deletions) (sym (ok_injective (rw t at h1)))
        | inr t ↦ resume_down_keeps now r m m' s (rw t at h1)
      ]

  hold_deletion-AllGuarded :
      (now id actor : ℕ) (reason : Text) (o : Option SiteDeletionRequest) (m : Platform)
      → AllGuarded retention_days hold_days m
      → AllGuarded retention_days hold_days
          (hold_deletion now (86400 * site_deletion_hold_days hold_days) id actor reason o m).1
  unfolding hold_deletion
  hold_deletion-AllGuarded now id actor reason none m a = All-append _ m.deletions _ a (
    held-IsGuarded retention_days hold_days now actor reason
        (new_deletion m.next_id id actor reason),
    tt,
  )
  hold_deletion-AllGuarded now id actor reason (some d) m a =
      saved-AllGuarded retention_days hold_days _ m.deletions
        (held-IsGuarded retention_days hold_days now actor reason d) a

  pub start-AllGuarded :
      (now id actor : ℕ) (reason : Text) (m m' : Platform) (x : SiteDeletionRequest)
      → AllGuarded retention_days hold_days m
      → start_site_delete_hold stripe hold_days now id actor reason m ≡ ok (x, m')
      → AllGuarded retention_days hold_days m'
  unfolding start_site_delete_hold
  start-AllGuarded now id actor reason m m' x v h =
      let (s, hs, h1) = >>=-eq-ok (get_site id m) _ h in
      let (a, h2) = raise_if-eq-ok (is_blank reason) reason_required _ h1 in
      let (b, h3) =
        raise_if-eq-ok (not (sync_stripe_cancel_schedule stripe s.account.subscription true))
          stripe_failed _ h2 in
      subst (λ (y : SiteDeletionRequest × Platform). AllGuarded retention_days hold_days y.1)
        (ok_injective h3)
        (hold_deletion-AllGuarded now id actor reason (pending_deletion id m)
          (change_site id (on_hold now) m) v)

  cancel_hold-AllGuarded :
      (now id : ℕ) (s : Site) (o : Option SiteDeletionRequest) (m m' : Platform)
      (x : SiteDeletionRequest)
      → AllGuarded retention_days hold_days m
      → cancel_hold stripe now id s o m ≡ ok (x, m')
      → AllGuarded retention_days hold_days m'
  unfolding cancel_hold
  cancel_hold-AllGuarded now id s none m m' x v h = cc
  cancel_hold-AllGuarded now id s (some d) m m' x v h =
      let (b, h1) =
        raise_if-eq-ok (not (sync_stripe_cancel_schedule stripe s.account.subscription false))
          stripe_failed _ h in
      let m1 = record m { deletions = save_deletion (as_canceled d) m.deletions } in
      let (r, hr, h2) = >>=-eq-ok (resume_site_access now id m1) _ h1 in
      subst (λ (y : SiteDeletionRequest × Platform). AllGuarded retention_days hold_days y.1)
        (ok_injective h2)
        (subst (All _) (sym (resume_keeps now id m1 r.1 r.0 hr)) (
          saved-AllGuarded retention_days hold_days (as_canceled d) m.deletions
            (canceled-IsGuarded retention_days hold_days d) v))

  pub release-AllGuarded :
      (now id : ℕ) (reason : Text) (m m' : Platform) (x : SiteDeletionRequest)
      → AllGuarded retention_days hold_days m
      → cancel_site_delete_hold stripe now id reason m ≡ ok (x, m')
      → AllGuarded retention_days hold_days m'
  unfolding cancel_site_delete_hold
  release-AllGuarded now id reason m m' x v h =
      let (s, hs, h1) = >>=-eq-ok (get_site id m) _ h in
      let (a, h2) = raise_if-eq-ok (is_blank reason) reason_required _ h1 in
      cancel_hold-AllGuarded now id s (pending_deletion id m) m m' x v h2

  requested-AllGuarded :
      (id actor : ℕ) (reason : Text) (o : Option SiteDeletionRequest) (m : Platform)
      → AllGuarded retention_days hold_days m
      → AllGuarded retention_days hold_days (request_or_pending id actor reason o m).1
  unfolding request_or_pending
  requested-AllGuarded id actor reason none m v =
      All-append _ m.deletions _ v
        (new-IsGuarded retention_days hold_days m.next_id id actor reason, tt)
  requested-AllGuarded id actor reason (some x) m v = v

  pub request-AllGuarded :
      (id actor : ℕ) (reason : Text) (m m' : Platform) (x : SiteDeletionRequest)
      → AllGuarded retention_days hold_days m
      → request_site_deletion id actor reason m ≡ ok (x, m')
      → AllGuarded retention_days hold_days m'
  unfolding request_site_deletion
  request-AllGuarded id actor reason m m' x v h =
      let (s, hs, h1) = >>=-eq-ok (get_site id m) _ h in
      let (a, h2) = raise_if-eq-ok (is_blank reason) reason_required _ h1 in
      let (b, h3) = raise_if-eq-ok (not (is_down s.account.site_status)) still_live _ h2 in
      subst (λ (y : SiteDeletionRequest × Platform). AllGuarded retention_days hold_days y.1)
        (ok_injective h3) (requested-AllGuarded id actor reason (pending_deletion id m) m v)

  pub approve-AllGuarded :
      (now id actor : ℕ) (m m' : Platform) (x : SiteDeletionRequest)
      → AllGuarded retention_days hold_days m
      → approve_site_deletion retention_days now id actor m ≡ ok (x, m')
      → AllGuarded retention_days hold_days m'
  unfolding approve_site_deletion
  approve-AllGuarded now id actor m m' x v h =
      let (d, hd, h1) = >>=-eq-ok (get_deletion id m) _ h in
      let (a, h2) = raise_if-eq-ok (not (is_requested d.status)) not_pending _ h1 in
      let (b, h3) = raise_if-eq-ok (d.requested_by == actor) same_person _ h2 in
      subst (λ (y : SiteDeletionRequest × Platform). AllGuarded retention_days hold_days y.1)
        (ok_injective h3)
        (saved-AllGuarded retention_days hold_days _ m.deletions
          (granted-IsGuarded retention_days hold_days now actor d b) v)

  pub cancel-AllGuarded :
      (id : ℕ) (reason : Text) (m m' : Platform) (x : SiteDeletionRequest)
      → AllGuarded retention_days hold_days m
      → cancel_site_deletion id reason m ≡ ok (x, m')
      → AllGuarded retention_days hold_days m'
  unfolding cancel_site_deletion
  cancel-AllGuarded id reason m m' x v h =
      let (d, hd, h1) = >>=-eq-ok (get_deletion id m) _ h in
      let (a, h2) = raise_if-eq-ok (not (is_pending d.status)) not_open _ h1 in
      let (b, h3) = raise_if-eq-ok (is_blank reason) reason_required _ h2 in
      subst (λ (y : SiteDeletionRequest × Platform). AllGuarded retention_days hold_days y.1)
        (ok_injective h3)
        (saved-AllGuarded retention_days hold_days _ m.deletions
          (canceled-IsGuarded retention_days hold_days d) v)

  approved_of : (a b c : Bool) → (a && b && c) ≡ true → a ≡ true
  approved_of true b c e = refl
  approved_of false b c e = cc

  pub execute-AllGuarded :
      (now id : ℕ) (m m' : Platform) (x : SiteDeletionRequest)
      → AllGuarded retention_days hold_days m
      → execute_site_deletion now id m ≡ ok (x, m')
      → AllGuarded retention_days hold_days m'
  unfolding execute_site_deletion get_deletion is_eligible
  execute-AllGuarded now id m m' x v h =
      let (d, hd, h1) = >>=-eq-ok (get_deletion id m) _ h in
      let (a, h2) = raise_if-eq-ok (not (is_eligible now d)) not_eligible _ h1 in
      let own = find-All _ _ m.deletions d (or_raise-eq-ok _ _ hd) v in
      let due =
        approved_of (is_approved d.status) (is_due d.deletion_eligible_at now) (is_some d.site)
          (not-eq-false _ a) in
      subst (λ (y : SiteDeletionRequest × Platform). AllGuarded retention_days hold_days y.1)
        (ok_injective h2)
        (saved-AllGuarded retention_days hold_days (executed now d) (delete_site d.site m).deletions
          (executed-IsGuarded retention_days hold_days now d due own)
          (deleted-AllGuarded retention_days hold_days d.site m v))
