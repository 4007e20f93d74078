-- ===== src/Payments/Accounts.antt =====
-- payments/services.py: the Stripe account of a site, as Stripe and its failures report it. A
-- country is a number, of which `upper` makes the one in capitals; reasons are texts.
pub mod Failures
use event_management.Base.{
  ℕ, ◌+◌, Bool, true, false, ◌&&◌, ◌||◌, not, Option, none, some, List, [], ◌∷◌, ◌++◌, leb, ◌==◌,
  if◌then◌else◌, or_else, is_some, find, update_if, Result, ok, err, or_raise, ◌>>=◌,
}
use event_management.Schema.{Db}
use event_management.Schema.Payments.{ConnectedAccount, AccountStatus}
use event_management.Payments.Errors.{Error, account_disconnected, does_not_exist}
use event_management.Payments.Objects.{AccountObject}

abbrev pub is_nil {ℓ} : {A : Type ℓ} → List A → Bool
is_nil [] = true
is_nil (_ ∷ _) = false

-- `_account_status`
unfoldable pub account_status : AccountObject → AccountStatus
account_status a =
    if a.charges_enabled && a.payouts_enabled
    then AccountStatus.ready
    else if not (a.disabled_reason == 0) || (a.details_submitted && not (is_nil a.currently_due))
    then AccountStatus.restricted
    else AccountStatus.pending

-- The columns that a synchronization assigns.
unfoldable pub synchronized : (ℕ → ℕ) → ℕ → AccountObject → ConnectedAccount → ConnectedAccount
unfolding account_status
synchronized upper now a c = record c {
  status = account_status a;
  country = upper a.country;
  charges_enabled = a.charges_enabled;
  payouts_enabled = a.payouts_enabled;
  details_submitted = a.details_submitted;
  requirements_due = a.currently_due;
  last_synced_at = some now;
  last_sync_attempted_at = some now;
  disconnected_at = none;
  sync_failure_count = 0;
  permanent_sync_failure_count = 0;
  last_sync_error = 0;
}

-- `ConnectedAccount(site=site, stripe_account_id=account_id)`
unfoldable pub new_account : ℕ → ℕ → ℕ → ConnectedAccount
new_account id site_id stripe_account_id = record {
  id = id;
  site_id = site_id;
  stripe_account_id = stripe_account_id;
  status = AccountStatus.not_started;
  country = 0;
  charges_enabled = false;
  payouts_enabled = false;
  details_submitted = false;
  requirements_due = [];
  last_synced_at = none;
  disconnected_at = none;
  sync_failure_count = 0;
  permanent_sync_failure_count = 0;
  last_sync_attempted_at = none;
  last_sync_error = 0;
}

-- `connected.save()` on a row that is there
unfoldable pub save_connected_account : ConnectedAccount → Db → Db
save_connected_account c d = record d {
  accounts = update_if (λ (x : ConnectedAccount). x.id == c.id) (λ x. c) d.accounts;
}

unfoldable pub synchronize_found :
    (ℕ → ℕ)
    → ℕ
    → AccountObject
    → Option ℕ
    → Option ConnectedAccount
    → Db
    → Option ConnectedAccount × Db
unfolding synchronized new_account save_connected_account
synchronize_found upper now a site (some c) d =
    (some (synchronized upper now a c), save_connected_account (synchronized upper now a c) d)
synchronize_found upper now a none none d = (none, d)
synchronize_found upper now a (some site_id) none d =
    let c = synchronized upper now a (new_account d.next_id site_id a.id) in
    (some c, record d { next_id = d.next_id + 1; accounts = d.accounts ++ c ∷ [] })

unfoldable pub synchronize_connected_account :
    (ℕ → ℕ) → ℕ → AccountObject → Option ℕ → Db → Option ConnectedAccount × Db
unfolding synchronize_found
synchronize_connected_account upper now a site d =
    synchronize_found upper now a site
      (find (λ (c : ConnectedAccount). c.stripe_account_id == a.id) d.accounts) d

abbrev pub is_disconnected : AccountStatus → Bool
is_disconnected AccountStatus.disconnected = true
is_disconnected _ = false

unfoldable pub disconnected : ℕ → ℕ → ConnectedAccount → ConnectedAccount
disconnected now reason c = record c {
  status = AccountStatus.disconnected;
  charges_enabled = false;
  payouts_enabled = false;
  disconnected_at = some (or_else c.disconnected_at now);
  last_sync_error = reason;
}

unfoldable pub get_account : Db → ℕ → Result Error ConnectedAccount
get_account d id = or_raise (find (λ (c : ConnectedAccount). c.id == id) d.accounts) does_not_exist

unfoldable pub mark_connected_account_disconnected :
    ℕ → ℕ → ℕ → Db → Result Error (ConnectedAccount × Db)
unfolding disconnected get_account save_connected_account
mark_connected_account_disconnected now id reason d = do
  c ← get_account d id
  ok (disconnected now reason c, save_connected_account (disconnected now reason c) d)

-- One more failure; `is_permanent` says that Stripe has rejected the account for good.
unfoldable pub failed_sync : ℕ → Bool → ℕ → ConnectedAccount → ConnectedAccount
failed_sync now is_permanent error c = record c {
  sync_failure_count = c.sync_failure_count + 1;
  last_sync_attempted_at = some now;
  last_sync_error = error;
  permanent_sync_failure_count = if is_permanent then c.permanent_sync_failure_count + 1 else 0;
}

-- The reason that the code gives after three failures for good.
abbrev pub permanently_rejected : ℕ
permanently_rejected = 1

unfoldable pub record_connected_account_sync_failure :
    ℕ → ℕ → Bool → ℕ → Db → Result Error (ConnectedAccount × Db)
unfolding failed_sync mark_connected_account_disconnected get_account save_connected_account
record_connected_account_sync_failure now id is_permanent error d = do
  c ← get_account d id
  (if leb 3 (failed_sync now is_permanent error c).permanent_sync_failure_count
      then mark_connected_account_disconnected now id permanently_rejected
          (save_connected_account (failed_sync now is_permanent error c) d)
      else ok (
        failed_sync now is_permanent error c,
        save_connected_account (failed_sync now is_permanent error c) d,
      ))

-- The answer of Stripe to `retrieve_account`: the account, or whether the failure is for good.
pub data AccountAnswer : Type 0 where
  retrieved : AccountObject → AccountAnswer
  refused : Bool → ℕ → AccountAnswer

-- `refresh_connected_account`: whether it returns, and the tables, which keep the failure that is
-- recorded before the error is raised again.
unfoldable pub refresh_connected_account :
    (ℕ → ℕ) → ℕ → ConnectedAccount → AccountAnswer → Db → Result Error (Bool × Db)
unfolding synchronize_connected_account record_connected_account_sync_failure
refresh_connected_account upper now c (retrieved a) d =
    ok (true, (synchronize_connected_account upper now a (some c.site_id) d).1)
refresh_connected_account upper now c (refused is_permanent error) d = do
  (c', d') ← record_connected_account_sync_failure now c.id is_permanent error d
  ok (false, d')

-- `start_connected_account` once the site's account has been looked for
unfoldable pub start_or_existing :
    (ℕ → ℕ)
    → ℕ
    → ℕ
    → AccountObject
    → Option ConnectedAccount
    → Db
    → Result Error (Option ConnectedAccount × Db)
unfolding synchronize_connected_account
start_or_existing upper now site_id a none d =
    ok (synchronize_connected_account upper now a (some site_id) d)
start_or_existing upper now site_id a (some c) d =
    if is_disconnected c.status then err account_disconnected else ok (some c, d)

-- `start_connected_account`, given the account that Stripe creates if it is asked to.
unfoldable pub start_connected_account :
    (ℕ → ℕ) → ℕ → ℕ → AccountObject → Db → Result Error (Option ConnectedAccount × Db)
unfolding start_or_existing
start_connected_account upper now site_id a d =
    start_or_existing upper now site_id a
      (find (λ (c : ConnectedAccount). c.site_id == site_id) d.accounts) d
