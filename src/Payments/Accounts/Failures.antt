-- ===== src/Payments/Accounts/Failures.antt =====
-- payments/services.py: failures to synchronize an account, one after another.
use event_management.Base.{
  ℕ, ◌+◌, ◌≡◌, refl, ap, ◌∙◌, Bool, true, false, ◌||◌, Option, some, List, [], ◌∷◌, ◌==◌, leb,
  if◌then◌else◌, find, update_if, arith, inl, inr, Bool-cases, find-test, ==_iff, ==_refl, Result,
  ok, ◌>>=◌,
}
use event_management.Schema.{Db}
use event_management.Schema.Payments.{ConnectedAccount}
use event_management.Payments.Errors.{Error}
use event_management.Payments.Accounts.{
  get_account, save_connected_account, failed_sync, disconnected, is_disconnected,
  permanently_rejected, mark_connected_account_disconnected, record_connected_account_sync_failure,
}

-- The calls for these failures, each for good or not, one after another.
unfoldable pub record_failures : ℕ → ℕ → List Bool → Db → Result Error Db
record_failures now id [] d = ok d
record_failures now id (is_permanent ∷ rest) d = do
  (c, d') ← record_connected_account_sync_failure now id is_permanent 0 d
  record_failures now id rest d'

-- Three failures for good in a row.
unfoldable pub three_in_a_row : List Bool → Bool
three_in_a_row (true ∷ true ∷ true ∷ bs) = true
three_in_a_row (b ∷ bs) = three_in_a_row bs
three_in_a_row [] = false

account_at : ℕ → Db → Option ConnectedAccount
account_at id d = find (λ (c : ConnectedAccount). c.id == id) d.accounts

find-store :
    (k : ℕ) (v x : ConnectedAccount) (xs : List ConnectedAccount)
    → v.id ≡ k
    → find (λ (y : ConnectedAccount). y.id == k) xs ≡ some x
    → find
        (λ (y : ConnectedAccount). y.id == k)
        (update_if (λ (y : ConnectedAccount). y.id == v.id) (λ y. v) xs)
      ≡ some v
unfolding find update_if
find-store k v x [] h f = cc
find-store k v x (y ∷ ys) h f = ground (arith, find-store k v x ys, ==_refl k)

saved_account :
    (k : ℕ) (v x : ConnectedAccount) (d : Db)
    → v.id ≡ k
    → account_at k d ≡ some x
    → account_at k (save_connected_account v d) ≡ some v
unfolding account_at save_connected_account
saved_account k v x d h f = find-store k v x d.accounts h f

-- The row after one failure.
unfoldable after_failure : ℕ → Bool → ConnectedAccount → ConnectedAccount
after_failure now is_permanent c =
    if leb 3 (failed_sync now is_permanent 0 c).permanent_sync_failure_count
    then disconnected now permanently_rejected (failed_sync now is_permanent 0 c)
    else failed_sync now is_permanent 0 c

failure-row :
    (now id : ℕ) (b : Bool) (d : Db) (c : ConnectedAccount)
    → account_at id d ≡ some c
    → (r : ConnectedAccount × Db) × (record_connected_account_sync_failure now id b 0 d ≡ ok r)
      × (account_at id r.1 ≡ some (after_failure now b c))
unfolding record_connected_account_sync_failure mark_connected_account_disconnected get_account
    after_failure account_at failed_sync disconnected
failure-row now id b d c f =
    let own : c.id ≡ id = (==_iff c.id id).0 (find-test _ d.accounts c f) in
    let failed = failed_sync now b 0 c in
    let saved = saved_account id failed c d own f in
    let gone = disconnected now permanently_rejected failed in
    elim (Bool-cases (leb 3 failed.permanent_sync_failure_count)) [
      | inl t ↦ (
        (gone, save_connected_account gone (save_connected_account failed d)),
        rw (f, t, saved) refl,
        rw t (saved_account id gone failed (save_connected_account failed d) own saved),
      )
      | inr t ↦ ((failed, save_connected_account failed d), rw (f, t) refl, rw t saved)
    ]

-- Whether failures after `n` failures for good in a row disconnect the account.
rejected : ℕ → List Bool → Bool
rejected n [] = false
rejected n (true ∷ bs) = leb 3 (n + 1) || rejected (n + 1) bs
rejected n (false ∷ bs) = rejected 0 bs

rejected-three_in_a_row :
    (bs : List Bool)
    → (rejected 0 bs ≡ three_in_a_row bs)
      × (rejected 1 bs ≡ three_in_a_row (true ∷ bs))
      × (rejected 2 bs ≡ three_in_a_row (true ∷ true ∷ bs))
unfolding rejected three_in_a_row
rejected-three_in_a_row [] = (refl, refl, refl)
rejected-three_in_a_row (true ∷ bs) = let (a, b, c) = rejected-three_in_a_row bs in (b, c, refl)
rejected-three_in_a_row (false ∷ bs) = let (a, b, c) = rejected-three_in_a_row bs in (a, a, a)

after_failure-disconnected :
    (now : ℕ) (b : Bool) (bs : List Bool) (c : ConnectedAccount)
    → (is_disconnected (after_failure now b c).status
        || rejected (after_failure now b c).permanent_sync_failure_count bs)
      ≡ (is_disconnected c.status || rejected c.permanent_sync_failure_count (b ∷ bs))
unfolding after_failure failed_sync disconnected rejected
after_failure-disconnected now true bs c =
    elim (Bool-cases (leb 3 (c.permanent_sync_failure_count + 1))) [
      | inl t ↦ rw t (or_true (is_disconnected c.status))
      | inr t ↦ rw t refl
    ]
  where
    or_true : (x : Bool) → true ≡ (x || true)
    or_true true = refl
    or_true false = refl
after_failure-disconnected now false bs c = refl

failures-row :
    (now id : ℕ) (bs : List Bool) (d : Db) (c : ConnectedAccount)
    → account_at id d ≡ some c
    → (d' : Db) × (record_failures now id bs d ≡ ok d')
      × (c' : ConnectedAccount) × (account_at id d' ≡ some c')
      × (is_disconnected c'.status
          ≡ (is_disconnected c.status || rejected c.permanent_sync_failure_count bs))
unfolding record_failures rejected
failures-row now id [] d c f = (d, refl, c, f, or_false (is_disconnected c.status))
  where
    or_false : (x : Bool) → x ≡ (x || false)
    or_false true = refl
    or_false false = refl
failures-row now id (b ∷ bs) d c f =
    let (r, e, g) = failure-row now id b d c f in
    let (d', e', c', f', t) = failures-row now id bs r.1 (after_failure now b c) g in
    (d', rw e e', c', f', t ∙ after_failure-disconnected now b bs c)

-- Failures to synchronize an account that is in the table, and that has no failure for good behind
-- it, are all recorded; afterwards the account is disconnected exactly if it was before or three of
-- them in a row were for good.
pub record_failures-three_in_a_row :
    (now id : ℕ) (bs : List Bool) (d : Db) (c : ConnectedAccount)
    → find (λ (c : ConnectedAccount). c.id == id) d.accounts ≡ some c
    → c.permanent_sync_failure_count ≡ 0
    → (d' : Db) × (record_failures now id bs d ≡ ok d')
      × (c' : ConnectedAccount) × (find (λ (c : ConnectedAccount). c.id == id) d'.accounts
          ≡ some c')
      × (is_disconnected c'.status ≡ (is_disconnected c.status || three_in_a_row bs))
unfolding account_at
record_failures-three_in_a_row now id bs d c f z =
    let (d', e, c', f', t) = failures-row now id bs d c f in
    (
      d',
      e,
      c',
      f',
      t
          ∙ ap (λ n. is_disconnected c.status || rejected n bs) z
          ∙ ap (λ x. is_disconnected c.status || x) (rejected-three_in_a_row bs).0,
    )
