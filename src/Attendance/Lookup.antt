-- ===== src/Attendance/Lookup.antt =====
-- The rows of attendance statuses that a query finds after a row is added or saved.
use event_management.Base.{
  ℕ, ◌≡◌, refl, Bool, true, false, none, some, List, [], ◌∷◌, ◌++◌, ◌==◌, find, update_if, All,
  arith,
}
use event_management.Schema.Attendance.{AttendanceStatus}

pub find-append :
    (q : AttendanceStatus → Bool) (v : AttendanceStatus) (xs : List AttendanceStatus)
    → q v ≡ false
    → find q (xs ++ v ∷ []) ≡ find q xs
unfolding find
find-append q v [] h = ground (arith, h)
find-append q v (x ∷ xs) h = ground (arith, find-append q v xs h)

pub find_end :
    (q : AttendanceStatus → Bool) (v : AttendanceStatus) (xs : List AttendanceStatus)
    → find q xs ≡ none
    → q v ≡ true
    → find q (xs ++ v ∷ []) ≡ some v
unfolding find
find_end q v [] e h = ground (arith, h)
find_end q v (x ∷ xs) e h = ground (arith, find_end q v xs)

pub find-update_own :
    (q : AttendanceStatus → Bool) (v s : AttendanceStatus) (xs : List AttendanceStatus)
    → find q xs ≡ some s
    → q v ≡ true
    → find q (update_if (λ x. x.id == s.id) (λ x. v) xs) ≡ some v
unfolding find update_if
find-update_own q v s [] e h = cc
find-update_own q v s (x ∷ xs) e h = ground (arith, find-update_own q v s xs)

pub find-update_other :
    (q : AttendanceStatus → Bool) (v : AttendanceStatus) (k : ℕ) (xs : List AttendanceStatus)
    → All (λ x. x.id ≡ k → q x ≡ false) xs
    → q v ≡ false
    → find q (update_if (λ x. x.id == k) (λ x. v) xs) ≡ find q xs
unfolding find update_if
find-update_other q v k [] a h = refl
find-update_other q v k (x ∷ xs) a h = ground (arith, a.0, find-update_other q v k xs a.1 h)
