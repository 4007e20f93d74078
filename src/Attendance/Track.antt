-- ===== src/Attendance/Track.antt =====
-- attendance/services.py: the status of a check-in against its history.
use event_management.Base.{
  ℕ, ◌+◌, ◌<◌, ◌≡◌, refl, sym, ap, ◌∙◌, Bool, true, false, ◌&&◌, ◌||◌, not, Option, none, some,
  List, [], ◌∷◌, ◌++◌, ◌==◌, if◌then◌else◌, is_some, same_bool, find, update_if, All, All-mono,
  All-append, arith, inl, inr, Bool-cases,
}
use event_management.Schema.{Db}
use event_management.Schema.Events.{Participant}
use event_management.Schema.Attendance.{AttendanceStatus, AttendanceRecord, Action}
use event_management.Attendance.Lookup.{find-append, find_end, find-update_own, find-update_other}
use event_management.Attendance.{status_of, new_status, status_or_created, action_for, toggled}

and-left : (a b : Bool) → a && b ≡ true → a ≡ true
and-left true b h = refl
and-left false b h = cc

and-right : (a b : Bool) → a && b ≡ true → b ≡ true
and-right true b h = h
and-right false b h = cc

and_intro : {a b : Bool} → a ≡ true → b ≡ true → a && b ≡ true
and_intro h k = rw (h, k) refl

abbrev pub is_checked_in : Option AttendanceStatus → Bool
is_checked_in none = false
is_checked_in (some s) = is_some s.checked_in_at

-- The participant is checked in, by its status row.
abbrev pub present : ℕ → ℕ → List AttendanceStatus → Bool
present site_id participant_id xs = is_checked_in (find (status_of site_id participant_id) xs)

pub status_of_iff :
    (site_id participant_id : ℕ) (s : AttendanceStatus)
    → status_of site_id participant_id s ≡ true
    → (site_id ≡ s.site_id) × (participant_id ≡ s.participant_id)
unfolding status_of
status_of_iff site_id participant_id s h = ground arith

status_of_own : (s : AttendanceStatus) → status_of s.site_id s.participant_id s ≡ true
unfolding status_of
status_of_own s = ground arith

abbrev pub checks_in : Action → Bool
checks_in Action.checked_in = true
checks_in Action.undone = false

abbrev pub is_about : ℕ → ℕ → AttendanceRecord → Bool
is_about site_id participant_id r = r.site_id == site_id && r.participant_id == participant_id

-- The participant is checked in, by the last record about it; `before` if there is none.
unfoldable pub replay : ℕ → ℕ → Bool → List AttendanceRecord → Bool
replay site_id participant_id before [] = before
replay site_id participant_id before (r ∷ rs) =
    replay site_id participant_id
      (if is_about site_id participant_id r then checks_in r.action else before) rs

-- Each record about the participant changes what the ones before it say.
unfoldable pub alternates : ℕ → ℕ → Bool → List AttendanceRecord → Bool
alternates site_id participant_id before [] = true
alternates site_id participant_id before (r ∷ rs) =
    let after = if is_about site_id participant_id r then checks_in r.action else before in
    (not (is_about site_id participant_id r) || not (same_bool (checks_in r.action) before))
    && alternates site_id participant_id after rs

pub replay-append :
    (site_id participant_id : ℕ) (b : Bool) (rs : List AttendanceRecord) (r : AttendanceRecord)
    → replay site_id participant_id b (rs ++ r ∷ []) ≡ (
        if is_about site_id participant_id r
        then checks_in r.action
        else replay site_id participant_id b rs)
unfolding replay
replay-append site_id participant_id b [] r = refl
replay-append site_id participant_id b (x ∷ rs) r =
    replay-append site_id participant_id
      (if is_about site_id participant_id x then checks_in x.action else b) rs r

pub alternates-append :
    (site_id participant_id : ℕ) (b : Bool) (rs : List AttendanceRecord) (r : AttendanceRecord)
    → alternates site_id participant_id b rs ≡ true
    → (is_about site_id participant_id r ≡ true
        → same_bool (checks_in r.action) (replay site_id participant_id b rs) ≡ false)
    → alternates site_id participant_id b (rs ++ r ∷ []) ≡ true
unfolding replay alternates
alternates-append site_id participant_id b [] r h k =
    elim (Bool-cases (is_about site_id participant_id r)) [
      | inl t ↦ rw (t, k t) refl
      | inr t ↦ rw t refl
    ]
alternates-append site_id participant_id b (x ∷ rs) r h k =
    let after = if is_about site_id participant_id x then checks_in x.action else b in
    and_intro (and-left _ _ h)
      (alternates-append site_id participant_id after rs r (and-right _ _ h) k)

-- The statuses say what the history says.
pub record IsTracked (d : Db) : Type 0 where
  pub owner : ℕ → ℕ × ℕ
  pub owned :
      All (λ s. (s.id < d.next_id) × (owner s.id ≡ (s.site_id, s.participant_id))) d.attendance
  pub shown :
      (site_id participant_id : ℕ)
      → present site_id participant_id d.attendance
        ≡ replay site_id participant_id false d.attendance_records
  pub alternating :
      (site_id participant_id : ℕ)
      → alternates site_id participant_id false d.attendance_records ≡ true

-- The row that `get_or_create` returns is the one that the query finds.
pub created-found :
    (p : Participant) (x : Option AttendanceStatus) (d : Db)
    → find (status_of p.site_id p.id) d.attendance ≡ x
    → find (status_of p.site_id p.id) (status_or_created p x d).1.attendance
      ≡ some (status_or_created p x d).0
unfolding status_or_created
created-found p none d e =
    find_end (status_of p.site_id p.id) (new_status d.next_id p) d.attendance e
      (status_of_own (new_status d.next_id p))
created-found p (some s) d e = e

-- A row that is not checked in shows nothing new.
present-new :
    (p : Participant) (id site_id participant_id : ℕ) (xs : List AttendanceStatus)
    → find (status_of p.site_id p.id) xs ≡ none
    → present site_id participant_id (xs ++ new_status id p ∷ [])
      ≡ present site_id participant_id xs
present-new p id site_id participant_id xs e =
    elim (Bool-cases (status_of site_id participant_id (new_status id p))) [
      | inl t ↦
          let (f, g) = status_of_iff site_id participant_id (new_status id p) t in
          let e' : find (status_of site_id participant_id) xs ≡ none = rw (f, g) e in
          ap is_checked_in (find_end (status_of site_id participant_id) (new_status id p) xs e' t)
          ∙ ap is_checked_in (sym e')
      | inr t ↦
          ap is_checked_in (find-append (status_of site_id participant_id) (new_status id p) xs t)
    ]

pub created-IsTracked :
    (p : Participant) (x : Option AttendanceStatus) (d : Db)
    → find (status_of p.site_id p.id) d.attendance ≡ x
    → IsTracked d
    → IsTracked (status_or_created p x d).1
unfolding status_or_created
created-IsTracked p (some s) d e v = v
created-IsTracked p none d e v = record {
  owner = λ k. if k == d.next_id then (p.site_id, p.id) else v.owner k;
  owned =
      All-append _ d.attendance (new_status d.next_id p ∷ [])
        (All-mono _ _ d.attendance (λ s h. ground (arith, h)) v.owned)
        ((omega arith, ground arith), tt);
  shown = λ site_id participant_id.
      present-new p d.next_id site_id participant_id d.attendance e
      ∙ v.shown site_id participant_id;
  alternating = v.alternating;
}

-- The row that a change saves is another's for no key but its own.
owned-other :
    (owner : ℕ → ℕ × ℕ) (s : AttendanceStatus) (site_id participant_id next_id : ℕ)
    (xs : List AttendanceStatus)
    → owner s.id ≡ (s.site_id, s.participant_id)
    → status_of site_id participant_id s ≡ false
    → All (λ x. (x.id < next_id) × (owner x.id ≡ (x.site_id, x.participant_id))) xs
    → All (λ x. x.id ≡ s.id → status_of site_id participant_id x ≡ false) xs
unfolding status_of
owned-other owner s site_id participant_id next_id xs o n = All-mono _ _ xs (λ x h e.
    let same : (x.site_id, x.participant_id) ≡ (s.site_id, s.participant_id) =
      sym h.1 ∙ ap owner e ∙ o in
    rw (ap (λ (k : ℕ × ℕ). k.0) same, ap (λ (k : ℕ × ℕ). k.1) same) n)

-- The status after a change, for every participant.
pub present-change :
    (owner : ℕ → ℕ × ℕ) (s v : AttendanceStatus) (site_id participant_id next_id : ℕ)
    (xs : List AttendanceStatus)
    → ((i j : ℕ) → status_of i j v ≡ status_of i j s)
    → find (status_of s.site_id s.participant_id) xs ≡ some s
    → owner s.id ≡ (s.site_id, s.participant_id)
    → All (λ x. (x.id < next_id) × (owner x.id ≡ (x.site_id, x.participant_id))) xs
    → present site_id participant_id (update_if (λ x. x.id == s.id) (λ x. v) xs) ≡ (
        if status_of site_id participant_id s
        then is_some v.checked_in_at
        else present site_id participant_id xs)
present-change owner s v site_id participant_id next_id xs k f o a =
    elim (Bool-cases (status_of site_id participant_id s)) [
      | inl t ↦
          let (e, g) = status_of_iff site_id participant_id s t in
          rw t (
            ap is_checked_in (
              find-update_own (status_of site_id participant_id) v s xs (rw (e, g) f)
                (k site_id participant_id ∙ t)))
      | inr t ↦ rw t (
          ap is_checked_in (
            find-update_other (status_of site_id participant_id) v s.id xs
              (owned-other owner s site_id participant_id next_id xs o t a)
              (k site_id participant_id ∙ t)))
    ]

pub same_bool→eq : (a b : Bool) → same_bool a b ≡ true → a ≡ b
same_bool→eq true b h = sym h
same_bool→eq false true h = cc
same_bool→eq false false h = refl

pub same_bool_comm : (a b : Bool) → same_bool a b ≡ false → same_bool b a ≡ false
same_bool_comm true b h = rw h refl
same_bool_comm false true h = refl
same_bool_comm false false h = cc

pub checks_in-action_for : (c : Bool) → checks_in (action_for c) ≡ c
checks_in-action_for true = refl
checks_in-action_for false = refl

pub toggled_shows :
    (now actor : ℕ) (c : Bool) (s : AttendanceStatus)
    → is_some (toggled now actor c s).checked_in_at ≡ c
unfolding toggled
toggled_shows now actor true s = refl
toggled_shows now actor false s = refl

pub toggled_key :
    (now actor : ℕ) (c : Bool) (s : AttendanceStatus) (i j : ℕ)
    → status_of i j (toggled now actor c s) ≡ status_of i j s
unfolding toggled status_of
toggled_key now actor c s i j = refl

pub toggled_owned :
    (now actor : ℕ) (c : Bool) (s : AttendanceStatus) (owner : ℕ → ℕ × ℕ) (n : ℕ)
    → s.id < n
    → owner s.id ≡ (s.site_id, s.participant_id)
    → let t = toggled now actor c s in (t.id < n + 1) × (owner t.id ≡ (t.site_id, t.participant_id))
unfolding toggled
toggled_owned now actor c s owner n h o = (omega arith, o)

-- Who is checked in after a call.
abbrev pub checked_if : AttendanceStatus → Bool → ℕ → ℕ → Bool → Bool
checked_if s checked_in site_id participant_id before =
    if status_of site_id participant_id s then checked_in else before
