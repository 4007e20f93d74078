-- ===== src/Attendance/Marks.antt =====
-- attendance/services.py: what a call of `set_check_in` changes.
use event_management.Base.{
  ℕ, ◌⊎◌, ◌+◌, ◌<◌, ◌≡◌, refl, sym, ap, ◌∙◌, subst, Bool, true, false, ◌&&◌, not, Option, none,
  some, [], ◌∷◌, ◌++◌, ◌==◌, if◌then◌else◌, is_some, same_bool, find, update_if, All-mono,
  All-update_to, find-All, find-test, arith, inl, inr, Bool-cases, Text, ok, >>=-eq-ok,
  raise_if-eq-ok, or_raise-eq-ok, ok_injective, not-eq-false,
}
use event_management.Schema.{Db}
use event_management.Schema.Events.{
  Registration, Participant, ParticipantStatus, Response, PaymentStatus, is_active, is_going,
  is_settled,
}
use event_management.Schema.Attendance.{AttendanceStatus, AttendanceRecord}
use event_management.Attendance.{
  not_admitted, integrity_error, has_other_status, is_admitted, status_of, status_or_created,
  toggled, new_record, change_status, set_check_in, check_in_registered,
  registration_of_participant, participant_at,
}
use event_management.Attendance.Track.{
  is_checked_in, checks_in, is_about, replay, IsTracked, replay-append, alternates-append,
  status_of_iff, created-found, created-IsTracked, present-change, same_bool→eq, same_bool_comm,
  checks_in-action_for, toggled_shows, toggled_key, toggled_owned, checked_if,
}

-- What a change leaves.
pub record Changed (s : AttendanceStatus) (checked_in : Bool) (d d' : Db) : Type 0 where
  pub tracked : IsTracked d'
  pub checked :
      (site_id participant_id : ℕ)
      → replay site_id participant_id false d'.attendance_records
        ≡ checked_if s checked_in site_id participant_id
            (replay site_id participant_id false d.attendance_records)

module _ (now : ℕ) (p : Participant) (r : Registration) (actor : ℕ) (checked_in : Bool)
    (note : Text) (s : AttendanceStatus) (d : Db) (v : IsTracked d)
    (found : find (status_of p.site_id p.id) d.attendance ≡ some s) where
  own : (p.site_id ≡ s.site_id) × (p.id ≡ s.participant_id)
  own = status_of_iff p.site_id p.id s (find-test _ d.attendance s found)

  -- The status before the call, by the history.
  before : is_some s.checked_in_at ≡ replay s.site_id s.participant_id false d.attendance_records
  before = ap is_checked_in (sym (rw (own.0, own.1) at found)) ∙ v.shown s.site_id s.participant_id

  before_at :
      (i j : ℕ)
      → status_of i j s ≡ true
      → replay i j false d.attendance_records ≡ is_some s.checked_in_at
  before_at i j t =
      let (e, g) = status_of_iff i j s t in
      sym (
        subst (λ k. is_some s.checked_in_at ≡ replay k j false d.attendance_records) (sym e)
          (subst (λ k. is_some s.checked_in_at ≡ replay s.site_id k false d.attendance_records)
            (sym g) before))

  unchanged : same_bool (is_some s.checked_in_at) checked_in ≡ true → Changed s checked_in d d
  unchanged e = record {
    tracked = v;
    checked = λ i j. elim (Bool-cases (status_of i j s)) [
      | inl t ↦ rw t (before_at i j t ∙ same_bool→eq _ _ e)
      | inr t ↦ rw t refl
    ];
  }

  abbrev made : AttendanceRecord
  made = new_record d.next_id now p r checked_in actor note

  about_made : (i j : ℕ) → is_about i j made ≡ status_of i j s
  unfolding new_record status_of
  about_made i j = rw (own.0, own.1) refl

  made_action : checks_in made.action ≡ checked_in
  unfolding new_record
  made_action = checks_in-action_for checked_in

  recorded :
      (i j : ℕ)
      → replay i j false (d.attendance_records ++ made ∷ [])
        ≡ checked_if s checked_in i j (replay i j false d.attendance_records)
  recorded i j =
      replay-append i j false d.attendance_records made ∙ rw (about_made i j, made_action) refl

  changed :
      same_bool (is_some s.checked_in_at) checked_in ≡ false
      → Changed s checked_in d (record d {
        next_id = d.next_id + 1;
        attendance =
            update_if (λ x. x.id == s.id) (λ x. toggled now actor checked_in s) d.attendance;
        attendance_records = d.attendance_records ++ made ∷ [];
      })
  changed e =
      let (h, o) = find-All _ _ d.attendance s found v.owned in
      let later =
        All-mono _
          (λ (x : AttendanceStatus).
            (x.id < d.next_id + 1) × (v.owner x.id ≡ (x.site_id, x.participant_id)))
          d.attendance (λ x q. (omega (arith, q.0), q.1)) v.owned in
      let found' = rw (own.0, own.1) at found in
      record {
        tracked = record {
          owner = v.owner;
          owned =
              All-update_to _ _ (toggled now actor checked_in s) d.attendance
                (toggled_owned now actor checked_in s v.owner d.next_id h o) later;
          shown = λ i j.
              present-change v.owner s (toggled now actor checked_in s) i j d.next_id d.attendance
                (toggled_key now actor checked_in s) found' o v.owned
              ∙ rw (toggled_shows now actor checked_in s)
                  (ap (checked_if s checked_in i j) (v.shown i j) ∙ sym (recorded i j));
          alternating = λ i j.
              alternates-append i j false d.attendance_records made (v.alternating i j) (λ t.
                rw (made_action, before_at i j (sym (about_made i j) ∙ t))
                  (same_bool_comm (is_some s.checked_in_at) checked_in e));
        };
        checked = recorded;
      }

-- What an accepted call leaves.
pub record Marked (id : ℕ) (checked_in : Bool) (d d' : Db) : Type 0 where
  pub participant : Participant
  pub known : find (λ (p : Participant). p.id == id) d.participants ≡ some participant
  pub registration : Registration
  pub of_participant :
      find (λ (r : Registration). r.id == participant.registration_id) d.registrations
      ≡ some registration
  pub active : participant.status ≡ ParticipantStatus.active
  pub going : registration.response ≡ Response.going
  pub settled :
      (registration.payment_status ≡ PaymentStatus.not_required)
      ⊎ (registration.payment_status ≡ PaymentStatus.paid)
  pub tracked : IsTracked d'
  pub checked :
      (site_id participant_id : ℕ)
      → replay site_id participant_id false d'.attendance_records ≡ (
          if participant.site_id == site_id && participant.id == participant_id
          then checked_in
          else replay site_id participant_id false d.attendance_records)

pub status_active : (s : ParticipantStatus) → is_active s ≡ true → s ≡ ParticipantStatus.active
status_active ParticipantStatus.active h = refl
status_active ParticipantStatus.canceled h = cc

response_going : (x : Response) → is_going x ≡ true → x ≡ Response.going
response_going Response.going h = refl
response_going Response.maybe h = cc
response_going Response.not_going h = cc

payment_settled :
    (x : PaymentStatus)
    → is_settled x ≡ true
    → (x ≡ PaymentStatus.not_required) ⊎ (x ≡ PaymentStatus.paid)
payment_settled PaymentStatus.not_required h = inl refl
payment_settled PaymentStatus.paid h = inr refl
payment_settled PaymentStatus.pending h = cc
payment_settled PaymentStatus.refunded h = cc

admitted_parts :
    (p : Participant) (r : Registration)
    → is_admitted p r ≡ true
    → (is_active p.status ≡ true)
      × (is_going r.response ≡ true)
      × (is_settled r.payment_status ≡ true)
unfolding is_admitted
admitted_parts p r h = ground arith

change_status-Changed :
    (now : ℕ) (p : Participant) (r : Registration) (actor : ℕ) (checked_in : Bool) (note : Text)
    (s : AttendanceStatus) (d : Db)
    → IsTracked d
    → find (status_of p.site_id p.id) d.attendance ≡ some s
    → Changed s checked_in d (change_status now p r actor checked_in note s d).1
unfolding change_status
change_status-Changed now p r actor checked_in note s d v f =
    elim (Bool-cases (same_bool (is_some s.checked_in_at) checked_in)) [
      | inl e ↦ rw e (unchanged now p r actor checked_in note s d v f e)
      | inr e ↦ rw e (changed now p r actor checked_in note s d v f e)
    ]

created_records :
    (p : Participant) (x : Option AttendanceStatus) (d : Db)
    → (status_or_created p x d).1.attendance_records ≡ d.attendance_records
unfolding status_or_created
created_records p none d = refl
created_records p (some s) d = refl

key_test :
    (p : Participant) (s : AttendanceStatus)
    → (p.site_id ≡ s.site_id) × (p.id ≡ s.participant_id)
    → (i j : ℕ) (c b : Bool) → checked_if s c i j b ≡ (if p.site_id == i && p.id == j then c else b)
unfolding status_of
key_test p s o i j c b = rw (o.0, o.1) refl

registered-Marked :
    (now k actor : ℕ) (checked_in : Bool) (note : Text) (d d' : Db)
    (t : AttendanceStatus × Option AttendanceRecord) (p : Participant) (r : Registration)
    → IsTracked d
    → find (λ (p : Participant). p.id == k) d.participants ≡ some p
    → find (λ (r : Registration). r.id == p.registration_id) d.registrations ≡ some r
    → check_in_registered now actor checked_in note d p r ≡ ok (t, d')
    → Marked k checked_in d d'
unfolding check_in_registered
registered-Marked now k actor checked_in note d d' t p r v known own h =
    let x = find (status_of p.site_id p.id) d.attendance in
    let s = (status_or_created p x d).0 in
    let d1 = (status_or_created p x d).1 in
    let f = created-found p x d refl in
    let (a, h2) = raise_if-eq-ok (not (is_admitted p r)) not_admitted _ h in
    let parts = admitted_parts p r (not-eq-false _ a) in
    let (b, h3) = raise_if-eq-ok (has_other_status p x d) integrity_error _ h2 in
    let c =
      change_status-Changed now p r actor checked_in note s d1 (created-IsTracked p x d refl v) f in
    let o = status_of_iff p.site_id p.id s (find-test _ d1.attendance s f) in
    let last : Changed s checked_in d1 d' =
      subst (λ (y : (AttendanceStatus × Option AttendanceRecord) × Db). Changed s checked_in d1 y.1)
        (ok_injective h3) c in
    record {
      participant = p;
      known = known;
      registration = r;
      of_participant = own;
      active = status_active p.status parts.0;
      going = response_going r.response parts.1;
      settled = payment_settled r.payment_status parts.2;
      tracked = last.tracked;
      checked =
          λ i j. last.checked i j ∙ rw (created_records p x d) (key_test p s o i j checked_in _);
    }

-- A call that is accepted is about an active participant whose registration is going and settled. If the statuses say what the history says and every record changes what the ones before
-- it say, this is so afterwards; then the participant is checked in exactly if the call says so,
-- and everybody else is as before.
pub set_check_in-Marked :
    (now k actor : ℕ) (checked_in : Bool) (note : Text) (d d' : Db)
    (t : AttendanceStatus × Option AttendanceRecord)
    → IsTracked d
    → set_check_in now k actor checked_in note d ≡ ok (t, d')
    → Marked k checked_in d d'
unfolding set_check_in participant_at registration_of_participant
set_check_in-Marked now k actor checked_in note d d' t v h =
    let (p, hp, h1) = >>=-eq-ok (participant_at d k) _ h in
    let (r, hr, h2) =
      >>=-eq-ok (registration_of_participant d p)
        (check_in_registered now actor checked_in note d p) h1 in
    registered-Marked now k actor checked_in note d d' t p r v (or_raise-eq-ok _ _ hp)
      (or_raise-eq-ok _ _ hr) h2
