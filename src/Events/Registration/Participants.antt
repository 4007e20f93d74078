-- ===== src/Events/Registration/Participants.antt =====
-- The participants of a response, and what a response leaves alone.
use event_management.Base.{
  ℕ, ◌+◌, ◌≡◌, refl, sym, subst, ◌∙◌, Bool, false, ◌&&◌, not, Option, none, some, List, [], ◌∷◌,
  ◌++◌, ◌==◌, if◌then◌else◌, length, select, count_if, update_if, All, arith, ok, inl, inr,
  Bool-cases, count_if-append, count_if-update, count_if_zero, select-append, select-update,
  select_none,
}
use mathlib.Core.List.{append-nil}
use event_management.Schema.{Db}
use event_management.Schema.Events.{
  Occurrence, Registration, Participant, History, Contact, is_going, is_active,
}
use event_management.Events.Access.{Guest}
use event_management.Events.Registration.Accepted.{save_response-Accepted}
use event_management.Events.Registration.{
  Request, registration_of, is_paid_event, payment_status_for, respond_again, guest_participant,
  guest_participants, primary_participant, participants_for, cancel, kept_guests,
  store_registration, commit_response, save_response,
}

-- Active, and of the registration.
abbrev pub attends : ℕ → Participant → Bool
attends rid p = p.registration_id == rid && is_active p.status

abbrev pub is_other : ℕ → Participant → Bool
is_other rid p = not (p.registration_id == rid)

module _ (site rid : ℕ) where
  guests_attend :
      (id : ℕ) (gs : List Guest)
      → count_if (attends rid) (guest_participants id site rid gs) ≡ length gs
  unfolding guest_participants guest_participant count_if
  guests_attend id [] = refl
  guests_attend id (g ∷ gs) = ground (arith, guests_attend (id + 1) gs)

  guests_are_own :
      (id : ℕ) (gs : List Guest)
      → All (λ p. is_other rid p ≡ false) (guest_participants id site rid gs)
  unfolding guest_participants guest_participant
  guests_are_own id [] = tt
  guests_are_own id (g ∷ gs) = (ground arith, guests_are_own (id + 1) gs)

  primaries :
      (id : ℕ) (gs : List Guest)
      → count_if (λ p. attends rid p && p.is_primary) (guest_participants id site rid gs) ≡ 0
  unfolding guest_participants guest_participant count_if
  primaries id [] = refl
  primaries id (g ∷ gs) = ground (arith, primaries (id + 1) gs)

  joined_attend :
      (id : ℕ) (c : Contact) (q : Request)
      → count_if (attends rid) (participants_for id site rid c q.response (kept_guests q))
        ≡ (if is_going q.response then 1 + length q.guests else 0)
  unfolding participants_for primary_participant count_if
  joined_attend id c q = elim (Bool-cases (is_going q.response)) [
    | inl t ↦ rw t (ground (arith, guests_attend (id + 1) q.guests))
    | inr t ↦ rw t refl
  ]

  joined_primary :
      (id : ℕ) (c : Contact) (q : Request)
      → count_if
          (λ p. attends rid p && p.is_primary)
          (participants_for id site rid c q.response (kept_guests q))
        ≡ (if is_going q.response then 1 else 0)
  unfolding participants_for primary_participant count_if
  joined_primary id c q = elim (Bool-cases (is_going q.response)) [
    | inl t ↦ rw t (ground (arith, primaries (id + 1) q.guests))
    | inr t ↦ rw t refl
  ]

  joined_own :
      (id : ℕ) (c : Contact) (q : Request)
      → select (is_other rid) (participants_for id site rid c q.response (kept_guests q)) ≡ []
  unfolding participants_for primary_participant
  joined_own id c q = elim (Bool-cases (is_going q.response)) [
    | inl t ↦ rw t (select_none _ _ (ground arith, guests_are_own (id + 1) q.guests))
    | inr t ↦ rw t (select_none _ _ tt)
  ]

-- What a saved response has made of the participants and the registrations.
pub record Recorded (q : Request) (d d' : Db) (r : Registration) : Type 0 where
  -- the active participants of the registration
  pub attending :
      count_if (attends r.id) d'.participants
      ≡ (if is_going q.response then 1 + length q.guests else 0)
  -- those of them that are primary
  pub primary :
      count_if (λ p. attends r.id p && p.is_primary) d'.participants
      ≡ (if is_going q.response then 1 else 0)
  -- the other registrations and their participants
  pub others : select (is_other r.id) d'.participants ≡ select (is_other r.id) d.participants
  pub registered :
      select (λ x. not (x.id == r.id)) d'.registrations
      ≡ select (λ x. not (x.id == r.id)) d.registrations

module _ (now : ℕ) (d : Db) (o : Occurrence) (c : Contact) (q : Request) (paid : Bool) where
  abbrev result : Option Registration → (Registration × History) × Db
  result x = commit_response now d o c q (kept_guests q) paid x

  participants-commit :
      (x : Option Registration)
      → let (rh, d') = result x in
        d'.participants
        ≡ update_if (attends rh.0.id) cancel d.participants
          ++ participants_for (d.next_id + 1) o.site_id rh.0.id c q.response (kept_guests q)
  unfolding commit_response
  participants-commit x = refl

  registrations-commit :
      (x : Option Registration)
      → select (λ y. not (y.id == (result x).0.0.id)) (result x).1.registrations
        ≡ select (λ y. not (y.id == (result x).0.0.id)) d.registrations
  unfolding commit_response store_registration select
  registrations-commit none =
      select-append (λ y. not (y.id == d.next_id)) d.registrations _
      ∙ ground (arith, append-nil (select (λ y. not (y.id == d.next_id)) d.registrations))
  registrations-commit (some r) =
      select-update (λ y. not (y.id == r.id)) (λ y. y.id == r.id)
        (respond_again now q (payment_status_for paid q.response)) d.registrations
        (λ y h. ground arith) (λ y h. ground arith)

  commit-Recorded : (x : Option Registration) → Recorded q d (result x).1 (result x).0.0
  commit-Recorded x =
      let rid = (result x).0.0.id in
      let new = participants_for (d.next_id + 1) o.site_id rid c q.response (kept_guests q) in
      let old = update_if (attends rid) cancel d.participants in
      record {
        attending =
            rw
              (
                participants-commit x,
                count_if-append (attends rid) old new,
                count_if-update (attends rid) (λ p. false) (attends rid) cancel d.participants
                    (λ p. ground arith),
                count_if_zero d.participants,
                joined_attend o.site_id rid (d.next_id + 1) c q,
              )
              (omega arith);
        primary =
            rw
              (
                participants-commit x,
                count_if-append (λ p. attends rid p && p.is_primary) old new,
                count_if-update (λ p. attends rid p && p.is_primary) (λ p. false) (attends rid)
                    cancel d.participants (λ p. ground arith),
                count_if_zero d.participants,
                joined_primary o.site_id rid (d.next_id + 1) c q,
              )
              (omega arith);
        others =
            rw
              (
                participants-commit x,
                select-append (is_other rid) old new,
                select-update (is_other rid) (attends rid) cancel d.participants
                    (λ p h. ground arith) (λ p h. ground arith),
                joined_own o.site_id rid (d.next_id + 1) c q,
              )
              (append-nil _);
        registered = registrations-commit x;
      }

-- A saved response has one active primary participant and its guests if it is going, and nobody
-- otherwise; every other registration and its participants are left as they were.
pub save_response-Recorded :
    (now k : ℕ) (c : Contact) (q : Request) (d d' : Db) (r : Registration) (h : History)
    → save_response now k c q d ≡ ok ((r, h), d')
    → Recorded q d d' r
save_response-Recorded now k c q d d' r h s =
    let (o, e, f, g, a) = save_response-Accepted now k c q d _ s in
    subst (λ t. Recorded q d t.1 t.0.0) (sym a.written)
      (commit-Recorded now d o c q (is_paid_event d o.id) (registration_of d o.id c.id))
