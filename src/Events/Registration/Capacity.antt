-- ===== src/Events/Registration/Capacity.antt =====
-- A saved response leaves an occurrence within its capacity.
use event_management.Base.{
  ℕ, suc, ◌+◌, ◌≤◌, ◌<◌, ◌≡◌, refl, ap, ◌∙◌, Bool, true, false, ◌&&◌, not, Option, none, some, List,
  [], ◌∷◌, ◌==◌, if◌then◌else◌, length, any, count_if, update_if, All, arith, ok, find, inl, inr,
  Bool-cases, count_if-append, count_if-update, count_if_mono, count_if-le-length, any-append,
  any-update, any_none, any-false, All-mono,
}
use event_management.Schema.{Db}
use event_management.Schema.Events.{
  Occurrence, Registration, Participant, History, Contact, is_going, is_active,
}
use event_management.Events.Access.{Guest}
use event_management.Events.Spots.{holds_spot, occupies, active_others}
use event_management.Events.Registration.Accepted.{Accepted-at}
use event_management.Events.Registration.{
  Request, registration_of, is_paid_event, overfull, requested_spots, payment_status_for,
  respond_again, guest_participant, guest_participants, primary_participant, participants_for,
  cancel, kept_guests, store_registration, commit_response, save_response,
}

-- The active participants of an occurrence whose registration holds their spot.
pub occupied : Db → ℕ → ℕ → ℕ
occupied d site_id occurrence_id =
    count_if (occupies d.registrations site_id occurrence_id) d.participants

abbrev pub IsFresh : Db → Type 0
IsFresh d = All (λ r. r.id < d.next_id) d.registrations

-- The id of the registration that a response is stored under.
abbrev stored_id : Db → Option Registration → ℕ
stored_id d none = d.next_id
stored_id d (some r) = r.id

module _ (now : ℕ) (d : Db) (o : Occurrence) (c : Contact) (q : Request) (paid : Bool) where
  abbrev stored : Option Registration → List Registration
  stored x = (store_registration now d o c q paid x).1

  -- The other registrations hold the spots that they held.
  holds_spot-stored :
      (x : Option Registration) (k occ : ℕ)
      → (k == stored_id d x) ≡ false
      → any (holds_spot occ k) (stored x) ≡ any (holds_spot occ k) d.registrations
  unfolding store_registration holds_spot any
  holds_spot-stored none k occ ne =
      rw (any-append (holds_spot occ k) d.registrations) (ground arith)
  holds_spot-stored (some r) k occ ne =
      any-update (holds_spot occ k) (holds_spot occ k) (λ x. x.id == r.id)
        (respond_again now q (payment_status_for paid q.response)) d.registrations
        (λ x. ground arith)

  -- A participant that the call leaves alone counts as before, and one that it cancels does not.
  occupies-stored :
      (x : Option Registration) (p : Participant)
      → occupies
          (stored x)
          o.site_id
          o.id
          (if p.registration_id == stored_id d x && is_active p.status then cancel p else p)
        ≡ (occupies d.registrations o.site_id o.id p && not (p.registration_id == stored_id d x))
  unfolding occupies
  occupies-stored x p = elim (Bool-cases (p.registration_id == stored_id d x)) [
    | inl same ↦ ground arith
    | inr other ↦ ground (arith, holds_spot-stored x p.registration_id o.id other)
  ]

  -- Nobody holds a spot under a registration that awaits payment.
  holds_spot-awaiting :
      (x : Option Registration)
      → IsFresh d
      → (paid && is_going q.response) ≡ true
      → any (holds_spot o.id (stored_id d x)) (stored x) ≡ false
  unfolding store_registration holds_spot any payment_status_for
  holds_spot-awaiting none fresh h = rw (any-append (holds_spot o.id d.next_id) d.registrations) (
      ground (
        arith,
        any_none (holds_spot o.id d.next_id) d.registrations (
            All-mono (λ r. r.id < d.next_id) (λ r. holds_spot o.id d.next_id r ≡ false)
              d.registrations (λ r b. ground arith) fresh),
      ))
  holds_spot-awaiting (some r) fresh h =
      any-update (holds_spot o.id r.id) (λ x. false) (λ x. x.id == r.id)
        (respond_again now q (payment_status_for paid q.response)) d.registrations
        (λ x. ground arith)
      ∙ any-false d.registrations

length-guest_participants :
    (id site rid : ℕ) (gs : List Guest) → length (guest_participants id site rid gs) ≡ length gs
unfolding guest_participants
length-guest_participants id site rid [] = refl
length-guest_participants id site rid (g ∷ gs) =
    ap suc (length-guest_participants (id + 1) site rid gs)

module _ (rs : List Registration) (site occ rid : ℕ) where
  guests_without_spot :
      (id : ℕ) (gs : List Guest)
      → any (holds_spot occ rid) rs ≡ false
      → count_if (occupies rs site occ) (guest_participants id site rid gs) ≡ 0
  unfolding guest_participants guest_participant occupies count_if
  guests_without_spot id [] h = refl
  guests_without_spot id (g ∷ gs) h = ground (arith, guests_without_spot (id + 1) gs h)

  joined : ℕ → Contact → Request → List Guest → ℕ
  joined id c q gs = count_if (occupies rs site occ) (participants_for id site rid c q.response gs)

  joined_absent :
      (id : ℕ) (c : Contact) (q : Request) (gs : List Guest)
      → is_going q.response ≡ false
      → joined id c q gs ≡ 0
  unfolding joined participants_for count_if
  joined_absent id c q gs h = rw h refl

  joined_awaiting :
      (id : ℕ) (c : Contact) (q : Request) (gs : List Guest)
      → any (holds_spot occ rid) rs ≡ false
      → joined id c q gs ≡ 0
  unfolding joined participants_for primary_participant occupies count_if
  joined_awaiting id c q gs h = ground (arith, guests_without_spot (id + 1) gs h)

  joined-le :
      (id : ℕ) (c : Contact) (q : Request) (gs : List Guest) → joined id c q gs ≤ 1 + length gs
  unfolding joined participants_for count_if
  joined-le id c q gs = ground (
    arith,
    count_if-le-length (occupies rs site occ) (guest_participants (id + 1) site rid gs),
    length-guest_participants (id + 1) site rid gs,
  )

module _ (now : ℕ) (d : Db) (o : Occurrence) (c : Contact) (q : Request) (paid : Bool) where
  -- The participants that the call adds take no more spots than it asked for.
  joined-le-requested :
      (x : Option Registration) (id : ℕ) (gs : List Guest)
      → IsFresh d
      → joined (stored now d o c q paid x) o.site_id o.id (stored_id d x) id c q gs
        ≤ requested_spots q.response paid gs
  unfolding requested_spots
  joined-le-requested x id gs fresh = ground (
    arith,
    joined_absent (stored now d o c q paid x) o.site_id o.id (stored_id d x) id c q gs,
    joined_awaiting (stored now d o c q paid x) o.site_id o.id (stored_id d x) id c q gs,
    joined-le (stored now d o c q paid x) o.site_id o.id (stored_id d x) id c q gs,
    holds_spot-awaiting now d o c q paid x fresh,
  )

  abbrev counts : Option Registration → Participant → Bool
  counts x = occupies (stored now d o c q paid x) o.site_id o.id

  abbrev spared : Option Registration → Participant → Bool
  spared x p = occupies d.registrations o.site_id o.id p && not (p.registration_id == stored_id d x)

  abbrev kept : Option Registration → List Participant
  kept x =
      update_if (λ p. p.registration_id == stored_id d x && is_active p.status) cancel
        d.participants

  count-kept :
      (x : Option Registration) → count_if (counts x) (kept x) ≡ count_if (spared x) d.participants
  count-kept x =
      count_if-update (counts x) (spared x)
        (λ p. p.registration_id == stored_id d x && is_active p.status) cancel d.participants
        (occupies-stored now d o c q paid x)

  spared-le-others :
      (x : Option Registration)
      → count_if (spared x) d.participants ≤ active_others d o.site_id o.id x
  unfolding active_others
  spared-le-others none = count_if_mono (spared none) _ d.participants (λ p h. ground arith)
  spared-le-others (some r) = count_if_mono (spared (some r)) _ d.participants (λ p h. h)

  occupied-after :
      (gs : List Guest) (x : Option Registration)
      → occupied (commit_response now d o c q gs paid x).1 o.site_id o.id
        ≡ count_if (counts x) (kept x)
          + joined (stored now d o c q paid x) o.site_id o.id (stored_id d x) (d.next_id + 1) c q gs
  unfolding occupied commit_response joined store_registration
  occupied-after gs none = count_if-append (counts none) (kept none) _
  occupied-after gs (some r) = count_if-append (counts (some r)) (kept (some r)) _

  -- What the call writes takes at most the spots of the others and those that it asked for.
  occupied-commit :
      (gs : List Guest) (x : Option Registration)
      → IsFresh d
      → occupied (commit_response now d o c q gs paid x).1 o.site_id o.id
        ≤ active_others d o.site_id o.id x + requested_spots q.response paid gs
  occupied-commit gs x fresh = omega (
    arith,
    occupied-after gs x,
    count-kept x,
    spared-le-others x,
    joined-le-requested x (d.next_id + 1) gs fresh,
  )

not_overfull :
    (cap spots : ℕ) {limit : Option ℕ}
    → limit ≡ some cap
    → overfull limit spots ≡ false
    → spots ≤ cap
not_overfull cap spots e h = ground arith

-- When a response is saved for an occurrence with a capacity, the active participants with a
-- settled registration are at most the capacity afterwards.
pub save_response-within_capacity :
    (now k : ℕ) (c : Contact) (q : Request) (d d' : Db) (r : Registration) (h : History)
    (o : Occurrence) (cap : ℕ)
    → IsFresh d
    → find (λ x. x.id == k) d.occurrences ≡ some o
    → o.capacity ≡ some cap
    → save_response now k c q d ≡ ok ((r, h), d')
    → occupied d' o.site_id o.id ≤ cap
save_response-within_capacity now k c q d d' r h o cap fresh f e s =
    let (ev, g, a) = Accepted-at now k c q d _ o f s in
    let paid = is_paid_event d o.id in
    let x = registration_of d o.id c.id in
    let bound = occupied-commit now d o c q paid (kept_guests q) x fresh in
    omega (
      arith,
      ap (λ (t : (Registration × History) × Db). occupied t.1 o.site_id o.id) a.written,
      not_overfull cap
          (active_others d o.site_id o.id x + requested_spots q.response paid (kept_guests q)) e
          a.fits,
      bound,
    )
