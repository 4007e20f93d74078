-- ===== src/Events/Registration.antt =====
-- events/registration.py: saving a response to an occurrence of an event. A call gets the present
-- instant as `now` and returns the new tables, or raises and leaves them alone.
pub mod Accepted
pub mod Capacity
pub mod Consistent
pub mod Participants
use event_management.Base.{
  ◌≡◌, refl, ℕ, ◌+◌, Bool, true, false, ◌&&◌, ◌||◌, not, Option, none, some, List, [], ◌∷◌, ◌++◌,
  map, Text, strip, is_blank, ltb, ◌==◌, if◌then◌else◌, length, find, any, update_if, Result, ok,
  raise_if, or_raise, ◌>>=◌, ◌>>◌,
}
use event_management.Schema.{Db}
use event_management.Schema.Events.{
  Event, Occurrence, Invitation, Registration, Participant, History, Contact, InvitationStatus,
  Response, Source, PaymentStatus, ParticipantStatus, is_going, same_response, is_paid, is_active,
}
use event_management.Events.Access.{
  Error, foreign_contact, primary_name_required, guest_name_required, too_many_guests, paid_locked,
  capacity_exceeded, does_not_exist, Guest, validate_registration_access, lacks_name,
}
use event_management.Events.Spots.{active_others}

-- `Registration.objects.filter(occurrence=occurrence, contact=contact).first()`
unfoldable pub registration_of : Db → ℕ → ℕ → Option Registration
registration_of d occurrence_id contact_id =
    find (λ r. r.occurrence_id == occurrence_id && r.contact_id == contact_id) d.registrations

-- `occurrence.ticket_types.filter(is_active=True).exists()`
unfoldable pub is_paid_event : Db → ℕ → Bool
is_paid_event d occurrence_id =
    any (λ t. t.occurrence_id == occurrence_id && t.is_active) d.ticket_types

abbrev pub paid_change : Option Registration → Response → Bool
paid_change none response = false
paid_change (some r) response = is_paid r.payment_status && not (same_response response r.response)

-- `capacity is not None and others + requested > capacity`
abbrev pub overfull : Option ℕ → ℕ → Bool
overfull none spots = false
overfull (some capacity) spots = ltb capacity spots

unfoldable pub requested_spots : Response → Bool → List Guest → ℕ
requested_spots response paid_event guests =
    if is_going response && not paid_event then 1 + length guests else 0

-- The payment status that a response gets.
unfoldable pub payment_status_for : Bool → Response → PaymentStatus
payment_status_for paid_event response =
    if paid_event && is_going response then PaymentStatus.pending else PaymentStatus.not_required

-- The response of one contact, as the callers pass it.
pub record Request : Type 0 where
  pub response : Response
  pub guests : List Guest
  pub source : Source
  pub invitation : Option Invitation
  pub actor : Option ℕ

abbrev pub invitation_ref : Option Invitation → Option ℕ
invitation_ref none = none
invitation_ref (some i) = some i.id

abbrev pub or_previous : Option ℕ → Option ℕ → Option ℕ
or_previous none previous = previous
or_previous (some i) previous = some i

-- The fields that a second response assigns.
unfoldable pub respond_again : ℕ → Request → PaymentStatus → Registration → Registration
respond_again now q payment_status r = record r {
  response = q.response;
  source = q.source;
  payment_status = payment_status;
  invitation_id = or_previous (invitation_ref q.invitation) r.invitation_id;
  responded_at = now;
}

-- `Registration.objects.create(…)`
unfoldable pub first_response : ℕ → ℕ → ℕ → ℕ → ℕ → Request → PaymentStatus → Registration
first_response id site_id occurrence_id contact_id now q payment_status = record {
  id = id;
  site_id = site_id;
  occurrence_id = occurrence_id;
  contact_id = contact_id;
  invitation_id = invitation_ref q.invitation;
  response = q.response;
  source = q.source;
  payment_status = payment_status;
  responded_at = now;
}

unfoldable pub guest_participant : ℕ → ℕ → ℕ → Guest → Participant
guest_participant id site_id registration_id g = record {
  id = id;
  site_id = site_id;
  registration_id = registration_id;
  first_name = g.first_name;
  last_name = g.last_name;
  email = g.email;
  phone = g.phone;
  is_primary = false;
  status = ParticipantStatus.active;
}

unfoldable pub guest_participants : ℕ → ℕ → ℕ → List Guest → List Participant
guest_participants id site_id registration_id [] = []
guest_participants id site_id registration_id (g ∷ gs) =
    guest_participant id site_id registration_id g
    ∷ guest_participants (id + 1) site_id registration_id gs

unfoldable pub primary_participant : ℕ → ℕ → ℕ → Contact → Participant
primary_participant id site_id registration_id c = record {
  id = id;
  site_id = site_id;
  registration_id = registration_id;
  first_name = c.first_name;
  last_name = c.last_name;
  email = c.email;
  phone = c.phone;
  is_primary = true;
  status = ParticipantStatus.active;
}

-- The participants of a response: the contact and the guests if it is going, else nobody.
unfoldable pub participants_for : ℕ → ℕ → ℕ → Contact → Response → List Guest → List Participant
unfolding primary_participant guest_participants
participants_for id site_id registration_id c response guests =
    if is_going response
    then primary_participant id site_id registration_id c
      ∷ guest_participants (id + 1) site_id registration_id guests
    else []

abbrev pub cancel : Participant → Participant
cancel p = record p { status = ParticipantStatus.canceled }

-- `Participant.display_name`
unfoldable pub display_name : Participant → Text
display_name p = strip (p.first_name ++ 32 ∷ p.last_name)

abbrev pub mark_responded : Option Invitation → List Invitation → List Invitation
mark_responded none invitations = invitations
mark_responded (some i) invitations =
    update_if (λ j. j.id == i.id) (λ j. record j { status = InvitationStatus.responded })
      invitations

abbrev pub previous_response : Option Registration → Option Response
previous_response none = none
previous_response (some r) = some r.response

-- The registration that the call returns, and the table with it.
unfoldable pub store_registration :
    ℕ
    → Db
    → Occurrence
    → Contact
    → Request
    → Bool
    → Option Registration
    → Registration × List Registration
unfolding first_response respond_again payment_status_for
store_registration now d o c q paid_event none =
    let r =
      first_response d.next_id o.site_id o.id c.id now q
        (payment_status_for paid_event q.response) in
    (r, d.registrations ++ r ∷ [])
store_registration now d o c q paid_event (some r) =
    let again = respond_again now q (payment_status_for paid_event q.response) in
    (again r, update_if (λ x. x.id == r.id) again d.registrations)

-- What the call writes once it has passed its checks; `guests` are those that it kept.
unfoldable pub commit_response :
    ℕ
    → Db
    → Occurrence
    → Contact
    → Request
    → List Guest
    → Bool
    → Option Registration
    → (Registration × History) × Db
unfolding store_registration participants_for
commit_response now d o c q guests paid_event registration =
    let (r, registrations) = store_registration now d o c q paid_event registration in
    let id = d.next_id + 1 in
    let joined = participants_for id o.site_id r.id c q.response guests in
    let history : History = record {
      id = id + length joined;
      site_id = o.site_id;
      registration_id = r.id;
      previous_response = previous_response registration;
      new_response = q.response;
      guest_count = if is_going q.response then length guests else 0;
      participant_names = map display_name joined;
      source = q.source;
      changed_by = q.actor;
    } in
    (
      (r, history),
      record d {
        next_id = id + length joined + 1;
        registrations = registrations;
        participants =
            update_if (λ p. p.registration_id == r.id && is_active p.status) cancel d.participants
            ++ joined;
        histories = d.histories ++ history ∷ [];
        invitations = mark_responded q.invitation d.invitations;
      },
    )

-- A first response adds its registration to the table.
pub registrations_added :
    (now : ℕ) (d : Db) (o : Occurrence) (c : Contact) (q : Request) (gs : List Guest) (paid : Bool)
    (x : Option Registration)
    → x ≡ none
    → (commit_response now d o c q gs paid x).1.registrations
      ≡ d.registrations ++ (commit_response now d o c q gs paid x).0.0 ∷ []
unfolding commit_response store_registration
registrations_added now d o c q gs paid none e = refl
registrations_added now d o c q gs paid (some r) e = cc

abbrev pub kept_guests : Request → List Guest
kept_guests q = if is_going q.response then q.guests else []

-- `save_response` once the occurrence and its event have been read.
unfoldable pub respond :
    ℕ → Occurrence → Event → Contact → Request → Db → Result Error ((Registration × History) × Db)
unfolding commit_response requested_spots
respond now o e c q d = do
  validate_registration_access o e q.source q.invitation
  raise_if (not (c.site_id == o.site_id)) foreign_contact
  raise_if (is_going q.response && (is_blank c.first_name || is_blank c.last_name))
      primary_name_required
  raise_if (any lacks_name (kept_guests q)) guest_name_required
  raise_if (ltb e.max_guests (length (kept_guests q))) too_many_guests
  let registration = registration_of d o.id c.id
  let paid_event = is_paid_event d o.id
  raise_if (paid_change registration q.response) paid_locked
  raise_if
      (overfull o.capacity (
        active_others d o.site_id o.id registration
        + requested_spots q.response paid_event (kept_guests q)))
      capacity_exceeded
  ok (commit_response now d o c q (kept_guests q) paid_event registration)

unfoldable pub save_response :
    ℕ → ℕ → Contact → Request → Db → Result Error ((Registration × History) × Db)
unfolding respond
save_response now occurrence_id c q d = do
  o ← or_raise (find (λ o. o.id == occurrence_id) d.occurrences) does_not_exist
  e ← or_raise (find (λ e. e.id == o.event_id) d.events) does_not_exist
  respond now o e c q d
