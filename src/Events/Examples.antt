-- ===== src/Events/Examples.antt =====
-- Examples of the theorems on events/registration.py.
use event_management.Base.{
  ◌≤◌, ◌≡◌, refl, none, [], ◌∷◌, ◌++◌, arith, returned, find, any, count_if, update_if, is_blank,
  text_eq, strip, Text,
}
use event_management.Schema.{Db}
use event_management.Schema.Events.{Response, Source, Registration, History}
use event_management.Events.Access.{validate_registration_access, lacks_name}
use event_management.Events.PublicResponse.{
  PublicRequest, save_public_response, public_contact, new_contact, known_contact, stored_email,
  contact_of, normalize_email,
}
use event_management.Events.PublicResponse.Laws.{save_public_response_adds}
use event_management.Events.Spots.{active_others}
use event_management.Events.Registration.{Request, save_response, registration_of, is_paid_event}
use event_management.Events.Registration.Capacity.{occupied, save_response-within_capacity}
use event_management.Events.Registration.Consistent.{
  Awaiting, IsConsistent, save_response-IsConsistent, save_response-payment_status,
}
use event_management.Events.Registration.Participants.{Recorded, save_response-Recorded}
use event_management.Samples.{occurrence, contact, empty, registration, history}

abbrev comes : Request
comes = record {
  response = Response.going;
  guests = record { first_name = 67 ∷ []; last_name = 68 ∷ []; email = []; phone = [] } ∷ [];
  source = Source.public;
  invitation = none;
  actor = none;
}

abbrev saved : (Registration × History) × Db
saved = returned ((registration, history), empty) (save_response 100 2 contact comes empty)

save_response-within_capacity_example : occupied saved.1 7 2 ≤ 3
unfolding save_response find any count_if update_if is_blank lacks_name active_others
    validate_registration_access registration_of is_paid_event
save_response-within_capacity_example =
    save_response-within_capacity 100 2 contact comes empty saved.1 saved.0.0 saved.0.1 occurrence 3
      tt refl refl refl

save_response-Recorded_example : Recorded comes empty saved.1 saved.0.0
unfolding save_response find any count_if update_if is_blank lacks_name active_others
    validate_registration_access registration_of is_paid_event
save_response-Recorded_example =
    save_response-Recorded 100 2 contact comes empty saved.1 saved.0.0 saved.0.1 refl

save_response-IsConsistent_example : IsConsistent saved.1
unfolding save_response find any count_if update_if is_blank lacks_name active_others
    validate_registration_access registration_of is_paid_event
save_response-IsConsistent_example =
    save_response-IsConsistent 100 2 contact comes empty saved.1 saved.0.0 saved.0.1
      (record { fresh = tt; unique = λ occ contact. omega arith }) refl

save_response-payment_status_example :
    Awaiting empty saved.1 occurrence contact Response.going saved.0.0
unfolding save_response find any count_if update_if is_blank lacks_name active_others
    validate_registration_access registration_of is_paid_event
save_response-payment_status_example =
    save_response-payment_status 100 2 contact comes empty saved.1 saved.0.0 saved.0.1 occurrence
      refl refl

-- A visitor who is not among the contacts yet; the address is in one case already.
abbrev visitor : PublicRequest
visitor = record {
  response = Response.going;
  first_name = 32 ∷ 67 ∷ [];
  last_name = 68 ∷ [];
  email = 98 ∷ 32 ∷ [];
  guests = [];
}

abbrev fold : Text → Text
fold s = s

abbrev visited : (Registration × History) × Db
visited =
    returned ((registration, history), empty) (save_public_response fold 100 7 2 visitor empty)

save_public_response_adds_example : visited.1.registrations ≡ [] ++ visited.0.0 ∷ []
unfolding save_public_response public_contact new_contact known_contact stored_email contact_of
    normalize_email text_eq strip save_response find any count_if update_if is_blank lacks_name
    active_others validate_registration_access registration_of is_paid_event
save_public_response_adds_example =
    save_public_response_adds fold 100 7 2 visitor empty visited.1 visited.0.0 visited.0.1 tt refl
