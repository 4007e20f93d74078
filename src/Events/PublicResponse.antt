-- ===== src/Events/PublicResponse.antt =====
-- events/registration.py: a response from a public page, by whoever gives an address. The contact
-- is found by the address, or made.
pub mod Laws
use event_management.Base.{
  ℕ, ◌+◌, ◌&&◌, Option, none, some, List, [], ◌∷◌, ◌++◌, Text, strip, is_empty, text_eq, ◌==◌,
  if◌then◌else◌, find, update_if, Result, ok, err, ◌>>=◌,
}
use event_management.Schema.{Db}
use event_management.Schema.Events.{Registration, History, Contact, Response, Source}
use event_management.Events.Access.{Error, response_exists, Guest}
use event_management.Events.Registration.{Request, registration_of, save_response}

-- What `save_public_response` is passed.
pub record PublicRequest : Type 0 where
  pub response : Response
  pub first_name : Text
  pub last_name : Text
  pub email : Text
  pub guests : List Guest

abbrev from_public : PublicRequest → Request
from_public q = record {
  response = q.response;
  guests = q.guests;
  source = Source.public;
  invitation = none;
  actor = none;
}

-- `casefold` is Python's `str.casefold`.
module _ (casefold : Text → Text) where
  -- `email.strip().casefold()`
  unfoldable pub normalize_email : Text → Text
  normalize_email email = casefold (strip email)

  -- `self.email.casefold() if self.email else ""`
  unfoldable pub stored_email : Text → Text
  stored_email email = if is_empty email then [] else casefold email

  -- `Contact.objects.create(…)`, with what `Contact.save` makes of the address.
  unfoldable pub new_contact : ℕ → ℕ → PublicRequest → Contact
  unfolding normalize_email stored_email
  new_contact id site_id q = record {
    id = id;
    site_id = site_id;
    first_name = strip q.first_name;
    last_name = strip q.last_name;
    email = strip (normalize_email q.email);
    normalized_email = stored_email (strip (normalize_email q.email));
    phone = [];
    archived_at = none;
  }

  abbrev pub rename : PublicRequest → Contact → Contact
  rename q c = record c {
    first_name = strip q.first_name;
    last_name = strip q.last_name;
    archived_at = none;
  }

  -- `Contact.objects.filter(site=site, normalized_email=normalized_email).first()`. An address that is
  -- not blank names one contact of a site, by a constraint of the table; of contacts with a blank one
  -- the source takes the first by name, the model the first that was added.
  unfoldable pub contact_of : Db → ℕ → Text → Option Contact
  contact_of d site_id email =
      find (λ c. c.site_id == site_id && text_eq c.normalized_email email) d.contacts

  -- A known contact is renamed, unless it has responded already. The name is that of the
  -- instance in hand, and `Contact.save` strips its address.
  unfoldable pub known_contact :
      PublicRequest → Db → Contact → Option Registration → Result Error (Contact × Db)
  known_contact q d c (some r) = err (response_exists r.id)
  known_contact q d c none = ok (
    record c {
      first_name = strip q.first_name;
      last_name = strip q.last_name;
      email = strip c.email;
      normalized_email = stored_email (strip c.email);
      archived_at = none;
    },
    record d { contacts = update_if (λ x. x.id == c.id) (rename q) d.contacts },
  )

  -- The contact that responds, and the tables with it.
  unfoldable pub public_contact :
      ℕ → ℕ → PublicRequest → Db → Option Contact → Result Error (Contact × Db)
  unfolding new_contact known_contact
  public_contact site_id occurrence_id q d none =
      let c = new_contact d.next_id site_id q in
      ok (c, record d { next_id = d.next_id + 1; contacts = d.contacts ++ c ∷ [] })
  public_contact site_id occurrence_id q d (some c) =
      known_contact q d c (registration_of d occurrence_id c.id)

  unfoldable pub save_public_response :
      ℕ → ℕ → ℕ → PublicRequest → Db → Result Error ((Registration × History) × Db)
  unfolding public_contact contact_of
  save_public_response now site_id occurrence_id q d = do
    (c, d') ←
        public_contact site_id occurrence_id q d (contact_of d site_id (normalize_email q.email))
    save_response now occurrence_id c (from_public q) d'
