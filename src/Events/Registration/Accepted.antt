-- ===== src/Events/Registration/Accepted.antt =====
-- What a response has passed when it is saved.
use event_management.Base.{
  ℕ, ◌+◌, ◌≤◌, ◌≡◌, refl, false, ◌&&◌, ◌||◌, Option, none, some, is_blank, ◌==◌, length, any, find,
  subst, ◌∙◌, some_injective, or_raise-eq-ok, sym, ==_iff, ltb→le, not-eq-false, ok_injective, ok,
  arith, raise_if-eq-ok, >>=-eq-ok, or_raise, ◌⊎◌,
}
use event_management.Schema.{Db}
use event_management.Schema.Events.{
  Event, Occurrence, Registration, History, Contact, Source, Visibility, OccurrenceStatus,
  EventStatus, Invitation, is_going,
}
use event_management.Events.Access.{does_not_exist, validate_registration_access, lacks_name}
use event_management.Events.Spots.{active_others}
use event_management.Events.Registration.{
  Request, registration_of, is_paid_event, paid_change, overfull, requested_spots, kept_guests,
  commit_response, respond, save_response,
}

-- The rules of `_validate_registration_access`.
pub record MayRespond (o : Occurrence) (e : Event) (source : Source)
    (invitation : Option Invitation) : Type 0 where
  pub scheduled : o.status ≡ OccurrenceStatus.scheduled
  pub published : e.status ≡ EventStatus.published
  pub trusted :
      e.visibility ≡ Visibility.invite_only
      → (source ≡ Source.invitation) ⊎ (source ≡ Source.manager)
  pub invited :
      source ≡ Source.invitation
      → (i : Invitation) × (invitation ≡ some i) × (i.occurrence_id ≡ o.id)

-- The result of a response that is accepted.
pub record Accepted (now : ℕ) (o : Occurrence) (e : Event) (c : Contact) (q : Request) (d : Db)
    (result : (Registration × History) × Db) : Type 0 where
  pub access : validate_registration_access o e q.source q.invitation ≡ ok tt
  pub same_site : c.site_id ≡ o.site_id
  pub named : (is_going q.response && (is_blank c.first_name || is_blank c.last_name)) ≡ false
  pub guests_named : any lacks_name (kept_guests q) ≡ false
  pub few_guests : length (kept_guests q) ≤ e.max_guests
  pub unlocked : paid_change (registration_of d o.id c.id) q.response ≡ false
  pub fits :
      overfull o.capacity (
        active_others d o.site_id o.id (registration_of d o.id c.id)
        + requested_spots q.response (is_paid_event d o.id) (kept_guests q))
      ≡ false
  pub written :
      result
      ≡ commit_response now d o c q
          (kept_guests q)
          (is_paid_event d o.id)
          (registration_of d o.id c.id)

pub respond-Accepted :
    (now : ℕ) (o : Occurrence) (e : Event) (c : Contact) (q : Request) (d : Db)
    (r : (Registration × History) × Db)
    → respond now o e c q d ≡ ok r
    → Accepted now o e c q d r
unfolding respond
respond-Accepted now o e c q d r h =
    let (u, a, h1) = >>=-eq-ok (validate_registration_access o e q.source q.invitation) _ h in
    let (b1, h2) = raise_if-eq-ok _ _ _ h1 in
    let (b2, h3) = raise_if-eq-ok _ _ _ h2 in
    let (b3, h4) = raise_if-eq-ok _ _ _ h3 in
    let (b4, h5) = raise_if-eq-ok _ _ _ h4 in
    let (b5, h6) = raise_if-eq-ok _ _ _ h5 in
    let (b6, h7) = raise_if-eq-ok _ _ _ h6 in
    record {
      access = a;
      same_site = (==_iff c.site_id o.site_id).0 (not-eq-false _ b1);
      named = b2;
      guests_named = b3;
      few_guests = ltb→le e.max_guests (length (kept_guests q)) b4;
      unlocked = b5;
      fits = b6;
      written = sym (ok_injective h7);
    }

-- A response that is accepted meets the rules of its event.
pub access-MayRespond :
    (o : Occurrence) (e : Event) (source : Source) (i : Option Invitation)
    → validate_registration_access o e source i ≡ ok tt
    → MayRespond o e source i
unfolding validate_registration_access
access-MayRespond o e source none h = record {
  scheduled = ground arith;
  published = ground arith;
  trusted = λ v. ground arith;
  invited = λ s. absurd (ground arith);
}
access-MayRespond o e source (some i) h = record {
  scheduled = ground arith;
  published = ground arith;
  trusted = λ v. ground arith;
  invited = λ s. (i, refl, ground arith);
}

-- The rules and nothing else decide.
pub MayRespond-access :
    (o : Occurrence) (e : Event) (source : Source) (i : Option Invitation)
    → MayRespond o e source i
    → validate_registration_access o e source i ≡ ok tt
unfolding validate_registration_access
MayRespond-access o e Source.public i m = ground (arith, m.trusted)
MayRespond-access o e Source.manager i m = ground (arith, m.trusted)
MayRespond-access o e Source.invitation i m = let (j, a, b) = m.invited refl in ground (arith)

-- The rows that `save_response` reads, and what it made of them.
pub save_response-Accepted :
    (now k : ℕ) (c : Contact) (q : Request) (d : Db) (r : (Registration × History) × Db)
    → save_response now k c q d ≡ ok r
    → (o : Occurrence) × (e : Event) × (find (λ x. x.id == k) d.occurrences ≡ some o)
      × (find (λ x. x.id == o.event_id) d.events ≡ some e)
      × Accepted now o e c q d r
unfolding save_response
save_response-Accepted now k c q d r h =
    let (o, fo, h1) =
      >>=-eq-ok (or_raise (find (λ x. x.id == k) d.occurrences) does_not_exist) _ h in
    let (e, fe, h2) =
      >>=-eq-ok (or_raise (find (λ x. x.id == o.event_id) d.events) does_not_exist) _ h1 in
    (o, e, or_raise-eq-ok _ _ fo, or_raise-eq-ok _ _ fe, respond-Accepted now o e c q d r h2)

pub Accepted-at :
    (now k : ℕ) (c : Contact) (q : Request) (d : Db) (r : (Registration × History) × Db)
    (o : Occurrence)
    → find (λ x. x.id == k) d.occurrences ≡ some o
    → save_response now k c q d ≡ ok r
    → (e : Event) × (find (λ x. x.id == o.event_id) d.events ≡ some e) × Accepted now o e c q d r
Accepted-at now k c q d r o f h =
    let (o', e, f', g, a) = save_response-Accepted now k c q d r h in
    subst
      (λ x.
        (e : Event) × (find (λ y. y.id == x.event_id) d.events ≡ some e) × Accepted now x e c q d r)
      (some_injective (sym f' ∙ f)) (e, g, a)
