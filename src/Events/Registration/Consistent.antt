-- ===== src/Events/Registration/Consistent.antt =====
-- One registration for each contact and occurrence.
use event_management.Base.{
  find_end, find-update, any, refl, true, false, ==_refl, Bool-cases, ◌↔◌, ◌⊎◌, ℕ, ◌+◌, ◌≤◌, ◌<◌,
  ◌≡◌, sym, subst, Bool, ◌&&◌, Option, none, some, ◌==◌, if◌then◌else◌, find, count_if, All, arith,
  ok, inl, inr, Option-cases, count_if-append, count_if-update, count_if-find, All-mono, All-append,
  All-update,
}
use event_management.Schema.{Db}
use event_management.Schema.Events.{
  Occurrence, Registration, History, Contact, Response, PaymentStatus, is_going,
}
use event_management.Schema.Payments.{TicketType}
use event_management.Events.Registration.Accepted.{save_response-Accepted, Accepted-at}
use event_management.Events.Registration.{
  Request, registration_of, is_paid_event, payment_status_for, respond_again, kept_guests,
  store_registration, commit_response, save_response,
}

-- `.filter(occurrence=…, contact=…)`
abbrev pub answers : ℕ → ℕ → Registration → Bool
answers occ contact r = r.occurrence_id == occ && r.contact_id == contact

-- The registrations have ids that were handed out, and no contact has two for one occurrence.
pub record IsConsistent (d : Db) : Type 0 where
  pub fresh : All (λ r. r.id < d.next_id) d.registrations
  pub unique : (occ contact : ℕ) → count_if (answers occ contact) d.registrations ≤ 1

module _ (now : ℕ) (d : Db) (o : Occurrence) (c : Contact) (q : Request) (paid : Bool) where
  after : Option Registration → Db
  after x = (commit_response now d o c q (kept_guests q) paid x).1

  after_new :
      (occ contact : ℕ)
      → count_if (answers occ contact) (after none).registrations
        ≡ count_if (answers occ contact) d.registrations
          + (if o.id == occ && c.id == contact then 1 else 0)
  unfolding after commit_response store_registration count_if
  after_new occ contact = rw (count_if-append (answers occ contact)) (omega arith)

  after_known :
      (r : Registration) (occ contact : ℕ)
      → count_if (answers occ contact) (after (some r)).registrations
        ≡ count_if (answers occ contact) d.registrations
  unfolding after commit_response store_registration
  after_known r occ contact =
      count_if-update (answers occ contact) (answers occ contact) (λ x. x.id == r.id)
        (respond_again now q (payment_status_for paid q.response)) d.registrations
        (λ x. ground arith)

  after-fresh :
      (x : Option Registration)
      → All (λ r. r.id < d.next_id) d.registrations
      → All (λ r. r.id < (after x).next_id) (after x).registrations
  unfolding after commit_response store_registration
  after-fresh none h =
      All-append _ d.registrations _ (All-mono _ _ d.registrations (λ r b. omega arith) h)
        (omega arith, tt)
  after-fresh (some r) h =
      All-update _ (λ x. x.id == r.id) (respond_again now q (payment_status_for paid q.response))
        d.registrations (λ x b. b) (All-mono _ _ d.registrations (λ x b. omega arith) h)

  after-IsConsistent : IsConsistent d → IsConsistent (after (registration_of d o.id c.id))
  unfolding registration_of
  after-IsConsistent v = elim (Option-cases (registration_of d o.id c.id)) [
    | inl e ↦ rw e (record {
      fresh = after-fresh none v.fresh;
      unique = λ occ contact. ground (
        arith,
        after_new occ contact,
        v.unique occ contact,
        count_if-find (answers o.id c.id) d.registrations e,
      );
    })
    | inr (r, e) ↦ rw e (record {
      fresh = after-fresh (some r) v.fresh;
      unique = λ occ contact. omega (arith, after_known r occ contact, v.unique occ contact);
    })
  ]

-- If the registrations' ids are below the next one and each contact has at most one registration
-- for an occurrence, then this is so again after a response that is saved.
pub save_response-IsConsistent :
    (now k : ℕ) (c : Contact) (q : Request) (d d' : Db) (r : Registration) (h : History)
    → IsConsistent d
    → save_response now k c q d ≡ ok ((r, h), d')
    → IsConsistent d'
unfolding after
save_response-IsConsistent now k c q d d' r h v s =
    let (o, e, f, g, a) = save_response-Accepted now k c q d _ s in
    subst (λ t. IsConsistent t.1) (sym a.written)
      (after-IsConsistent now d o c q (is_paid_event d o.id) v)

-- What a saved response makes of the payment of its registration.
pub record Awaiting (d d' : Db) (o : Occurrence) (c : Contact) (x : Response) (r : Registration)
    : Type 0 where
  pub stored : registration_of d' o.id c.id ≡ some r
  pub responds : r.response ≡ x
  pub pending : (r.payment_status ≡ PaymentStatus.pending) ↔ (
      (any (λ (t : TicketType). t.occurrence_id == o.id && t.is_active) d.ticket_types ≡ true)
      × (x ≡ Response.going))
  pub free :
      (r.payment_status ≡ PaymentStatus.pending) ⊎ (r.payment_status ≡ PaymentStatus.not_required)

pending_if :
    (paid : Bool) (x : Response)
    → (payment_status_for paid x ≡ PaymentStatus.pending) ↔ ((paid ≡ true) × (x ≡ Response.going))
unfolding payment_status_for
pending_if true Response.going = ((λ e. (refl, refl)), (λ e. refl))
pending_if true Response.maybe = ((λ e. cc), (λ e. cc))
pending_if true Response.not_going = ((λ e. cc), (λ e. cc))
pending_if false x = ((λ e. cc), (λ e. cc))

pending_or_free :
    (paid : Bool) (x : Response)
    → (payment_status_for paid x ≡ PaymentStatus.pending)
      ⊎ (payment_status_for paid x ≡ PaymentStatus.not_required)
unfolding payment_status_for
pending_or_free paid x = elim (Bool-cases (paid && is_going x)) [
  | inl t ↦ inl (rw t refl)
  | inr t ↦ inr (rw t refl)
]

store_registration-Awaiting :
    (now : ℕ) (d : Db) (o : Occurrence) (c : Contact) (q : Request) (paid : Bool)
    (found : Option Registration)
    → registration_of d o.id c.id ≡ found
    → let t = store_registration now d o c q paid found in
      (find (answers o.id c.id) t.1 ≡ some t.0)
      × (t.0.response ≡ q.response)
      × (t.0.payment_status ≡ payment_status_for paid q.response)
unfolding store_registration registration_of
store_registration-Awaiting now d o c q paid none e = (
  find_end (answers o.id c.id) _ d.registrations e (rw (==_refl o.id, ==_refl c.id) refl),
  refl,
  refl,
)
store_registration-Awaiting now d o c q paid (some r) e = (
  find-update (answers o.id c.id) _ (respond_again now q (payment_status_for paid q.response)) r
      d.registrations (λ y. refl) e (==_refl r.id),
  refl,
  refl,
)

-- The registration that a response is saved in is the one that is found for the contact and the
-- occurrence afterwards, and has the response. Its payment is pending exactly when the occurrence has
-- an active ticket type and the response is going, and not required otherwise, whatever had been paid
-- before.
pub save_response-payment_status :
    (now k : ℕ) (c : Contact) (q : Request) (d d' : Db) (r : Registration) (h : History)
    (o : Occurrence)
    → find (λ x. x.id == k) d.occurrences ≡ some o
    → save_response now k c q d ≡ ok ((r, h), d')
    → Awaiting d d' o c q.response r
unfolding commit_response registration_of is_paid_event
save_response-payment_status now k c q d d' r h o f s =
    let (e, g, a) = Accepted-at now k c q d _ o f s in
    let paid = is_paid_event d o.id in
    let t = store_registration-Awaiting now d o c q paid (registration_of d o.id c.id) refl in
    subst (λ (y : (Registration × History) × Db). Awaiting d y.1 o c q.response y.0.0)
      (sym a.written)
      (record {
        stored = t.0;
        responds = t.1;
        pending = rw t.2 (pending_if paid q.response);
        free = rw t.2 (pending_or_free paid q.response);
      })
