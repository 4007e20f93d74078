-- ===== src/Events/PublicResponse/Laws.antt =====
-- A response from a public page adds a registration and changes none.
use event_management.Base.{
  ℕ, ◌<◌, ◌≡◌, refl, sym, ap, subst, ==_iff, find-test, ◌∙◌, Option, none, some, [], ◌∷◌, ◌++◌, All,
  arith, ok, Text, >>=-eq-ok, ok_injective, find-none, All-mono,
}
use event_management.Schema.{Db}
use event_management.Schema.Events.{Registration, History, Contact}
use event_management.Events.Registration.Accepted.{save_response-Accepted}
use event_management.Events.Registration.{
  registration_of, registrations_added, commit_response, is_paid_event, kept_guests,
}
use event_management.Events.PublicResponse.{
  PublicRequest, known_contact, from_public, normalize_email, contact_of, public_contact,
  save_public_response,
}

-- No registration names a contact that is still to be made.
abbrev pub ContactsFresh : Db → Type 0
ContactsFresh d = All (λ r. r.contact_id < d.next_id) d.registrations

module _ (casefold : Text → Text) where
  -- The contact that responds has no registration at the occurrence, and the tables of
  -- registrations and occurrences are those of before.
  abbrev IsNew : ℕ → Db → Contact × Db → Type 0
  IsNew occ d t = (registration_of t.1 occ t.0.id ≡ none) × (t.1.registrations ≡ d.registrations)

  known_contact-IsNew :
      (occ : ℕ) (q : PublicRequest) (d : Db) (x : Contact) (o : Option Registration)
      (t : Contact × Db)
      → registration_of d occ x.id ≡ o
      → known_contact casefold q d x o ≡ ok t
      → IsNew occ d t
  unfolding known_contact registration_of
  known_contact-IsNew occ q d x none t e h = subst (IsNew occ d) (ok_injective h) (e, refl)
  known_contact-IsNew occ q d x (some r) t e h = cc

  public_contact-IsNew :
      (site occ : ℕ) (q : PublicRequest) (d : Db) (found : Option Contact) (t : Contact × Db)
      → ContactsFresh d
      → public_contact casefold site occ q d found ≡ ok t
      → IsNew occ d t
  unfolding public_contact registration_of
  public_contact-IsNew site occ q d none t fresh h =
      subst (IsNew occ d) (ok_injective h) (
        find-none _ d.registrations (All-mono _ _ d.registrations (λ r b. ground arith) fresh),
        refl,
      )
  public_contact-IsNew site occ q d (some x) t fresh h =
      known_contact-IsNew occ q d x (registration_of d occ x.id) t refl h

  -- A response from a public page that is saved adds its registration behind those of before,
  -- none of which it changes.
  pub save_public_response_adds :
      (now site k : ℕ) (q : PublicRequest) (d d' : Db) (r : Registration) (h : History)
      → ContactsFresh d
      → save_public_response casefold now site k q d ≡ ok ((r, h), d')
      → d'.registrations ≡ d.registrations ++ r ∷ []
  unfolding save_public_response
  save_public_response_adds now site k q d d' r h fresh s =
      let (cd, p, s1) =
        >>=-eq-ok
          (public_contact casefold site k q d
            (contact_of casefold d site (normalize_email casefold q.email)))
          _ s in
      let new =
        public_contact-IsNew site k q d
          (contact_of casefold d site (normalize_email casefold q.email)) cd fresh p in
      let (o, e, f, g, a) = save_response-Accepted now k cd.0 (from_public q) cd.1 _ s1 in
      let same : o.id ≡ k = (==_iff o.id k).0 (find-test _ cd.1.occurrences o f) in
      subst (λ t. t.1.registrations ≡ d.registrations ++ t.0.0 ∷ []) (sym a.written)
        (registrations_added now cd.1 o cd.0 (from_public q) (kept_guests (from_public q))
            (is_paid_event cd.1 o.id) (registration_of cd.1 o.id cd.0.id) (rw same new.0)
          ∙ ap
              (λ l.
                l
                ++ (commit_response now cd.1 o cd.0 (from_public q) (kept_guests (from_public q))
                    (is_paid_event cd.1 o.id) (registration_of cd.1 o.id cd.0.id)).0.0
                  ∷ [])
              new.1)
