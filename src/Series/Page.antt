-- ===== src/Series/Page.antt =====
-- events/services.py: `public_occurrence_url`, and events/views.py: the page of an
-- occurrence, `occurrence_detail`, as far as it answers 404.
use event_management.Base.{
  ℕ, Bool, true, false, ◌&&◌, ◌||◌, not, Option, none, some, ◌≡◌, refl, ◌==◌, ==_refl,
  if◌then◌else◌, is_some, find, Text, text_eq, text_eq_refl, Bool-cases, inl, inr,
}
use event_management.Schema.{Db}
use event_management.Subscriptions.Model.{SiteStatus}
use event_management.Lifecycle.Model.{accepts_public_traffic}
use event_management.Schema.Events.{Event, EventStatus, Visibility, Occurrence, OccurrenceStatus}

abbrev pub is_published : EventStatus → Bool
is_published EventStatus.published = true
is_published _ = false

abbrev pub is_shown : Visibility → Bool
is_shown Visibility.public = true
is_shown Visibility.unlisted = true
is_shown _ = false

abbrev pub is_scheduled : OccurrenceStatus → Bool
is_scheduled OccurrenceStatus.scheduled = true
is_scheduled _ = false

abbrev pub event_of : Occurrence → Db → Option Event
event_of o d = find (λ (e : Event). e.id == o.event_id) d.events

-- The address of an occurrence's page is made of the event's slug and the occurrence's id.
unfoldable pub public_occurrence_url : Event → Occurrence → Option (Text × ℕ)
public_occurrence_url e o =
    if not (is_published e.status) || not (is_shown e.visibility) || not (is_scheduled o.status)
    then none
    else some (e.slug, o.id)

-- The filters of the page on an occurrence and its event.
unfoldable pub page_shows : ℕ → Text → Event → Occurrence → Bool
page_shows site_id slug e o =
    o.site_id == site_id
    && text_eq e.slug slug
    && is_published e.status
    && is_shown e.visibility
    && is_scheduled o.status

abbrev pub shown_if : Option Event → ℕ → Text → Occurrence → Option Occurrence
shown_if none site_id slug o = none
shown_if (some e) site_id slug o = if page_shows site_id slug e o then some o else none

abbrev pub shown_row : ℕ → Text → Db → Option Occurrence → Option Occurrence
shown_row site_id slug d none = none
shown_row site_id slug d (some o) = shown_if (event_of o d) site_id slug o

-- The site that the host of a request names.
pub record RequestSite : Type 0 where
  pub id : ℕ
  pub status : SiteStatus
  pub is_published : Bool

-- `_public_site`; `none` is the answer 404.
unfoldable pub public_site : Option RequestSite → Option RequestSite
unfolding accepts_public_traffic
public_site none = none
public_site (some s) =
    if not (accepts_public_traffic s.status) || not s.is_published then none else some s

unfoldable pub detail_of : Option RequestSite → Db → Text × ℕ → Option Occurrence
unfolding page_shows
detail_of none d address = none
detail_of (some s) d (slug, id) =
    shown_row s.id slug d (find (λ (o : Occurrence). o.id == id) d.occurrences)

-- The occurrence of the page at an address; `none` is the answer 404.
unfoldable pub occurrence_detail : Option RequestSite → Db → Text × ℕ → Option Occurrence
unfolding public_site detail_of
occurrence_detail site d address = detail_of (public_site site) d address

-- The two ways to put the three tests together.
same_guards :
    (published shown scheduled : Bool) (link : Text × ℕ) (o : Occurrence)
    → (if published && shown && scheduled then some o else none) ≡ (
        if is_some (if not published || not shown || not scheduled then none else some link)
        then some o
        else none)
same_guards true true true link o = refl
same_guards true true false link o = refl
same_guards true false _ link o = refl
same_guards false _ _ link o = refl

detail-public_occurrence_url :
    (d : Db) (s : RequestSite) (o : Occurrence) (e : Event)
    → s.id ≡ o.site_id
    → find (λ (x : Occurrence). x.id == o.id) d.occurrences ≡ some o
    → event_of o d ≡ some e
    → detail_of (some s) d (e.slug, o.id)
      ≡ (if is_some (public_occurrence_url e o) then some o else none)
unfolding detail_of public_occurrence_url page_shows
detail-public_occurrence_url d s o e same f g =
    rw (f, g, same, text_eq_refl e.slug, ==_refl o.site_id)
      (same_guards (is_published e.status) (is_shown e.visibility) (is_scheduled o.status)
        (e.slug, o.id) o)

-- For an occurrence of the table and its event, on a request to the occurrence's site: if the site
-- takes public traffic and is published, the page at the address that the event and the occurrence
-- determine shows the occurrence if the link to it is given, and answers 404 if it is not. If the
-- site does not, or is not published, the page answers 404, whether the link is given or not.
pub occurrence_detail-public_occurrence_url :
    (d : Db) (s : RequestSite) (o : Occurrence) (e : Event)
    → s.id ≡ o.site_id
    → find (λ (x : Occurrence). x.id == o.id) d.occurrences ≡ some o
    → event_of o d ≡ some e
    → occurrence_detail (some s) d (e.slug, o.id) ≡ (
        if accepts_public_traffic s.status && s.is_published && is_some (public_occurrence_url e o)
        then some o
        else none)
unfolding occurrence_detail public_site detail_of
occurrence_detail-public_occurrence_url d s o e same f g =
    elim (Bool-cases (accepts_public_traffic s.status)) [
      | inr t ↦ rw t refl
      | inl t ↦ elim (Bool-cases s.is_published) [
        | inr u ↦ rw (t, u) refl
        | inl u ↦ rw (t, u) (detail-public_occurrence_url d s o e same f g)
      ]
    ]
