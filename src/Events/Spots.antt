-- ===== src/Events/Spots.antt =====
-- events/registration.py: the spots of an occurrence that are taken.
use event_management.Base.{ℕ, Bool, false, ◌&&◌, not, Option, none, some, List, ◌==◌, any, count_if}
use event_management.Schema.{Db}
use event_management.Schema.Events.{Registration, Participant, is_going, is_settled, is_active}

-- The join of a participant with a registration that holds a spot at the occurrence.
unfoldable pub holds_spot : ℕ → ℕ → Registration → Bool
holds_spot occurrence_id registration_id r =
    r.id == registration_id
    && r.occurrence_id == occurrence_id
    && is_going r.response
    && is_settled r.payment_status

-- The query behind `active_others`, before the registration at hand is excluded.
unfoldable pub occupies : List Registration → ℕ → ℕ → Participant → Bool
unfolding holds_spot
occupies registrations site_id occurrence_id p =
    is_active p.status
    && p.site_id == site_id
    && any (holds_spot occurrence_id p.registration_id) registrations

-- `.exclude(registration=registration)`, when there is one
abbrev pub excluded : Option Registration → Participant → Bool
excluded none p = false
excluded (some r) p = p.registration_id == r.id

-- `active_others.count()`
unfoldable pub active_others : Db → ℕ → ℕ → Option Registration → ℕ
unfolding occupies
active_others d site_id occurrence_id registration =
    count_if
      (λ p. occupies d.registrations site_id occurrence_id p && not (excluded registration p))
      d.participants
