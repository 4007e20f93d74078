-- ===== src/Schema/Events.antt =====
-- events/models.py and the contact row of contacts/models.py: the choices of each status column,
-- and the rows. A row of another table is named by its id, an instant by its number of seconds.
use event_management.Base.{ℕ, Bool, true, false, Option, List, Text}

pub data EventStatus : Type 0 where
  draft published canceled archived : EventStatus

pub data Visibility : Type 0 where
  public unlisted invite_only : Visibility

pub record Event : Type 0 where
  pub id : ℕ
  pub site_id : ℕ
  pub slug : Text
  pub visibility : Visibility
  pub status : EventStatus
  pub max_guests : ℕ

pub data OccurrenceStatus : Type 0 where
  scheduled canceled archived : OccurrenceStatus

pub record Occurrence : Type 0 where
  pub id : ℕ
  pub site_id : ℕ
  pub event_id : ℕ
  pub starts_at : ℕ
  pub ends_at : ℕ
  pub capacity : Option ℕ
  pub status : OccurrenceStatus

pub data InvitationStatus : Type 0 where
  pending responded revoked : InvitationStatus

pub record Invitation : Type 0 where
  pub id : ℕ
  pub site_id : ℕ
  pub occurrence_id : ℕ
  pub contact_id : ℕ
  pub token_hash : ℕ
  pub status : InvitationStatus
  pub sent_at : Option ℕ
  pub expires_at : ℕ
  pub created_by : Option ℕ

pub data Response : Type 0 where
  going maybe not_going : Response

pub data Source : Type 0 where
  public invitation manager : Source

pub data PaymentStatus : Type 0 where
  not_required pending paid refunded : PaymentStatus

pub record Registration : Type 0 where
  pub id : ℕ
  pub site_id : ℕ
  pub occurrence_id : ℕ
  pub contact_id : ℕ
  pub invitation_id : Option ℕ
  pub response : Response
  pub source : Source
  pub payment_status : PaymentStatus
  pub responded_at : ℕ

pub data ParticipantStatus : Type 0 where
  active canceled : ParticipantStatus

pub record Participant : Type 0 where
  pub id : ℕ
  pub site_id : ℕ
  pub registration_id : ℕ
  pub first_name : Text
  pub last_name : Text
  pub email : Text
  pub phone : Text
  pub is_primary : Bool
  pub status : ParticipantStatus

pub record History : Type 0 where
  pub id : ℕ
  pub site_id : ℕ
  pub registration_id : ℕ
  pub previous_response : Option Response
  pub new_response : Response
  pub guest_count : ℕ
  pub participant_names : List Text
  pub source : Source
  pub changed_by : Option ℕ

-- contacts/models.py
pub record Contact : Type 0 where
  pub id : ℕ
  pub site_id : ℕ
  pub first_name : Text
  pub last_name : Text
  pub email : Text
  pub normalized_email : Text
  pub phone : Text
  pub archived_at : Option ℕ

-- Tests on the choices, as the queries make them.
abbrev pub is_going : Response → Bool
is_going going = true
is_going _ = false

abbrev pub same_response : Response → Response → Bool
same_response going going = true
same_response maybe maybe = true
same_response not_going not_going = true
same_response _ _ = false

abbrev pub is_paid : PaymentStatus → Bool
is_paid paid = true
is_paid _ = false

abbrev pub awaits_payment : PaymentStatus → Bool
awaits_payment pending = true
awaits_payment _ = false

-- `payment_status__in=(NOT_REQUIRED, PAID)`
abbrev pub is_settled : PaymentStatus → Bool
is_settled not_required = true
is_settled paid = true
is_settled _ = false

abbrev pub is_active : ParticipantStatus → Bool
is_active active = true
is_active canceled = false
