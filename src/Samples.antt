-- ===== src/Samples.antt =====
-- Sample rows for the examples: one occurrence with three places, one contact, and a response.
use event_management.Base.{true, none, some, [], ◌∷◌}
use event_management.Schema.{Db}
use event_management.Schema.Events.{
  Event, EventStatus, Visibility, Occurrence, OccurrenceStatus, Response, Source, PaymentStatus,
  Registration, Participant, ParticipantStatus, History, Contact,
}
use event_management.Schema.Payments.{
  AccountStatus, ConnectedAccount, TicketType, Order, OrderStatus, OrderLine, Refund, RefundStatus,
}

abbrev pub event : Event
event = record {
  id = 1;
  site_id = 7;
  slug = 103 ∷ [];
  visibility = Visibility.public;
  status = EventStatus.published;
  max_guests = 2;
}

abbrev pub occurrence : Occurrence
occurrence = record {
  id = 2;
  site_id = 7;
  event_id = 1;
  starts_at = 5000;
  ends_at = 6000;
  capacity = some 3;
  status = OccurrenceStatus.scheduled;
}

abbrev pub contact : Contact
contact = record {
  id = 3;
  site_id = 7;
  first_name = 65 ∷ [];
  last_name = 66 ∷ [];
  email = 97 ∷ [];
  normalized_email = 97 ∷ [];
  phone = [];
  archived_at = none;
}

abbrev pub registration : Registration
registration = record {
  id = 4;
  site_id = 7;
  occurrence_id = 2;
  contact_id = 3;
  invitation_id = none;
  response = Response.going;
  source = Source.public;
  payment_status = PaymentStatus.pending;
  responded_at = 50;
}

abbrev pub participant : Participant
participant = record {
  id = 5;
  site_id = 7;
  registration_id = 4;
  first_name = 65 ∷ [];
  last_name = 66 ∷ [];
  email = 97 ∷ [];
  phone = [];
  is_primary = true;
  status = ParticipantStatus.active;
}

abbrev pub empty : Db
empty = record {
  next_id = 10;
  events = event ∷ [];
  occurrences = occurrence ∷ [];
  contacts = contact ∷ [];
  invitations = [];
  registrations = [];
  participants = [];
  histories = [];
  accounts = [];
  ticket_types = [];
  orders = [];
  lines = [];
  holds = [];
  tickets = [];
  refunds = [];
  disputes = [];
  transitions = [];
  attendance = [];
  attendance_records = [];
  members = [];
  member_subscriptions = [];
  membership_payments = [];
}

abbrev pub history : History
history = record {
  id = 6;
  site_id = 7;
  registration_id = 4;
  previous_response = none;
  new_response = Response.going;
  guest_count = 0;
  participant_names = [];
  source = Source.public;
  changed_by = none;
}

abbrev pub account : ConnectedAccount
account = record {
  id = 8;
  site_id = 7;
  stripe_account_id = 70;
  status = AccountStatus.ready;
  country = 0;
  charges_enabled = true;
  payouts_enabled = true;
  details_submitted = true;
  requirements_due = [];
  last_synced_at = none;
  disconnected_at = none;
  sync_failure_count = 0;
  permanent_sync_failure_count = 0;
  last_sync_attempted_at = none;
  last_sync_error = 0;
}

abbrev pub ticket_type : TicketType
ticket_type = record {
  id = 9;
  site_id = 7;
  occurrence_id = 2;
  amount_cents = 1000;
  quantity = 2;
  max_per_order = 10;
  sales_start_at = none;
  sales_end_at = none;
  is_active = true;
}

-- A registration awaits payment.
abbrev pub selling : Db
selling = record empty {
  registrations = registration ∷ [];
  participants = participant ∷ [];
  accounts = account ∷ [];
  ticket_types = ticket_type ∷ [];
}

abbrev pub order : Order
order = record {
  id = 6;
  site_id = 7;
  occurrence_id = 2;
  registration_id = 4;
  purchaser_id = 3;
  connected_account_id = 70;
  subtotal_cents = 1000;
  total_cents = 1000;
  refunded_cents = 0;
  application_fee_bps = 250;
  application_fee_cents = 25;
  application_fee_refunded_cents = 0;
  status = OrderStatus.paid;
  stripe_checkout_session_id = 0;
  stripe_payment_intent_id = 0;
  stripe_charge_id = 0;
  stripe_balance_transaction_id = 0;
  stripe_fee_cents = none;
  stripe_net_cents = none;
  checkout_expires_at = none;
  paid_at = some 60;
}

abbrev pub line : OrderLine
line = record {
  id = 1;
  order_id = 6;
  ticket_type_id = 9;
  unit_amount_cents = 1000;
  quantity = 1;
  line_total_cents = 1000;
}

abbrev pub refund : Refund
refund = record {
  id = 3;
  site_id = 7;
  order_id = 6;
  amount_cents = 400;
  status = RefundStatus.pending;
  stripe_refund_id = 0;
  created_by = none;
  succeeded_at = none;
  failure_reason = 0;
}

-- An order that is paid, with a refund on its way.
abbrev pub paid_up : Db
paid_up = record selling { orders = order ∷ []; lines = line ∷ []; refunds = refund ∷ [] }

-- An order at the checkout.
abbrev pub at_checkout : Db
at_checkout = record selling {
  orders = record order { status = OrderStatus.pending } ∷ [];
  lines = line ∷ [];
}
