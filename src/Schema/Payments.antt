-- ===== src/Schema/Payments.antt =====
-- payments/models.py: the choices of each status column, and the rows. An identifier that Stripe
-- hands out is a number, 0 for the blank string; amounts are whole cents.
use event_management.Base.{ℕ, Bool, true, false, Option, List}

-- An integer column that may be negative: `negsuc n` is -(n + 1).
pub data ℤ : Type 0 where
  pos : ℕ → ℤ
  negsuc : ℕ → ℤ

pub data AccountStatus : Type 0 where
  not_started pending ready restricted disconnected : AccountStatus

pub record ConnectedAccount : Type 0 where
  pub id : ℕ
  pub site_id : ℕ
  pub stripe_account_id : ℕ
  pub status : AccountStatus
  pub country : ℕ
  pub charges_enabled : Bool
  pub payouts_enabled : Bool
  pub details_submitted : Bool
  pub requirements_due : List ℕ
  pub last_synced_at : Option ℕ
  pub disconnected_at : Option ℕ
  pub sync_failure_count : ℕ
  pub permanent_sync_failure_count : ℕ
  pub last_sync_attempted_at : Option ℕ
  pub last_sync_error : ℕ

pub record TicketType : Type 0 where
  pub id : ℕ
  pub site_id : ℕ
  pub occurrence_id : ℕ
  pub amount_cents : ℕ
  pub quantity : ℕ
  pub max_per_order : ℕ
  pub sales_start_at : Option ℕ
  pub sales_end_at : Option ℕ
  pub is_active : Bool

pub data OrderStatus : Type 0 where
  pending paid failed expired partially_refunded refunded disputed : OrderStatus

pub record Order : Type 0 where
  pub id : ℕ
  pub site_id : ℕ
  pub occurrence_id : ℕ
  pub registration_id : ℕ
  pub purchaser_id : ℕ
  pub connected_account_id : ℕ
  pub subtotal_cents : ℕ
  pub total_cents : ℕ
  pub refunded_cents : ℕ
  pub application_fee_bps : ℕ
  pub application_fee_cents : ℕ
  pub application_fee_refunded_cents : ℕ
  pub status : OrderStatus
  pub stripe_checkout_session_id : ℕ
  pub stripe_payment_intent_id : ℕ
  pub stripe_charge_id : ℕ
  pub stripe_balance_transaction_id : ℕ
  pub stripe_fee_cents : Option ℕ
  pub stripe_net_cents : Option ℤ
  pub checkout_expires_at : Option ℕ
  pub paid_at : Option ℕ

pub record OrderLine : Type 0 where
  pub id : ℕ
  pub order_id : ℕ
  pub ticket_type_id : ℕ
  pub unit_amount_cents : ℕ
  pub quantity : ℕ
  pub line_total_cents : ℕ

pub data HoldStatus : Type 0 where
  held converted released : HoldStatus

-- `InventoryHold`
pub record Hold : Type 0 where
  pub id : ℕ
  pub site_id : ℕ
  pub ticket_type_id : ℕ
  pub order_id : ℕ
  pub quantity : ℕ
  pub status : HoldStatus
  pub expires_at : ℕ

pub data TicketStatus : Type 0 where
  valid refunded void : TicketStatus

pub record Ticket : Type 0 where
  pub id : ℕ
  pub site_id : ℕ
  pub order_line_id : ℕ
  pub participant_id : ℕ
  pub display_code : ℕ
  pub status : TicketStatus

pub data RefundStatus : Type 0 where
  pending succeeded failed canceled : RefundStatus

pub record Refund : Type 0 where
  pub id : ℕ
  pub site_id : ℕ
  pub order_id : ℕ
  pub amount_cents : ℕ
  pub status : RefundStatus
  pub stripe_refund_id : ℕ
  pub created_by : Option ℕ
  pub succeeded_at : Option ℕ
  pub failure_reason : ℕ

pub data DisputeStatus : Type 0 where
  won warning_closed other_status : DisputeStatus

pub record Dispute : Type 0 where
  pub id : ℕ
  pub site_id : ℕ
  pub order_id : ℕ
  pub stripe_dispute_id : ℕ
  pub amount_cents : ℕ
  pub status : DisputeStatus
  pub due_by : Option ℕ

-- The two status columns of a transition hold an order's status, a refund's, or nothing.
pub data RecordedStatus : Type 0 where
  blank : RecordedStatus
  of_order : OrderStatus → RecordedStatus
  of_refund : RefundStatus → RecordedStatus

-- `FinancialTransition`
pub record Transition : Type 0 where
  pub id : ℕ
  pub site_id : ℕ
  pub order_id : ℕ
  pub refund_id : Option ℕ
  pub previous_status : RecordedStatus
  pub new_status : RecordedStatus
  pub stripe_event_id : ℕ

abbrev pub is_pending : OrderStatus → Bool
is_pending pending = true
is_pending _ = false

-- `status__in=(PAID, PARTIALLY_REFUNDED, REFUNDED, DISPUTED)`
abbrev pub is_sold : OrderStatus → Bool
is_sold paid = true
is_sold partially_refunded = true
is_sold refunded = true
is_sold disputed = true
is_sold _ = false

-- `status in (PAID, PARTIALLY_REFUNDED, DISPUTED)`
abbrev pub is_refundable : OrderStatus → Bool
is_refundable paid = true
is_refundable partially_refunded = true
is_refundable disputed = true
is_refundable _ = false

abbrev pub is_held : HoldStatus → Bool
is_held held = true
is_held _ = false

abbrev pub has_succeeded : RefundStatus → Bool
has_succeeded succeeded = true
has_succeeded _ = false

abbrev pub same_refund_status : RefundStatus → RefundStatus → Bool
same_refund_status pending pending = true
same_refund_status succeeded succeeded = true
same_refund_status failed failed = true
same_refund_status canceled canceled = true
same_refund_status _ _ = false
