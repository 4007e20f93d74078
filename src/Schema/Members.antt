-- ===== src/Schema/Members.antt =====
-- The members of a site in contacts/models.py, and the payments of their dues in payments/models.py.
use event_management.Base.{ℕ, Bool, true, false, Option}

pub record Member : Type 0 where
  pub id : ℕ
  pub site_id : ℕ
  pub contact_id : ℕ

-- `MemberSubscription.Status`
pub data MembershipStatus : Type 0 where
  incomplete trialing active past_due canceled expired : MembershipStatus

pub record MemberSubscription : Type 0 where
  pub id : ℕ
  pub site_id : ℕ
  pub member_id : ℕ
  pub plan_id : ℕ
  pub status : MembershipStatus
  pub connected_account_id : ℕ
  pub stripe_customer_id : ℕ
  pub stripe_subscription_id : ℕ
  pub stripe_checkout_session_id : ℕ
  pub current_period_starts_at : Option ℕ
  pub current_period_ends_at : Option ℕ
  pub cancel_at_period_end : Bool
  pub canceled_at : Option ℕ

-- `MembershipPayment`; `paid` says which of its two statuses it has.
pub record MembershipPayment : Type 0 where
  pub id : ℕ
  pub site_id : ℕ
  pub member_subscription_id : ℕ
  pub stripe_invoice_id : ℕ
  pub amount_due_cents : ℕ
  pub amount_paid_cents : ℕ
  pub paid : Bool
  pub paid_at : Option ℕ

-- `status__in=(CANCELED, EXPIRED)`
abbrev pub has_ended : MembershipStatus → Bool
has_ended canceled = true
has_ended expired = true
has_ended _ = false

abbrev pub is_incomplete : MembershipStatus → Bool
is_incomplete incomplete = true
is_incomplete _ = false
