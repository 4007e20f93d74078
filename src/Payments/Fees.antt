-- ===== src/Payments/Fees.antt =====
-- payments/fees.py: the platform's fee on a ticket order, and its share of a refund. Amounts are
-- whole cents; the amounts that the code passes come from positive integer columns.
pub mod Bounds
use event_management.Base.{ℕ, ◌+◌, ◌-◌, ◌*◌, ◌/◌, min, leb, if◌then◌else◌, ◌||◌}

unfoldable pub ticket_application_fee : ℕ → ℕ → ℕ
ticket_application_fee amount_cents basis_points =
    if leb amount_cents 1 || leb basis_points 0
    then 0
    else min (amount_cents - 1) ((amount_cents * basis_points + 5000) / 10000)

unfoldable pub proportional_fee_refund : ℕ → ℕ → ℕ → ℕ
proportional_fee_refund fee_cents refunded_cents total_cents =
    if leb fee_cents 0 || leb refunded_cents 0 || leb total_cents 0
    then 0
    else if leb total_cents refunded_cents
    then fee_cents
    else min fee_cents ((fee_cents * refunded_cents + total_cents / 2) / total_cents)
