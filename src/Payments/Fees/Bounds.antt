-- ===== src/Payments/Fees/Bounds.antt =====
-- Bounds and rounding of payments/fees.py.
use event_management.Base.{ℕ, ◌+◌, ◌*◌, ◌/◌, ◌≤◌, ◌<◌, arith}
use native.Mathlib.Nat.{mul-div-le, lt-mul-div-succ}
use event_management.Payments.Fees.{ticket_application_fee, proportional_fee_refund}

mul_mono : (a b c : ℕ) → a ≤ b → a * c ≤ b * c
mul_mono a b c h = grind arith

div_mono : (a b t : ℕ) → a ≤ b → a / t ≤ b / t
div_mono a b t h = grind arith

-- The fee on a positive amount is less than the amount, so the seller is left something.
pub fee-lt-amount : (a bps : ℕ) → 0 < a → ticket_application_fee a bps < a
unfolding ticket_application_fee
fee-lt-amount a bps h = ground arith

-- A larger amount has no smaller fee.
pub fee_mono : (a b bps : ℕ) → a ≤ b → ticket_application_fee a bps ≤ ticket_application_fee b bps
unfolding ticket_application_fee
fee_mono a b bps h = ground (arith, mul_mono a b bps h)

-- No more of the fee is returned than was taken.
pub refund-le-fee : (fee r t : ℕ) → proportional_fee_refund fee r t ≤ fee
unfolding proportional_fee_refund
refund-le-fee fee r t = ground arith

-- The share of the fee that is returned grows with what has been refunded.
pub refund_mono :
    (fee r s t : ℕ) → r ≤ s → proportional_fee_refund fee r t ≤ proportional_fee_refund fee s t
unfolding proportional_fee_refund
refund_mono fee r s t h =
    ground (arith, mul_mono r s fee h, div_mono (fee * r + t / 2) (fee * s + t / 2) t)

-- `(n + t // 2) // t` is within half of the divisor of the exact quotient.
half_up :
    (n t : ℕ)
    → 0 < t
    → (2 * (t * ((n + t / 2) / t)) ≤ 2 * n + t) × (2 * n ≤ 2 * (t * ((n + t / 2) / t)) + t)
half_up n t h = omega (arith, mul-div-le (n + t / 2) t, lt-mul-div-succ (n + t / 2) h)

-- The returned share is the fee's exact proportion of the refund, up to half a cent; for a refund of
-- at most a positive total.
pub refund_rounded :
    (fee r t : ℕ)
    → r ≤ t
    → 0 < t
    → (2 * (t * proportional_fee_refund fee r t) ≤ 2 * (fee * r) + t)
      × (2 * (fee * r) ≤ 2 * (t * proportional_fee_refund fee r t) + t)
unfolding proportional_fee_refund
refund_rounded fee r t h g =
    ground
      (arith, half_up (fee * r) t g, mul_mono r t fee h, mul_mono fee ((fee * r + t / 2) / t) t)
