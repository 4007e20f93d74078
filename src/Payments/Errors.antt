-- ===== src/Payments/Errors.antt =====
-- What the calls of payments/services.py raise: `CommerceUnavailable`, `InventoryUnavailable` and
-- `ValidationError` with their reasons, `DoesNotExist`, and `draws_exhausted` when the modelled
-- prefix of the random ticket codes has run out.
pub data Error : Type 0 where
  not_ready not_awaiting_payment no_participants : Error
  sales_closed over_order_limit sold_out : Error
  not_refundable amount_out_of_range account_mismatch : Error
  account_disconnected already_member integrity_error stripe_error : Error
  does_not_exist draws_exhausted : Error
