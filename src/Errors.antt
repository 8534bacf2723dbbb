-- ===== src/Errors.antt =====
-- The domain errors that the modelled code throws, one constructor for each error class that
-- extends `DomainError` (packages/shared-kernel/src/domain/domain-error.ts), with the fields the
-- class keeps. The message texts are left out.
use order_to_cash_nestjs.Base.{ℕ, Option}
use order_to_cash_nestjs.Base.Int.{ℤ}
use order_to_cash_nestjs.Base.Text.{Text}
use order_to_cash_nestjs.Orders.Status.{OrderStatus, CancellationReason}
use order_to_cash_nestjs.Fulfillment.Status.{ReservationStatus}

-- `ReservationTerminalError.attempted`.
pub data Attempt : Type 0 where
  to_release to_consume : Attempt

-- `plain_error` is an `Error` that is no `DomainError`; so are the two after it, the Projector's
-- `UnknownEventTypeForRankError` and `UnknownFactTypeError`.
pub data DomainError : Type 0 where
  invalid_money_amount : ℤ → DomainError
  invalid_currency_code : Text → DomainError
  currency_mismatch : Text → Text → DomainError
  invalid_quantity : ℤ → DomainError
  invalid_gln : Text → DomainError
  invalid_business_reference : Text → DomainError
  order_transition_not_allowed : Text → OrderStatus → OrderStatus → DomainError
  order_has_no_lines : Text → DomainError
  order_lines_frozen : Text → OrderStatus → DomainError
  order_total_negative : Option Text → ℤ → DomainError
  order_line_currency_mismatch : Text → Text → DomainError
  order_line_not_found : Text → Text → DomainError
  order_cancellation_reason_not_applicable : Text → OrderStatus → CancellationReason → DomainError
  order_snapshot_invalid : Text → DomainError
  plain_error invalid_unique_id : DomainError
  unknown_event_type_for_rank unknown_fact_type : Text → DomainError
  empty_despatch_lines : Text → DomainError
  insufficient_stock : Text → ℕ → ℤ → DomainError
  reservation_terminal : Text → ReservationStatus → Attempt → DomainError
  invalid_stock_item_snapshot : Text → DomainError
  fact_aggregate_mismatch : Text → Text → DomainError
  credit_limit_exceeded : ℤ → ℤ → DomainError
  credit_refusal_mismatch : DomainError
  credit_release_underflow : Text → ℤ → DomainError
  no_active_hold : Text → DomainError
  invalid_buyer_credit_snapshot : Text → DomainError
  empty_invoice_lines : Text → DomainError
  invoice_line_currency_mismatch : Text → Text → DomainError
  negative_invoice_total : ℤ → ℤ → DomainError
  invalid_invoice_snapshot : Text → DomainError
  invoice_already_paid : Text → DomainError
  invoice_payment_amount_mismatch : ℤ → ℤ → DomainError
  invoice_payment_currency_mismatch : Text → Text → DomainError
