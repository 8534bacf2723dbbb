-- ===== src/Orders/Order/Events.antt =====
-- apps/orders/src/domain/order-events.ts: the payloads of the facts of the Orders service.
use order_to_cash_nestjs.Base.{ℕ, List, Option}
use order_to_cash_nestjs.Base.Int.{ℤ}
use order_to_cash_nestjs.Base.Text.{Text}
use order_to_cash_nestjs.Orders.Status.{CancellationReason}

pub record LinePayload : Type 0 where
  pub product_code : Text
  pub description : Text
  pub quantity : ℕ
  pub unit_price : ℤ
  pub line_discount : ℤ

pub record PlacedPayload : Type 0 where
  pub order_reference : Text
  pub retailer_code : Text
  pub company_code : Text
  pub buyer_gln : Text
  pub supplier_gln : Text
  pub currency : Text
  pub order_date : ℕ
  pub lines : List LinePayload
  pub initial_amount : ℤ
  pub initial_discount : ℤ
  pub total_amount : ℤ
  pub notes : Option Text

-- The payloads of `order.confirmed.v1` and `order.completed.v1`.
pub record ClosingPayload : Type 0 where
  pub order_reference : Text
  pub retailer_code : Text
  pub company_code : Text
  pub currency : Text
  pub total_amount : ℤ
  pub closed_at : ℕ

-- `CompensationStep`, without its summary for readers.
pub record CompensationStep : Type 0 where
  pub step : Text
  pub event_id : Option Text
  pub event_type : Text
  pub occurred_at : ℕ

pub record CancelledPayload : Type 0 where
  pub order_reference : Text
  pub retailer_code : Text
  pub company_code : Text
  pub cancellation_reason : CancellationReason
  pub cancelled_at : ℕ
  pub compensation_steps : List CompensationStep

-- `SagaFailureInput`
pub record SagaFailure : Type 0 where
  pub command : Text
  pub attempts : ℕ
  pub last_error : Text

pub data OrderPayload : Type 0 where
  order_placed : PlacedPayload → OrderPayload
  order_confirmed : ClosingPayload → OrderPayload
  order_completed : ClosingPayload → OrderPayload
  order_cancelled : CancelledPayload → OrderPayload
  order_saga_failed : Text → SagaFailure → ℕ → OrderPayload
