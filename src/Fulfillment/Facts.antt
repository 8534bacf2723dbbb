-- ===== src/Fulfillment/Facts.antt =====
-- apps/fulfillment/src/domain/stock-events.ts: the order-scoped facts of the Fulfillment service.
use order_to_cash_nestjs.Base.{ℕ, List, Option}
use order_to_cash_nestjs.Base.Int.{ℤ}
use order_to_cash_nestjs.Base.Text.{Text}

pub record ReservationRef : Type 0 where
  pub reservation_id : Text
  pub product_code : Text
  pub units : ℕ

pub record Shortage : Type 0 where
  pub product_code : Text
  pub requested : ℕ
  pub available : ℤ

pub data RejectReason : Type 0 where
  insufficient unknown_product : RejectReason

-- `StockReleasedPayload.reason`
pub data StockReleaseReason : Type 0 where
  credit_was_rejected order_was_cancelled : StockReleaseReason

-- The payloads, after the fields that all three share: order reference, company, retailer.
pub data StockPayload : Type 0 where
  stock_was_reserved : Text → Text → Option Text → List ReservationRef → StockPayload
  stock_was_rejected : Text → Text → Option Text → List Shortage → RejectReason → StockPayload
  stock_was_released :
      Text → Text → Option Text → List ReservationRef → StockReleaseReason → StockPayload
