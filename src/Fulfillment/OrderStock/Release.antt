-- ===== src/Fulfillment/OrderStock/Release.antt =====
-- `releaseOrderStock` of apps/fulfillment/src/domain/order-stock-reservation.ts.
use order_to_cash_nestjs.Base.{List, [], ◌∷◌, ◌++◌, map, Option, none, some}
use order_to_cash_nestjs.Base.Text.{Text}
use order_to_cash_nestjs.Result.{Result, ok, ◌>>=◌}
use order_to_cash_nestjs.Kernel.Envelope.{Context}
use order_to_cash_nestjs.Fulfillment.Facts.{ReservationRef, StockReleaseReason, stock_was_released}
use order_to_cash_nestjs.Fulfillment.StockItem.{StockItem, Reservation, release}
use order_to_cash_nestjs.Fulfillment.OrderStock.{ref_of, stock_event, record_order_fact}

pub record ReleaseOrderInput : Type 0 where
  pub order_reference : Text
  pub company_code : Text
  pub reason : StockReleaseReason
  pub correlation_id : Text

pub data ReleaseOrderOutcome : Type 0 where
  order_released : List ReservationRef → StockItem → ReleaseOrderOutcome
  already_released : ReleaseOrderOutcome

-- The loop over the items: what was released on each, and each item after it.
unfoldable release_items : Text → List StockItem → Result (List (List Reservation × StockItem))
release_items order_reference [] = ok []
release_items order_reference (item ∷ items) = do
  done ← release order_reference item
  rest ← release_items order_reference items
  ok (done ∷ rest)

unfoldable released_refs : List (List Reservation × StockItem) → List ReservationRef
released_refs [] = []
released_refs (done ∷ rest) = map ref_of done.0 ++ released_refs rest

-- The first item with a released reservation says the fact, with that reservation's retailer; none
-- says it when nothing was released.
unfoldable tell_released :
    Text
    → ReleaseOrderInput
    → Context
    → List ReservationRef
    → List (List Reservation × StockItem)
    → Result (Option StockItem × List StockItem)
unfolding record_order_fact
tell_released event_id input ctx refs [] = ok (none, [])
tell_released event_id input ctx refs (([], item) ∷ rest) = do
  told ← tell_released event_id input ctx refs rest
  ok (told.0, item ∷ told.1)
tell_released event_id input ctx refs ((r ∷ rs, item) ∷ rest) = do
  carrier ←
      record_order_fact
        (stock_event event_id item input.correlation_id ctx (
          stock_was_released input.order_reference input.company_code (some r.retailer_code) refs
            input.reason))
        item
  ok (some carrier, carrier ∷ map (λ done. done.1) rest)

abbrev outcome_of : List ReservationRef → Option StockItem → ReleaseOrderOutcome
outcome_of refs none = already_released
outcome_of refs (some carrier) = order_released refs carrier

unfoldable release_order_stock :
    Text
    → ReleaseOrderInput
    → Context
    → List StockItem
    → Result (ReleaseOrderOutcome × List StockItem)
unfolding release_items tell_released
release_order_stock event_id input ctx items = do
  done ← release_items input.order_reference items
  told ← tell_released event_id input ctx (released_refs done) done
  ok (outcome_of (released_refs done) told.0, told.1)
