-- ===== src/Orders/Order/Snapshot.antt =====
-- apps/orders/src/domain/order-snapshot.ts and `Order.reconstitute` of order.ts.
pub mod Accepted
use order_to_cash_nestjs.Errors.{order_snapshot_invalid, order_has_no_lines}
use order_to_cash_nestjs.Orders.Order.Line.{OrderLine}
use order_to_cash_nestjs.Orders.Order.Aggregate.{Order}
use order_to_cash_nestjs.Orders.Order.Totals.{OrderTotals, totals_for}
use order_to_cash_nestjs.Result.{Result, err, ◌>>◌, throw_if, ◌>>=◌, ok}
use order_to_cash_nestjs.Orders.Status.{
  OrderStatus, CancellationReason, order_status?, cancellation_reason?, status_eq, cancelled,
}
use order_to_cash_nestjs.Base.{Option, ℕ, List, some, [], none, is_empty, ◌&&◌, not, is_some}
use order_to_cash_nestjs.Base.Text.{Text}

-- `OrderSnapshot`: an order as stored, its status and reason still texts. It holds no totals.
pub record OrderSnapshot : Type 0 where
  pub id : Text
  pub order_reference : Text
  pub order_date : ℕ
  pub buyer_gln : Text
  pub retailer_code : Text
  pub supplier_gln : Text
  pub company_code : Text
  pub currency : Text
  pub lines : List OrderLine
  pub status : Text
  pub cancellation_reason : Option Text
  pub notes : Option Text

abbrev pub reason_of : Option Text → Option CancellationReason
reason_of none = none
reason_of (some value) = cancellation_reason? value

abbrev rebuilt : OrderSnapshot → OrderStatus → OrderTotals → Order
rebuilt snapshot status totals = record {
  id = snapshot.id;
  order_reference = snapshot.order_reference;
  order_date = snapshot.order_date;
  buyer_gln = snapshot.buyer_gln;
  retailer_code = snapshot.retailer_code;
  supplier_gln = snapshot.supplier_gln;
  company_code = snapshot.company_code;
  currency = snapshot.currency;
  lines = snapshot.lines;
  totals = totals;
  status = status;
  cancellation_reason = reason_of snapshot.cancellation_reason;
  notes = snapshot.notes;
  domain_events = [];
}

-- The checks and the construction after the status is known.
unfoldable pub reconstitute_as : OrderSnapshot → OrderStatus → Result Order
reconstitute_as snapshot status = do
  throw_if (is_empty snapshot.lines) (order_has_no_lines snapshot.id)
  throw_if (status_eq status cancelled && not (is_some (reason_of snapshot.cancellation_reason)))
      (order_snapshot_invalid snapshot.id)
  throw_if (not (status_eq status cancelled) && is_some snapshot.cancellation_reason)
      (order_snapshot_invalid snapshot.id)
  totals ← totals_for snapshot.id snapshot.currency snapshot.lines
  ok (rebuilt snapshot status totals)

unfoldable pub reconstitute : OrderSnapshot → Result Order
reconstitute snapshot = elim (order_status? snapshot.status) [
  | none ↦ err (order_snapshot_invalid snapshot.id)
  | some status ↦ reconstitute_as snapshot status
]
