-- ===== src/Orders/Order/Aggregate.antt =====
-- The state of the `Order` aggregate (apps/orders/src/domain/order.ts) and what its facts are built
-- from. A method that throws assigns nothing before it throws, so it is a function to the new order
-- or an error. The ids that the code draws are arguments.
use order_to_cash_nestjs.Base.{
  is_some, ℕ, false, ◌≡◌, List, [], ◌∷◌, ◌++◌, map, Option, is_empty, All,
}
use order_to_cash_nestjs.Base.Text.{Text}
use order_to_cash_nestjs.Errors.{plain_error}
use order_to_cash_nestjs.Result.{Result, ok, ◌>>◌, throw_if}
use order_to_cash_nestjs.Orders.Status.{OrderStatus, cancelled, CancellationReason, status_eq}
use order_to_cash_nestjs.Orders.Order.Line.{OrderLine}
use order_to_cash_nestjs.Orders.Order.Totals.{OrderTotals, compute_order_totals}
use order_to_cash_nestjs.Kernel.Envelope.{Envelope, Context}
use order_to_cash_nestjs.Orders.Order.Events.{
  LinePayload, ClosingPayload, CompensationStep, SagaFailure, OrderPayload, order_placed,
  order_confirmed, order_completed, order_cancelled, order_saga_failed,
}

-- `OrderProps`, with the aggregate's id and its uncommitted events (`AggregateRoot`).
pub record Order : Type 0 where
  pub id : Text
  pub order_reference : Text
  pub order_date : ℕ
  pub buyer_gln : Text
  pub retailer_code : Text
  pub supplier_gln : Text
  pub company_code : Text
  pub currency : Text
  pub lines : List OrderLine
  pub totals : OrderTotals
  pub status : OrderStatus
  pub cancellation_reason : Option CancellationReason
  pub notes : Option Text
  pub domain_events : List (Envelope OrderPayload)

unfoldable pub add_domain_event : Envelope OrderPayload → Order → Order
add_domain_event event order = record order { domain_events = order.domain_events ++ event ∷ [] }

-- `pullDomainEvents`
unfoldable pub pull_domain_events : Order → List (Envelope OrderPayload) × Order
pull_domain_events order = (order.domain_events, record order { domain_events = [] })

-- `createDomainEvent` with the order as aggregate and correlation.
abbrev pub envelope : Text → Order → Context → OrderPayload → Envelope OrderPayload
envelope event_id order ctx payload = record {
  event_id = event_id;
  aggregate_id = order.id;
  correlation_id = order.id;
  causation_id = ctx.causation_id;
  occurred_at = ctx.occurred_at;
  payload = payload;
}

abbrev line_payload : OrderLine → LinePayload
line_payload line = record {
  product_code = line.product_code;
  description = line.description;
  quantity = line.quantity;
  unit_price = line.unit_price.amount;
  line_discount = line.line_discount.amount;
}

unfoldable pub order_placed_event : Text → Order → Context → Result (Envelope OrderPayload)
order_placed_event event_id order ctx = do
  throw_if (is_empty order.lines) plain_error
  ok (
      envelope event_id order ctx (
        order_placed (record {
          order_reference = order.order_reference;
          retailer_code = order.retailer_code;
          company_code = order.company_code;
          buyer_gln = order.buyer_gln;
          supplier_gln = order.supplier_gln;
          currency = order.currency;
          order_date = order.order_date;
          lines = map line_payload order.lines;
          initial_amount = order.totals.initial_amount.amount;
          initial_discount = order.totals.initial_discount.amount;
          total_amount = order.totals.total_amount.amount;
          notes = order.notes;
        })))

abbrev closing : Order → Context → ClosingPayload
closing order ctx = record {
  order_reference = order.order_reference;
  retailer_code = order.retailer_code;
  company_code = order.company_code;
  currency = order.currency;
  total_amount = order.totals.total_amount.amount;
  closed_at = ctx.occurred_at;
}

unfoldable pub order_confirmed_event : Text → Order → Context → Envelope OrderPayload
order_confirmed_event event_id order ctx =
    envelope event_id order ctx (order_confirmed (closing order ctx))

unfoldable pub order_completed_event : Text → Order → Context → Envelope OrderPayload
order_completed_event event_id order ctx =
    envelope event_id order ctx (order_completed (closing order ctx))

unfoldable pub order_cancelled_event :
    CancellationReason → List CompensationStep → Text → Order → Context → Envelope OrderPayload
order_cancelled_event reason steps event_id order ctx = envelope event_id order ctx (
    order_cancelled (record {
      order_reference = order.order_reference;
      retailer_code = order.retailer_code;
      company_code = order.company_code;
      cancellation_reason = reason;
      cancelled_at = ctx.occurred_at;
      compensation_steps = steps;
    }))

unfoldable pub order_saga_failed_event :
    SagaFailure → Text → Order → Context → Envelope OrderPayload
order_saga_failed_event failure event_id order ctx =
    envelope event_id order ctx (order_saga_failed order.order_reference failure ctx.occurred_at)

abbrev pub LineHasCurrency : Text → OrderLine → Type 0
LineHasCurrency currency line =
    (line.unit_price.currency ≡ currency) × (line.line_discount.currency ≡ currency)

-- The invariant of an order: it has a line, every line is in its currency (O1, O2), its totals are
-- those of its lines and so not negative (O3), and it has a reason exactly when cancelled (O6).
pub record IsOrder (o : Order) : Type 0 where
  pub has_lines : is_empty o.lines ≡ false
  pub one_currency : All (LineHasCurrency o.currency) o.lines
  pub totals_derived : compute_order_totals o.currency o.lines ≡ ok o.totals
  pub reason_iff_cancelled : is_some o.cancellation_reason ≡ status_eq o.status cancelled
