-- ===== src/Fulfillment/Despatch.antt =====
-- The despatch advice and the despatch of an order: apps/fulfillment/src/domain/despatch-advice.ts,
-- despatch-events.ts and order-despatch.ts. The call changes the items that it is handed, so it
-- returns the items after it; where it throws, what it did to the items is not stored. Instants are
-- milliseconds.
pub mod Once
use order_to_cash_nestjs.Errors.{empty_despatch_lines}
use order_to_cash_nestjs.Result.{Result, ◌>>◌, ok, ◌>>=◌, throw_if}
use order_to_cash_nestjs.Kernel.Envelope.{Context, Envelope}
use order_to_cash_nestjs.Base.{ℕ, List, [], ◌∷◌, if◌then◌else◌, is_empty, ◌++◌, map}
use order_to_cash_nestjs.Fulfillment.StockItem.{Reservation, StockItem, consume}
use order_to_cash_nestjs.Base.Text.{Text}

-- `DespatchLineEntry`, and `DespatchLine` of the payload.
pub record DespatchLine : Type 0 where
  pub product_code : Text
  pub units : ℕ

-- `OrderDespatchedPayload`
pub record OrderDespatchedPayload : Type 0 where
  pub order_reference : Text
  pub despatch_reference : Text
  pub despatch_date : ℕ
  pub company_code : Text
  pub retailer_code : Text
  pub lines : List DespatchLine

-- `DespatchAdviceProps` with the id and the uncommitted events.
pub record DespatchAdvice : Type 0 where
  pub id : Text
  pub despatch_reference : Text
  pub despatch_date : ℕ
  pub order_reference : Text
  pub company_code : Text
  pub retailer_code : Text
  pub lines : List DespatchLine
  pub domain_events : List (Envelope OrderDespatchedPayload)

pub record CreateDespatchInput : Type 0 where
  pub order_reference : Text
  pub company_code : Text
  pub retailer_code : Text
  pub correlation_id : Text

pub data CreateDespatchOutcome : Type 0 where
  created : DespatchAdvice → CreateDespatchOutcome
  no_reservations : CreateDespatchOutcome

-- `orderDespatchedEvent`
abbrev pub order_despatched_event :
    Text → Text → Context → DespatchAdvice → Envelope OrderDespatchedPayload
order_despatched_event event_id correlation_id ctx despatch = record {
  event_id = event_id;
  aggregate_id = despatch.id;
  correlation_id = correlation_id;
  causation_id = ctx.causation_id;
  occurred_at = ctx.occurred_at;
  payload = record {
    order_reference = despatch.order_reference;
    despatch_reference = despatch.despatch_reference;
    despatch_date = despatch.despatch_date;
    company_code = despatch.company_code;
    retailer_code = despatch.retailer_code;
    lines = despatch.lines;
  };
}

-- `DespatchAdvice.create`, for an advice without events.
unfoldable pub create_despatch : Text → Text → Context → DespatchAdvice → Result DespatchAdvice
create_despatch event_id correlation_id ctx advice = do
  throw_if (is_empty advice.lines) (empty_despatch_lines advice.order_reference)
  ok (record advice {
    domain_events = order_despatched_event event_id correlation_id ctx advice ∷ [];
  })

abbrev pub despatch_line : Reservation → DespatchLine
despatch_line r = record { product_code = r.product_code; units = r.units }

-- The loop over the items: the lines, and the items after it.
unfoldable pub consume_items :
    Text → List DespatchLine → List StockItem → Result (List DespatchLine × List StockItem)
consume_items order_reference lines [] = ok (lines, [])
consume_items order_reference lines (item ∷ items) = do
  consumed ← consume order_reference item
  rest ← consume_items order_reference (lines ++ map despatch_line consumed.0) items
  ok (rest.0, consumed.1 ∷ rest.1)

abbrev pub advice_for :
    Text → Text → CreateDespatchInput → Context → List DespatchLine → DespatchAdvice
advice_for id despatch_reference input ctx lines = record {
  id = id;
  despatch_reference = despatch_reference;
  despatch_date = ctx.occurred_at;
  order_reference = input.order_reference;
  company_code = input.company_code;
  retailer_code = input.retailer_code;
  lines = lines;
  domain_events = [];
}

-- What follows the loop: nothing was consumed, or there is an advice.
unfoldable pub despatch_consumed :
    Text
    → Text
    → Text
    → CreateDespatchInput
    → Context
    → List DespatchLine
    → List StockItem
    → Result (CreateDespatchOutcome × List StockItem)
unfolding create_despatch
despatch_consumed id event_id despatch_reference input ctx lines items =
    if is_empty lines then ok (no_reservations, items) else (do
      advice ←
          create_despatch event_id input.correlation_id ctx
            (advice_for id despatch_reference input ctx lines)
      ok (created advice, items))

-- `createDespatchForOrder`, with the ids that it and the event draw.
unfoldable pub create_despatch_for_order :
    Text
    → Text
    → Text
    → CreateDespatchInput
    → Context
    → List StockItem
    → Result (CreateDespatchOutcome × List StockItem)
unfolding consume_items despatch_consumed
create_despatch_for_order id event_id despatch_reference input ctx items = do
  consumed ← consume_items input.order_reference [] items
  despatch_consumed id event_id despatch_reference input ctx consumed.0 consumed.1
