-- ===== src/Fulfillment/OrderStock.antt =====
-- apps/fulfillment/src/domain/order-stock-reservation.ts: the reservation and the release of an
-- order over several stock items. The calls change the items that they are handed, so a call
-- returns the list of items after it. An item is found by its product code: of two items with one
-- code, the `Map` keeps the later.
pub mod Release
pub mod Lookup
pub mod Shortages
pub mod Booking
pub mod Loop
pub mod Telling
pub mod AllOrNothing
use order_to_cash_nestjs.Base.{
  ℕ, ◌+◌, Bool, true, false, not, List, [], ◌∷◌, ◌++◌, Option, none, some, is_empty, if◌then◌else◌,
  any,
}
use order_to_cash_nestjs.Base.Int.{pos, ltb_ℤ}
use order_to_cash_nestjs.Base.Text.{Text, ◌=t◌}
use order_to_cash_nestjs.Errors.{plain_error, fact_aggregate_mismatch}
use order_to_cash_nestjs.Result.{Result, ok, err, ◌>>=◌, ◌>>◌, throw_if}
use order_to_cash_nestjs.Kernel.Envelope.{Envelope, Context}
use order_to_cash_nestjs.Fulfillment.Facts.{
  ReservationRef, Shortage, RejectReason, insufficient, unknown_product, StockPayload,
  stock_was_reserved, stock_was_rejected,
}
use order_to_cash_nestjs.Fulfillment.StockItem.{
  StockItem, Reservation, ReserveInput, reserve, available_units,
}

pub record ReserveOrderLine : Type 0 where
  pub product_code : Text
  pub units : ℕ

pub record ReserveOrderInput : Type 0 where
  pub order_reference : Text
  pub company_code : Text
  pub retailer_code : Text
  pub lines : List ReserveOrderLine
  pub correlation_id : Text

-- The carrier of a rejection may be missing.
pub data ReserveOrderOutcome : Type 0 where
  order_reserved : List ReservationRef → StockItem → ReserveOrderOutcome
  order_rejected : List Shortage → RejectReason → Option StockItem → ReserveOrderOutcome

abbrev pub has_product : Text → List StockItem → Bool
has_product code items = any (λ i. i.product_code =t code) items

-- `byProduct.get`
unfoldable pub by_product : Text → List StockItem → Option StockItem
by_product code [] = none
by_product code (item ∷ items) =
    let later = by_product code items in
    if has_product code items then later else if item.product_code =t code then some item else none

-- The items after the one that `byProduct` finds has changed.
unfoldable pub set_product : Text → StockItem → List StockItem → List StockItem
set_product code changed [] = []
set_product code changed (item ∷ items) =
    let later = set_product code changed items in
    if has_product code items
    then item ∷ later
    else if item.product_code =t code
    then changed ∷ items
    else item ∷ items

-- `requestedTotalByProduct`, as the function that its `get` is.
unfoldable pub sum_requested : (Text → ℕ) → List ReserveOrderLine → Text → ℕ
sum_requested totals [] = totals
sum_requested totals (line ∷ lines) =
    sum_requested
      (λ code. if line.product_code =t code then totals code + line.units else totals code) lines

-- The variables of the first loop.
pub record Survey : Type 0 where
  pub shortages : List Shortage
  pub any_unknown : Bool
  pub first_known_item : Option StockItem

abbrev pub or_first : Option StockItem → StockItem → Option StockItem
or_first none item = some item
or_first (some first) item = some first

-- The body of the first loop, with what the lookup of its line found.
unfoldable pub survey_found : Option StockItem → (Text → ℕ) → ReserveOrderLine → Survey → Survey
survey_found none totals line s = record s {
  any_unknown = true;
  shortages =
      s.shortages
      ++ record { product_code = line.product_code; requested = line.units; available = pos 0 }
        ∷ [];
}
survey_found (some item) totals line s = record {
  any_unknown = s.any_unknown;
  first_known_item = or_first s.first_known_item item;
  shortages =
      if ltb_ℤ (available_units item) (pos (totals line.product_code))
      then s.shortages
        ++ record {
          product_code = line.product_code;
          requested = line.units;
          available = available_units item;
        }
          ∷ []
      else s.shortages;
}

unfoldable pub survey_line : List StockItem → (Text → ℕ) → ReserveOrderLine → Survey → Survey
unfolding survey_found
survey_line items totals line s = survey_found (by_product line.product_code items) totals line s

unfoldable pub survey : List StockItem → (Text → ℕ) → List ReserveOrderLine → Survey → Survey
survey items totals [] s = s
survey items totals (line ∷ lines) s = survey items totals lines (survey_line items totals line s)

-- `createDomainEvent` with the carrier as aggregate.
abbrev pub stock_event : Text → StockItem → Text → Context → StockPayload → Envelope StockPayload
stock_event event_id carrier correlation_id ctx payload = record {
  event_id = event_id;
  aggregate_id = carrier.id;
  correlation_id = correlation_id;
  causation_id = ctx.causation_id;
  occurred_at = ctx.occurred_at;
  payload = payload;
}

-- `StockItem.recordOrderFact`
unfoldable pub record_order_fact : Envelope StockPayload → StockItem → Result StockItem
record_order_fact event item = do
  throw_if (not (event.aggregate_id =t item.id))
      (fact_aggregate_mismatch item.id event.aggregate_id)
  ok (record item { domain_events = item.domain_events ++ event ∷ [] })

abbrev pub ref_of : Reservation → ReservationRef
ref_of r = record { reservation_id = r.id; product_code = r.product_code; units = r.units }

abbrev pub line_input : Text → ReserveOrderInput → ReserveOrderLine → ReserveInput
line_input id input line = record {
  reservation_id = id;
  order_reference = input.order_reference;
  retailer_code = input.retailer_code;
  units = line.units;
}

-- The second loop: one reservation for each line, `fresh k` the k-th id drawn. The lookup cannot
-- fail after the first loop; where it would, JavaScript throws a `TypeError`.
unfoldable pub reserve_lines :
    (ℕ → Text)
    → ℕ
    → ReserveOrderInput
    → List ReserveOrderLine
    → List ReservationRef
    → List StockItem
    → Result (List ReservationRef × List StockItem)
reserve_lines fresh k input [] refs items = ok (refs, items)
reserve_lines fresh k input (line ∷ lines) refs items = elim (by_product line.product_code items) [
  | none ↦ err plain_error
  | some item ↦ do
    done ← reserve (line_input (fresh k) input line) item
    reserve_lines fresh (k + 1) input lines (refs ++ ref_of done.0 ∷ [])
        (set_product line.product_code done.1 items)
]

-- The carrier says the fact: the carrier is what `byProduct` finds under its own code.
unfoldable pub say :
    Text
    → Text
    → Context
    → StockPayload
    → StockItem
    → List StockItem
    → Result (StockItem × List StockItem)
unfolding record_order_fact
say event_id correlation_id ctx payload first items = elim (by_product first.product_code items) [
  | none ↦ err plain_error
  | some carrier ↦ do
    told ← record_order_fact (stock_event event_id carrier correlation_id ctx payload) carrier
    ok (told, set_product first.product_code told items)
]

-- What follows the first loop when there is a shortage, by its first known item.
unfoldable pub reject_by :
    Option StockItem
    → Text
    → ReserveOrderInput
    → Context
    → List Shortage
    → RejectReason
    → List StockItem
    → Result (ReserveOrderOutcome × List StockItem)
reject_by none event_id input ctx shortages reason items =
    ok (order_rejected shortages reason none, items)
reject_by (some first) event_id input ctx shortages reason items = do
  told ←
      say event_id input.correlation_id ctx
        (stock_was_rejected input.order_reference input.company_code (some input.retailer_code)
          shortages reason)
        first items
  ok (order_rejected shortages reason (some told.0), told.1)

unfoldable pub reject_order :
    Text
    → ReserveOrderInput
    → Context
    → Survey
    → List StockItem
    → Result (ReserveOrderOutcome × List StockItem)
unfolding reject_by
reject_order event_id input ctx s items =
    reject_by s.first_known_item event_id input ctx s.shortages
      (if s.any_unknown then unknown_product else insufficient) items

-- What follows it when there is none. Without a line there is no carrier to read.
unfoldable pub accept_by :
    Option StockItem
    → Text
    → ReserveOrderInput
    → Context
    → List ReservationRef
    → List StockItem
    → Result (ReserveOrderOutcome × List StockItem)
accept_by none event_id input ctx refs items = err plain_error
accept_by (some first) event_id input ctx refs items = do
  told ←
      say event_id input.correlation_id ctx
        (stock_was_reserved input.order_reference input.company_code (some input.retailer_code)
          refs)
        first items
  ok (order_reserved refs told.0, told.1)

unfoldable pub accept_order :
    (ℕ → Text)
    → Text
    → ReserveOrderInput
    → Context
    → Survey
    → List StockItem
    → Result (ReserveOrderOutcome × List StockItem)
unfolding accept_by
accept_order fresh event_id input ctx s items = do
  done ← reserve_lines fresh 0 input input.lines [] items
  accept_by s.first_known_item event_id input ctx done.0 done.1

abbrev pub no_survey : Survey
no_survey = record { shortages = []; any_unknown = false; first_known_item = none }

abbrev pub survey_of : ReserveOrderInput → List StockItem → Survey
survey_of input items = survey items (sum_requested (λ code. 0) input.lines) input.lines no_survey

unfoldable pub reserve_order_stock :
    (ℕ → Text)
    → Text
    → ReserveOrderInput
    → Context
    → List StockItem
    → Result (ReserveOrderOutcome × List StockItem)
reserve_order_stock fresh event_id input ctx items =
    if is_empty (survey_of input items).shortages
    then accept_order fresh event_id input ctx (survey_of input items) items
    else reject_order event_id input ctx (survey_of input items) items
