-- ===== src/Projector/Delta.antt =====
-- apps/projector/src/domain/projection-delta.ts and fact-projection.ts: the change that a fact makes
-- to the read model.
pub mod Projected
pub mod Errors
use order_to_cash_nestjs.Base.{ℕ, not, List, [], ◌∷◌, Option, none, some, any}
use order_to_cash_nestjs.Base.Int.{ℤ}
use order_to_cash_nestjs.Base.Text.{Text, codes, ◌=t◌}
use order_to_cash_nestjs.Errors.{unknown_fact_type}
use order_to_cash_nestjs.Result.{Result, ok, ◌>>=◌, ◌>>◌, throw_if}
use order_to_cash_nestjs.Orders.Status.{OrderStatus}
use order_to_cash_nestjs.Projector.Timeline.{TimelineEntry}
use order_to_cash_nestjs.Projector.Facts.{
  Payload, PlacedPayload, LinePayload, FactEnvelope, event_type, order_placed, order_despatched,
  invoice_issued, payment_received, order_cancelled,
}
use order_to_cash_nestjs.Projector.Rank.{implied_status_of, rank_of}
use order_to_cash_nestjs.Projector.Summaries.{SummaryResult, summary_of}

-- `OrderHeaderDelta`
pub record OrderHeader : Type 0 where
  pub order_reference : Text
  pub order_date : Text
  pub retailer : Text × Text
  pub company : Text × Text
  pub currency : Text
  pub totals : ℤ × ℤ × ℤ
  pub items : List LinePayload

-- `ProjectionDelta`, with `fillIfAbsent` flat.
pub record ProjectionDelta : Type 0 where
  pub order_id : Text
  pub entry : TimelineEntry
  pub implied_status : Option OrderStatus
  pub status_rank : ℕ
  pub cancellation_reason : Option Text
  pub despatch_reference : Option Text
  pub invoice_reference : Option Text
  pub payment_reference : Option Text
  pub header : Option OrderHeader

-- HANDLED_EVENT_TYPES
abbrev pub handled_event_types : List Text
handled_event_types =
    codes "order.placed.v1"
    ∷ codes "stock.reserved.v1"
    ∷ codes "stock.rejected.v1"
    ∷ codes "stock.released.v1"
    ∷ codes "credit.approved.v1"
    ∷ codes "credit.rejected.v1"
    ∷ codes "credit.released.v1"
    ∷ codes "order.confirmed.v1"
    ∷ codes "order.despatched.v1"
    ∷ codes "invoice.issued.v1"
    ∷ codes "payment.received.v1"
    ∷ codes "order.completed.v1"
    ∷ codes "order.cancelled.v1"
    ∷ codes "order.saga_failed.v1"
    ∷ []

-- `entryOf`
abbrev pub entry_of : FactEnvelope → SummaryResult → TimelineEntry
entry_of envelope built = record {
  event_id = envelope.event_id;
  event_type = event_type envelope.payload;
  occurred_at = envelope.occurred_at;
  summary = built.summary;
  causation_id = envelope.causation_id;
  detail = built.detail;
}

-- The header of `order.placed.v1`.
abbrev pub header_of : PlacedPayload → OrderHeader
header_of p = record {
  order_reference = p.order_reference;
  order_date = p.order_date;
  retailer = (p.retailer_code, p.buyer_gln);
  company = (p.company_code, p.supplier_gln);
  currency = p.currency;
  totals = (p.initial_amount, p.initial_discount, p.total_amount);
  items = p.lines;
}

-- What the arm of the switch adds to the base and the entry.
abbrev pub fill : Payload → ProjectionDelta → ProjectionDelta
fill (order_placed p) delta = record delta { header = some (header_of p) }
fill (order_despatched reference) delta = record delta { despatch_reference = some reference }
fill (invoice_issued reference) delta = record delta { invoice_reference = some reference }
fill (payment_received reference) delta = record delta { payment_reference = some reference }
fill (order_cancelled order_reference reason steps) delta = record delta {
  cancellation_reason = some reason;
}
fill _ delta = delta

-- `projectFact`
unfoldable pub project_fact : FactEnvelope → Result ProjectionDelta
unfolding implied_status_of rank_of summary_of
project_fact envelope = do
  throw_if (not (any (λ t. t =t event_type envelope.payload) handled_event_types))
      (unknown_fact_type (event_type envelope.payload))
  status ← implied_status_of (event_type envelope.payload)
  rank ← rank_of (event_type envelope.payload)
  built ← summary_of envelope.payload
  ok (
      fill envelope.payload (record {
        order_id = envelope.correlation_id;
        entry = entry_of envelope built;
        implied_status = status;
        status_rank = rank;
        cancellation_reason = none;
        despatch_reference = none;
        invoice_reference = none;
        payment_reference = none;
        header = none;
      }))
