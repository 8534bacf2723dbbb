-- ===== src/Projector/Facts.antt =====
-- The facts that the Projector consumes: the payloads of packages/contracts/src/generated, with the
-- fields that apps/projector/src/domain reads. The event type of an envelope is its payload's
-- constructor. `unknown_fact` holds the name of a type outside the fourteen; an envelope that has one
-- of the fourteen names and a payload of another shape, which the code casts unchecked, is left out.
use order_to_cash_nestjs.Base.{ℕ, List}
use order_to_cash_nestjs.Base.Int.{ℤ}
use order_to_cash_nestjs.Base.Text.{Text, codes}

pub record LinePayload : Type 0 where
  pub product_code : Text
  pub quantity : ℕ
  pub unit_price : ℤ
  pub line_discount : ℤ

pub record PlacedPayload : Type 0 where
  pub order_reference : Text
  pub order_date : Text
  pub retailer_code : Text
  pub buyer_gln : Text
  pub company_code : Text
  pub supplier_gln : Text
  pub currency : Text
  pub initial_amount : ℤ
  pub initial_discount : ℤ
  pub total_amount : ℤ
  pub lines : List LinePayload

pub record Shortage : Type 0 where
  pub product_code : Text
  pub requested : ℤ
  pub available : ℤ

pub record Released : Type 0 where
  pub product_code : Text
  pub units : ℕ

pub data Payload : Type 0 where
  order_placed : PlacedPayload → Payload
  -- the number of reservations
  stock_reserved : ℕ → Payload
  stock_rejected : List Shortage → Text → Payload
  stock_released : List Released → Text → Payload
  credit_approved : ℤ → Text → Payload
  credit_rejected : ℤ → Text → Text → Payload
  credit_released : Text → Payload
  order_confirmed : Payload
  order_despatched : Text → Payload
  invoice_issued : Text → Payload
  payment_received : Text → Payload
  order_completed : Text → Payload
  order_cancelled : Text → Text → List Text → Payload
  order_saga_failed : Text → ℕ → Text → Payload
  unknown_fact : Text → Payload

-- `Envelope`
pub record FactEnvelope : Type 0 where
  pub event_id : Text
  pub correlation_id : Text
  pub causation_id : Text
  pub occurred_at : Text
  pub payload : Payload

abbrev pub event_type : Payload → Text
event_type (order_placed p) = codes "order.placed.v1"
event_type (stock_reserved n) = codes "stock.reserved.v1"
event_type (stock_rejected s r) = codes "stock.rejected.v1"
event_type (stock_released s r) = codes "stock.released.v1"
event_type (credit_approved a c) = codes "credit.approved.v1"
event_type (credit_rejected a c r) = codes "credit.rejected.v1"
event_type (credit_released r) = codes "credit.released.v1"
event_type order_confirmed = codes "order.confirmed.v1"
event_type (order_despatched r) = codes "order.despatched.v1"
event_type (invoice_issued r) = codes "invoice.issued.v1"
event_type (payment_received r) = codes "payment.received.v1"
event_type (order_completed r) = codes "order.completed.v1"
event_type (order_cancelled o r s) = codes "order.cancelled.v1"
event_type (order_saga_failed c n e) = codes "order.saga_failed.v1"
event_type (unknown_fact name) = name
