-- ===== src/Saga/Steps.antt =====
-- apps/orders/src/application/saga-steps.ts: the facts that the saga consumes and its step table.
use order_to_cash_nestjs.Kernel.UniqueId.{unique_id}
use order_to_cash_nestjs.Base.{ℕ, List, [], ◌∷◌, Option, none, some, if◌then◌else◌}
use order_to_cash_nestjs.Base.Text.{Text, codes}
use order_to_cash_nestjs.Errors.{plain_error}
use order_to_cash_nestjs.Result.{Result, ok, err, ◌>>=◌}
use order_to_cash_nestjs.Kernel.Envelope.{Context}
use order_to_cash_nestjs.Orders.Status.{
  OrderStatus, placed, stock_reserved, credit_approved, confirmed, despatched, invoiced, paid,
  status_eq, CancellationReason, stock_rejected, credit_rejected, operator_cancelled,
}
use order_to_cash_nestjs.Orders.Order.Aggregate.{Order}
use order_to_cash_nestjs.Orders.Order.Events.{CompensationStep}
use order_to_cash_nestjs.Orders.Order.Commands.{
  mark_stock_reserved, approve_credit, confirm, mark_despatched, mark_invoiced, mark_paid, complete,
}
use order_to_cash_nestjs.Fulfillment.Facts.{
  StockReleaseReason, credit_was_rejected, order_was_cancelled,
}
use order_to_cash_nestjs.Billing.Line.{CreditReleaseReason, order_cancelled}

-- The event types of the table, the synthetic one of an operator's cancellation, and any other.
pub data FactType : Type 0 where
  order_placed_v1 stock_reserved_v1 stock_rejected_v1 credit_approved_v1 credit_rejected_v1 :
      FactType
  stock_released_v1 order_despatched_v1 invoice_issued_v1 payment_received_v1 credit_released_v1 :
      FactType
  order_confirmed_v1 order_completed_v1 order_cancelled_v1 cancel_requested other_type : FactType

-- The part of a payload that the saga reads.
pub data FactPayload : Type 0 where
  stock_release : StockReleaseReason → FactPayload
  credit_release : CreditReleaseReason → FactPayload
  no_reason : FactPayload

-- `Envelope`, with its instant in milliseconds.
pub record Fact : Type 0 where
  pub event_id : Text
  pub event_type : FactType
  pub correlation_id : Text
  pub occurred_at : ℕ
  pub payload : FactPayload

-- SAGA_COMMAND_KINDS
pub data CommandKind : Type 0 where
  reserve_stock release_stock create_despatch hold_credit issue_invoice release_credit : CommandKind

-- A step that is not `skip`. `apply` is handed the id of the fact that it may record.
pub data ActiveStep : Type 0 where
  advance : OrderStatus → (Text → Context → Order → Result Order) → Option CommandKind → ActiveStep
  cancel_with :
      OrderStatus → (Fact → Result CancellationReason) → (Fact → List CompensationStep) → ActiveStep

pub data SagaStep : Type 0 where
  skip : SagaStep
  active : ActiveStep → SagaStep

-- The instant is a valid one: its text is parsed where the envelope is.
unfoldable pub transition_context_from : Fact → Result Context
unfolding unique_id
transition_context_from fact = do
  causation_id ← unique_id fact.event_id
  ok (record { occurred_at = fact.occurred_at; causation_id = causation_id })

-- A payload without the reason is a cast that fails: the `default` branch throws.
unfoldable pub map_reason : FactPayload → Result CancellationReason
map_reason (stock_release credit_was_rejected) = ok credit_rejected
map_reason (stock_release order_was_cancelled) = ok operator_cancelled
map_reason _ = err plain_error

unfoldable pub map_credit_release_reason : FactPayload → Result CancellationReason
map_credit_release_reason (credit_release order_cancelled) = ok operator_cancelled
map_credit_release_reason _ = err plain_error

abbrev type_text : FactType → Text
type_text stock_released_v1 = codes "stock.released.v1"
type_text credit_released_v1 = codes "credit.released.v1"
type_text _ = []

unfoldable pub steps_from_stock_then_credit_release : Fact → List CompensationStep
steps_from_stock_then_credit_release fact =
    record {
      step = codes "stock_released";
      event_id = none;
      event_type = codes "stock.released.v1";
      occurred_at = fact.occurred_at;
    }
    ∷ record {
      step = codes "credit_released";
      event_id = some fact.event_id;
      event_type = type_text fact.event_type;
      occurred_at = fact.occurred_at;
    }
    ∷ []

unfoldable pub steps_from : Fact → List CompensationStep
steps_from fact =
    record {
      step = codes "stock_released";
      event_id = some fact.event_id;
      event_type = type_text fact.event_type;
      occurred_at = fact.occurred_at;
    }
    ∷ []

abbrev no_op : Text → Context → Order → Result Order
no_op id ctx order = ok order

-- `apply` of `credit.approved.v1`: both edges on one order.
unfoldable pub approve_and_confirm : Text → Context → Order → Result Order
unfolding approve_credit confirm
approve_and_confirm id ctx order = do approved ← approve_credit ctx order; confirm id ctx approved

-- SAGA_STEPS, through `stepVariantsFor`.
unfoldable pub step_variants_for : FactType → List SagaStep
unfolding mark_stock_reserved mark_despatched mark_invoiced mark_paid complete
step_variants_for order_placed_v1 = active (advance placed no_op (some reserve_stock)) ∷ []
step_variants_for stock_reserved_v1 =
    active (advance placed (λ id ctx o. mark_stock_reserved ctx o) (some hold_credit)) ∷ []
step_variants_for stock_rejected_v1 =
    active (cancel_with placed (λ fact. ok stock_rejected) (λ fact. [])) ∷ []
step_variants_for credit_approved_v1 =
    active (advance stock_reserved approve_and_confirm (some create_despatch)) ∷ []
step_variants_for credit_rejected_v1 =
    active (advance stock_reserved no_op (some release_stock)) ∷ []
step_variants_for stock_released_v1 =
    active (cancel_with stock_reserved (λ fact. map_reason fact.payload) steps_from)
    ∷ active (advance credit_approved no_op (some release_credit))
    ∷ active (advance confirmed no_op (some release_credit))
    ∷ []
step_variants_for order_despatched_v1 =
    active (advance confirmed (λ id ctx o. mark_despatched ctx o) (some issue_invoice)) ∷ []
step_variants_for invoice_issued_v1 =
    active (advance despatched (λ id ctx o. mark_invoiced ctx o) none) ∷ []
step_variants_for payment_received_v1 =
    active (advance invoiced (λ id ctx o. mark_paid ctx o) none) ∷ []
step_variants_for credit_released_v1 =
    active (advance paid complete none)
    ∷ active (
        cancel_with credit_approved (λ fact. map_credit_release_reason fact.payload)
          steps_from_stock_then_credit_release)
    ∷ active (
        cancel_with confirmed (λ fact. map_credit_release_reason fact.payload)
          steps_from_stock_then_credit_release)
    ∷ []
step_variants_for order_confirmed_v1 = skip ∷ []
step_variants_for order_completed_v1 = skip ∷ []
step_variants_for order_cancelled_v1 = skip ∷ []
step_variants_for cancel_requested = []
step_variants_for other_type = []

abbrev pub precondition : ActiveStep → OrderStatus
precondition (advance status apply command) = status
precondition (cancel_with status reason steps) = status

-- `find` with the test of `stepForStatus`.
unfoldable pub find_step : OrderStatus → List SagaStep → Option ActiveStep
find_step status [] = none
find_step status (skip ∷ steps) = find_step status steps
find_step status (active step ∷ steps) =
    let rest = find_step status steps in
    if status_eq (precondition step) status then some step else rest

unfoldable pub step_for_status : FactType → OrderStatus → Option ActiveStep
unfolding step_variants_for find_step
step_for_status type status = find_step status (step_variants_for type)
