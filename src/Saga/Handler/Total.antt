-- ===== src/Saga/Handler/Total.antt =====
-- The saga handler answers every fact that fits the order that it finds.
use order_to_cash_nestjs.Kernel.UniqueId.{is_uuid_v4, to_lower_case, unique_id-accepts}
use order_to_cash_nestjs.Saga.Handler.Runs.{
  StepRuns, Answerable, awaits_release, advance-runs, Fine, cancel_with-runs, stays, owe-is_ok,
  moves, approves_and_confirms,
}
use order_to_cash_nestjs.Saga.Handler.Repeats.{marked_database}
use mathlib.Core.Path.{subst}
use order_to_cash_nestjs.Fulfillment.Facts.{credit_was_rejected, order_was_cancelled}
use order_to_cash_nestjs.Billing.Line.{order_cancelled, invoice_paid}
use order_to_cash_nestjs.Orders.Order.Commands.StateMachine.{applies}
use order_to_cash_nestjs.Orders.Transitions.Edges.{◌⟶◌, edges}
use order_to_cash_nestjs.Orders.Order.Commands.{
  mark_stock_reserved, mark_despatched, mark_invoiced, mark_paid, complete,
}
use order_to_cash_nestjs.Orders.Order.Aggregate.{Order, order_completed_event}
use order_to_cash_nestjs.Saga.Handler.{
  Database, work_on, handle, active, dispatch_step, run_once, is_credit_approved_v1, find_by_id,
  late_for_an_accepted_cancel, nothing_to_do, record_ignored, work, Marker, precondition_unmet,
  unknown_order,
}
use order_to_cash_nestjs.Saga.Steps.{
  FactType, Fact, FactPayload, credit_rejected_v1, stock_release, credit_release, reserve_stock,
  precondition, stock_released_v1, release_stock, credit_released_v1, create_despatch, cancel_with,
  hold_credit, issue_invoice, release_credit, SagaStep, map_reason, map_credit_release_reason,
  step_variants_for, find_step, steps_from, steps_from_stock_then_credit_release, step_for_status,
  skip, order_placed_v1, stock_reserved_v1, stock_rejected_v1, credit_approved_v1,
  order_despatched_v1, invoice_issued_v1, payment_received_v1,
}
use order_to_cash_nestjs.Orders.Status.{
  OrderStatus, CancellationReason, credit_approved, confirmed, cancelled, stock_reserved, status_eq,
  placed, stock_rejected, credit_rejected, operator_cancelled, despatched, invoiced, paid,
  completed,
}
use order_to_cash_nestjs.Base.{
  ℕ, ◌≡◌, refl, true, ◌&&◌, List, [], ◌∷◌, Option, none, some, any, arith, Bool-cases, inl, inr,
}
use order_to_cash_nestjs.Base.Text.{Text, ◌=t◌}
use order_to_cash_nestjs.Result.{ok, is_ok}

-- Every variant of the table that is not `skip` runs.
AllRun : List SagaStep → Fact → Type 0
AllRun [] fact = Unit
AllRun (skip ∷ steps) fact = AllRun steps fact
AllRun (active step ∷ steps) fact = StepRuns step fact × AllRun steps fact

stock_release-reason :
    (payload : FactPayload) (s : OrderStatus)
    → Answerable stock_released_v1 payload s
    → s ≡ stock_reserved
    → (why : CancellationReason) × (map_reason payload ≡ ok why) × (applies why s ≡ true)
unfolding map_reason
stock_release-reason (stock_release credit_was_rejected) s w at =
    (credit_rejected, refl, rw at refl)
stock_release-reason (stock_release order_was_cancelled) s w at = (operator_cancelled, refl, refl)
stock_release-reason _ s w at = absurd w

credit_release-reason :
    (payload : FactPayload) (s : OrderStatus)
    → Answerable credit_released_v1 payload s
    → awaits_release s ≡ true
    → map_credit_release_reason payload ≡ ok operator_cancelled
unfolding map_credit_release_reason
credit_release-reason (credit_release order_cancelled) s w at = refl
credit_release-reason (credit_release invoice_paid) s w at = cc
credit_release-reason _ s w at = absurd w

cancels_stock_release :
    (fact : Fact)
    → fact.event_type ≡ stock_released_v1
    → StepRuns (cancel_with stock_reserved (λ fact. map_reason fact.payload) steps_from) fact
cancels_stock_release fact type =
    cancel_with-runs stock_reserved (λ fact. map_reason fact.payload) steps_from fact
      λ o at fine.
        let (why, mapped, allowed) =
          stock_release-reason fact.payload o.status
            (subst (λ t. Answerable t fact.payload o.status) type fine.answerable) at in
        (why, mapped, rw at (search edges), allowed)

cancels_credit_release :
    (status : OrderStatus) (fact : Fact)
    → fact.event_type ≡ credit_released_v1
    → awaits_release status ≡ true
    → status ⟶ cancelled
    → StepRuns
        (cancel_with status
          (λ fact. map_credit_release_reason fact.payload)
          steps_from_stock_then_credit_release)
        fact
cancels_credit_release status fact type waits edge =
    cancel_with-runs status (λ fact. map_credit_release_reason fact.payload)
      steps_from_stock_then_credit_release fact
      λ o at fine. (
        operator_cancelled,
        credit_release-reason fact.payload o.status
            (subst (λ t. Answerable t fact.payload o.status) type fine.answerable) (rw at waits),
        rw at edge,
        refl,
      )

table-runs :
    (type : FactType) (fact : Fact) → fact.event_type ≡ type → AllRun (step_variants_for type) fact
unfolding step_variants_for AllRun mark_stock_reserved mark_despatched mark_invoiced mark_paid
    complete
table-runs order_placed_v1 fact e =
    (advance-runs placed _ (some reserve_stock) fact (stays placed) tt, tt)
table-runs stock_reserved_v1 fact e = (
  advance-runs placed _ (some hold_credit) fact
      (moves placed stock_reserved (λ id. none) (search edges)) tt,
  tt,
)
table-runs stock_rejected_v1 fact e = (
  cancel_with-runs placed _ _ fact
      (λ o at fine. (stock_rejected, refl, rw at (search edges), rw at refl)),
  tt,
)
table-runs credit_approved_v1 fact e =
    (advance-runs stock_reserved _ (some create_despatch) fact approves_and_confirms tt, tt)
table-runs credit_rejected_v1 fact e =
    (advance-runs stock_reserved _ (some release_stock) fact (stays stock_reserved) e, tt)
table-runs stock_released_v1 fact e = (
  cancels_stock_release fact e,
  (
    advance-runs credit_approved _ (some release_credit) fact (stays credit_approved) tt,
    (advance-runs confirmed _ (some release_credit) fact (stays confirmed) tt, tt),
  ),
)
table-runs order_despatched_v1 fact e = (
  advance-runs confirmed _ (some issue_invoice) fact
      (moves confirmed despatched (λ id. none) (search edges)) tt,
  tt,
)
table-runs invoice_issued_v1 fact e = (
  advance-runs despatched _ none fact (moves despatched invoiced (λ id. none) (search edges)) tt,
  tt,
)
table-runs payment_received_v1 fact e =
    (advance-runs invoiced _ none fact (moves invoiced paid (λ id. none) (search edges)) tt, tt)
table-runs credit_released_v1 fact e = (
  advance-runs paid _ none fact
      (moves paid completed (λ id. some (order_completed_event id)) (search edges)) tt,
  (
    cancels_credit_release credit_approved fact e refl (search edges),
    (cancels_credit_release confirmed fact e refl (search edges), tt),
  ),
)
table-runs _ fact e = tt

status_eq→eq : (a b : OrderStatus) → status_eq a b ≡ true → b ≡ a
status_eq→eq placed b h = ground arith
status_eq→eq _ b h = ground arith

record_ignored-is_ok :
    (marker : Marker) (order : Option Order) (correlation_id : Text) (fact : Fact) (db : Database)
    → is_uuid_v4 fact.event_id ≡ true
    → is_ok (record_ignored marker order correlation_id fact db) ≡ true
unfolding record_ignored
record_ignored-is_ok marker order correlation_id fact db valid =
    rw (unique_id-accepts fact.event_id valid) refl

find_step-runs :
    (steps : List SagaStep) (ids : ℕ → Text) (topic correlation_id : Text) (o : Order) (fact : Fact)
    (db : Database)
    → is_uuid_v4 fact.event_id ≡ true
    → AllRun steps fact
    → Fine fact o
    → is_ok (dispatch_step (find_step o.status steps) ids topic correlation_id o fact db) ≡ true
unfolding find_step AllRun dispatch_step
find_step-runs [] ids topic correlation_id o fact db valid runs fine =
    record_ignored-is_ok precondition_unmet (some o) correlation_id fact db valid
find_step-runs (skip ∷ steps) ids topic correlation_id o fact db valid runs fine =
    find_step-runs steps ids topic correlation_id o fact db valid runs fine
find_step-runs (active step ∷ steps) ids topic correlation_id o fact db valid runs fine =
    elim (Bool-cases (status_eq (precondition step) o.status)) [
      | inl here ↦
          rw here (runs.0 ids topic o db (status_eq→eq (precondition step) o.status here) fine)
      | inr not_here ↦
          rw not_here (find_step-runs steps ids topic correlation_id o fact db valid runs.1 fine)
    ]

work_on-runs :
    (found : Option Order) (ids : ℕ → Text) (topic correlation_id : Text) (fact : Fact)
    (db : Database)
    → is_uuid_v4 fact.event_id ≡ true
    → ((o : Order) → found ≡ some o → Fine fact o)
    → is_ok (work_on found ids topic correlation_id fact db) ≡ true
unfolding work_on step_for_status
work_on-runs none ids topic correlation_id fact db valid fine =
    record_ignored-is_ok unknown_order none correlation_id fact db valid
work_on-runs (some o) ids topic correlation_id fact db valid fine =
    elim (Bool-cases (is_credit_approved_v1 fact.event_type && late_for_an_accepted_cancel o db)) [
      | inl late ↦
          rw late
            (owe-is_ok (ids 1) topic release_credit o fact db tt (fine o refl).has_lines valid)
      | inr other ↦ rw other (
          find_step-runs (step_variants_for fact.event_type) ids topic correlation_id o fact db
            valid (table-runs fact.event_type fact refl) (fine o refl))
    ]

-- `SagaFactHandler.handle` answers, and does not throw, on every fact whose event id and
-- correlation id have the shape of a UUID v4, and in every database whose repository of orders
-- answers, provided that the order that the fact names, if there is one, has a line, and that a
-- `stock.released.v1` or `credit.released.v1` fact carries a reason of its own kind, which for a
-- credit release that meets a `credit_approved` or `confirmed` order is `order_cancelled`. So no
-- step of the table throws in the status that is its precondition.
pub handle-is_ok :
    (ids : ℕ → Text) (topic : Text) (fact : Fact) (db : Database)
    → is_uuid_v4 fact.event_id ≡ true
    → is_uuid_v4 fact.correlation_id ≡ true
    → ((o : Order)
        → find_by_id (to_lower_case fact.correlation_id) db.orders ≡ some o
        → Fine fact o)
    → is_ok (handle ids topic fact db) ≡ true
unfolding handle run_once work
handle-is_ok ids topic fact db event_valid order_valid fine =
    elim (Bool-cases (nothing_to_do (step_variants_for fact.event_type))) [
      | inl skipped ↦ rw skipped refl
      | inr consumed ↦ elim (Bool-cases (any (λ x. x =t fact.event_id) db.processed_events)) [
        | inl before ↦ rw (consumed, before) refl
        | inr first ↦
            let id = to_lower_case fact.correlation_id in
            rw (consumed, first, unique_id-accepts fact.correlation_id order_valid)
              (work_on-runs (find_by_id id db.orders) ids topic id fact
                (marked_database fact.event_id db) event_valid fine)
      ]
    ]
