-- ===== src/Saga/Handler/Runs.antt =====
-- Steps that run on every order in their precondition.
use order_to_cash_nestjs.Kernel.UniqueId.{is_uuid_v4, unique_id-accepts, to_lower_case}
use order_to_cash_nestjs.Errors.{
  order_transition_not_allowed, order_cancellation_reason_not_applicable,
}
use order_to_cash_nestjs.Billing.Line.{order_cancelled, invoice_paid}
use order_to_cash_nestjs.Saga.Handler.Progress.{transition_to-runs}
use order_to_cash_nestjs.Orders.Order.Commands.StateMachine.{applies}
use order_to_cash_nestjs.Orders.Transitions.Edges.{◌⟶◌, edge-find_transition, edges}
use order_to_cash_nestjs.Orders.Order.Commands.{
  Build, approve_credit, confirm, transition_to, cancel, is_stock_rejected, is_credit_rejected,
}
use order_to_cash_nestjs.Orders.Order.Events.{CompensationStep}
use order_to_cash_nestjs.Kernel.Envelope.{Context}
use order_to_cash_nestjs.Saga.Commands.{build_saga_command_payload}
use order_to_cash_nestjs.Orders.Order.Aggregate.{
  Order, order_confirmed_event, order_cancelled_event,
}
use order_to_cash_nestjs.Saga.Handler.{owe, run_step, Database, save}
use order_to_cash_nestjs.Saga.Steps.{
  FactType, Fact, CommandKind, ActiveStep, approve_and_confirm, FactPayload, credit_rejected_v1,
  stock_release, advance, credit_release, reserve_stock, precondition, transition_context_from,
  stock_released_v1, release_stock, credit_released_v1, create_despatch, cancel_with, hold_credit,
  issue_invoice, release_credit,
}
use order_to_cash_nestjs.Orders.Status.{
  OrderStatus, CancellationReason, credit_approved, confirmed, cancelled, stock_reserved, status_eq,
  placed, stock_rejected, credit_rejected, operator_cancelled,
}
use order_to_cash_nestjs.Base.{
  ℕ, ◌≡◌, refl, ◌∙◌, ap, Bool, true, false, not, ◌&&◌, List, Option, none, some, is_empty,
}
use order_to_cash_nestjs.Base.Text.{Text}
use order_to_cash_nestjs.Result.{Result, ok, err, is_ok, ◌>>◌, throw_if}

-- Whether the reason in a fact suits its type, and the status in which it meets the order: a credit
-- release of a paid invoice never meets an order that awaits the release of a cancellation.
abbrev pub awaits_release : OrderStatus → Bool
awaits_release credit_approved = true
awaits_release confirmed = true
awaits_release _ = false

abbrev pub Answerable : FactType → FactPayload → OrderStatus → Type 0
Answerable stock_released_v1 (stock_release reason) s = Unit
Answerable stock_released_v1 _ s = ⊥
Answerable credit_released_v1 (credit_release order_cancelled) s = Unit
Answerable credit_released_v1 (credit_release invoice_paid) s = awaits_release s ≡ false
Answerable credit_released_v1 _ s = ⊥
Answerable _ _ s = Unit

pub record Fine (fact : Fact) (o : Order) : Type 0 where
  pub event_id_valid : is_uuid_v4 fact.event_id ≡ true
  pub has_lines : is_empty o.lines ≡ false
  pub answerable : Answerable fact.event_type fact.payload o.status

-- A command that can be built for the fact.
abbrev Owable : Option CommandKind → Fact → Type 0
Owable (some release_stock) fact = fact.event_type ≡ credit_rejected_v1
Owable _ fact = Unit

pub owe-is_ok :
    (id topic : Text) (command : CommandKind) (o : Order) (fact : Fact) (db : Database)
    → Owable (some command) fact
    → is_empty o.lines ≡ false
    → is_uuid_v4 fact.event_id ≡ true
    → is_ok (owe id topic command o fact db) ≡ true
unfolding owe build_saga_command_payload
owe-is_ok id topic reserve_stock o fact db w full valid =
    rw (full, unique_id-accepts fact.event_id valid) refl
owe-is_ok id topic release_stock o fact db w full valid =
    rw (w, unique_id-accepts fact.event_id valid) refl
owe-is_ok id topic create_despatch o fact db w full valid =
    rw (unique_id-accepts fact.event_id valid) refl
owe-is_ok id topic hold_credit o fact db w full valid =
    rw (unique_id-accepts fact.event_id valid) refl
owe-is_ok id topic issue_invoice o fact db w full valid =
    rw (full, unique_id-accepts fact.event_id valid) refl
owe-is_ok id topic release_credit o fact db w full valid =
    rw (unique_id-accepts fact.event_id valid) refl

context-is_ok :
    (fact : Fact)
    → is_uuid_v4 fact.event_id ≡ true
    → (ctx : Context) × (transition_context_from fact ≡ ok ctx)
unfolding transition_context_from
context-is_ok fact valid = (
  record { occurred_at = fact.occurred_at; causation_id = to_lower_case fact.event_id },
  rw (unique_id-accepts fact.event_id valid) refl,
)

-- A step that runs on every order in its precondition.
abbrev pub StepRuns : ActiveStep → Fact → Type 0
StepRuns step fact =
    (ids : ℕ → Text) (topic : Text) (o : Order) (db : Database)
    → o.status ≡ precondition step
    → Fine fact o
    → is_ok (run_step step ids topic o fact db) ≡ true

abbrev Applies : OrderStatus → (Text → Context → Order → Result Order) → Type 0
Applies status apply =
    (id : Text) (ctx : Context) (o : Order)
    → o.status ≡ status
    → (o' : Order) × (apply id ctx o ≡ ok o') × (o'.lines ≡ o.lines)

pub advance-runs :
    (status : OrderStatus) (apply : Text → Context → Order → Result Order)
    (command : Option CommandKind) (fact : Fact)
    → Applies status apply
    → Owable command fact
    → StepRuns (advance status apply command) fact
unfolding run_step
advance-runs status apply none fact applies w ids topic o db at fine =
    let (ctx, valid) = context-is_ok fact fine.event_id_valid in
    let (o', run, lines) = applies (ids 0) ctx o at in rw (valid, run) refl
advance-runs status apply (some command) fact applies w ids topic o db at fine =
    let (ctx, valid) = context-is_ok fact fine.event_id_valid in
    let (o', run, lines) = applies (ids 0) ctx o at in
    rw (valid, run)
      (owe-is_ok (ids 1) topic command o' fact (save o' db) w (ap is_empty lines ∙ fine.has_lines)
        fine.event_id_valid)

-- `cancel` after its first test.
abbrev guarded_cancel :
    CancellationReason → Text → Context → List CompensationStep → Order → Result Order
guarded_cancel reason id ctx steps o = do
  throw_if (is_stock_rejected reason && not (status_eq o.status placed))
      (order_cancellation_reason_not_applicable o.id o.status reason)
  throw_if (is_credit_rejected reason && not (status_eq o.status stock_reserved))
      (order_cancellation_reason_not_applicable o.id o.status reason)
  transition_to cancelled ctx (some reason) (some (order_cancelled_event reason steps id)) o

guards_pass :
    (reason : CancellationReason) (id : Text) (ctx : Context) (steps : List CompensationStep)
    (o : Order)
    → applies reason o.status ≡ true
    → guarded_cancel reason id ctx steps o
      ≡ transition_to cancelled ctx (some reason) (some (order_cancelled_event reason steps id)) o
guards_pass stock_rejected id ctx steps o allowed = rw allowed refl
guards_pass credit_rejected id ctx steps o allowed = rw allowed refl
guards_pass operator_cancelled id ctx steps o allowed = refl

cancel-runs :
    (reason : CancellationReason) (id : Text) (ctx : Context) (steps : List CompensationStep)
    (o : Order)
    → o.status ⟶ cancelled
    → applies reason o.status ≡ true
    → (o' : Order) × (cancel reason id ctx steps o ≡ ok o')
unfolding cancel
cancel-runs reason id ctx steps o edge allowed =
    let (t, found, emits) = edge-find_transition edge in
    let (o', run, reached, lines) =
      transition_to-runs cancelled ctx (some reason) (some (order_cancelled_event reason steps id))
        o edge in
    (
      o',
      (λ i. elim (found i) [
        | none ↦ err (order_transition_not_allowed o.id o.status cancelled)
        | some t ↦ guarded_cancel reason id ctx steps o
      ])
          ∙ guards_pass reason id ctx steps o allowed
          ∙ run,
    )

pub cancel_with-runs :
    (status : OrderStatus) (reason : Fact → Result CancellationReason)
    (steps : Fact → List CompensationStep) (fact : Fact)
    → ((o : Order)
        → o.status ≡ status
        → Fine fact o
        → (why : CancellationReason) × (reason fact ≡ ok why)
          × (o.status ⟶ cancelled)
          × (applies why o.status ≡ true))
    → StepRuns (cancel_with status reason steps) fact
unfolding run_step
cancel_with-runs status reason steps fact why_of ids topic o db at fine =
    let (why, mapped, edge, allowed) = why_of o at fine in
    let (ctx, valid) = context-is_ok fact fine.event_id_valid in
    let (o', run) = cancel-runs why (ids 0) ctx (steps fact) o edge allowed in
    rw (valid, mapped, run) refl

pub stays : (status : OrderStatus) → Applies status (λ id ctx o. ok o)
stays status id ctx o at = (o, refl, refl)

pub moves :
    (status to : OrderStatus) (build : Text → Option Build)
    → status ⟶ to
    → Applies status (λ id ctx. transition_to to ctx none (build id))
moves status to build edge id ctx o at =
    let (o', run, reached, lines) = transition_to-runs to ctx none (build id) o (rw at edge) in
    (o', run, lines)

pub approves_and_confirms : Applies stock_reserved approve_and_confirm
unfolding approve_and_confirm approve_credit confirm
approves_and_confirms id ctx o at =
    let (o1, run1, at1, lines1) =
      transition_to-runs credit_approved ctx none none o (rw at (search edges)) in
    let (o2, run2, at2, lines2) =
      transition_to-runs confirmed ctx none (some (order_confirmed_event id)) o1
        (rw at1 (search edges)) in
    (o2, rw run1 run2, lines2 ∙ lines1)
