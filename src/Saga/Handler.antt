-- ===== src/Saga/Handler.antt =====
-- apps/orders/src/application/saga-fact-handler.ts, with the unit that runs it
-- (apps/orders/src/infrastructure/messaging/idempotent-consumer.ts). A transaction that throws is
-- rolled back, so the handler is a function from the database to the database after it, or an error.
-- The repository of orders (order.mapper.ts and the tables behind it) is the list of the stored orders:
-- that `findById` hands back what `save` was handed, with no pending events, is taken of it. The metric
-- of a closed saga is left out.
pub mod Repeats
pub mod Progress
pub mod Runs
pub mod Total
use order_to_cash_nestjs.Kernel.UniqueId.{unique_id}
use order_to_cash_nestjs.Base.{
  ℕ, Bool, true, false, ◌&&◌, List, [], ◌∷◌, ◌++◌, Option, none, some, any, find?, map,
  if◌then◌else◌,
}
use order_to_cash_nestjs.Base.Text.{Text, ◌=t◌}
use order_to_cash_nestjs.Result.{Result, ok, ◌>>=◌}
use order_to_cash_nestjs.Kernel.Envelope.{Envelope}
use order_to_cash_nestjs.Orders.Status.{
  OrderStatus, stock_reserved, cancelled, status_eq, CancellationReason, operator_cancelled,
}
use order_to_cash_nestjs.Orders.Order.Aggregate.{Order, pull_domain_events}
use order_to_cash_nestjs.Orders.Order.Events.{OrderPayload}
use order_to_cash_nestjs.Orders.Order.Commands.{cancel}
use order_to_cash_nestjs.Saga.Steps.{
  FactType, credit_approved_v1, Fact, CommandKind, release_credit, ActiveStep, advance, cancel_with,
  SagaStep, skip, active, precondition, transition_context_from, step_variants_for, step_for_status,
}
use order_to_cash_nestjs.Saga.Commands.{
  CommandRow, CommandPayload, pending, build_saga_command_payload, enqueue,
  has_accepted_operator_cancel,
}

pub data Marker : Type 0 where
  unknown_order precondition_unmet : Marker

-- A row of the ignored facts.
pub record IgnoredFact : Type 0 where
  pub event_id : Text
  pub event_type : FactType
  pub order_id : Option Text
  pub correlation_id : Text
  pub observed_status : Option OrderStatus
  pub expected_status : Option OrderStatus
  pub marker : Marker

-- The tables that the handler reads and writes; `processed_events` for the consumer `orders.saga`.
-- `now` is the instant that the clock of the command store answers.
pub record Database : Type 0 where
  pub orders : List Order
  pub outbox : List (Envelope OrderPayload)
  pub processed_events : List Text
  pub saga_commands : List CommandRow
  pub ignored_facts : List IgnoredFact
  pub now : ℕ

pub data Outcome : Type 0 where
  processed : Option CommandKind → Outcome
  duplicate ignored : Outcome

-- `findById`
unfoldable pub find_by_id : Text → List Order → Option Order
find_by_id id orders = find? (λ o. o.id =t id) orders

-- `save`: the order is stored, its events go to the outbox.
abbrev pub stored : Order → List Order → List Order
stored order = map (λ o. if o.id =t order.id then order else o)

unfoldable pub save : Order → Database → Database
unfolding pull_domain_events
save order db = record db {
  orders = stored (pull_domain_events order).1 db.orders;
  outbox = db.outbox ++ (pull_domain_events order).0;
}

-- `soleExpectedStatus`
unfoldable sole_expected_status : List SagaStep → Option OrderStatus
sole_expected_status (active step ∷ []) = some (precondition step)
sole_expected_status _ = none

abbrev is_skip : SagaStep → Bool
is_skip skip = true
is_skip (active step) = false

-- No variant, or none but `skip`.
unfoldable pub nothing_to_do : List SagaStep → Bool
nothing_to_do [] = true
nothing_to_do (step ∷ steps) = is_skip step && nothing_to_do steps

abbrev pub row_for :
    ℕ → Text → Text → Text → Order → Fact → CommandKind → CommandPayload → CommandRow
row_for now id topic event_id order fact command payload = record {
  id = id;
  order_id = order.id;
  order_reference = order.order_reference;
  command = command;
  payload = payload;
  triggering_event_id = event_id;
  triggering_event_type = fact.event_type;
  triggering_event_topic = topic;
  status = pending;
  attempts = 0;
  last_error = none;
  next_attempt_at = none;
  dead_lettered_at = none;
  created_at = now;
  sent_at = none;
}

-- `commandStore.enqueue` with the payload built for it.
unfoldable pub owe :
    Text → Text → CommandKind → Order → Fact → Database → Result (Outcome × Database)
unfolding build_saga_command_payload enqueue unique_id
owe id topic command order fact db = do
  payload ← build_saga_command_payload command order fact
  event_id ← unique_id fact.event_id
  ok (
    processed (some command),
    record db {
      saga_commands =
          enqueue (row_for db.now id topic event_id order fact command payload) db.saga_commands;
    },
  )

abbrev owe_after :
    Option CommandKind → Text → Text → Order → Fact → Database → Result (Outcome × Database)
owe_after none id topic order fact db = ok (processed none, db)
owe_after (some command) id topic order fact db = owe id topic command order fact db

-- The two branches on the kind of the step. `ids 0` is drawn for the order's fact, `ids 1` for the row.
unfoldable pub run_step :
    ActiveStep → (ℕ → Text) → Text → Order → Fact → Database → Result (Outcome × Database)
unfolding owe save transition_context_from cancel
run_step (advance status apply command) ids topic order fact db = do
  ctx ← transition_context_from fact
  after ← apply (ids 0) ctx order
  owe_after command (ids 1) topic after fact (save after db)
run_step (cancel_with status reason steps) ids topic order fact db = do
  ctx ← transition_context_from fact
  why ← reason fact
  after ← cancel why (ids 0) ctx (steps fact) order
  ok (processed none, save after db)

-- The row of an ignored fact, with its ids as `UniqueId`s.
unfoldable pub ignored_row : Marker → Option Order → Text → Text → Fact → IgnoredFact
unfolding sole_expected_status step_variants_for
ignored_row marker order event_id correlation_id fact = record {
  event_id = event_id;
  event_type = fact.event_type;
  order_id = elim order [ none ↦ none | some o ↦ some o.id ];
  correlation_id = correlation_id;
  observed_status = elim order [ none ↦ none | some o ↦ some o.status ];
  expected_status = sole_expected_status (step_variants_for fact.event_type);
  marker = marker;
}

-- `ignoredFacts.record`, and the outcome that follows it.
unfoldable pub record_ignored :
    Marker → Option Order → Text → Fact → Database → Result (Outcome × Database)
unfolding ignored_row unique_id
record_ignored marker order correlation_id fact db = do
  event_id ← unique_id fact.event_id
  ok (
    ignored,
    record db {
      ignored_facts =
          db.ignored_facts ++ ignored_row marker order event_id correlation_id fact ∷ [];
    },
  )

abbrev is_credit_approved_v1 : FactType → Bool
is_credit_approved_v1 credit_approved_v1 = true
is_credit_approved_v1 _ = false

abbrev is_operator_cancelled : Option CancellationReason → Bool
is_operator_cancelled (some operator_cancelled) = true
is_operator_cancelled _ = false

-- `lateForAnAcceptedOperatorCancel`
unfoldable pub late_for_an_accepted_cancel : Order → Database → Bool
unfolding has_accepted_operator_cancel
late_for_an_accepted_cancel order db =
    if status_eq order.status cancelled
    then is_operator_cancelled order.cancellation_reason
    else status_eq order.status stock_reserved
      && has_accepted_operator_cancel order.id db.saga_commands

-- The generic dispatch, with the step found.
unfoldable pub dispatch_step :
    Option ActiveStep
    → (ℕ → Text)
    → Text
    → Text
    → Order
    → Fact
    → Database
    → Result (Outcome × Database)
unfolding run_step record_ignored
dispatch_step none ids topic correlation_id order fact db =
    record_ignored precondition_unmet (some order) correlation_id fact db
dispatch_step (some step) ids topic correlation_id order fact db =
    run_step step ids topic order fact db

-- The work on an order that was found, or not, under a correlation id.
unfoldable pub work_on :
    Option Order → (ℕ → Text) → Text → Text → Fact → Database → Result (Outcome × Database)
unfolding record_ignored dispatch_step late_for_an_accepted_cancel owe step_for_status
work_on none ids topic correlation_id fact db =
    record_ignored unknown_order none correlation_id fact db
work_on (some order) ids topic correlation_id fact db =
    if is_credit_approved_v1 fact.event_type && late_for_an_accepted_cancel order db
    then owe (ids 1) topic release_credit order fact db
    else dispatch_step (step_for_status fact.event_type order.status) ids topic correlation_id order
        fact db

-- `IdempotentConsumer.runOnce` around the work: the mark comes first.
unfoldable pub run_once :
    Text → (Database → Result (Outcome × Database)) → Database → Result (Outcome × Database)
run_once event_id work db =
    if any (λ id. id =t event_id) db.processed_events
    then ok (duplicate, db)
    else work (record db { processed_events = db.processed_events ++ event_id ∷ [] })

-- The work of the transaction.
unfoldable pub work : (ℕ → Text) → Text → Fact → Database → Result (Outcome × Database)
unfolding work_on find_by_id unique_id
work ids topic fact tx = do
  correlation_id ← unique_id fact.correlation_id
  work_on (find_by_id correlation_id tx.orders) ids topic correlation_id fact tx

-- `SagaFactHandler.handle`
unfoldable pub handle : (ℕ → Text) → Text → Fact → Database → Result (Outcome × Database)
unfolding nothing_to_do step_variants_for run_once work
handle ids topic fact db =
    if nothing_to_do (step_variants_for fact.event_type)
    then ok (processed none, db)
    else run_once fact.event_id (work ids topic fact) db
