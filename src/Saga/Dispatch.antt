-- ===== src/Saga/Dispatch.antt =====
-- The dispatch of an owed command: apps/orders/src/infrastructure/saga/saga-command-dispatcher.ts,
-- the answers of apps/orders/src/infrastructure/messaging/nats-saga-commands.adapter.ts and the hook
-- of saga-first-park-dead-letter-handler.ts. What the broker answers to the k-th request is an
-- argument. `maxAttempts` is taken to be positive, as its default is.
pub mod Attempts
pub mod Outcomes
use Prim.Native.Nat.{◌^◌}
use order_to_cash_nestjs.Base.{
  ℕ, zero, suc, ◌+◌, ◌-◌, ◌*◌, ◌/◌, Bool, true, false, List, [], ◌∷◌, ◌++◌, Option, none, some, ltb,
  if◌then◌else◌,
}
use order_to_cash_nestjs.Base.Text.{Text, codes}
use order_to_cash_nestjs.Errors.{plain_error}
use order_to_cash_nestjs.Result.{Result, ok, err}
use order_to_cash_nestjs.Kernel.MoneyText.{decimal_text}
use order_to_cash_nestjs.Orders.Order.Aggregate.{Order}
use order_to_cash_nestjs.Orders.Order.Commands.{record_saga_failure}
use order_to_cash_nestjs.Saga.Steps.{
  CommandKind, reserve_stock, release_stock, create_despatch, hold_credit, issue_invoice,
  release_credit, FactType,
}
use order_to_cash_nestjs.Saga.Commands.{CommandRow}
use order_to_cash_nestjs.Saga.Store.{
  is_sent, find_by_order_and_command, mark_sent, mark_rejected, park, claim_dead_letter,
}
use order_to_cash_nestjs.Saga.Handler.{Database, find_by_id, save}

-- `RpcError['code']`
pub data RpcErrorCode : Type 0 where
  validation_failed not_found conflict precondition_failed order_not_cancellable : RpcErrorCode
  stock_unavailable invoice_not_payable payment_mismatch domain_error : RpcErrorCode
  timeout unavailable internal_error : RpcErrorCode

-- `isTerminalRpcErrorCode`
unfoldable pub is_terminal_rpc_error_code : RpcErrorCode → Bool
is_terminal_rpc_error_code timeout = false
is_terminal_rpc_error_code unavailable = false
is_terminal_rpc_error_code internal_error = false
is_terminal_rpc_error_code _ = true

-- What comes of one request: the four ways in which it fails, an error reply and a typed reply.
pub data Response : Type 0 where
  no_reply_in_time no_responder : Response
  connection_failed not_json : Text → Response
  rpc_error : RpcErrorCode → Text → Response
  typed_reply : Response

-- A call of the port: it resolves, or throws a business rejection or any other error.
pub data Attempt : Type 0 where
  resolved : Attempt
  business_rejection failure : Text → Attempt

abbrev rpc_code_text : RpcErrorCode → Text
rpc_code_text validation_failed = codes "VALIDATION_FAILED"
rpc_code_text not_found = codes "NOT_FOUND"
rpc_code_text conflict = codes "CONFLICT"
rpc_code_text precondition_failed = codes "PRECONDITION_FAILED"
rpc_code_text order_not_cancellable = codes "ORDER_NOT_CANCELLABLE"
rpc_code_text stock_unavailable = codes "STOCK_UNAVAILABLE"
rpc_code_text invoice_not_payable = codes "INVOICE_NOT_PAYABLE"
rpc_code_text payment_mismatch = codes "PAYMENT_MISMATCH"
rpc_code_text domain_error = codes "DOMAIN_ERROR"
rpc_code_text timeout = codes "TIMEOUT"
rpc_code_text unavailable = codes "UNAVAILABLE"
rpc_code_text internal_error = codes "INTERNAL_ERROR"

-- `call`, with the timeout. The texts are without the subject that the error classes put into them.
unfoldable pub call : ℕ → Response → Attempt
unfolding is_terminal_rpc_error_code decimal_text
call timeout_ms no_reply_in_time =
    failure (codes "no reply within " ++ decimal_text timeout_ms ++ codes "ms")
call timeout_ms no_responder = failure (codes "no responder is subscribed to this subject")
call timeout_ms (connection_failed message) = failure message
call timeout_ms (not_json message) = failure (codes "reply payload was not valid JSON: " ++ message)
call timeout_ms (rpc_error code message) =
    if is_terminal_rpc_error_code code
    then business_rejection message
    else failure (codes "responder returned " ++ rpc_code_text code ++ codes ": " ++ message)
call timeout_ms typed_reply = resolved

-- `SagaCommandDispatcherConfig`
pub record DispatcherConfig : Type 0 where
  pub timeout_ms : ℕ
  pub max_attempts : ℕ
  pub backoff_base_ms : ℕ
  pub park_retry_cap_ms : ℕ

-- DEFAULT_SAGA_COMMAND_DISPATCHER_CONFIG
abbrev pub default_config : DispatcherConfig
default_config = record {
  timeout_ms = 5000;
  max_attempts = 3;
  backoff_base_ms = 500;
  park_retry_cap_ms = 900000;
}

-- How the loop ends, with the attempts made in this cycle.
pub data Verdict : Type 0 where
  answered : ℕ → Verdict
  turned_down exhausted : ℕ → Text → Verdict

-- The loop: `left` rounds of it after `made` attempts. With the verdict, the delays between attempts.
unfoldable pub run_attempts : DispatcherConfig → (ℕ → Attempt) → ℕ → ℕ → Text → Verdict × List ℕ
run_attempts config attempts zero made last_error = (exhausted made last_error, [])
run_attempts config attempts (suc left) made last_error = elim (attempts (made + 1)) [
  | resolved ↦ (answered (made + 1), [])
  | business_rejection message ↦ (turned_down (made + 1) message, [])
  | failure message ↦
      let (verdict, delays) = run_attempts config attempts left (made + 1) message in
      (
        verdict,
        if ltb (made + 1) config.max_attempts
            then (config.backoff_base_ms * 2 ^ made) ∷ delays
            else delays,
      )
]

unfoldable pub min_ms : ℕ → ℕ → ℕ
min_ms a b = if ltb b a then b else a

-- `backoffMs`: `parkCycles` full cycles of attempts.
unfoldable pub park_backoff_ms : DispatcherConfig → ℕ → ℕ
unfolding min_ms
park_backoff_ms config total_attempts =
    min_ms (30000 * 2 ^ (total_attempts / config.max_attempts - 1)) config.park_retry_cap_ms

-- A message of a `.dlq` topic.
pub record DeadLetter : Type 0 where
  pub source_topic : Text
  pub event_id : Text
  pub event_type : FactType
  pub attempts : ℕ
  pub error : Text
  pub failed_at : ℕ

-- The database, and the dead letters sent.
pub record World : Type 0 where
  pub db : Database
  pub dead_letters : List DeadLetter

abbrev pub command_text : CommandKind → Text
command_text reserve_stock = codes "stock.reserve"
command_text release_stock = codes "stock.release"
command_text create_despatch = codes "despatch.create"
command_text hold_credit = codes "credit.hold"
command_text issue_invoice = codes "invoice.issue"
command_text release_credit = codes "credit.release"

-- The transaction of `onFirstPark`: `order` is what `findById` answers.
unfoldable pub record_failure_on :
    Option Order → Text → CommandRow → ℕ → Text → ℕ → Database → Database
unfolding record_saga_failure save
record_failure_on none event_id row attempts last_error now db = db
record_failure_on (some order) event_id row attempts last_error now db =
    save
      (record_saga_failure
        (record {
          command = command_text row.command;
          attempts = attempts;
          last_error = last_error;
        })
        event_id (record { occurred_at = now; causation_id = row.triggering_event_id }) order)
      db

-- `onFirstPark`. `dlq_up` says whether the publication succeeds; if it throws, nothing follows.
unfoldable pub on_first_park :
    Bool → Text → CommandRow → ℕ → Text → ℕ → World → Result (Unit {0}) × World
unfolding record_failure_on find_by_id
on_first_park false event_id row attempts last_error now w = (err plain_error, w)
on_first_park true event_id row attempts last_error now w = (
  ok tt,
  record {
    db =
        record_failure_on (find_by_id row.order_id w.db.orders) event_id row attempts last_error now
          w.db;
    dead_letters =
        w.dead_letters
        ++ record {
          source_topic = row.triggering_event_topic;
          event_id = row.triggering_event_id;
          event_type = row.triggering_event_type;
          attempts = attempts;
          error = last_error;
          failed_at = now;
        }
          ∷ [];
  },
)

-- `SagaCommandDispatchOutcome`
pub data DispatchOutcome : Type 0 where
  outcome_sent outcome_parked outcome_rejected noop : DispatchOutcome

abbrev pub with_rows : List CommandRow → World → World
with_rows rows w = record w { db = record w.db { saga_commands = rows } }

-- What stands after the claim for a first park.
abbrev pub parked_outcome : Result (Unit {0}) × World → Result DispatchOutcome × World
parked_outcome (err thrown, w) = (err thrown, w)
parked_outcome (ok nothing, w) = (ok outcome_parked, w)

-- `if (wasParked) { ... if (claimed) ... }`
unfoldable pub dead_letter_once :
    Bool → Bool → Text → CommandRow → ℕ → Text → ℕ → World → Result DispatchOutcome × World
unfolding claim_dead_letter on_first_park
dead_letter_once false dlq_up event_id row total last_error now w = (ok outcome_parked, w)
dead_letter_once true dlq_up event_id row total last_error now w =
    let (claimed, rows) = claim_dead_letter now row.id w.db.saga_commands in
    if claimed
    then parked_outcome (on_first_park dlq_up event_id row total last_error now (with_rows rows w))
    else (ok outcome_parked, with_rows rows w)

-- What follows the loop, for the row as it was read.
unfoldable pub settle :
    DispatcherConfig
    → ℕ
    → Bool
    → Text
    → CommandRow
    → Verdict
    → World
    → Result DispatchOutcome × World
unfolding mark_sent mark_rejected park park_backoff_ms dead_letter_once
settle config now dlq_up event_id row (answered made) w =
    (ok outcome_sent, with_rows (mark_sent now row.id w.db.saga_commands).1 w)
settle config now dlq_up event_id row (turned_down made message) w = (
  ok outcome_rejected,
  with_rows (mark_rejected row.id (row.attempts + made) message w.db.saga_commands).1 w,
)
settle config now dlq_up event_id row (exhausted made last_error) w =
    let total = row.attempts + made in
    let (was_parked, rows) =
      park row.id total last_error (now + park_backoff_ms config total) w.db.saga_commands in
    dead_letter_once was_parked dlq_up event_id row total last_error now (with_rows rows w)

unfoldable pub dispatch_row :
    DispatcherConfig
    → (ℕ → Attempt)
    → ℕ
    → Bool
    → Text
    → Option CommandRow
    → World
    → Result DispatchOutcome × World
unfolding run_attempts settle
dispatch_row config attempts now dlq_up event_id none w = (ok noop, w)
dispatch_row config attempts now dlq_up event_id (some row) w =
    if is_sent row.status
    then (ok noop, w)
    else settle config now dlq_up event_id row
        (run_attempts config attempts config.max_attempts 0 []).0 w

-- `SagaCommandDispatcher.dispatch`
unfoldable pub dispatch :
    DispatcherConfig
    → (ℕ → Attempt)
    → ℕ
    → Bool
    → Text
    → Text
    → CommandKind
    → World
    → Result DispatchOutcome × World
unfolding dispatch_row find_by_order_and_command
dispatch config attempts now dlq_up event_id order_id command w =
    dispatch_row config attempts now dlq_up event_id
      (find_by_order_and_command order_id command w.db.saga_commands) w
