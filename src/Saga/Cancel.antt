-- ===== src/Saga/Cancel.antt =====
-- apps/orders/src/application/cancel-order.handler.ts: an operator cancels an order. What the first
-- read finds, outside of any transaction, is an argument; the database may have changed by the time
-- of the transaction. The fast path after an enqueueing is a dispatch.
pub mod Approval
use order_to_cash_nestjs.Errors.{order_transition_not_allowed}
use order_to_cash_nestjs.Fulfillment.Facts.{order_was_cancelled}
use order_to_cash_nestjs.Saga.Steps.{release_stock, cancel_requested}
use order_to_cash_nestjs.Saga.Handler.{find_by_id, Database, save}
use order_to_cash_nestjs.Result.{Result, ok, err}
use order_to_cash_nestjs.Orders.Order.Commands.{cancel}
use order_to_cash_nestjs.Saga.Commands.{enqueue, CommandRow, to_release_stock, pending}
use order_to_cash_nestjs.Orders.Order.Aggregate.{Order}
use order_to_cash_nestjs.Base.{ℕ, List, Bool, Option, some, ◌||◌, if◌then◌else◌, [], ◌∷◌, none}
use order_to_cash_nestjs.Saga.Dispatch.{
  DispatcherConfig, Attempt, dispatch, DispatchOutcome, World, with_rows,
}
use order_to_cash_nestjs.Orders.Status.{
  OrderStatus, CancellationReason, status_eq, credit_approved, operator_cancelled, confirmed,
  stock_reserved,
}
use order_to_cash_nestjs.Base.Text.{Text}

pub data Compensation : Type 0 where
  stock_release credit_release : Compensation

-- `CancelOrderResult`
pub data CancelOrderResult : Type 0 where
  outcome_not_found : CancelOrderResult
  outcome_not_cancellable : Text → Text → OrderStatus → CancelOrderResult
  outcome_compensation_pending : Text → Text → OrderStatus → List Compensation → CancelOrderResult
  outcome_cancelled : Text → Text → Option CancellationReason → CancelOrderResult

-- `CREDIT_HELD_STATUSES.has`
abbrev pub credit_held : OrderStatus → Bool
credit_held status = status_eq status credit_approved || status_eq status confirmed

-- What the fast path meets.
pub record FastPath : Type 0 where
  pub config : DispatcherConfig
  pub attempts : ℕ → Attempt
  pub dlq_up : Bool
  pub event_id : Text

-- `enqueueOperatorCancelCommand` of the input that `beginStockReleaseCompensation` builds: the row id
-- is drawn after the request id.
abbrev pub cancel_row : ℕ → (ℕ → Text) → Text → Order → CommandRow
cancel_row now ids topic order = record {
  id = ids 1;
  order_id = order.id;
  order_reference = order.order_reference;
  command = release_stock;
  payload = to_release_stock order.order_reference order_was_cancelled;
  triggering_event_id = ids 0;
  triggering_event_type = cancel_requested;
  triggering_event_topic = topic;
  status = pending;
  attempts = 0;
  last_error = none;
  next_attempt_at = none;
  dead_lettered_at = none;
  created_at = now;
  sent_at = none;
}

abbrev pub answer_pending :
    Order → List Compensation → Result DispatchOutcome × World → Result CancelOrderResult × World
answer_pending order planned (err thrown, w) = (err thrown, w)
answer_pending order planned (ok outcome, w) =
    (ok (outcome_compensation_pending order.id order.order_reference order.status planned), w)

-- `beginStockReleaseCompensation`
unfoldable pub begin_stock_release_compensation :
    FastPath
    → (ℕ → Text)
    → Text
    → List Compensation
    → Order
    → World
    → Result CancelOrderResult × World
unfolding enqueue dispatch
begin_stock_release_compensation path ids topic planned order w =
    let owed = with_rows (enqueue (cancel_row w.db.now ids topic order) w.db.saga_commands) w in
    answer_pending order planned (
      dispatch path.config path.attempts w.db.now path.dlq_up path.event_id order.id release_stock
        owed)

-- The `catch` of the transaction.
abbrev pub after_cancel : Order → Database → Result Order → Result (CancelOrderResult × Database)
after_cancel order db (ok cancelled') = ok (
  outcome_cancelled cancelled'.id cancelled'.order_reference cancelled'.cancellation_reason,
  save cancelled' db,
)
after_cancel order db (err (order_transition_not_allowed id from to)) =
    ok (outcome_not_cancellable order.id order.order_reference order.status, db)
after_cancel order db (err thrown) = err thrown

-- The transaction of a direct cancellation.
unfoldable pub cancel_now :
    (ℕ → Text) → Option Order → Database → Result (CancelOrderResult × Database)
unfolding cancel save
cancel_now ids none db = ok (outcome_not_found, db)
cancel_now ids (some order) db = after_cancel order db (
    cancel operator_cancelled (ids 1) (record { occurred_at = db.now; causation_id = ids 0 }) []
      order)

abbrev pub commit : Result (CancelOrderResult × Database) → World → Result CancelOrderResult × World
commit (err thrown) w = (err thrown, w)
commit (ok (answer, db)) w = (ok answer, record w { db = db })

-- `execute`, with what the first read found.
unfoldable pub cancel_order :
    FastPath → (ℕ → Text) → Text → Text → Option Order → World → Result CancelOrderResult × World
unfolding begin_stock_release_compensation cancel_now find_by_id
cancel_order path ids topic order_id none w = (ok outcome_not_found, w)
cancel_order path ids topic order_id (some order) w =
    if credit_held order.status
    then begin_stock_release_compensation path ids topic (stock_release ∷ credit_release ∷ []) order
        w
    else if status_eq order.status stock_reserved
    then begin_stock_release_compensation path ids topic (stock_release ∷ []) order w
    else commit (cancel_now ids (find_by_id order_id w.db.orders) w.db) w
