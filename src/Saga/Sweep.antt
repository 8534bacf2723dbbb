-- ===== src/Saga/Sweep.antt =====
-- A cycle of apps/orders/src/infrastructure/saga/saga-command-sweeper.service.ts: the due rows are
-- claimed and dispatched one after the other; a dispatch that throws is logged and the next row
-- follows. The timer that starts the cycles is left out.
pub mod Cycle
pub mod Delivery
use order_to_cash_nestjs.Base.{ℕ, ◌+◌, Bool, List, [], ◌∷◌}
use order_to_cash_nestjs.Base.Text.{Text}
use order_to_cash_nestjs.Saga.Commands.{CommandRow}
use order_to_cash_nestjs.Saga.Store.{claim_due}
use order_to_cash_nestjs.Saga.Dispatch.{DispatcherConfig, Attempt, World, dispatch}

-- What one dispatch meets: the answers to its attempts, the instant, whether the dead letter can be
-- published, and the id that is drawn.
pub record Weather : Type 0 where
  pub attempts : ℕ → Attempt
  pub now : ℕ
  pub dlq_up : Bool
  pub event_id : Text

-- `for (const row of claimed)`, from the k-th on.
unfoldable pub dispatch_each :
    DispatcherConfig → (ℕ → Weather) → ℕ → List CommandRow → World → World
dispatch_each config weather k [] w = w
dispatch_each config weather k (row ∷ rows) w =
    dispatch_each config weather (k + 1) rows
      (dispatch config (weather k).attempts (weather k).now (weather k).dlq_up (weather k).event_id
        row.order_id row.command w).1

-- `SagaCommandSweeperConfig`
pub record SweeperConfig : Type 0 where
  pub pending_grace_ms : ℕ
  pub batch_limit : ℕ

-- `runCycle`
unfoldable pub run_cycle : DispatcherConfig → SweeperConfig → (ℕ → Weather) → ℕ → World → World
unfolding dispatch_each claim_due
run_cycle config sweeper weather now w =
    dispatch_each config weather 0
      (claim_due now sweeper.batch_limit sweeper.pending_grace_ms w.db.saga_commands) w
