-- ===== src/Witnesses/Dispatch.antt =====
-- The theorems on the store, the dispatcher and the sweeper, at one owed command.
use order_to_cash_nestjs.Kernel.UniqueId.{to_lower_case}
use order_to_cash_nestjs.Saga.Cancel.Approval.{cancel_order-holds_approval}
use order_to_cash_nestjs.Result.{ok}
use order_to_cash_nestjs.Saga.Steps.{release_credit}
use order_to_cash_nestjs.Witnesses.OrderRuns.{reserved_run}
use order_to_cash_nestjs.Witnesses.Samples.{fresh, an_order_id}
use order_to_cash_nestjs.Witnesses.Samples.{fresh}
use order_to_cash_nestjs.Saga.Handler.{Database, Outcome, duplicate, handle, processed}
use order_to_cash_nestjs.Saga.Cancel.{FastPath, cancel_order}
use mathlib.Core.List.{Memᴰ}
use Prim.Native.Nat.{◌^◌, suc}
use order_to_cash_nestjs.Saga.Store.Lives.{
  then_call, none_yet, parking, Becomes, calls-Becomes, sending,
}
use order_to_cash_nestjs.Saga.Store.Claims.{claim_dead_letter-once}
use order_to_cash_nestjs.Saga.Sweep.Cycle.{run_cycle-delivers}
use order_to_cash_nestjs.Witnesses.Saga.{one_cancelling, cancel_row, topic, approval}
use order_to_cash_nestjs.Base.Text.{codes, ◌=t◌}
use order_to_cash_nestjs.Saga.Sweep.Delivery.{IsDelivered}
use order_to_cash_nestjs.Saga.Dispatch.{
  World, Attempt, run_attempts, default_config, failure, resolved,
}
use order_to_cash_nestjs.Saga.Sweep.{SweeperConfig, Weather, run_cycle}
use order_to_cash_nestjs.Saga.Dispatch.Attempts.{
  EndsWith, attempts_made, ResolvesWithin, run_attempts-EndsWith, sum, dispatch_budget, is_failure,
}
use order_to_cash_nestjs.Base.{
  ℕ, [], if◌then◌else◌, false, arith, List, ◌≡◌, ◌==◌, ◌≤◌, refl, ◌∷◌, ◌*◌, true, ◌+◌, ◌-◌, ◌<◌,
  zero, some, ◌⊎◌,
}
use order_to_cash_nestjs.Saga.Store.{claim_dead_letter, update_where, park, mark_sent}
use order_to_cash_nestjs.Saga.Commands.{CommandRow, enqueue}

calls-Becomes_example :
    (r' : CommandRow) × Memᴰ r' (mark_sent 5000 (codes "k1") (cancel_row ∷ [])).1
    × Becomes cancel_row r'
calls-Becomes_example =
    calls-Becomes cancel_row (then_call none_yet (sending 5000 (codes "k1"))) (Memᴰ.head refl)

claim_run :
    (rows : List CommandRow) × (claim_dead_letter 5000 (codes "k1") (cancel_row ∷ [])
      ≡ (true, rows))
unfolding claim_dead_letter update_where ◌=t◌
claim_run = (_, refl)

claim_dead_letter-once_example :
    (claim_dead_letter 7000 (codes "k1") (park (codes "k1") 3 [] 6000 claim_run.0).1).0 ≡ false
claim_dead_letter-once_example =
    claim_dead_letter-once 5000 7000 (codes "k1") (cancel_row ∷ []) claim_run.1
      (then_call none_yet (parking (codes "k1") 3 [] 6000))

-- A responder that fails once.
abbrev at_second : ℕ → Attempt
at_second n = if n == 1 then failure (codes "no reply") else resolved

run_attempts-EndsWith_example :
    EndsWith at_second 3 0 [] (run_attempts default_config at_second 3 0 []).0
run_attempts-EndsWith_example = run_attempts-EndsWith default_config at_second 3 0 []

dispatch_budget_example :
    (attempts_made (run_attempts default_config at_second 3 0 []).0 ≤ 3)
    × (attempts_made (run_attempts default_config at_second 3 0 []).0 * 5000
          + sum (run_attempts default_config at_second 3 0 []).1
          + 500
        ≤ 3 * 5000 + 500 * 2 ^ (3 - 1))
dispatch_budget_example = dispatch_budget default_config at_second (omega arith)

abbrev sweeper : SweeperConfig
sweeper = record { pending_grace_ms = 1000; batch_limit = 10 }

abbrev fair : ℕ → Weather
fair k = record { attempts = at_second; now = 5000; dlq_up = false; event_id = codes "e9" }

abbrev cancelling_world : World
cancelling_world = record { db = one_cancelling; dead_letters = [] }

fair-Resolves : (j : ℕ) → ResolvesWithin 3 (fair j).attempts 0
fair-Resolves j = (1, omega arith, first, refl)
  where
    first : (i : ℕ) → i < 1 → is_failure (at_second (0 + i + 1)) ≡ true
    first zero h = refl
    first (suc i) h = absurd (omega (arith, h))

run_cycle-delivers_example :
    IsDelivered cancel_row
      (run_cycle default_config sweeper fair 4000 cancelling_world).db.saga_commands
run_cycle-delivers_example =
    run_cycle-delivers default_config sweeper fair 4000 cancel_row cancelling_world (refl, tt)
      fair-Resolves (omega arith) (Memᴰ.head refl) refl

-- The cancellation is accepted, and the approval comes after it.
abbrev fast_path : FastPath
fast_path = record {
  config = default_config;
  attempts = at_second;
  dlq_up = true;
  event_id = codes "e9";
}

abbrev reserved_world : World
reserved_world = record { db = record one_cancelling { saga_commands = [] }; dead_letters = [] }

abbrev cancelled_db : Database
cancelled_db =
    (cancel_order fast_path fresh (codes "orders") an_order_id (some reserved_run.0)
      reserved_world).1.db

approval_run :
    (out : Outcome) × (db : Database) × (handle fresh topic approval cancelled_db ≡ ok (out, db))
unfolding cancel_order handle reserved_run to_lower_case
approval_run = (_, _, refl)

cancel_order-holds_approval_example :
    (approval_run.1.orders ≡ cancelled_db.orders)
    × (approval_run.1.outbox ≡ cancelled_db.outbox)
    × ((approval_run.0 ≡ duplicate)
        ⊎ ((approval_run.0 ≡ processed (some release_credit))
            × ((row : CommandRow) × (row.command ≡ release_credit)
                × (row.order_id ≡ reserved_run.0.id)
                × (approval_run.1.saga_commands ≡ enqueue row cancelled_db.saga_commands))))
unfolding cancel_order reserved_run to_lower_case
cancel_order-holds_approval_example =
    cancel_order-holds_approval fast_path fresh (codes "orders") reserved_run.0 reserved_world refl
      refl cancelled_db none_yet fresh topic approval reserved_run.0 refl refl refl refl
      approval_run.2
