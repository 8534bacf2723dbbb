-- ===== src/Saga/Sweep/Cycle.antt =====
-- The loop of `runCycle` (saga-command-sweeper.service.ts) over the claimed rows.
use order_to_cash_nestjs.Saga.Sweep.Delivery.{
  IsDelivered, dispatch-delivers, IsDelivered-later, calls-OneEach,
}
use order_to_cash_nestjs.Saga.Commands.Unique.{OneEach}
use order_to_cash_nestjs.Saga.Dispatch.Attempts.{ResolvesWithin}
use order_to_cash_nestjs.Saga.Dispatch.Outcomes.{rows_of, dispatch-StoreCalls}
use order_to_cash_nestjs.Saga.Store.{claim_due, is_due}
use order_to_cash_nestjs.Saga.Dispatch.{DispatcherConfig, World}
use order_to_cash_nestjs.Saga.Commands.{CommandRow}
use order_to_cash_nestjs.Saga.Sweep.{dispatch_each, run_cycle, SweeperConfig, Weather}
use order_to_cash_nestjs.Base.{
  List, Bool, ℕ, ◌∷◌, length, filter, ◌+◌, [], ◌≤◌, take, ◌≡◌, suc, true, arith, sym, zero, ap,
  refl, ◌∙◌, Bool-cases, inl, inr,
}
use mathlib.Core.List.{Memᴰ}
use order_to_cash_nestjs.Saga.Store.Lives.{
  StoreCalls, none_yet, then_call, Becomes, Becomes-refl, calls-Becomes, Becomes-trans,
}

calls_trans : {a b c : List CommandRow} → StoreCalls a b → StoreCalls b c → StoreCalls a c
calls_trans p none_yet = p
calls_trans p (then_call q call) = then_call (calls_trans p q) call

each-calls :
    (config : DispatcherConfig) (weather : ℕ → Weather) (k : ℕ) (claimed : List CommandRow)
    (w : World)
    → StoreCalls (rows_of w) (rows_of (dispatch_each config weather k claimed w))
unfolding dispatch_each
each-calls config weather k [] w = none_yet
each-calls config weather k (row ∷ claimed) w =
    calls_trans
      (dispatch-StoreCalls config (weather k).attempts (weather k).now (weather k).dlq_up
        (weather k).event_id row.order_id row.command w)
      (each-calls config weather (k + 1) claimed _)

-- A claimed row, which dispatches of other rows have made `r`, is delivered.
each-delivers :
    (config : DispatcherConfig) (weather : ℕ → Weather) (k : ℕ) (claimed : List CommandRow)
    (x r : CommandRow) (w : World)
    → ((j : ℕ) → ResolvesWithin config.max_attempts (weather j).attempts 0)
    → OneEach (rows_of w)
    → Memᴰ x claimed
    → Becomes x r
    → Memᴰ r (rows_of w)
    → IsDelivered r (rows_of (dispatch_each config weather k claimed w))
unfolding dispatch_each
each-delivers config weather k [] x r w answers one c b m = elim c [ ]
each-delivers config weather k (row ∷ claimed) x r w answers one (Memᴰ.head e) b m =
    let first = dispatch-delivers config (weather k) r w (answers k) one m in
    IsDelivered-later r (each-calls config weather (k + 1) claimed _) (
      rw
        (
          sym (ap (λ (y : CommandRow). y.order_id) e),
          sym b.same_order,
          sym (ap (λ (y : CommandRow). y.command) e),
          sym b.same_command,
        )
        first)
each-delivers config weather k (row ∷ claimed) x r w answers one (Memᴰ.tail c) b m =
    let calls =
      dispatch-StoreCalls config (weather k).attempts (weather k).now (weather k).dlq_up
        (weather k).event_id row.order_id row.command w in
    let (r1, m1, b1) = calls-Becomes r calls m in
    let (r2, m2, b2, s) =
      each-delivers config weather (k + 1) claimed x r1 _ answers (calls-OneEach calls one) c
        (Becomes-trans x r r1 b b1) m1 in
    (r2, m2, Becomes-trans r r1 r2 b1 b2, s)

take-all : (n : ℕ) (xs : List CommandRow) → length xs ≤ n → take n xs ≡ xs
take-all zero [] h = refl
take-all (suc n) [] h = refl
take-all zero (x ∷ xs) h = absurd (omega (arith, h))
take-all (suc n) (x ∷ xs) h = rw (take-all n xs (omega (arith, h))) refl

Memᴰ-filter :
    (p : CommandRow → Bool) (r : CommandRow) (rows : List CommandRow)
    → Memᴰ r rows
    → p r ≡ true
    → Memᴰ r (filter p rows)
Memᴰ-filter p r [] m h = elim m [ ]
Memᴰ-filter p r (x ∷ rows) (Memᴰ.head e) h = rw (sym (ap p e) ∙ h) (Memᴰ.head e)
Memᴰ-filter p r (x ∷ rows) (Memᴰ.tail m) h = elim (Bool-cases (p x)) [
  | inl e ↦ rw e (Memᴰ.tail (Memᴰ-filter p r rows m h))
  | inr e ↦ rw e (Memᴰ-filter p r rows m h)
]

-- If the owed commands have one row at most for each order and command, the due rows fit into one
-- batch, and whatever the sweeper asks is answered within `maxAttempts` attempts, each before it
-- failing without a business rejection, then after a cycle every row that was due is still there
-- with its id, order, command and payload, and is sent.
pub run_cycle-delivers :
    (config : DispatcherConfig) (sweeper : SweeperConfig) (weather : ℕ → Weather) (now : ℕ)
    (r : CommandRow) (w : World)
    → OneEach w.db.saga_commands
    → ((j : ℕ) → ResolvesWithin config.max_attempts (weather j).attempts 0)
    → length (filter (is_due now sweeper.pending_grace_ms) w.db.saga_commands) ≤ sweeper.batch_limit
    → Memᴰ r w.db.saga_commands
    → is_due now sweeper.pending_grace_ms r ≡ true
    → IsDelivered r (run_cycle config sweeper weather now w).db.saga_commands
unfolding run_cycle claim_due
run_cycle-delivers config sweeper weather now r w one answers few m due =
    rw
      (take-all sweeper.batch_limit
        (filter (is_due now sweeper.pending_grace_ms) w.db.saga_commands) few)
      (each-delivers config weather 0
        (filter (is_due now sweeper.pending_grace_ms) w.db.saga_commands) r r w answers one
        (Memᴰ-filter _ r w.db.saga_commands m due) (Becomes-refl r) m)
