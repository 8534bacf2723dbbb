-- ===== src/Saga/Dispatch/Outcomes.antt =====
-- `dispatch` (saga-command-dispatcher.ts) as calls of the store, and the row that it reads.
use mathlib.Core.Path.{subst}
use mathlib.Core.Bool.{true}
use order_to_cash_nestjs.Saga.Steps.{CommandKind, reserve_stock}
use order_to_cash_nestjs.Saga.Store.Lives.{
  StoreCalls, none_yet, then_call, sending, rejecting, claiming, parking,
}
use order_to_cash_nestjs.Saga.Commands.Unique.{OneEach, is_row_of-sym}
use order_to_cash_nestjs.Base.Text.{Text, text_eq_refl}
use order_to_cash_nestjs.Saga.Commands.{CommandRow, is_row_of, kind_eq}
use order_to_cash_nestjs.Orders.Order.Aggregate.{Order}
use order_to_cash_nestjs.Base.{
  List, Option, Bool, ℕ, ◌≡◌, refl, some, Bool-cases, none, false, ◌∷◌, true, inl, find?, inr, sym,
  arith, ◌+◌, [], any,
}
use order_to_cash_nestjs.Saga.Store.{find_by_order_and_command, claim_dead_letter, is_sent, park}
use order_to_cash_nestjs.Saga.Handler.{save, Database, find_by_id}
use order_to_cash_nestjs.Saga.Dispatch.{
  World, record_failure_on, on_first_park, dead_letter_once, settle, dispatch_row, dispatch,
  DispatcherConfig, parked_outcome, Verdict, Attempt, answered, turned_down, run_attempts,
  with_rows, exhausted, park_backoff_ms,
}
use mathlib.Core.List.{Memᴰ}

abbrev pub rows_of : World → List CommandRow
rows_of w = w.db.saga_commands

record_failure_on-rows :
    (o : Option Order) (event_id : Text) (row : CommandRow) (attempts : ℕ) (last_error : Text)
    (now : ℕ) (db : Database)
    → (record_failure_on o event_id row attempts last_error now db).saga_commands ≡ db.saga_commands
unfolding record_failure_on save
record_failure_on-rows none event_id row attempts last_error now db = refl
record_failure_on-rows (some order) event_id row attempts last_error now db = refl

parked-rows :
    (up : Bool) (event_id : Text) (row : CommandRow) (attempts : ℕ) (last_error : Text) (now : ℕ)
    (w : World)
    → rows_of (parked_outcome (on_first_park up event_id row attempts last_error now w)).1
      ≡ rows_of w
unfolding on_first_park
parked-rows false event_id row attempts last_error now w = refl
parked-rows true event_id row attempts last_error now w =
    record_failure_on-rows (find_by_id row.order_id w.db.orders) event_id row attempts last_error
      now w.db

dead_letter_once-calls :
    (parked' up : Bool) (event_id : Text) (row : CommandRow) (total : ℕ) (last_error : Text)
    (now : ℕ) (w : World) {rows : List CommandRow}
    → StoreCalls rows (rows_of w)
    → StoreCalls rows (rows_of (dead_letter_once parked' up event_id row total last_error now w).1)
unfolding dead_letter_once
dead_letter_once-calls false up event_id row total last_error now w c = c
dead_letter_once-calls true up event_id row total last_error now w {rows} c =
    elim (Bool-cases (claim_dead_letter now row.id w.db.saga_commands).0) [
      | inl e ↦ rw e (
          subst (λ rs. StoreCalls rows rs)
            (sym (
              parked-rows up event_id row total last_error now
                (with_rows (claim_dead_letter now row.id w.db.saga_commands).1 w)))
            (then_call c (claiming now row.id)))
      | inr e ↦ rw e (then_call c (claiming now row.id))
    ]

settle-calls :
    (config : DispatcherConfig) (now : ℕ) (up : Bool) (event_id : Text) (row : CommandRow)
    (v : Verdict) (w : World)
    → StoreCalls (rows_of w) (rows_of (settle config now up event_id row v w).1)
unfolding settle
settle-calls config now up event_id row (answered made) w = then_call none_yet (sending now row.id)
settle-calls config now up event_id row (turned_down made message) w =
    then_call none_yet (rejecting row.id (row.attempts + made) message)
settle-calls config now up event_id row (exhausted made last) w =
    let total = row.attempts + made in
    let next = now + park_backoff_ms config total in
    let (was_parked, rows) = park row.id total last next w.db.saga_commands in
    dead_letter_once-calls (park row.id total last next w.db.saga_commands).0 up event_id row total
      last now (with_rows (park row.id total last next w.db.saga_commands).1 w)
      (then_call none_yet (parking row.id total last next))

pub dispatch_row-calls :
    (config : DispatcherConfig) (attempts : ℕ → Attempt) (now : ℕ) (up : Bool) (event_id : Text)
    (o : Option CommandRow) (w : World)
    → StoreCalls (rows_of w) (rows_of (dispatch_row config attempts now up event_id o w).1)
unfolding dispatch_row
dispatch_row-calls config attempts now up event_id none w = none_yet
dispatch_row-calls config attempts now up event_id (some row) w =
    elim (Bool-cases (is_sent row.status)) [
      | inl e ↦ rw e none_yet
      | inr e ↦ rw e (
          settle-calls config now up event_id row
            (run_attempts config attempts config.max_attempts 0 []).0 w)
    ]

-- A dispatch changes the table by calls of the store alone.
pub dispatch-StoreCalls :
    (config : DispatcherConfig) (attempts : ℕ → Attempt) (now : ℕ) (up : Bool)
    (event_id order_id : Text) (command : CommandKind) (w : World)
    → StoreCalls
        (rows_of w)
        (rows_of (dispatch config attempts now up event_id order_id command w).1)
unfolding dispatch
dispatch-StoreCalls config attempts now up event_id order_id command w =
    dispatch_row-calls config attempts now up event_id
      (find_by_order_and_command order_id command w.db.saga_commands) w

kind_eq_refl : (k : CommandKind) → kind_eq k k ≡ true
kind_eq_refl reserve_stock = refl
kind_eq_refl _ = refl

missed :
    (x r : CommandRow) (rows : List CommandRow)
    → any (is_row_of x.order_id x.command) rows ≡ false
    → Memᴰ r rows
    → is_row_of x.order_id x.command r ≡ false
missed x r [] a m = elim m [ ]
missed x r (y ∷ rows) a (Memᴰ.head e) = rw e (ground (arith, a))
missed x r (y ∷ rows) a (Memᴰ.tail m) = missed x r rows (ground (arith, a)) m

own :
    (y : CommandRow) (rows : List CommandRow)
    → find? (is_row_of y.order_id y.command) (y ∷ rows) ≡ some y
own y rows = ground (arith, text_eq_refl y.order_id, kind_eq_refl y.command)

-- The row of an order and a command is the one that is found.
pub found :
    (r : CommandRow) (rows : List CommandRow)
    → OneEach rows
    → Memᴰ r rows
    → find_by_order_and_command r.order_id r.command rows ≡ some r
unfolding find_by_order_and_command
found r [] h m = elim m [ ]
found r (x ∷ rows) h (Memᴰ.head e) =
    subst (λ y. find? (is_row_of y.order_id y.command) (x ∷ rows) ≡ some y) (sym e) (own x rows)
found r (x ∷ rows) h (Memᴰ.tail m) =
    ground (arith, is_row_of-sym x r (missed x r rows h.0 m), found r rows h.1 m)
