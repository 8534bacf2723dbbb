-- ===== src/Saga/Cancel/Approval.antt =====
-- An accepted cancellation (cancel-order.handler.ts) and an approval of credit that comes after it
-- (saga-fact-handler.ts).
use order_to_cash_nestjs.Kernel.UniqueId.{to_lower_case}
use order_to_cash_nestjs.Orders.Status.{OrderStatus, status_eq}
use order_to_cash_nestjs.Saga.Handler.Progress.{handle-late_approval}
use mathlib.Core.Path.{subst}
use order_to_cash_nestjs.Saga.Store.Lives.{StoreCalls, calls-Becomes, Becomes-trans}
use order_to_cash_nestjs.Saga.Dispatch.{DispatchOutcome, World, with_rows, dispatch}
use order_to_cash_nestjs.Saga.Steps.{
  release_stock, cancel_requested, Fact, credit_approved_v1, release_credit,
}
use order_to_cash_nestjs.Result.{Result, err, ok}
use order_to_cash_nestjs.Saga.Handler.{
  late_for_an_accepted_cancel, Database, Outcome, find_by_id, handle, duplicate, processed,
}
use order_to_cash_nestjs.Base.Text.{Text, text_eq_refl}
use order_to_cash_nestjs.Base.{
  List, ◌++◌, any, ◌≡◌, ◌∷◌, [], false, ℕ, refl, true, sym, arith, some, ◌⊎◌, ◌∙◌, ap,
}
use order_to_cash_nestjs.Saga.Cancel.{
  cancel_order, begin_stock_release_compensation, Compensation, FastPath, answer_pending,
  stock_reserved, cancel_row, stock_release, credit_held,
}
use order_to_cash_nestjs.Saga.Commands.{CommandRow, enqueue, has_accepted_operator_cancel, clashes}
use order_to_cash_nestjs.Orders.Order.Aggregate.{Order}
use mathlib.Core.List.{Memᴰ}
use order_to_cash_nestjs.Saga.Dispatch.Outcomes.{rows_of, dispatch-StoreCalls}

answer-world :
    (order : Order) (planned : List Compensation) (x : Result DispatchOutcome × World)
    → (answer_pending order planned x).1 ≡ x.1
answer-world order planned (err thrown, w) = refl
answer-world order planned (ok outcome, w) = refl

last : (row : CommandRow) (rows : List CommandRow) → Memᴰ row (rows ++ row ∷ [])
last row [] = Memᴰ.head refl
last row (r ∷ rows) = Memᴰ.tail (last row rows)

enqueued :
    (row : CommandRow) (rows : List CommandRow)
    → any (clashes row) rows ≡ false
    → Memᴰ row (enqueue row rows)
unfolding enqueue
enqueued row rows h = rw h (last row rows)

accepted :
    (order_id : Text) (r : CommandRow) (rows : List CommandRow)
    → Memᴰ r rows
    → r.order_id ≡ order_id
    → r.command ≡ release_stock
    → r.triggering_event_type ≡ cancel_requested
    → has_accepted_operator_cancel order_id rows ≡ true
unfolding has_accepted_operator_cancel
accepted order_id r [] m o c t = elim m [ ]
accepted order_id r (x ∷ rows) (Memᴰ.head e) o c t = rw (sym e, o, c, t, text_eq_refl order_id) refl
accepted order_id r (x ∷ rows) (Memᴰ.tail m) o c t =
    ground (arith, accepted order_id r rows m o c t)

-- An operator cancels an order that the first read finds `stock_reserved`, and the new row clashes
-- with none. After any further calls of the store, a `credit.approved.v1` fact that finds the order
-- still `stock_reserved`, if its handling does not throw, changes no order and sends nothing to the
-- outbox; it is a duplicate, or it owes a `credit.release` for the order.
pub cancel_order-holds_approval :
    (path : FastPath) (ids : ℕ → Text) (topic : Text) (order : Order) (w : World)
    → order.status ≡ stock_reserved
    → any (clashes (cancel_row w.db.now ids topic order)) w.db.saga_commands ≡ false
    → (db : Database)
    → StoreCalls (rows_of (cancel_order path ids topic order.id (some order) w).1) db.saga_commands
    → (ids' : ℕ → Text) (topic' : Text) (fact : Fact) (later : Order) {out : Outcome}
      {db' : Database}
    → fact.event_type ≡ credit_approved_v1
    → find_by_id (to_lower_case fact.correlation_id) db.orders ≡ some later
    → later.id ≡ order.id
    → later.status ≡ stock_reserved
    → handle ids' topic' fact db ≡ ok (out, db')
    → (db'.orders ≡ db.orders)
      × (db'.outbox ≡ db.outbox)
      × ((out ≡ duplicate)
          ⊎ ((out ≡ processed (some release_credit))
              × ((row : CommandRow) × (row.command ≡ release_credit)
                  × (row.order_id ≡ later.id)
                  × (db'.saga_commands ≡ enqueue row db.saga_commands))))
unfolding cancel_order begin_stock_release_compensation late_for_an_accepted_cancel
cancel_order-holds_approval path ids topic order w at free db calls ids' topic' fact later type
      found same still h =
    let row = cancel_row w.db.now ids topic order in
    let owed = with_rows (enqueue row w.db.saga_commands) w in
    let own =
      dispatch-StoreCalls path.config path.attempts w.db.now path.dlq_up path.event_id order.id
        release_stock owed in
    let run =
      dispatch path.config path.attempts w.db.now path.dlq_up path.event_id order.id release_stock
        owed in
    let not_held = ap (λ (x : OrderStatus). credit_held x) at in
    let is_reserved = ap (λ (x : OrderStatus). status_eq x stock_reserved) at in
    let world : (cancel_order path ids topic order.id (some order) w).1 ≡ run.1 =
      rw (not_held, is_reserved) (answer-world order (stock_release ∷ []) run) in
    let (r1, m1, b1) = calls-Becomes row own (enqueued row w.db.saga_commands free) in
    let (r2, m2, b2) =
      calls-Becomes r1 (subst (λ v. StoreCalls (rows_of v) db.saga_commands) world calls) m1 in
    let b = Becomes-trans row r1 r2 b1 b2 in
    let pending_cancel =
      accepted later.id r2 db.saga_commands m2 (b.same_order ∙ sym same) b.same_command
        b.same_trigger in
    handle-late_approval ids' topic' fact later db type found (rw (still, pending_cancel) refl) h
