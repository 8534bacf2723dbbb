-- ===== src/Saga/Handler/Progress.antt =====
-- A credit approval that meets an accepted cancellation (saga-fact-handler.ts), and transitions along
-- the edges of the table.
use order_to_cash_nestjs.Kernel.UniqueId.{unique_id, to_lower_case, unique_id-value}
use order_to_cash_nestjs.Orders.Order.Commands.Invariant.{transition_to-ok}
use order_to_cash_nestjs.Errors.{order_transition_not_allowed}
use order_to_cash_nestjs.Saga.Commands.{
  CommandRow, enqueue, build_saga_command_payload, to_release_credit,
}
use order_to_cash_nestjs.Orders.Transitions.Edges.{◌⟶◌, edge-find_transition}
use order_to_cash_nestjs.Orders.Order.Commands.{Build, transition_to, emit, patch_reason}
use order_to_cash_nestjs.Orders.Order.Aggregate.{Order}
use order_to_cash_nestjs.Saga.Steps.{Fact, credit_approved_v1, release_credit, step_variants_for}
use order_to_cash_nestjs.Kernel.Envelope.{Context}
use order_to_cash_nestjs.Orders.Status.{OrderStatus, CancellationReason}
use order_to_cash_nestjs.Saga.Handler.{
  handle, run_once, Database, Outcome, find_by_id, late_for_an_accepted_cancel, duplicate,
  processed, work_on, nothing_to_do, owe, row_for, work, is_credit_approved_v1,
}
use order_to_cash_nestjs.Base.{
  ℕ, ◌≡◌, refl, sym, true, false, Option, none, some, any, Bool-cases, inl, inr, ◌⊎◌, ◌&&◌,
}
use order_to_cash_nestjs.Base.Text.{Text, ◌=t◌}
use order_to_cash_nestjs.Result.{ok, err, ok-injective, bind-ok, Result}
use order_to_cash_nestjs.Saga.Handler.Repeats.{marked_database}

-- A release that is owed is a new row, and nothing else.
owe-release :
    (id topic : Text) (order : Order) (fact : Fact) (db : Database) {out : Outcome} {db' : Database}
    → owe id topic release_credit order fact db ≡ ok (out, db')
    → (event_id : Text) × (◌≡◌ {A = Result (Outcome × Database)}
        (ok (
          processed (some release_credit),
          record db {
            saga_commands =
                enqueue
                  (row_for db.now id topic event_id order fact release_credit (
                    to_release_credit order.order_reference order.retailer_code order.company_code))
                  db.saga_commands;
          },
        ))
        (ok (out, db')))
unfolding owe build_saga_command_payload
owe-release id topic order fact db h =
    let (event_id, valid, h1) = bind-ok (unique_id fact.event_id) _ h in (event_id, h1)

late_work :
    (ids : ℕ → Text) (topic correlation_id : Text) (fact : Fact) (order : Order) (tx : Database)
    {out : Outcome} {db' : Database}
    → fact.event_type ≡ credit_approved_v1
    → late_for_an_accepted_cancel order tx ≡ true
    → work_on (some order) ids topic correlation_id fact tx ≡ ok (out, db')
    → owe (ids 1) topic release_credit order fact tx ≡ ok (out, db')
unfolding work_on
late_work ids topic correlation_id fact order tx type late h =
    let test : (is_credit_approved_v1 fact.event_type && late_for_an_accepted_cancel order tx)
        ≡ true =
      rw (type, late) refl in
    rw test at h

consumed :
    (fact : Fact)
    → fact.event_type ≡ credit_approved_v1
    → nothing_to_do (step_variants_for fact.event_type) ≡ false
unfolding nothing_to_do step_variants_for
consumed fact type = rw type refl

-- The branch of the handler for an approval that is late: it changes no order and sends nothing; it is
-- a duplicate, or owes a release of the credit.
pub handle-late_approval :
    (ids : ℕ → Text) (topic : Text) (fact : Fact) (order : Order) (db : Database) {out : Outcome}
    {db' : Database}
    → fact.event_type ≡ credit_approved_v1
    → find_by_id (to_lower_case fact.correlation_id) db.orders ≡ some order
    → late_for_an_accepted_cancel order db ≡ true
    → handle ids topic fact db ≡ ok (out, db')
    → (db'.orders ≡ db.orders)
      × (db'.outbox ≡ db.outbox)
      × ((out ≡ duplicate)
          ⊎ ((out ≡ processed (some release_credit))
              × ((row : CommandRow) × (row.command ≡ release_credit)
                  × (row.order_id ≡ order.id)
                  × (db'.saga_commands ≡ enqueue row db.saga_commands))))
unfolding handle run_once work
handle-late_approval ids topic fact order db {out} {db'} type found late h =
    let h1 = rw (consumed fact type) at h in
    elim (Bool-cases (any (λ x. x =t fact.event_id) db.processed_events)) [
      | inl before ↦
          let h2 = rw before at h1 in
          (
            (λ i. (ok-injective (sym h2) i).1.orders),
            (λ i. (ok-injective (sym h2) i).1.outbox),
            inl (λ i. (ok-injective (sym h2) i).0),
          )
      | inr first ↦
          let tx = marked_database fact.event_id db in
          let (correlation_id, valid, h3) =
            bind-ok (unique_id fact.correlation_id) _ (rw first at h1) in
          let found' : find_by_id correlation_id db.orders ≡ some order =
            rw (unique_id-value fact.correlation_id valid) found in
          let owed =
            late_work ids topic correlation_id fact order tx type
              (unfold late_for_an_accepted_cancel in late) (rw found' at h3) in
          let (event_id, h4) = owe-release (ids 1) topic order fact tx owed in
          let row =
            row_for tx.now (ids 1) topic event_id order fact release_credit
              (to_release_credit order.order_reference order.retailer_code order.company_code) in
          (
            (λ i. (ok-injective (sym h4) i).1.orders),
            (λ i. (ok-injective (sym h4) i).1.outbox),
            inr (
              (λ i. (ok-injective (sym h4) i).0),
              (row, refl, refl, λ i. (ok-injective (sym h4) i).1.saga_commands),
            ),
          )
    ]

-- A transition along an edge of the table does not throw, and keeps the lines.
pub transition_to-runs :
    (to : OrderStatus) (ctx : Context) (patch : Option CancellationReason) (build : Option Build)
    (o : Order)
    → o.status ⟶ to
    → (o' : Order) × (transition_to to ctx patch build o ≡ ok o')
      × (o'.status ≡ to)
      × (o'.lines ≡ o.lines)
transition_to-runs to ctx patch build o edge =
    let (t, found, emits) = edge-find_transition edge in
    let run : transition_to to ctx patch build o
        ≡ ok (emit t.emits build ctx (patch_reason patch (record o { status = to }))) =
      unfold transition_to in
      λ i. elim (found i) [
        | none ↦ err (order_transition_not_allowed o.id o.status to)
        | some t ↦ ok (emit t.emits build ctx (patch_reason patch (record o { status = to })))
      ] in
    let (edge', reached, same, reason, events) = transition_to-ok to ctx patch build o run in
    (_, run, reached, same.same_lines)
