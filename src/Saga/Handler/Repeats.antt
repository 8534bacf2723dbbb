-- ===== src/Saga/Handler/Repeats.antt =====
-- A fact that is delivered again (saga-fact-handler.ts, idempotent-consumer.ts).
use order_to_cash_nestjs.Errors.{DomainError}
use order_to_cash_nestjs.Kernel.UniqueId.{unique_id}
use mathlib.Core.Path.{subst}
use order_to_cash_nestjs.Orders.Order.Commands.{cancel}
use order_to_cash_nestjs.Saga.Commands.{build_saga_command_payload, CommandRow, enqueue}
use order_to_cash_nestjs.Orders.Order.Aggregate.{Order}
use order_to_cash_nestjs.Saga.Steps.{
  CommandKind, Fact, ActiveStep, transition_context_from, step_variants_for, release_credit,
  step_for_status,
}
use order_to_cash_nestjs.Saga.Handler.{
  owe, run_step, dispatch_step, work_on, run_once, handle, save, record_ignored, Database, Outcome,
  advance, is_credit_approved_v1, nothing_to_do, cancel_with, late_for_an_accepted_cancel,
  duplicate, find_by_id, row_for, Marker, precondition_unmet, unknown_order, work,
}
use order_to_cash_nestjs.Base.{
  ℕ, ◌≡◌, refl, sym, ◌∙◌, ap, true, false, List, [], ◌∷◌, ◌++◌, Option, none, some, any, arith,
  Bool-cases, inl, inr, ◌&&◌, ◌⊎◌,
}
use order_to_cash_nestjs.Base.Text.{Text, ◌=t◌, text_eq_refl}
use order_to_cash_nestjs.Result.{Result, ok, ok-injective, bind-ok, err}

-- What every piece of work leaves: the marks of processed facts as they were, and at most one more
-- owed command, through `enqueue`.
pub record Worked (db db' : Database) : Type 0 where
  pub same_marks : db'.processed_events ≡ db.processed_events
  pub rows :
      (db'.saga_commands ≡ db.saga_commands)
      ⊎ ((row : CommandRow) × (db'.saga_commands ≡ enqueue row db.saga_commands))

owe-Worked :
    (id topic : Text) (command : CommandKind) (order : Order) (fact : Fact) (db : Database)
    {out : Outcome} {db' : Database}
    → owe id topic command order fact db ≡ ok (out, db')
    → Worked db db'
unfolding owe
owe-Worked id topic command order fact db h =
    let (payload, built, h0) = bind-ok (build_saga_command_payload command order fact) _ h in
    let (event_id, valid, h1) = bind-ok (unique_id fact.event_id) _ h0 in
    record {
      same_marks = λ i. (ok-injective (sym h1) i).1.processed_events;
      rows = inr (
        row_for db.now id topic event_id order fact command payload,
        λ i. (ok-injective (sym h1) i).1.saga_commands,
      );
    }

after_save : (order : Order) (db db' : Database) → Worked (save order db) db' → Worked db db'
unfolding save
after_save order db db' w = record { same_marks = w.same_marks; rows = w.rows }

run_step-Worked :
    (step : ActiveStep) (ids : ℕ → Text) (topic : Text) (order : Order) (fact : Fact)
    (db : Database) {out : Outcome} {db' : Database}
    → run_step step ids topic order fact db ≡ ok (out, db')
    → Worked db db'
unfolding run_step
run_step-Worked (advance status apply none) ids topic order fact db {out} {db'} h =
    let (ctx, valid, h0) = bind-ok (transition_context_from fact) _ h in
    let (after, applied, h1) = bind-ok (apply (ids 0) ctx order) _ h0 in
    after_save after db db' (record {
      same_marks = λ i. (ok-injective (sym h1) i).1.processed_events;
      rows = inl (λ i. (ok-injective (sym h1) i).1.saga_commands);
    })
run_step-Worked (advance status apply (some command)) ids topic order fact db {out} {db'} h =
    let (ctx, valid, h0) = bind-ok (transition_context_from fact) _ h in
    let (after, applied, h1) = bind-ok (apply (ids 0) ctx order) _ h0 in
    after_save after db db' (owe-Worked (ids 1) topic command after fact (save after db) h1)
run_step-Worked (cancel_with status reason steps) ids topic order fact db {out} {db'} h =
    let (ctx, valid, h0) = bind-ok (transition_context_from fact) _ h in
    let (why, mapped, h1) = bind-ok (reason fact) _ h0 in
    let (after, applied, h2) = bind-ok (cancel why (ids 0) ctx (steps fact) order) _ h1 in
    after_save after db db' (record {
      same_marks = λ i. (ok-injective (sym h2) i).1.processed_events;
      rows = inl (λ i. (ok-injective (sym h2) i).1.saga_commands);
    })

record_ignored-Worked :
    (marker : Marker) (order : Option Order) (correlation_id : Text) (fact : Fact) (db : Database)
    {out : Outcome} {db' : Database}
    → record_ignored marker order correlation_id fact db ≡ ok (out, db')
    → Worked db db'
unfolding record_ignored
record_ignored-Worked marker order correlation_id fact db h =
    let (event_id, valid, h1) = bind-ok (unique_id fact.event_id) _ h in
    record {
      same_marks = λ i. (ok-injective (sym h1) i).1.processed_events;
      rows = inl (λ i. (ok-injective (sym h1) i).1.saga_commands);
    }

dispatch_step-Worked :
    (step : Option ActiveStep) (ids : ℕ → Text) (topic correlation_id : Text) (order : Order)
    (fact : Fact) (db : Database) {out : Outcome} {db' : Database}
    → dispatch_step step ids topic correlation_id order fact db ≡ ok (out, db')
    → Worked db db'
unfolding dispatch_step
dispatch_step-Worked none ids topic correlation_id order fact db h =
    record_ignored-Worked precondition_unmet (some order) correlation_id fact db h
dispatch_step-Worked (some step) ids topic correlation_id order fact db h =
    run_step-Worked step ids topic order fact db h

work_on-Worked :
    (found : Option Order) (ids : ℕ → Text) (topic correlation_id : Text) (fact : Fact)
    (db : Database) {out : Outcome} {db' : Database}
    → work_on found ids topic correlation_id fact db ≡ ok (out, db')
    → Worked db db'
unfolding work_on
work_on-Worked none ids topic correlation_id fact db h =
    record_ignored-Worked unknown_order none correlation_id fact db h
work_on-Worked (some order) ids topic correlation_id fact db h =
    elim (Bool-cases
      (is_credit_approved_v1 fact.event_type && late_for_an_accepted_cancel order db)) [
        | inl late ↦ owe-Worked (ids 1) topic release_credit order fact db (rw late at h)
        | inr other ↦
            dispatch_step-Worked (step_for_status fact.event_type order.status) ids topic
              correlation_id order fact db (rw other at h)
      ]

work-Worked :
    (ids : ℕ → Text) (topic : Text) (fact : Fact) (db : Database) {out : Outcome} {db' : Database}
    → work ids topic fact db ≡ ok (out, db')
    → Worked db db'
unfolding work
work-Worked ids topic fact db h =
    let (correlation_id, valid, h1) = bind-ok (unique_id fact.correlation_id) _ h in
    work_on-Worked (find_by_id correlation_id db.orders) ids topic correlation_id fact db h1

marked : (id : Text) (ids : List Text) → any (λ x. x =t id) (ids ++ id ∷ []) ≡ true
marked id [] = ground (arith, text_eq_refl id)
marked id (x ∷ xs) = ground (arith, marked id xs)

abbrev pub marked_database : Text → Database → Database
marked_database id db = record db { processed_events = db.processed_events ++ id ∷ [] }

-- Either the fact was there before and nothing changes, or the work was done after the mark.
run_once-Worked :
    (id : Text) (work : Database → Result (Outcome × Database)) (db : Database) {out : Outcome}
    {db' : Database}
    → ((tx : Database) (o : Outcome) (tx' : Database) → work tx ≡ ok (o, tx') → Worked tx tx')
    → run_once id work db ≡ ok (out, db')
    → ((any (λ x. x =t id) db.processed_events ≡ true) × (db' ≡ db))
      ⊎ Worked (marked_database id db) db'
unfolding run_once
run_once-Worked id work db {out} {db'} works h =
    elim (Bool-cases (any (λ x. x =t id) db.processed_events)) [
      | inl before ↦ let h' = rw before at h in inl (before, λ i. (ok-injective (sym h') i).1)
      | inr first ↦ inr (works (marked_database id db) out db' (rw first at h))
    ]

handle-Worked :
    (ids : ℕ → Text) (topic : Text) (fact : Fact) (db : Database) {out : Outcome} {db' : Database}
    → nothing_to_do (step_variants_for fact.event_type) ≡ false
    → handle ids topic fact db ≡ ok (out, db')
    → ((any (λ x. x =t fact.event_id) db.processed_events ≡ true) × (db' ≡ db))
      ⊎ Worked (marked_database fact.event_id db) db'
unfolding handle
handle-Worked ids topic fact db consumed h =
    run_once-Worked fact.event_id (work ids topic fact) db
      (λ tx o tx' e. work-Worked ids topic fact tx e) (rw consumed at h)

-- Handlings of any facts, one after the other, from a database to a database. One that throws is
-- rolled back.
pub data Handlings : Database → Database → Type 0 where
  no_more : {db : Database} → Handlings db db
  returned :
      {db db' db'' : Database} {out : Outcome} (ids : ℕ → Text) (topic : Text) (fact : Fact)
      → handle ids topic fact db ≡ ok (out, db')
      → Handlings db' db''
      → Handlings db db''
  threw :
      {db db' : Database} {thrown : DomainError} (ids : ℕ → Text) (topic : Text) (fact : Fact)
      → handle ids topic fact db ≡ err thrown
      → Handlings db db'
      → Handlings db db'

abbrev IsMarked : Text → Database → Type 0
IsMarked id db = any (λ x. x =t id) db.processed_events ≡ true

handle-skip :
    (ids : ℕ → Text) (topic : Text) (fact : Fact) (db : Database) {out : Outcome} {db' : Database}
    → nothing_to_do (step_variants_for fact.event_type) ≡ true
    → handle ids topic fact db ≡ ok (out, db')
    → db ≡ db'
unfolding handle
handle-skip ids topic fact db skipped h = let h' = rw skipped at h in λ i. (ok-injective h' i).1

marked-more :
    (id other : Text) (ids : List Text)
    → any (λ x. x =t id) ids ≡ true
    → any (λ x. x =t id) (ids ++ other ∷ []) ≡ true
marked-more id other [] h = cc
marked-more id other (x ∷ xs) h = ground (arith, marked-more id other xs)

-- The mark of a fact stays through the handling of any other.
handle-IsMarked :
    (id : Text) (ids : ℕ → Text) (topic : Text) (fact : Fact) (db : Database) {out : Outcome}
    {db' : Database}
    → handle ids topic fact db ≡ ok (out, db')
    → IsMarked id db
    → IsMarked id db'
handle-IsMarked id ids topic fact db {out} {db'} h m =
    elim (Bool-cases (nothing_to_do (step_variants_for fact.event_type))) [
      | inl skipped ↦ subst (IsMarked id) (handle-skip ids topic fact db skipped h) m
      | inr consumed ↦ elim (handle-Worked ids topic fact db consumed h) [
        | inl (before, same) ↦ subst (IsMarked id) (sym same) m
        | inr w ↦
            ap (any (λ x. x =t id)) w.same_marks
            ∙ marked-more id fact.event_id db.processed_events m
      ]
    ]

Handlings-IsMarked :
    (id : Text) {db db' : Database} → Handlings db db' → IsMarked id db → IsMarked id db'
Handlings-IsMarked id no_more m = m
Handlings-IsMarked id (returned {db} ids topic fact h later) m =
    Handlings-IsMarked id later (handle-IsMarked id ids topic fact db h m)
Handlings-IsMarked id (threw ids topic fact h later) m = Handlings-IsMarked id later m

handle-IsMarked_own :
    (ids : ℕ → Text) (topic : Text) (fact : Fact) (db : Database) {out : Outcome} {db' : Database}
    → nothing_to_do (step_variants_for fact.event_type) ≡ false
    → handle ids topic fact db ≡ ok (out, db')
    → IsMarked fact.event_id db'
handle-IsMarked_own ids topic fact db consumed h =
    elim (handle-Worked ids topic fact db consumed h) [
      | inl (before, same) ↦ subst (IsMarked fact.event_id) (sym same) before
      | inr w ↦
          ap (any (λ x. x =t fact.event_id)) w.same_marks ∙ marked fact.event_id db.processed_events
    ]

-- A fact of a type that the saga consumes, once its handling returned, is answered `duplicate` on
-- every further delivery, whatever other facts were handled in between, with or without a throw,
-- and the database stays as it is (R18).
pub handle-again :
    (ids ids' : ℕ → Text) (topic topic' : Text) (fact : Fact) (db : Database) {out : Outcome}
    {db' later : Database}
    → nothing_to_do (step_variants_for fact.event_type) ≡ false
    → handle ids topic fact db ≡ ok (out, db')
    → Handlings db' later
    → handle ids' topic' fact later ≡ ok (duplicate, later)
unfolding handle run_once
handle-again ids ids' topic topic' fact db consumed h between =
    rw
      (
        consumed,
        Handlings-IsMarked fact.event_id between (handle-IsMarked_own ids topic fact db consumed h),
      )
      refl
