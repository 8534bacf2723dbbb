-- ===== src/Orders/Order/Commands/StateMachine.antt =====
-- The life of an order as the steps of its methods: what holds at every reachable order.
use order_to_cash_nestjs.Orders.Order.Commands.LineEdits.{
  add_line-IsOrder, remove_line-IsOrder, change_line_quantity-IsOrder,
}
use mathlib.Core.Path.{subst}
use order_to_cash_nestjs.Orders.Order.Line.{LineInput}
use order_to_cash_nestjs.Orders.Transitions.{find_transition}
use order_to_cash_nestjs.Orders.Order.Commands.Invariant.{
  place-IsOrder, Moves, transition_to-ok, transition_to-IsOrder,
}
use order_to_cash_nestjs.Orders.Transitions.Edges.{◌⟶◌, reserve}
use order_to_cash_nestjs.Result.{ok}
use order_to_cash_nestjs.Kernel.Envelope.{Context}
use order_to_cash_nestjs.Orders.Order.Events.{CompensationStep, SagaFailure}
use order_to_cash_nestjs.Base.Text.{Text}
use order_to_cash_nestjs.Orders.Order.Commands.{
  mark_stock_reserved, approve_credit, Build, lines_mutable_in, confirm, PlaceOrderInput, cancel,
  mark_despatched, place, transition_to, mark_invoiced, mark_paid, complete, record_saga_failure,
  add_line, remove_line, change_line_quantity,
}
use order_to_cash_nestjs.Orders.Order.Aggregate.{Order, IsOrder, order_cancelled_event}
use order_to_cash_nestjs.Orders.Status.{
  CancellationReason, OrderStatus, status_eq, placed, stock_reserved, stock_rejected, cancelled,
  credit_rejected, operator_cancelled, completed,
}
use order_to_cash_nestjs.Base.{
  ℕ, ◌≡◌, refl, Bool, true, false, List, Option, none, some, arith, is_some, inr, ◌⊎◌, inl,
  Option-cases, ap, ◌∙◌,
}

-- OA4: the statuses that each reason may cancel from.
abbrev pub applies : CancellationReason → OrderStatus → Bool
applies stock_rejected s = status_eq s placed
applies credit_rejected s = status_eq s stock_reserved
applies operator_cancelled s = true

pub cancel-ok :
    (reason : CancellationReason) (event_id : Text) (ctx : Context) (steps : List CompensationStep)
    (o : Order) {o' : Order}
    → cancel reason event_id ctx steps o ≡ ok o'
    → (applies reason o.status ≡ true)
      × (transition_to cancelled ctx
            (some reason)
            (some (order_cancelled_event reason steps event_id))
            o
          ≡ ok o')
cancel-ok reason event_id ctx steps o h =
    unfold cancel in
    elim (Option-cases (find_transition o.status cancelled)) [
      | inl missing ↦ ground arith
      | inr (t, e) ↦ ground arith
    ]

-- One call of a method that did not throw.
pub data Change (o o' : Order) : Type 0 where
  reserving : (ctx : Context) → mark_stock_reserved ctx o ≡ ok o' → Change o o'
  approving : (ctx : Context) → approve_credit ctx o ≡ ok o' → Change o o'
  confirming : (id : Text) (ctx : Context) → confirm id ctx o ≡ ok o' → Change o o'
  despatching : (ctx : Context) → mark_despatched ctx o ≡ ok o' → Change o o'
  invoicing : (ctx : Context) → mark_invoiced ctx o ≡ ok o' → Change o o'
  paying : (ctx : Context) → mark_paid ctx o ≡ ok o' → Change o o'
  completing : (id : Text) (ctx : Context) → complete id ctx o ≡ ok o' → Change o o'
  cancelling :
      (reason : CancellationReason) (id : Text) (ctx : Context) (steps : List CompensationStep)
      → cancel reason id ctx steps o ≡ ok o'
      → Change o o'
  failing :
      (failure : SagaFailure) (id : Text) (ctx : Context)
      → record_saga_failure failure id ctx o ≡ o'
      → Change o o'
  adding : (id : Text) (input : LineInput) → add_line id input o ≡ ok o' → Change o o'
  removing : (id : Text) → remove_line id o ≡ ok o' → Change o o'
  requantifying :
      (id : Text) (quantity : ℕ) → change_line_quantity id quantity o ≡ ok o' → Change o o'

-- What one call may do to an order that satisfies the invariant: keep it, and follow an edge of
-- Table T-1 with the lines and totals as they were, or stay in its status, where lines change only
-- in a mutable one.
pub record Lawful (o o' : Order) : Type 0 where
  pub invariant : IsOrder o'
  pub moves :
      ((o.status ⟶ o'.status) × Moves o o')
      ⊎ ((o'.status ≡ o.status) × ((lines_mutable_in o.status ≡ true) ⊎ Moves o o'))

transition-Lawful :
    (to : OrderStatus) (ctx : Context) (patch : Option CancellationReason) (build : Option Build)
    (o : Order) {o' : Order}
    → is_some patch ≡ status_eq to cancelled
    → transition_to to ctx patch build o ≡ ok o'
    → IsOrder o
    → Lawful o o'
transition-Lawful to ctx patch build o {o'} fits h v =
    let (edge, reached, same, reason, events) = transition_to-ok to ctx patch build o h in
    record {
      invariant = transition_to-IsOrder to ctx patch build o fits h v;
      moves = inl (rw reached edge, same);
    }

edit-Lawful :
    (o : Order) {o' : Order}
    → IsOrder o'
      × (o'.status ≡ o.status)
      × (lines_mutable_in o.status ≡ true)
      × (o'.domain_events ≡ o.domain_events)
    → Lawful o o'
edit-Lawful o (valid, status, open_, events) = record {
  invariant = valid;
  moves = inr (status, inl open_);
}

failure-Lawful :
    (failure : SagaFailure) (id : Text) (ctx : Context) (o : Order) {o' : Order}
    → record_saga_failure failure id ctx o ≡ o'
    → IsOrder o
    → Lawful o o'
unfolding record_saga_failure
failure-Lawful failure id ctx o h v =
    subst (λ o'. Lawful o o') h
      (record {
        invariant = record {
          has_lines = v.has_lines;
          one_currency = v.one_currency;
          totals_derived = v.totals_derived;
          reason_iff_cancelled = v.reason_iff_cancelled;
        };
        moves = inr (
          refl,
          inr (record {
            same_id = refl;
            same_currency = refl;
            same_lines = refl;
            same_totals = refl;
          }),
        );
      })

-- A method call on an order that satisfies the invariant, if it does not throw, keeps the
-- invariant; it either follows an edge of Table T-1 with the id, currency, lines and totals as they
-- were, or keeps the status, and then it changes lines or totals only in a status where lines are
-- mutable.
pub Change-Lawful : {o o' : Order} → Change o o' → IsOrder o → Lawful o o'
unfolding mark_stock_reserved approve_credit confirm mark_despatched mark_invoiced mark_paid
    complete
Change-Lawful {o} (reserving ctx h) v = transition-Lawful _ _ none _ o refl h v
Change-Lawful {o} (approving ctx h) v = transition-Lawful _ _ none _ o refl h v
Change-Lawful {o} (confirming id ctx h) v = transition-Lawful _ _ none _ o refl h v
Change-Lawful {o} (despatching ctx h) v = transition-Lawful _ _ none _ o refl h v
Change-Lawful {o} (invoicing ctx h) v = transition-Lawful _ _ none _ o refl h v
Change-Lawful {o} (paying ctx h) v = transition-Lawful _ _ none _ o refl h v
Change-Lawful {o} (completing id ctx h) v = transition-Lawful _ _ none _ o refl h v
Change-Lawful {o} (cancelling reason id ctx steps h) v =
    transition-Lawful _ _ (some reason) _ o refl (cancel-ok reason id ctx steps o h).1 v
Change-Lawful {o} (failing failure id ctx h) v = failure-Lawful failure id ctx o h v
Change-Lawful {o} (adding id input h) v = edit-Lawful o (add_line-IsOrder id input o h v)
Change-Lawful {o} (removing id h) v = edit-Lawful o (remove_line-IsOrder id o h v)
Change-Lawful {o} (requantifying id q h) v = edit-Lawful o (change_line_quantity-IsOrder id q o h v)

-- The orders that come out of `place` and any calls after it.
pub data Reachable : Order → Type 0 where
  placing :
      {o : Order} (fresh : ℕ → Text) (input : PlaceOrderInput) (ctx : Context)
      → place fresh input ctx ≡ ok o
      → Reachable o
  changing : {o o' : Order} → Reachable o → Change o o' → Reachable o'

-- Every order that `place` returned, after any sequence of method calls that did not throw, has a
-- line, every line in its currency, the totals that `computeOrderTotals` derives from its lines,
-- and a cancellation reason exactly when it is cancelled.
pub Reachable-IsOrder : {o : Order} → Reachable o → IsOrder o
Reachable-IsOrder (placing fresh input ctx h) = (place-IsOrder fresh input ctx h).0
Reachable-IsOrder (changing r c) = (Change-Lawful c (Reachable-IsOrder r)).invariant

-- The calls after a given order.
pub data Later (o : Order) : Order → Type 0 where
  now : Later o o
  after : {o' o'' : Order} → Later o o' → Change o' o'' → Later o o''

Later-IsOrder : {o o' : Order} → IsOrder o → Later o o' → IsOrder o'
Later-IsOrder v now = v
Later-IsOrder v (after l c) = (Change-Lawful c (Later-IsOrder v l)).invariant

abbrev pub is_terminal : OrderStatus → Bool
is_terminal completed = true
is_terminal cancelled = true
is_terminal _ = false

edge-not_terminal : {a b : OrderStatus} → a ⟶ b → is_terminal a ≡ false
edge-not_terminal reserve = refl
edge-not_terminal _ = refl

terminal-frozen : (s : OrderStatus) → is_terminal s ≡ true → lines_mutable_in s ≡ false
terminal-frozen s h = ground arith

edge-keeps_frozen :
    {a b : OrderStatus} → a ⟶ b → lines_mutable_in a ≡ false → lines_mutable_in b ≡ false
edge-keeps_frozen reserve h = cc
edge-keeps_frozen _ h = ground arith

-- An order that satisfies the invariant and is completed or cancelled keeps its status, its lines
-- and its totals through any sequence of method calls that do not throw.
pub terminal_for_good :
    {o o' : Order}
    → IsOrder o
    → is_terminal o.status ≡ true
    → Later o o'
    → (o'.status ≡ o.status) × (o'.lines ≡ o.lines) × (o'.totals ≡ o.totals)
terminal_for_good v t now = (refl, refl, refl)
terminal_for_good {o} v t (after {o'} l c) =
    let (status, lines, totals) = terminal_for_good v t l in
    let lawful = Change-Lawful c (Later-IsOrder v l) in
    elim lawful.moves [
      | inl (edge, same) ↦ cc (edge-not_terminal edge, ap is_terminal status)
      | inr (kept, inl open_) ↦ cc (terminal-frozen o'.status (rw status t))
      | inr (kept, inr same) ↦ (kept ∙ status, same.same_lines ∙ lines, same.same_totals ∙ totals)
    ]

-- From an order that satisfies the invariant and is in a status where lines are frozen, no sequence
-- of method calls that do not throw changes its lines or totals or reaches a status where lines are
-- mutable (O4).
pub lines_frozen_for_good :
    {o o' : Order}
    → IsOrder o
    → lines_mutable_in o.status ≡ false
    → Later o o'
    → (lines_mutable_in o'.status ≡ false) × (o'.lines ≡ o.lines) × (o'.totals ≡ o.totals)
lines_frozen_for_good v t now = (t, refl, refl)
lines_frozen_for_good {o} v t (after {o'} l c) =
    let (frozen, lines, totals) = lines_frozen_for_good v t l in
    let lawful = Change-Lawful c (Later-IsOrder v l) in
    elim lawful.moves [
      | inl (edge, same) ↦
          (edge-keeps_frozen edge frozen, same.same_lines ∙ lines, same.same_totals ∙ totals)
      | inr (kept, inl open_) ↦ cc
      | inr (kept, inr same) ↦ (rw kept frozen, same.same_lines ∙ lines, same.same_totals ∙ totals)
    ]
