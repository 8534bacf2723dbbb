-- ===== src/Orders/Transitions/Edges.antt =====
-- Table T-1 as a relation, and what it says of the statuses.
use order_to_cash_nestjs.Orders.Status.{
  OrderStatus, placed, confirmed, stock_reserved, completed, credit_approved, cancelled, despatched,
  invoiced, paid,
}
use order_to_cash_nestjs.Base.{◌≡◌, Option, none, some, arith, refl, ◌↔◌}
use order_to_cash_nestjs.Orders.Transitions.{
  OrdersFactType, confirmed_v1, completed_v1, cancelled_v1, find_transition, OrderTransition,
}

infix 40 ◌⟶◌
pub data ◌⟶◌ : OrderStatus → OrderStatus → Type 0 where
  reserve : placed ⟶ stock_reserved
  approve : stock_reserved ⟶ credit_approved
  confirm : credit_approved ⟶ confirmed
  despatch : confirmed ⟶ despatched
  invoice : despatched ⟶ invoiced
  pay : invoiced ⟶ paid
  complete : paid ⟶ completed
  cancel_placed : placed ⟶ cancelled
  cancel_reserved : stock_reserved ⟶ cancelled
  cancel_approved : credit_approved ⟶ cancelled
  cancel_confirmed : confirmed ⟶ cancelled

pub ruleset edges = (
  reserve, approve, confirm, despatch, invoice, pay, complete, cancel_placed, cancel_reserved,
  cancel_approved, cancel_confirmed,
)

-- The fact that each target status announces.
abbrev pub announced : OrderStatus → Option OrdersFactType
announced confirmed = some confirmed_v1
announced completed = some completed_v1
announced cancelled = some cancelled_v1
announced _ = none

-- A transition that `findTransition` finds between two statuses is one of the eleven edges of the
-- state machine, and emits the fact that its target announces.
pub find_transition-edge :
    (a b : OrderStatus) {t : OrderTransition}
    → find_transition a b ≡ some t
    → (a ⟶ b) × (t.emits ≡ announced b)
unfolding find_transition
find_transition-edge placed b h = grind (arith, edges)
find_transition-edge _ b h = grind (arith, edges)

-- For each of the eleven edges of the state machine `findTransition` finds a transition, which
-- emits the fact that its target announces.
pub edge-find_transition :
    {a b : OrderStatus}
    → a ⟶ b
    → (t : OrderTransition) × (find_transition a b ≡ some t) × (t.emits ≡ announced b)
unfolding find_transition
edge-find_transition reserve = (_, refl, refl)
edge-find_transition _ = (_, refl, refl)

-- `findTransition` finds a transition between two statuses, one that emits the fact that the target
-- announces, exactly if the two are one of the eleven edges of the state machine.
pub find_transition_iff :
    (a b : OrderStatus)
    → ((t : OrderTransition) × (find_transition a b ≡ some t) × (t.emits ≡ announced b)) ↔ (a ⟶ b)
find_transition_iff a b = (λ found. (find_transition-edge a b found.1).0, edge-find_transition)
