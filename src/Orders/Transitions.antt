-- ===== src/Orders/Transitions.antt =====
-- apps/orders/src/domain/order-transitions.ts: Table T-1 as data, and the lookup that every status
-- change goes through. The `trigger` column, a text for messages, is left out.
pub mod Edges
use order_to_cash_nestjs.Base.{Bool, false, ◌&&◌, List, [], ◌∷◌, Option, none, some, if◌then◌else◌}
use order_to_cash_nestjs.Orders.Status.{
  OrderStatus, placed, stock_reserved, credit_approved, confirmed, despatched, invoiced, paid,
  completed, cancelled, status_eq,
}

-- The event types that a transition may emit.
pub data OrdersFactType : Type 0 where
  placed_v1 confirmed_v1 completed_v1 cancelled_v1 : OrdersFactType

pub record OrderTransition : Type 0 where
  pub from : Option OrderStatus
  pub to : OrderStatus
  pub emits : Option OrdersFactType

abbrev edge : OrderStatus → OrderStatus → Option OrdersFactType → OrderTransition
edge a b e = record { from = some a; to = b; emits = e }

unfoldable pub order_transitions : List OrderTransition
order_transitions =
    record { from = none; to = placed; emits = some placed_v1 }
    ∷ edge placed stock_reserved none
    ∷ edge stock_reserved credit_approved none
    ∷ edge credit_approved confirmed (some confirmed_v1)
    ∷ edge confirmed despatched none
    ∷ edge despatched invoiced none
    ∷ edge invoiced paid none
    ∷ edge paid completed (some completed_v1)
    ∷ edge placed cancelled (some cancelled_v1)
    ∷ edge stock_reserved cancelled (some cancelled_v1)
    ∷ edge credit_approved cancelled (some cancelled_v1)
    ∷ edge confirmed cancelled (some cancelled_v1)
    ∷ []

abbrev leaves : OrderStatus → Option OrderStatus → Bool
leaves a none = false
leaves a (some b) = status_eq a b

-- The map of maps keeps the last row of each pair.
unfoldable pub find_in : List OrderTransition → OrderStatus → OrderStatus → Option OrderTransition
find_in [] a b = none
find_in (t ∷ ts) a b =
    let later = find_in ts a b in
    elim later [
      | some u ↦ some u
      | none ↦ if leaves a t.from && status_eq b t.to then some t else none
    ]

-- `findTransition`
unfoldable pub find_transition : OrderStatus → OrderStatus → Option OrderTransition
unfolding find_in order_transitions
find_transition a b = find_in order_transitions a b
