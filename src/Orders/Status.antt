-- ===== src/Orders/Status.antt =====
-- The closed sets of the `Order` state machine: apps/orders/src/domain/order-status.ts and
-- order-cancellation-reason.ts.
use order_to_cash_nestjs.Base.Text.{Text, codes, ◌=t◌}
use order_to_cash_nestjs.Base.{Bool, true, false, List, ◌∷◌, Option, [], find?}

pub data OrderStatus : Type 0 where
  placed stock_reserved credit_approved confirmed despatched : OrderStatus
  invoiced paid completed cancelled : OrderStatus

OrderStatus-discrete : Discrete OrderStatus
OrderStatus-discrete = hlevel

pub data CancellationReason : Type 0 where
  stock_rejected credit_rejected operator_cancelled : CancellationReason

-- `===` on two statuses: by their place in `ORDER_STATUSES`.
abbrev pub status_eq : OrderStatus → OrderStatus → Bool
status_eq placed placed = true
status_eq stock_reserved stock_reserved = true
status_eq credit_approved credit_approved = true
status_eq confirmed confirmed = true
status_eq despatched despatched = true
status_eq invoiced invoiced = true
status_eq paid paid = true
status_eq completed completed = true
status_eq cancelled cancelled = true
status_eq _ _ = false

-- ORDER_STATUSES
abbrev order_statuses : List OrderStatus
order_statuses =
    placed ∷ stock_reserved ∷ credit_approved ∷ confirmed ∷ despatched ∷ invoiced ∷ paid ∷ completed
    ∷ cancelled ∷ []

abbrev pub status_text : OrderStatus → Text
status_text placed = codes "placed"
status_text stock_reserved = codes "stock_reserved"
status_text credit_approved = codes "credit_approved"
status_text confirmed = codes "confirmed"
status_text despatched = codes "despatched"
status_text invoiced = codes "invoiced"
status_text paid = codes "paid"
status_text completed = codes "completed"
status_text cancelled = codes "cancelled"

-- `isOrderStatus`: the status that a stored text stands for, if any.
unfoldable pub order_status? : Text → Option OrderStatus
order_status? value = find? (λ s. status_text s =t value) order_statuses

-- CANCELLATION_REASONS
abbrev cancellation_reasons : List CancellationReason
cancellation_reasons = stock_rejected ∷ credit_rejected ∷ operator_cancelled ∷ []

abbrev pub reason_text : CancellationReason → Text
reason_text stock_rejected = codes "stock_rejected"
reason_text credit_rejected = codes "credit_rejected"
reason_text operator_cancelled = codes "operator_cancelled"

-- `isCancellationReason`
unfoldable pub cancellation_reason? : Text → Option CancellationReason
cancellation_reason? value = find? (λ r. reason_text r =t value) cancellation_reasons
