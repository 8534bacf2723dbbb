-- ===== src/Orders/Order/Commands.antt =====
-- The methods of `Order`: apps/orders/src/domain/order.ts.
pub mod Invariant
pub mod LineEdits
pub mod StateMachine
pub mod Facts
use order_to_cash_nestjs.Base.{
  is_some, ℕ, ◌+◌, Bool, true, false, ◌&&◌, not, List, [], ◌∷◌, ◌++◌, map, Option, none, some,
  is_empty, if◌then◌else◌, any, filter, find?, length,
}
use order_to_cash_nestjs.Base.Text.{Text, ◌=t◌}
use order_to_cash_nestjs.Errors.{
  order_has_no_lines, order_line_currency_mismatch, order_lines_frozen, order_line_not_found,
  order_transition_not_allowed, order_cancellation_reason_not_applicable,
}
use order_to_cash_nestjs.Result.{Result, ok, err, ◌>>=◌, ◌>>◌, throw_if}
use order_to_cash_nestjs.Kernel.Money.{Money}
use order_to_cash_nestjs.Orders.Status.{
  OrderStatus, placed, stock_reserved, credit_approved, confirmed, despatched, invoiced, paid,
  completed, cancelled, CancellationReason, stock_rejected, credit_rejected, status_eq,
}
use order_to_cash_nestjs.Orders.Transitions.{OrdersFactType, find_transition}
use order_to_cash_nestjs.Orders.Order.Line.{OrderLine, LineInput, create_line, with_quantity}
use order_to_cash_nestjs.Orders.Order.Totals.{OrderTotals, totals_for}
use order_to_cash_nestjs.Kernel.Envelope.{Envelope, Context}
use order_to_cash_nestjs.Orders.Order.Events.{CompensationStep, SagaFailure, OrderPayload}
use order_to_cash_nestjs.Orders.Order.Aggregate.{
  Order, add_domain_event, order_placed_event, order_confirmed_event, order_completed_event,
  order_cancelled_event, order_saga_failed_event,
}

pub record PlaceOrderInput : Type 0 where
  pub id : Text
  pub order_reference : Text
  pub order_date : ℕ
  pub buyer_gln : Text
  pub buyer_code : Text
  pub supplier_gln : Text
  pub supplier_code : Text
  pub currency : Text
  pub lines : List LineInput
  pub notes : Option Text

unfoldable pub assert_line_currency : Text → Money → Money → Result (Unit {0})
assert_line_currency currency unit_price line_discount = do
  throw_if (not (unit_price.currency =t currency))
      (order_line_currency_mismatch currency unit_price.currency)
  throw_if (not (line_discount.currency =t currency))
      (order_line_currency_mismatch currency line_discount.currency)

unfoldable pub assert_currencies : Text → List LineInput → Result (Unit {0})
assert_currencies currency [] = ok tt
assert_currencies currency (line ∷ lines) = do
  assert_line_currency currency line.unit_price line.line_discount
  assert_currencies currency lines

-- `input.lines.map(...)`: each line draws the next fresh id.
unfoldable pub create_lines : (ℕ → Text) → ℕ → List LineInput → List OrderLine
unfolding create_line
create_lines fresh k [] = []
create_lines fresh k (line ∷ lines) = create_line (fresh k) line ∷ create_lines fresh (k + 1) lines

abbrev pub placed_order : PlaceOrderInput → List OrderLine → OrderTotals → Order
placed_order input lines totals = record {
  id = input.id;
  order_reference = input.order_reference;
  order_date = input.order_date;
  buyer_gln = input.buyer_gln;
  retailer_code = input.buyer_code;
  supplier_gln = input.supplier_gln;
  company_code = input.supplier_code;
  currency = input.currency;
  lines = lines;
  totals = totals;
  status = placed;
  cancellation_reason = none;
  notes = input.notes;
  domain_events = [];
}

-- `Order.place`; `fresh k` is the k-th id that it draws, the last one for the event.
unfoldable pub place : (ℕ → Text) → PlaceOrderInput → Context → Result Order
place fresh input ctx =
    let lines = create_lines fresh 0 input.lines in
    do
      throw_if (is_empty input.lines) (order_has_no_lines input.id)
      assert_currencies input.currency input.lines
      totals ← totals_for input.id input.currency lines
      event ← order_placed_event (fresh (length input.lines)) (placed_order input lines totals) ctx
      ok (add_domain_event event (placed_order input lines totals))

-- LINES_MUTABLE_IN
abbrev pub lines_mutable_in : OrderStatus → Bool
lines_mutable_in placed = true
lines_mutable_in stock_reserved = true
lines_mutable_in credit_approved = true
lines_mutable_in _ = false

abbrev assert_lines_mutable : Order → Result (Unit {0})
assert_lines_mutable order =
    throw_if (not (lines_mutable_in order.status)) (order_lines_frozen order.id order.status)

-- The last two statements of each line mutator: totals first, then the assignment.
unfoldable pub commit_lines : List OrderLine → Order → Result Order
commit_lines lines order = do
  totals ← totals_for order.id order.currency lines
  ok (record order { lines = lines; totals = totals })

unfoldable pub add_line : Text → LineInput → Order → Result Order
unfolding create_line
add_line line_id input order = do
  assert_lines_mutable order
  assert_line_currency order.currency input.unit_price input.line_discount
  commit_lines (order.lines ++ create_line line_id input ∷ []) order

unfoldable pub remove_line : Text → Order → Result Order
remove_line line_id order =
    let candidates = filter (λ line. not (line.id =t line_id)) order.lines in
    do
      assert_lines_mutable order
      throw_if (not (any (λ line. line.id =t line_id) order.lines))
          (order_line_not_found order.id line_id)
      throw_if (is_empty candidates) (order_has_no_lines order.id)
      commit_lines candidates order

abbrev pub requantify : Text → ℕ → List OrderLine → List OrderLine
requantify line_id quantity =
    map (λ line. if line.id =t line_id then with_quantity quantity line else line)

unfoldable pub change_line_quantity : Text → ℕ → Order → Result Order
change_line_quantity line_id quantity order = do
  assert_lines_mutable order
  throw_if (not (is_some (find? (λ line. line.id =t line_id) order.lines)))
      (order_line_not_found order.id line_id)
  commit_lines (requantify line_id quantity order.lines) order

-- `buildEvent`: the fact of a transition, made from the order in its new status.
abbrev pub Build : Type 0
Build = Order → Context → Envelope OrderPayload

abbrev pub patch_reason : Option CancellationReason → Order → Order
patch_reason none order = order
patch_reason (some reason) order = record order { cancellation_reason = some reason }

abbrev pub emit : Option OrdersFactType → Option Build → Context → Order → Order
emit (some fact) (some build) ctx order = add_domain_event (build order ctx) order
emit _ _ ctx order = order

-- `transitionTo`, the funnel of every status change.
unfoldable pub transition_to :
    OrderStatus → Context → Option CancellationReason → Option Build → Order → Result Order
unfolding add_domain_event
transition_to to ctx patch build order = elim (find_transition order.status to) [
  | none ↦ err (order_transition_not_allowed order.id order.status to)
  | some t ↦ ok (emit t.emits build ctx (patch_reason patch (record order { status = to })))
]

unfoldable pub mark_stock_reserved : Context → Order → Result Order
unfolding transition_to
mark_stock_reserved ctx = transition_to stock_reserved ctx none none

unfoldable pub approve_credit : Context → Order → Result Order
unfolding transition_to
approve_credit ctx = transition_to credit_approved ctx none none

unfoldable pub confirm : Text → Context → Order → Result Order
unfolding transition_to order_confirmed_event
confirm event_id ctx = transition_to confirmed ctx none (some (order_confirmed_event event_id))

unfoldable pub mark_despatched : Context → Order → Result Order
unfolding transition_to
mark_despatched ctx = transition_to despatched ctx none none

unfoldable pub mark_invoiced : Context → Order → Result Order
unfolding transition_to
mark_invoiced ctx = transition_to invoiced ctx none none

unfoldable pub mark_paid : Context → Order → Result Order
unfolding transition_to
mark_paid ctx = transition_to paid ctx none none

unfoldable pub complete : Text → Context → Order → Result Order
unfolding transition_to order_completed_event
complete event_id ctx = transition_to completed ctx none (some (order_completed_event event_id))

abbrev pub is_stock_rejected : CancellationReason → Bool
is_stock_rejected stock_rejected = true
is_stock_rejected _ = false

abbrev pub is_credit_rejected : CancellationReason → Bool
is_credit_rejected credit_rejected = true
is_credit_rejected _ = false

-- `Order.cancel`. Its checks for an absent or unknown reason guard against untyped callers: the
-- type of reasons has no other value here.
unfoldable pub cancel :
    CancellationReason → Text → Context → List CompensationStep → Order → Result Order
unfolding transition_to order_cancelled_event
cancel reason event_id ctx steps order = elim (find_transition order.status cancelled) [
  | none ↦ err (order_transition_not_allowed order.id order.status cancelled)
  | some t ↦ do
    throw_if (is_stock_rejected reason && not (status_eq order.status placed))
        (order_cancellation_reason_not_applicable order.id order.status reason)
    throw_if (is_credit_rejected reason && not (status_eq order.status stock_reserved))
        (order_cancellation_reason_not_applicable order.id order.status reason)
    transition_to cancelled ctx (some reason) (some (order_cancelled_event reason steps event_id))
        order
]

-- `recordSagaFailure`
unfoldable pub record_saga_failure : SagaFailure → Text → Context → Order → Order
unfolding add_domain_event order_saga_failed_event
record_saga_failure failure event_id ctx order =
    add_domain_event (order_saga_failed_event failure event_id order ctx) order
