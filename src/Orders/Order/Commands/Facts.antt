-- ===== src/Orders/Order/Commands/Facts.antt =====
-- The facts that an order records over its life.
use order_to_cash_nestjs.Orders.Order.Commands.LineEdits.{
  add_line-IsOrder, remove_line-IsOrder, change_line_quantity-IsOrder,
}
use order_to_cash_nestjs.Orders.Order.Commands.Invariant.{
  announcement, transition_to-ok, place-events,
}
use order_to_cash_nestjs.Result.{ok}
use mathlib.Core.Path.{subst}
use mathlib.Core.Bool.{false}
use order_to_cash_nestjs.Orders.Order.Commands.StateMachine.{
  Reachable, placing, changing, Reachable-IsOrder, is_terminal, Change, reserving, approving,
  confirming, despatching, invoicing, paying, completing, cancelling, cancel-ok, failing, adding,
  removing, requantifying,
}
use order_to_cash_nestjs.Base.Text.{Text}
use order_to_cash_nestjs.Orders.Transitions.Edges.{◌⟶◌, reserve, announced}
use order_to_cash_nestjs.Orders.Order.Commands.{
  record_saga_failure, mark_stock_reserved, approve_credit, confirm, PlaceOrderInput,
  mark_despatched, place, Build, mark_invoiced, mark_paid, complete, transition_to, patch_reason,
}
use order_to_cash_nestjs.Base.{
  Bool, ℕ, List, true, ◌≡◌, false, Option, ◌∷◌, ◌++◌, arith, ◌+◌, ◌≤◌, [], refl, ap, ◌∙◌, none,
  some,
}
use order_to_cash_nestjs.Orders.Status.{
  OrderStatus, status_eq, confirmed, cancelled, CancellationReason, despatched, invoiced, paid,
  completed,
}
use order_to_cash_nestjs.Orders.Order.Aggregate.{Order, order_cancelled_event, IsOrder}
use order_to_cash_nestjs.Kernel.Envelope.{Context, Envelope}
use order_to_cash_nestjs.Orders.Order.Events.{
  OrderPayload, order_placed, order_confirmed, order_completed, SagaFailure, order_cancelled,
}

abbrev is_placing : OrderPayload → ℕ
is_placing (order_placed p) = 1
is_placing _ = 0

abbrev is_confirming : OrderPayload → ℕ
is_confirming (order_confirmed p) = 1
is_confirming _ = 0

abbrev is_closing : OrderPayload → ℕ
is_closing (order_completed p) = 1
is_closing (order_cancelled p) = 1
is_closing _ = 0

abbrev count_facts : (OrderPayload → ℕ) → List (Envelope OrderPayload) → ℕ
count_facts f [] = 0
count_facts f (e ∷ es) = f e.payload + count_facts f es

abbrev placed_facts : Order → ℕ
placed_facts o = count_facts is_placing o.domain_events

abbrev confirmed_facts : Order → ℕ
confirmed_facts o = count_facts is_confirming o.domain_events

abbrev closing_facts : Order → ℕ
closing_facts o = count_facts is_closing o.domain_events

count_facts-append :
    (f : OrderPayload → ℕ) (xs ys : List (Envelope OrderPayload))
    → count_facts f (xs ++ ys) ≡ count_facts f xs + count_facts f ys
count_facts-append f [] ys = omega arith
count_facts-append f (x ∷ xs) ys = omega (arith, count_facts-append f xs ys)

-- What an order has said, read from its status: one placing fact, one closing fact when it is
-- closed, and a confirmation once it is past one.
abbrev is_past_confirmation : OrderStatus → Bool
is_past_confirmation confirmed = true
is_past_confirmation despatched = true
is_past_confirmation invoiced = true
is_past_confirmation paid = true
is_past_confirmation completed = true
is_past_confirmation _ = false

abbrev flag : Bool → ℕ
flag true = 1
flag false = 0

pub record Told (o : Order) : Type 0 where
  pub placed_once : placed_facts o ≡ 1
  pub confirmed_once :
      status_eq o.status cancelled ≡ false
      → confirmed_facts o ≡ flag (is_past_confirmation o.status)
  pub confirmed_at_most_once : confirmed_facts o ≤ 1
  pub closed_once : closing_facts o ≡ flag (is_terminal o.status)

-- Through an edge of the table.
Told_edge :
    {a b : OrderStatus} (edge : a ⟶ b) (c c' d d' : ℕ)
    → (status_eq a cancelled ≡ false → c ≡ flag (is_past_confirmation a))
    → c ≤ 1
    → c' ≡ c + flag (status_eq b confirmed)
    → d ≡ flag (is_terminal a)
    → d' ≡ d + flag (is_terminal b)
    → (status_eq b cancelled ≡ false → c' ≡ flag (is_past_confirmation b))
      × (c' ≤ 1)
      × (d' ≡ flag (is_terminal b))
Told_edge reserve c c' d d' h l e k f = ground (arith, h refl)
Told_edge _ c c' d d' h l e k f = ground (arith, h refl)

transition-Told :
    (to : OrderStatus) (ctx : Context) (patch : Option CancellationReason) (build : Option Build)
    (o : Order) {o' : Order}
    → (said : (p : Order)
        → let es = announcement (announced to) build ctx p in
          (count_facts is_placing es ≡ 0)
          × (count_facts is_confirming es ≡ flag (status_eq to confirmed))
          × (count_facts is_closing es ≡ flag (is_terminal to)))
    → transition_to to ctx patch build o ≡ ok o'
    → Told o
    → Told o'
transition-Told to ctx patch build o {o'} said h t =
    let (edge, reached, same, reason, events) = transition_to-ok to ctx patch build o h in
    let p = patch_reason patch (record o { status = to }) in
    let es = announcement (announced to) build ctx p in
    let (no_placing, confirms, closes) = said p in
    let total = λ (f : OrderPayload → ℕ).
      ap (count_facts f) events ∙ count_facts-append f o.domain_events es in
    let (a, b, c) =
      Told_edge edge (confirmed_facts o) (confirmed_facts o') (closing_facts o) (closing_facts o')
        t.confirmed_once t.confirmed_at_most_once (omega (arith, total is_confirming, confirms))
        t.closed_once (omega (arith, total is_closing, closes)) in
    record {
      placed_once = omega (arith, total is_placing, no_placing, t.placed_once);
      confirmed_once = rw reached a;
      confirmed_at_most_once = b;
      closed_once = rw reached c;
    }

edit-Told :
    {o o' : Order} → o'.status ≡ o.status → o'.domain_events ≡ o.domain_events → Told o → Told o'
edit-Told s e t = record {
  placed_once = rw e t.placed_once;
  confirmed_once = rw (e, s) t.confirmed_once;
  confirmed_at_most_once = rw e t.confirmed_at_most_once;
  closed_once = rw (e, s) t.closed_once;
}

failure-Told :
    (failure : SagaFailure) (id : Text) (ctx : Context) (o : Order) {o' : Order}
    → record_saga_failure failure id ctx o ≡ o'
    → Told o
    → Told o'
unfolding record_saga_failure
failure-Told failure id ctx o h t =
    subst (λ o'. Told o') h
      (record {
        placed_once = rw count_facts-append (omega (arith, t.placed_once));
        confirmed_once = λ e. rw count_facts-append (omega (arith, t.confirmed_once e));
        confirmed_at_most_once = rw count_facts-append (omega (arith, t.confirmed_at_most_once));
        closed_once = rw count_facts-append (omega (arith, t.closed_once));
      })

Change-Told : {o o' : Order} → Change o o' → IsOrder o → Told o → Told o'
unfolding mark_stock_reserved approve_credit confirm mark_despatched mark_invoiced mark_paid
    complete order_cancelled_event
Change-Told {o} (reserving ctx h) v t = transition-Told _ _ none _ o (λ p. (refl, refl, refl)) h t
Change-Told {o} (approving ctx h) v t = transition-Told _ _ none _ o (λ p. (refl, refl, refl)) h t
Change-Told {o} (confirming id ctx h) v t =
    transition-Told _ _ none _ o (λ p. (refl, refl, refl)) h t
Change-Told {o} (despatching ctx h) v t = transition-Told _ _ none _ o (λ p. (refl, refl, refl)) h t
Change-Told {o} (invoicing ctx h) v t = transition-Told _ _ none _ o (λ p. (refl, refl, refl)) h t
Change-Told {o} (paying ctx h) v t = transition-Told _ _ none _ o (λ p. (refl, refl, refl)) h t
Change-Told {o} (completing id ctx h) v t =
    transition-Told _ _ none _ o (λ p. (refl, refl, refl)) h t
Change-Told {o} (cancelling reason id ctx steps h) v t =
    transition-Told _ _ (some reason) _ o (λ p. (refl, refl, refl))
      (cancel-ok reason id ctx steps o h).1 t
Change-Told {o} (failing failure id ctx h) v t = failure-Told failure id ctx o h t
Change-Told {o} (adding id input h) v t =
    let (valid, status, open_, events) = add_line-IsOrder id input o h v in
    edit-Told status events t
Change-Told {o} (removing id h) v t =
    let (valid, status, open_, events) = remove_line-IsOrder id o h v in edit-Told status events t
Change-Told {o} (requantifying id q h) v t =
    let (valid, status, open_, events) = change_line_quantity-IsOrder id q o h v in
    edit-Told status events t

place-Told :
    (fresh : ℕ → Text) (input : PlaceOrderInput) (ctx : Context) {o : Order}
    → place fresh input ctx ≡ ok o
    → Told o
place-Told fresh input ctx h =
    let (e, p, events, payload, status) = place-events fresh input ctx h in
    record {
      placed_once = rw (events, payload) (omega arith);
      confirmed_once = λ u. rw (events, payload, status) (omega arith);
      confirmed_at_most_once = rw (events, payload) (omega arith);
      closed_once = rw (events, payload, status) (omega arith);
    }

-- The facts that a reachable order has recorded, before any are pulled: one `order.placed.v1`; one
-- closing fact (`order.completed.v1` or `order.cancelled.v1`) exactly when it is completed or
-- cancelled; at most one `order.confirmed.v1`, and for an order that is not cancelled one exactly
-- from `confirmed` on.
pub Reachable-Told : {o : Order} → Reachable o → Told o
Reachable-Told (placing fresh input ctx h) = place-Told fresh input ctx h
Reachable-Told (changing r c) = Change-Told c (Reachable-IsOrder r) (Reachable-Told r)
