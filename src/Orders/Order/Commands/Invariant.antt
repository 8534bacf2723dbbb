-- ===== src/Orders/Order/Commands/Invariant.antt =====
-- The invariant of an order holds from its placement on, through every method of order.ts.
use mathlib.Core.Path.{subst}
use mathlib.Core.List.{append-nil}
use order_to_cash_nestjs.Errors.{order_has_no_lines, plain_error}
use order_to_cash_nestjs.Orders.Transitions.{find_transition, OrdersFactType}
use order_to_cash_nestjs.Orders.Transitions.Edges.{◌⟶◌, find_transition-edge, announced, reserve}
use order_to_cash_nestjs.Kernel.Envelope.{Context, Envelope}
use order_to_cash_nestjs.Orders.Order.Events.{OrderPayload, PlacedPayload, order_placed}
use order_to_cash_nestjs.Result.{ok, bind-ok, throw_if, ok-injective}
use order_to_cash_nestjs.Orders.Status.{
  OrderStatus, CancellationReason, placed, status_eq, cancelled,
}
use order_to_cash_nestjs.Kernel.Money.{Money}
use order_to_cash_nestjs.Orders.Order.Line.{OrderLine, LineInput}
use order_to_cash_nestjs.Orders.Order.Aggregate.{
  Order, LineHasCurrency, IsOrder, add_domain_event, order_placed_event,
}
use order_to_cash_nestjs.Orders.Order.Commands.{
  assert_line_currency, assert_currencies, place, transition_to, create_lines, PlaceOrderInput,
  Build, placed_order, patch_reason,
}
use order_to_cash_nestjs.Orders.Order.Totals.{totals_for, OrderTotals, compute_order_totals}
use order_to_cash_nestjs.Base.{
  ℕ, ◌+◌, ◌≡◌, refl, false, List, [], ◌∷◌, ◌++◌, Option, none, some, arith, is_empty, All,
  Option-cases, is_some, inl, inr, length, sym,
}
use order_to_cash_nestjs.Base.Text.{Text, text_eq_iff}

pub totals_for-ok :
    (id currency : Text) (lines : List OrderLine) {t : OrderTotals}
    → totals_for id currency lines ≡ ok t
    → compute_order_totals currency lines ≡ ok t
unfolding totals_for
totals_for-ok id currency lines h = ground arith

pub assert_line_currency-ok :
    (c : Text) (p d : Money) {u : Unit {0}}
    → assert_line_currency c p d ≡ ok u
    → (p.currency ≡ c) × (d.currency ≡ c)
unfolding assert_line_currency
assert_line_currency-ok c p d h = ground (arith, text_eq_iff p.currency c, text_eq_iff d.currency c)

create_lines-currency :
    (fresh : ℕ → Text) (c : Text) (k : ℕ) (inputs : List LineInput) {u : Unit {0}}
    → assert_currencies c inputs ≡ ok u
    → All (LineHasCurrency c) (create_lines fresh k inputs)
unfolding assert_currencies create_lines
create_lines-currency fresh c k [] h = tt
create_lines-currency fresh c k (l ∷ ls) h =
    let (u, first, rest) = bind-ok (assert_line_currency c l.unit_price l.line_discount) _ h in
    (
      assert_line_currency-ok c l.unit_price l.line_discount first,
      create_lines-currency fresh c (k + 1) ls rest,
    )

is_empty-create_lines :
    (fresh : ℕ → Text) (k : ℕ) (inputs : List LineInput)
    → is_empty (create_lines fresh k inputs) ≡ is_empty inputs
unfolding create_lines
is_empty-create_lines fresh k [] = refl
is_empty-create_lines fresh k (l ∷ ls) = refl

-- Whatever `place` returns is an order in status `placed` that satisfies the invariant.
pub place-IsOrder :
    (fresh : ℕ → Text) (input : PlaceOrderInput) (ctx : Context) {o : Order}
    → place fresh input ctx ≡ ok o
    → IsOrder o × (o.status ≡ placed)
unfolding place add_domain_event
place-IsOrder fresh input ctx h =
    let lines = create_lines fresh 0 input.lines in
    let (u, full, h1) =
      bind-ok (throw_if (is_empty input.lines) (order_has_no_lines input.id)) _ h in
    let (v, money, h2) = bind-ok (assert_currencies input.currency input.lines) _ h1 in
    let (totals, derived, h3) = bind-ok (totals_for input.id input.currency lines) _ h2 in
    let (event, built, h4) =
      bind-ok
        (order_placed_event (fresh (length input.lines)) (placed_order input lines totals) ctx) _
        h3 in
    subst (λ o. IsOrder o × (o.status ≡ placed)) (ok-injective h4)
      (
        record {
          has_lines = ground (arith, is_empty-create_lines fresh 0 input.lines);
          one_currency = create_lines-currency fresh input.currency 0 input.lines money;
          totals_derived = totals_for-ok input.id input.currency lines derived;
          reason_iff_cancelled = refl;
        },
        refl,
      )

order_placed_event-ok :
    (id : Text) (o : Order) (ctx : Context) {e : Envelope OrderPayload}
    → order_placed_event id o ctx ≡ ok e
    → (p : PlacedPayload) × (e.payload ≡ order_placed p)
order_placed_event-ok id o ctx h =
    unfold order_placed_event in
    let (u, full, h1) = bind-ok (throw_if (is_empty o.lines) plain_error) _ h in
    (_, λ i. (ok-injective (sym h1) i).payload)

-- `place` records one fact, `order.placed.v1`.
pub place-events :
    (fresh : ℕ → Text) (input : PlaceOrderInput) (ctx : Context) {o : Order}
    → place fresh input ctx ≡ ok o
    → (e : Envelope OrderPayload) × (p : PlacedPayload) × (o.domain_events ≡ e ∷ [])
      × (e.payload ≡ order_placed p)
      × (o.status ≡ placed)
unfolding place add_domain_event
place-events fresh input ctx h =
    let lines = create_lines fresh 0 input.lines in
    let (u, full, h1) =
      bind-ok (throw_if (is_empty input.lines) (order_has_no_lines input.id)) _ h in
    let (v, money, h2) = bind-ok (assert_currencies input.currency input.lines) _ h1 in
    let (totals, derived, h3) = bind-ok (totals_for input.id input.currency lines) _ h2 in
    let (event, built, h4) =
      bind-ok
        (order_placed_event (fresh (length input.lines)) (placed_order input lines totals) ctx) _
        h3 in
    let (p, payload) = order_placed_event-ok _ (placed_order input lines totals) ctx built in
    (
      event,
      p,
      λ i. (ok-injective (sym h4) i).domain_events,
      payload,
      λ i. (ok-injective (sym h4) i).status,
    )

-- What every transition leaves alone.
pub record Moves (o o' : Order) : Type 0 where
  pub same_id : o'.id ≡ o.id
  pub same_currency : o'.currency ≡ o.currency
  pub same_lines : o'.lines ≡ o.lines
  pub same_totals : o'.totals ≡ o.totals

abbrev patched : Option CancellationReason → Option CancellationReason → Option CancellationReason
patched none old = old
patched (some reason) old = some reason

-- The fact that a transition appends.
abbrev pub announcement :
    Option OrdersFactType → Option Build → Context → Order → List (Envelope OrderPayload)
announcement (some fact) (some build) ctx o = build o ctx ∷ []
announcement _ _ ctx o = []

-- A transition that did not throw followed an edge of Table T-1.
pub transition_to-ok :
    (to : OrderStatus) (ctx : Context) (patch : Option CancellationReason) (build : Option Build)
    (o : Order) {o' : Order}
    → transition_to to ctx patch build o ≡ ok o'
    → (o.status ⟶ to)
      × (o'.status ≡ to)
      × Moves o o'
      × (o'.cancellation_reason ≡ patched patch o.cancellation_reason)
      × (o'.domain_events
          ≡ o.domain_events
            ++ announcement
                (announced to)
                build
                ctx
                (patch_reason patch (record o { status = to })))
unfolding transition_to
transition_to-ok to ctx patch build o h = elim (Option-cases (find_transition o.status to)) [
  | inl missing ↦ ground arith
  | inr (t, e) ↦
      let (edge, said) = find_transition-edge o.status to e in
      ground (arith, append-nil o.domain_events)
]

edge-source : {a b : OrderStatus} → a ⟶ b → status_eq a cancelled ≡ false
edge-source reserve = refl
edge-source _ = refl

is_some-none {ℓ} : {A : Type ℓ} (x : Option A) → is_some x ≡ false → x ≡ none
is_some-none none h = refl
is_some-none (some a) h = cc

-- The invariant through a transition whose reason fits its target.
pub transition_to-IsOrder :
    (to : OrderStatus) (ctx : Context) (patch : Option CancellationReason) (build : Option Build)
    (o : Order) {o' : Order}
    → is_some patch ≡ status_eq to cancelled
    → transition_to to ctx patch build o ≡ ok o'
    → IsOrder o
    → IsOrder o'
transition_to-IsOrder to ctx patch build o {o'} fits h v =
    let (edge, reached, same, reason, events) = transition_to-ok to ctx patch build o h in
    record {
      has_lines = ground (arith, same.same_lines, v.has_lines);
      one_currency =
          subst (λ (p : Text × List OrderLine). All (LineHasCurrency p.0) p.1)
            (λ i. (sym same.same_currency i, sym same.same_lines i)) v.one_currency;
      totals_derived = rw (same.same_currency, same.same_lines, same.same_totals) v.totals_derived;
      reason_iff_cancelled =
          ground
            (arith, edge-source edge, is_some-none o.cancellation_reason, v.reason_iff_cancelled);
    }
