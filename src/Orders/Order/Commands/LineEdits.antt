-- ===== src/Orders/Order/Commands/LineEdits.antt =====
-- The invariant through the three line mutators of order.ts.
use order_to_cash_nestjs.Orders.Order.Commands.Invariant.{assert_line_currency-ok, totals_for-ok}
use mathlib.Core.Path.{subst}
use order_to_cash_nestjs.Orders.Order.Totals.{totals_for}
use order_to_cash_nestjs.Errors.{order_lines_frozen, order_line_not_found, order_has_no_lines}
use order_to_cash_nestjs.Result.{throw_if, ok, bind-ok, ok-injective}
use order_to_cash_nestjs.Orders.Order.Aggregate.{Order, LineHasCurrency, IsOrder}
use order_to_cash_nestjs.Base.Text.{Text, ◌=t◌}
use order_to_cash_nestjs.Orders.Order.Line.{with_quantity, OrderLine, LineInput}
use order_to_cash_nestjs.Orders.Order.Commands.{
  commit_lines, add_line, remove_line, change_line_quantity, requantify, lines_mutable_in,
  assert_line_currency,
}
use order_to_cash_nestjs.Base.{
  ◌∙◌, List, ℕ, is_empty, ◌≡◌, All, ◌++◌, not, false, ◌∷◌, arith, [], true, refl, filter, is_some,
  All-append, find?, any, All-filter,
}

-- The invariant through a new list of lines.
commit_lines-IsOrder :
    (lines : List OrderLine) (o : Order) {o' : Order}
    → commit_lines lines o ≡ ok o'
    → is_empty lines ≡ false
    → All (LineHasCurrency o.currency) lines
    → IsOrder o
    → IsOrder o' × (o'.status ≡ o.status) × (o'.domain_events ≡ o.domain_events)
unfolding commit_lines
commit_lines-IsOrder lines o h full money v =
    let (totals, derived, h1) = bind-ok (totals_for o.id o.currency lines) _ h in
    subst (λ o'. IsOrder o' × (o'.status ≡ o.status) × (o'.domain_events ≡ o.domain_events))
      (ok-injective h1)
      (
        record {
          has_lines = full;
          one_currency = money;
          totals_derived = totals_for-ok o.id o.currency lines derived;
          reason_iff_cancelled = v.reason_iff_cancelled;
        },
        refl,
        refl,
      )

requantify-currency :
    (id c : Text) (q : ℕ) (lines : List OrderLine)
    → All (LineHasCurrency c) lines
    → All (LineHasCurrency c) (requantify id q lines)
unfolding with_quantity
requantify-currency id c q [] h = tt
requantify-currency id c q (l ∷ ls) h = ground (arith, requantify-currency id c q ls h.1)

is_empty-requantify :
    (id : Text) (q : ℕ) (lines : List OrderLine) → is_empty (requantify id q lines) ≡ is_empty lines
is_empty-requantify id q [] = refl
is_empty-requantify id q (l ∷ ls) = refl

is_empty-append {ℓ} : {A : Type ℓ} (xs : List A) (x : A) → is_empty (xs ++ x ∷ []) ≡ false
is_empty-append [] x = refl
is_empty-append (y ∷ ys) x = refl

mutable_of_guard :
    (o : Order) {u : Unit {0}}
    → throw_if (not (lines_mutable_in o.status)) (order_lines_frozen o.id o.status) ≡ ok u
    → lines_mutable_in o.status ≡ true
mutable_of_guard o h = ground arith

-- A line mutator that does not throw ran in one of the three mutable statuses, kept the status and
-- kept the invariant.
pub add_line-IsOrder :
    (id : Text) (input : LineInput) (o : Order) {o' : Order}
    → add_line id input o ≡ ok o'
    → IsOrder o
    → IsOrder o'
      × (o'.status ≡ o.status)
      × (lines_mutable_in o.status ≡ true)
      × (o'.domain_events ≡ o.domain_events)
unfolding add_line
add_line-IsOrder id input o h v =
    let (u, open_, h1) =
      bind-ok (throw_if (not (lines_mutable_in o.status)) (order_lines_frozen o.id o.status)) _ h in
    let (w, money, h2) =
      bind-ok (assert_line_currency o.currency input.unit_price input.line_discount) _ h1 in
    let (valid, status, events) =
      commit_lines-IsOrder _ o h2 (is_empty-append o.lines _)
        (All-append _ o.lines _ v.one_currency (assert_line_currency-ok _ _ _ money, tt)) v in
    (valid, status, mutable_of_guard o open_, events)

pub remove_line-IsOrder :
    (id : Text) (o : Order) {o' : Order}
    → remove_line id o ≡ ok o'
    → IsOrder o
    → IsOrder o'
      × (o'.status ≡ o.status)
      × (lines_mutable_in o.status ≡ true)
      × (o'.domain_events ≡ o.domain_events)
unfolding remove_line
remove_line-IsOrder id o h v =
    let candidates = filter (λ line. not (line.id =t id)) o.lines in
    let (u, open_, h1) =
      bind-ok (throw_if (not (lines_mutable_in o.status)) (order_lines_frozen o.id o.status)) _ h in
    let (w, known, h2) =
      bind-ok (throw_if (not (any (λ line. line.id =t id) o.lines)) (order_line_not_found o.id id))
        _ h1 in
    let (x, full, h3) = bind-ok (throw_if (is_empty candidates) (order_has_no_lines o.id)) _ h2 in
    let (valid, status, events) =
      commit_lines-IsOrder candidates o h3 (ground arith) (All-filter _ _ o.lines v.one_currency)
        v in
    (valid, status, mutable_of_guard o open_, events)

pub change_line_quantity-IsOrder :
    (id : Text) (q : ℕ) (o : Order) {o' : Order}
    → change_line_quantity id q o ≡ ok o'
    → IsOrder o
    → IsOrder o'
      × (o'.status ≡ o.status)
      × (lines_mutable_in o.status ≡ true)
      × (o'.domain_events ≡ o.domain_events)
unfolding change_line_quantity
change_line_quantity-IsOrder id q o h v =
    let (u, open_, h1) =
      bind-ok (throw_if (not (lines_mutable_in o.status)) (order_lines_frozen o.id o.status)) _ h in
    let (w, known, h2) =
      bind-ok
        (throw_if (not (is_some (find? (λ line. line.id =t id) o.lines)))
          (order_line_not_found o.id id))
        _ h1 in
    let (valid, status, events) =
      commit_lines-IsOrder (requantify id q o.lines) o h2
        (is_empty-requantify id q o.lines ∙ v.has_lines)
        (requantify-currency id _ q o.lines v.one_currency) v in
    (valid, status, mutable_of_guard o open_, events)
