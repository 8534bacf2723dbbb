-- ===== src/Orders/Order/Totals/Sums.antt =====
-- The totals as plain sums over the lines.
use mathlib.Core.Path.{subst}
use order_to_cash_nestjs.Errors.{order_total_negative}
use order_to_cash_nestjs.Result.{ok, bind-ok, throw_if, ok-injective}
use order_to_cash_nestjs.Orders.Order.Line.{OrderLine}
use order_to_cash_nestjs.Orders.Order.Totals.{
  sum_prices, sum_discounts, compute_order_totals, OrderTotals,
}
use order_to_cash_nestjs.Base.{List, ◌≡◌, ℕ, arith, ◌∷◌, [], ap, none, ◌∙◌}
use order_to_cash_nestjs.Base.Text.{Text}
use order_to_cash_nestjs.Kernel.Money.{Money, add, subtract, zero_money, multiply, is_negative}
use order_to_cash_nestjs.Base.Int.{ℤ, pos, ◌+ℤ◌, ◌-ℤ◌, ◌*ℤ◌, int_laws, ◌≤ℤ◌, pos_part, neg_part}
use order_to_cash_nestjs.Kernel.Money

of-amount : (n : ℤ) (c : Text) {m : Money} → Money.of n c ≡ ok m → m.amount ≡ n
of-amount n c h = unfold Money.of in ground arith

add-amount : (a b : Money) {m : Money} → add a b ≡ ok m → m.amount ≡ a.amount +ℤ b.amount
add-amount a b h = unfold add in ground arith

subtract-amount : (a b : Money) {m : Money} → subtract a b ≡ ok m → m.amount ≡ a.amount -ℤ b.amount
subtract-amount a b h = unfold subtract in ground arith

multiply-amount : (a : Money) (q : ℕ) {m : Money} → multiply a q ≡ ok m → m.amount ≡ a.amount *ℤ q
multiply-amount a q h = unfold multiply in ground arith

zero_money-amount : (c : Text) {m : Money} → zero_money c ≡ ok m → m.amount ≡ pos 0
zero_money-amount c h = unfold zero_money in ground arith

-- Σ price × quantity, and Σ discount, in minor units.
abbrev pub gross : List OrderLine → ℤ
gross [] = pos 0
gross (l ∷ ls) = l.unit_price.amount *ℤ l.quantity +ℤ gross ls

abbrev pub discounts : List OrderLine → ℤ
discounts [] = pos 0
discounts (l ∷ ls) = l.line_discount.amount +ℤ discounts ls

sum_prices-amount :
    (sum : Money) (ls : List OrderLine) {m : Money}
    → sum_prices sum ls ≡ ok m
    → m.amount ≡ sum.amount +ℤ gross ls
unfolding sum_prices
sum_prices-amount sum [] h = omega (
  int_laws,
  ap (λ (r : Money). pos_part r.amount) (ok-injective h),
  ap (λ (r : Money). neg_part r.amount) (ok-injective h),
)
sum_prices-amount sum (l ∷ ls) {m} h =
    let (price, product, h1) = bind-ok (multiply l.unit_price l.quantity) _ h in
    let (next, added, h2) = bind-ok (add sum price) _ h1 in
    let later = sum_prices-amount next ls h2 in
    rw (later, add-amount sum price added, multiply-amount l.unit_price l.quantity product)
      (omega int_laws)

sum_discounts-amount :
    (sum : Money) (ls : List OrderLine) {m : Money}
    → sum_discounts sum ls ≡ ok m
    → m.amount ≡ sum.amount +ℤ discounts ls
unfolding sum_discounts
sum_discounts-amount sum [] h = omega (
  int_laws,
  ap (λ (r : Money). pos_part r.amount) (ok-injective h),
  ap (λ (r : Money). neg_part r.amount) (ok-injective h),
)
sum_discounts-amount sum (l ∷ ls) {m} h =
    let (next, added, h1) = bind-ok (add sum l.line_discount) _ h in
    let later = sum_discounts-amount next ls h1 in
    rw (later, add-amount sum l.line_discount added) (omega int_laws)

-- Totals that `computeOrderTotals` returns are the sum of price times quantity, the sum of the line
-- discounts, and their difference, which is not negative.
pub compute_order_totals_lem :
    (currency : Text) (lines : List OrderLine) {t : OrderTotals}
    → compute_order_totals currency lines ≡ ok t
    → (t.initial_amount.amount ≡ gross lines)
      × (t.initial_discount.amount ≡ discounts lines)
      × (t.total_amount.amount ≡ gross lines -ℤ discounts lines)
      × (pos 0 ≤ℤ t.total_amount.amount)
unfolding compute_order_totals
compute_order_totals_lem currency lines h =
    let (z', zero', h1) = bind-ok (zero_money currency) _ h in
    let (z, zero_, h2) = bind-ok (zero_money currency) _ h1 in
    let (ia, prices, h3) = bind-ok (sum_prices z lines) _ h2 in
    let (ds, discs, h4) = bind-ok (sum_discounts z lines) _ h3 in
    let (id, added, h5) = bind-ok (add ds z') _ h4 in
    let (total, diff, h6) = bind-ok (subtract ia id) _ h5 in
    let (u, nonneg, h7) =
      bind-ok (throw_if (is_negative total) (order_total_negative none total.amount)) _ h6 in
    let e1 : ia.amount ≡ gross lines =
      sum_prices-amount z lines prices
      ∙ ap (λ n. n +ℤ gross lines) (zero_money-amount currency zero_)
      ∙ omega int_laws in
    let e2 : id.amount ≡ discounts lines =
      add-amount ds z' added
      ∙ rw
          (
            sum_discounts-amount z lines discs,
            zero_money-amount currency zero_,
            zero_money-amount currency zero',
          )
          (omega int_laws) in
    let e3 : total.amount ≡ gross lines -ℤ discounts lines =
      subtract-amount ia id diff ∙ rw (e1, e2) in
    subst
      (λ (t : OrderTotals).
        (t.initial_amount.amount ≡ gross lines)
        × (t.initial_discount.amount ≡ discounts lines)
        × (t.total_amount.amount ≡ gross lines -ℤ discounts lines)
        × (pos 0 ≤ℤ t.total_amount.amount))
      (ok-injective h7) (e1, e2, e3, ground arith)
