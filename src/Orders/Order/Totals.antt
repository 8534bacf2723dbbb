-- ===== src/Orders/Order/Totals.antt =====
-- apps/orders/src/domain/order-totals.ts, and `computeOrderTotalsFor` of order.ts.
use order_to_cash_nestjs.Base.{List, [], ◌∷◌, none, some}
use order_to_cash_nestjs.Base.Text.{Text}
use order_to_cash_nestjs.Errors.{DomainError, order_total_negative}
use order_to_cash_nestjs.Result.{Result, ok, err, ◌>>=◌, ◌>>◌, throw_if}
use order_to_cash_nestjs.Kernel.Money.{Money, zero_money, add, subtract, multiply, is_negative}
pub mod Sums
use order_to_cash_nestjs.Orders.Order.Line.{OrderLine}

pub record OrderTotals : Type 0 where
  pub initial_amount : Money
  pub initial_discount : Money
  pub total_amount : Money

-- The two `reduce` loops, each with its running sum.
unfoldable pub sum_prices : Money → List OrderLine → Result Money
sum_prices sum [] = ok sum
sum_prices sum (line ∷ lines) = do
  price ← multiply line.unit_price line.quantity
  next ← add sum price
  sum_prices next lines

unfoldable pub sum_discounts : Money → List OrderLine → Result Money
sum_discounts sum [] = ok sum
sum_discounts sum (line ∷ lines) = do next ← add sum line.line_discount; sum_discounts next lines

unfoldable pub compute_order_totals : Text → List OrderLine → Result OrderTotals
compute_order_totals currency lines = do
  order_discount ← zero_money currency
  zero ← zero_money currency
  initial_amount ← sum_prices zero lines
  discounts ← sum_discounts zero lines
  initial_discount ← add discounts order_discount
  total_amount ← subtract initial_amount initial_discount
  throw_if (is_negative total_amount) (order_total_negative none total_amount.amount)
  ok (record {
    initial_amount = initial_amount;
    initial_discount = initial_discount;
    total_amount = total_amount;
  })

-- The `catch` block: a negative total is thrown again with the order's id.
abbrev with_order_id : Text → DomainError → DomainError
with_order_id id (order_total_negative _ total) = order_total_negative (some id) total
with_order_id id e = e

unfoldable pub totals_for : Text → Text → List OrderLine → Result OrderTotals
totals_for id currency lines = elim (compute_order_totals currency lines) [
  | ok totals ↦ ok totals
  | err e ↦ err (with_order_id id e)
]
