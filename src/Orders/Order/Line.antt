-- ===== src/Orders/Order/Line.antt =====
-- apps/orders/src/domain/order-line.ts.
use order_to_cash_nestjs.Base.{ℕ}
use order_to_cash_nestjs.Base.Text.{Text}
use order_to_cash_nestjs.Kernel.Money.{Money}

pub record OrderLine : Type 0 where
  pub id : Text
  pub product_code : Text
  pub description : Text
  pub quantity : ℕ
  pub unit_price : Money
  pub line_discount : Money

-- `PlaceOrderLineInput`: a line before it has an id.
pub record LineInput : Type 0 where
  pub product_code : Text
  pub description : Text
  pub quantity : ℕ
  pub unit_price : Money
  pub line_discount : Money

unfoldable pub create_line : Text → LineInput → OrderLine
create_line id input = record {
  id = id;
  product_code = input.product_code;
  description = input.description;
  quantity = input.quantity;
  unit_price = input.unit_price;
  line_discount = input.line_discount;
}

unfoldable pub with_quantity : ℕ → OrderLine → OrderLine
with_quantity quantity line = record line { quantity = quantity }
