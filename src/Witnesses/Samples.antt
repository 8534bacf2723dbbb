-- ===== src/Witnesses/Samples.antt =====
-- Sample values.
use order_to_cash_nestjs.Fulfillment.Status.{reserved}
use order_to_cash_nestjs.Billing.Line.{BuyerCredit, HoldRequest, order_cancelled}
use order_to_cash_nestjs.Billing.Credit.{ReleaseInput}
use order_to_cash_nestjs.Fulfillment.OrderStock.{ReserveOrderInput}
use order_to_cash_nestjs.Fulfillment.StockItem.{Reservation, StockItem, ReserveInput}
use order_to_cash_nestjs.Base.{ℕ, ◌+◌, List, [], ◌∷◌, none}
use order_to_cash_nestjs.Base.Int.{pos}
use order_to_cash_nestjs.Base.Text.{Text, codes}
use order_to_cash_nestjs.Kernel.Money.{Money}
use order_to_cash_nestjs.Kernel.Envelope.{Context}
use order_to_cash_nestjs.Orders.Order.Line.{LineInput}
use order_to_cash_nestjs.Orders.Order.Commands.{PlaceOrderInput}

abbrev pub ctx : Context
ctx = record { occurred_at = 1000; causation_id = codes "c" }

-- The k-th id drawn.
abbrev pub fresh : ℕ → Text
fresh k = (100 + k) ∷ []

abbrev pub eur : ℕ → Money
eur n = record { amount = pos n; currency = codes "EUR" }

abbrev two_lines : List LineInput
two_lines =
    record {
      product_code = codes "P1";
      description = codes "one";
      quantity = 3;
      unit_price = eur 250;
      line_discount = eur 50;
    }
    ∷ record {
      product_code = codes "P2";
      description = codes "two";
      quantity = 1;
      unit_price = eur 100;
      line_discount = eur 0;
    }
    ∷ []

abbrev pub an_order_id : Text
an_order_id = codes "0a1b2c3d-0000-4000-8000-000000000001"

abbrev pub order_input : PlaceOrderInput
order_input = record {
  id = an_order_id;
  order_reference = codes "ORD-000001";
  order_date = 900;
  buyer_gln = codes "4006381333931";
  buyer_code = codes "RET";
  supplier_gln = codes "4006381333931";
  supplier_code = codes "COM";
  currency = codes "EUR";
  lines = two_lines;
  notes = none;
}

abbrev pub extra_line : LineInput
extra_line = record {
  product_code = codes "P3";
  description = codes "three";
  quantity = 2;
  unit_price = eur 10;
  line_discount = eur 0;
}

abbrev pub an_order : Text
an_order = codes "ORD-000001"

abbrev a_reservation : Reservation
a_reservation = record {
  id = codes "r1";
  order_reference = an_order;
  company_code = codes "COM";
  retailer_code = codes "RET";
  product_code = codes "P1";
  units = 4;
  status = reserved;
}

abbrev pub item1 : StockItem
item1 = record {
  id = codes "i1";
  company_code = codes "COM";
  product_code = codes "P1";
  units = pos 10;
  reserved_units = pos 5;
  low_stock_threshold = pos 2;
  reservations = a_reservation ∷ [];
  domain_events = [];
}

abbrev pub item2 : StockItem
item2 = record {
  id = codes "i2";
  company_code = codes "COM";
  product_code = codes "P2";
  units = pos 3;
  reserved_units = pos 0;
  low_stock_threshold = pos 1;
  reservations = [];
  domain_events = [];
}

abbrev pub other_request : ReserveInput
other_request = record {
  reservation_id = codes "r2";
  order_reference = codes "ORD-000002";
  retailer_code = codes "RET";
  units = 3;
}

abbrev pub order_request : ReserveOrderInput
order_request = record {
  order_reference = codes "ORD-000003";
  company_code = codes "COM";
  retailer_code = codes "RET";
  lines =
      record { product_code = codes "P1"; units = 2 }
      ∷ record { product_code = codes "P2"; units = 3 }
      ∷ record { product_code = codes "P1"; units = 3 }
      ∷ [];
  correlation_id = codes "o3";
}

abbrev pub credit_line : BuyerCredit
credit_line = record {
  id = codes "b1";
  code = codes "CR-000001";
  retailer_code = codes "RET";
  company_code = codes "COM";
  credit_limit = pos 1000;
  currency = codes "EUR";
  committed_exposure = pos 300;
  loaded_entries = [];
  appended = [];
  domain_events = [];
}

abbrev pub hold_request : HoldRequest
hold_request = record { order_reference = an_order; amount = eur 700; correlation_id = codes "o1" }

abbrev pub release_request : ReleaseInput
release_request = record {
  order_reference = an_order;
  reason = order_cancelled;
  correlation_id = codes "o1";
}
