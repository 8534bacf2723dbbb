-- ===== src/Witnesses/Fulfillment.antt =====
-- The theorems on stock, at two items and an order of three lines.
use order_to_cash_nestjs.Kernel.Envelope.{Context}
use order_to_cash_nestjs.Fulfillment.Despatch.Once.{
  despatched, open_lines, SaysDespatched, create_despatch_for_order-once,
}
use order_to_cash_nestjs.Fulfillment.Despatch.{
  CreateDespatchInput, create_despatch_for_order, CreateDespatchOutcome, no_reservations,
}
use order_to_cash_nestjs.Fulfillment.StockItem.Life.{
  ReachableStock-IsStocked, reserving, releasing, then_change, unchanged,
}
use order_to_cash_nestjs.Fulfillment.OrderStock.{reserve_order_stock}
use order_to_cash_nestjs.Fulfillment.StockItem.Undo.{
  release-twice, release-excludes_consume, release-reserve,
}
use order_to_cash_nestjs.Fulfillment.StockItem.{
  reserve, release, consume, Reservation, release_open, consume_open, StockItem, transition_open,
  release_reservation, consume_reservation, sum_units,
}
use order_to_cash_nestjs.Witnesses.Samples.{
  order_request, item1, item2, an_order, other_request, fresh, ctx,
}
use order_to_cash_nestjs.Fulfillment.StockItem.Counters.{
  IsStocked, consumed_item, unaccounted_units,
}
use order_to_cash_nestjs.Fulfillment.OrderStock.AllOrNothing.{Answers, reserve_order_stock-Answers}
use order_to_cash_nestjs.Base.{◌≡◌, refl, List, [], ◌∷◌, arith, false, map}
use order_to_cash_nestjs.Base.Int.{◌+ℤ◌, ◌-ℤ◌}
use order_to_cash_nestjs.Base.Text.{◌=t◌, codes, Text}
use order_to_cash_nestjs.Result.{ok, is_ok}

reserve_order_stock-Answers_example :
    Answers fresh order_request
      (item1 ∷ item2 ∷ [])
      (reserve_order_stock fresh (codes "e1") order_request ctx (item1 ∷ item2 ∷ []))
reserve_order_stock-Answers_example =
    reserve_order_stock-Answers fresh (codes "e1") order_request ctx (item1 ∷ item2 ∷ []) refl

item1-IsStocked : IsStocked item1
item1-IsStocked = record {
  reserved_nonneg = omega arith;
  reserved_le_units = omega arith;
  loaded_are_counted = omega arith;
}

-- Runs of the three operations.
unfoldable reserve_run :
    (r : Reservation) × (item : StockItem) × (reserve other_request item1 ≡ ok (r, item))
unfolding reserve ◌+ℤ◌
reserve_run = (_, _, refl)

unfoldable release_run :
    (rs : List Reservation) × (item : StockItem) × (release an_order item1 ≡ ok (rs, item))
unfolding release release_open transition_open release_reservation sum_units ◌=t◌ ◌-ℤ◌
release_run = (_, _, refl)

unfoldable consume_run :
    (rs : List Reservation) × (item : StockItem) × (consume an_order item1 ≡ ok (rs, item))
unfolding consume consume_open transition_open consume_reservation sum_units ◌=t◌ ◌-ℤ◌
consume_run = (_, _, refl)

release_other_run :
    (rs : List Reservation) × (item : StockItem) × (release other_request.order_reference
        reserve_run.1
      ≡ ok (rs, item))
unfolding reserve_run release release_open transition_open release_reservation sum_units ◌=t◌ ◌-ℤ◌
release_other_run = (_, _, refl)

ReachableStock-IsStocked_example :
    IsStocked release_other_run.1
    × (unaccounted_units release_other_run.1 ≡ unaccounted_units item1)
ReachableStock-IsStocked_example =
    ReachableStock-IsStocked
      (then_change (then_change unchanged (reserving other_request reserve_run.0 reserve_run.2))
        (releasing other_request.order_reference release_other_run.0 release_other_run.2))
      item1-IsStocked

release-reserve_example :
    (release_other_run.1.reserved_units ≡ item1.reserved_units)
    × (release_other_run.1.units ≡ item1.units)
unfolding ◌=t◌
release-reserve_example = release-reserve other_request item1 reserve_run.2 refl release_other_run.2

release-twice_example : release an_order release_run.1 ≡ ok ([], release_run.1)
release-twice_example = release-twice an_order item1 release_run.2

release-excludes_consume_example : is_ok (consume an_order release_run.1) ≡ false
unfolding release_run
release-excludes_consume_example = release-excludes_consume an_order item1 release_run.2

-- The despatch of the order over both items.
abbrev despatch_input : CreateDespatchInput
despatch_input = record {
  order_reference = an_order;
  company_code = codes "C1";
  retailer_code = codes "R1";
  correlation_id = codes "o1";
}

despatch_run :
    (outcome : CreateDespatchOutcome) × (items : List StockItem) × (create_despatch_for_order
        (codes "d1")
        (codes "e1")
        (codes "DES-000001")
        despatch_input
        ctx
        (item1 ∷ item2 ∷ [])
      ≡ ok (outcome, items))
unfolding create_despatch_for_order consume ◌=t◌ consume_open transition_open
despatch_run = (_, _, refl)

create_despatch_for_order-once_example :
    (despatched despatch_run.0 ≡ open_lines an_order (item1 ∷ item2 ∷ []))
    × SaysDespatched despatch_run.0
    × (despatch_run.1 ≡ map (consumed_item an_order) (item1 ∷ item2 ∷ []))
    × ((id' event_id' reference' : Text) (ctx' : Context)
        → create_despatch_for_order id' event_id' reference' despatch_input ctx' despatch_run.1
          ≡ ok (no_reservations, despatch_run.1))
create_despatch_for_order-once_example =
    create_despatch_for_order-once (codes "d1") (codes "e1") (codes "DES-000001") despatch_input ctx
      (item1 ∷ item2 ∷ []) despatch_run.2
