-- ===== src/Fulfillment/StockItem.antt =====
-- apps/fulfillment/src/domain/stock-item.ts and its child entity, reservation.ts. The counters are
-- integers: the code subtracts from them without a test.
pub mod Counters
pub mod Bounds
pub mod Life
pub mod Undo
use mathlib.Core.Option.{none}
use order_to_cash_nestjs.Errors.{
  reservation_terminal, insufficient_stock, invalid_stock_item_snapshot, to_release, to_consume,
}
use order_to_cash_nestjs.Fulfillment.Facts.{StockPayload}
use order_to_cash_nestjs.Kernel.Envelope.{Envelope}
use order_to_cash_nestjs.Fulfillment.Status.{
  reserved, ReservationStatus, is_reserved, is_consumed, is_released, released, consumed,
}
use order_to_cash_nestjs.Base.Int.{ℤ, ◌-ℤ◌, ◌+ℤ◌, leb_ℤ, pos, ltb_ℤ}
use order_to_cash_nestjs.Base.{
  ℕ, List, Bool, ◌&&◌, ◌∷◌, filter, not, ◌+◌, [], if◌then◌else◌, ◌||◌, find?, ◌++◌, some, is_empty,
  map, none,
}
use order_to_cash_nestjs.Result.{Result, ◌>>◌, throw_if, ok, ◌>>=◌, err}
use order_to_cash_nestjs.Base.Text.{Text, ◌=t◌}

pub record Reservation : Type 0 where
  pub id : Text
  pub order_reference : Text
  pub company_code : Text
  pub retailer_code : Text
  pub product_code : Text
  pub units : ℕ
  pub status : ReservationStatus

abbrev pub with_status : ReservationStatus → Reservation → Reservation
with_status s r = record r { status = s }

-- `Reservation.release`
unfoldable pub release_reservation : Reservation → Result Reservation
release_reservation r = do
  throw_if (not (is_reserved r.status)) (reservation_terminal r.id r.status to_release)
  ok (record r { status = released })

-- `Reservation.consume`
unfoldable pub consume_reservation : Reservation → Result Reservation
consume_reservation r = do
  throw_if (not (is_reserved r.status)) (reservation_terminal r.id r.status to_consume)
  ok (record r { status = consumed })

-- `StockItemProps` with the item's id and its uncommitted events.
pub record StockItem : Type 0 where
  pub id : Text
  pub company_code : Text
  pub product_code : Text
  pub units : ℤ
  pub reserved_units : ℤ
  pub low_stock_threshold : ℤ
  pub reservations : List Reservation
  pub domain_events : List (Envelope StockPayload)

-- `StockItemSnapshot`
pub record StockItemSnapshot : Type 0 where
  pub id : Text
  pub company_code : Text
  pub product_code : Text
  pub units : ℤ
  pub reserved_units : ℤ
  pub low_stock_threshold : ℤ
  pub reservations : List Reservation

pub record ReserveInput : Type 0 where
  pub reservation_id : Text
  pub order_reference : Text
  pub retailer_code : Text
  pub units : ℕ

-- The reservations of an order, and those of them that are still reserved.
abbrev pub is_of : Text → Reservation → Bool
is_of order_reference r = r.order_reference =t order_reference

abbrev pub is_open_of : Text → Reservation → Bool
is_open_of order_reference r = is_of order_reference r && is_reserved r.status

-- `reduce((sum, r) => sum + r.units.value, 0)`
unfoldable pub sum_units : ℕ → List Reservation → ℕ
sum_units sum [] = sum
sum_units sum (r ∷ rs) = sum_units (sum + r.units) rs

-- The `for` loop over the matches of an order that are reserved, on the item's own list: `filter`
-- hands out the same objects, so the calls change the list's elements.
unfoldable pub transition_open :
    (Reservation → Result Reservation) → Text → List Reservation → Result (List Reservation)
transition_open step order_reference [] = ok []
transition_open step order_reference (r ∷ rs) = do
  r' ← if is_open_of order_reference r then step r else ok r
  rs' ← transition_open step order_reference rs
  ok (r' ∷ rs')

-- `StockItem.reconstitute`
unfoldable pub reconstitute : StockItemSnapshot → Result StockItem
reconstitute snapshot = do
  throw_if (ltb_ℤ snapshot.units (pos 0) || ltb_ℤ snapshot.reserved_units (pos 0))
      (invalid_stock_item_snapshot snapshot.id)
  throw_if (ltb_ℤ snapshot.units snapshot.reserved_units) (invalid_stock_item_snapshot snapshot.id)
  ok (record {
    id = snapshot.id;
    company_code = snapshot.company_code;
    product_code = snapshot.product_code;
    units = snapshot.units;
    reserved_units = snapshot.reserved_units;
    low_stock_threshold = snapshot.low_stock_threshold;
    reservations = snapshot.reservations;
    domain_events = [];
  })

unfoldable pub to_snapshot : StockItem → StockItemSnapshot
to_snapshot item = record {
  id = item.id;
  company_code = item.company_code;
  product_code = item.product_code;
  units = item.units;
  reserved_units = item.reserved_units;
  low_stock_threshold = item.low_stock_threshold;
  reservations = item.reservations;
}

abbrev pub available_units : StockItem → ℤ
available_units item = item.units -ℤ item.reserved_units

abbrev pub can_reserve : ℕ → StockItem → Bool
can_reserve units item = leb_ℤ (pos units) (available_units item)

-- `Reservation.create` for this item.
abbrev pub reservation_for : ReserveInput → StockItem → Reservation
reservation_for input item = record {
  id = input.reservation_id;
  order_reference = input.order_reference;
  company_code = item.company_code;
  retailer_code = input.retailer_code;
  product_code = item.product_code;
  units = input.units;
  status = reserved;
}

unfoldable pub reserve : ReserveInput → StockItem → Result (Reservation × StockItem)
reserve input item = do
  throw_if (ltb_ℤ item.units (item.reserved_units +ℤ pos input.units))
      (insufficient_stock item.product_code input.units (available_units item))
  ok (
    reservation_for input item,
    record item {
      reserved_units = item.reserved_units +ℤ pos input.units;
      reservations = item.reservations ++ reservation_for input item ∷ [];
    },
  )

-- `StockItem.release` past its guard, with the reservations that it returns, as they are afterwards.
unfoldable pub release_open : Text → StockItem → Result (List Reservation × StockItem)
unfolding release_reservation
release_open order_reference item =
    let open_ =
      filter (λ r. is_reserved r.status) (filter (is_of order_reference) item.reservations) in
    if is_empty open_ then ok ([], item) else do
      reservations ← transition_open release_reservation order_reference item.reservations
      ok (
        map (with_status released) open_,
        record item {
          reserved_units = item.reserved_units -ℤ pos (sum_units 0 open_);
          reservations = reservations;
        },
      )

unfoldable pub release : Text → StockItem → Result (List Reservation × StockItem)
release order_reference item =
    elim (find? (λ r. is_consumed r.status) (filter (is_of order_reference) item.reservations)) [
      | some r ↦ err (reservation_terminal r.id consumed to_release)
      | none ↦ release_open order_reference item
    ]

-- `StockItem.consume` past its guard, with the reservations that it returns, as they are afterwards.
unfoldable pub consume_open : Text → StockItem → Result (List Reservation × StockItem)
unfolding consume_reservation
consume_open order_reference item =
    let open_ =
      filter (λ r. is_reserved r.status) (filter (is_of order_reference) item.reservations) in
    if is_empty open_ then ok ([], item) else do
      reservations ← transition_open consume_reservation order_reference item.reservations
      ok (
        map (with_status consumed) open_,
        record item {
          units = item.units -ℤ pos (sum_units 0 open_);
          reserved_units = item.reserved_units -ℤ pos (sum_units 0 open_);
          reservations = reservations;
        },
      )

unfoldable pub consume : Text → StockItem → Result (List Reservation × StockItem)
consume order_reference item =
    elim (find? (λ r. is_released r.status) (filter (is_of order_reference) item.reservations)) [
      | some r ↦ err (reservation_terminal r.id released to_consume)
      | none ↦ consume_open order_reference item
    ]

unfoldable pub replenish : ℕ → StockItem → StockItem
replenish quantity item = record item { units = item.units +ℤ pos quantity }
