-- ===== src/Fulfillment/StockItem/Bounds.antt =====
-- The counters of a stock item through every operation of stock-item.ts, and how the operations undo
-- and exclude one another.
use order_to_cash_nestjs.Fulfillment.Status.{released, consumed}
use mathlib.Core.Path.{subst}
use order_to_cash_nestjs.Errors.{insufficient_stock}
use order_to_cash_nestjs.Base.Int.{int_laws, ◌+ℤ◌, pos, +ℤ_parts, -ℤ_parts}
use order_to_cash_nestjs.Result.{ok, err, ok-injective}
use order_to_cash_nestjs.Fulfillment.StockItem.Counters.{
  open_units, IsStocked, release-ok, consume-ok, open_units-mark,
}
use order_to_cash_nestjs.Base.Text.{Text}
use order_to_cash_nestjs.Fulfillment.StockItem.{
  ReserveInput, replenish, Reservation, reserve, StockItem, release, consume, can_reserve,
  reservation_for, available_units,
}
use order_to_cash_nestjs.Base.{
  List, ℕ, ◌≡◌, ◌++◌, if◌then◌else◌, ◌+◌, arith, true, ◌∷◌, [], Bool-cases, inl, sym, ◌∙◌, refl,
  inr,
}

pub open_units-append :
    (xs ys : List Reservation) → open_units (xs ++ ys) ≡ open_units xs + open_units ys
open_units-append [] ys = omega arith
open_units-append (x ∷ xs) ys = omega (arith, open_units-append xs ys)

-- `reserve` in one equation: with the units available it appends the reservation and adds its units
-- to the reserved ones; otherwise it throws `InsufficientStockError` with what is available.
pub reserve_lem :
    (input : ReserveInput) (item : StockItem)
    → reserve input item ≡ (
        if can_reserve input.units item
        then ok (
          reservation_for input item,
          record item {
            reserved_units = item.reserved_units +ℤ pos input.units;
            reservations = item.reservations ++ reservation_for input item ∷ [];
          },
        )
        else err (insufficient_stock item.product_code input.units (available_units item)))
unfolding reserve
reserve_lem input item =
    ground (
      arith,
      +ℤ_parts item.reserved_units (pos input.units),
      -ℤ_parts item.units item.reserved_units,
    )

abbrev pub reserved_item : ReserveInput → StockItem → StockItem
reserved_item input item = record item {
  reserved_units = item.reserved_units +ℤ pos input.units;
  reservations = item.reservations ++ reservation_for input item ∷ [];
}

pub reserve-ok :
    (input : ReserveInput) (item : StockItem) {r : Reservation} {item' : StockItem}
    → reserve input item ≡ ok (r, item')
    → (can_reserve input.units item ≡ true)
      × (r ≡ reservation_for input item)
      × (item' ≡ reserved_item input item)
reserve-ok input item h = elim (Bool-cases (can_reserve input.units item)) [
  | inl e ↦
      let got = rw e at (sym (reserve_lem input item) ∙ h) in
      (e, λ i. (ok-injective (sym got) i).0, λ i. (ok-injective (sym got) i).1)
  | inr e ↦ let got = rw e at (sym (reserve_lem input item) ∙ h) in cc got
]

-- A `reserve` that does not throw, on an item whose counters agree with its reservations, leaves such
-- an item, and the units were available.
pub reserve-IsStocked :
    (input : ReserveInput) (item : StockItem) {r : Reservation} {item' : StockItem}
    → reserve input item ≡ ok (r, item')
    → IsStocked item
    → IsStocked item' × (can_reserve input.units item ≡ true)
reserve-IsStocked input item h v =
    let (fits, same, after) = reserve-ok input item h in
    (
      subst IsStocked (sym after) (record {
        reserved_nonneg = omega (int_laws, v.reserved_nonneg);
        reserved_le_units = ground (
          arith,
          +ℤ_parts item.reserved_units (pos input.units),
          -ℤ_parts item.units item.reserved_units,
        );
        loaded_are_counted = omega (
          int_laws,
          v.loaded_are_counted,
          open_units-append item.reservations (reservation_for input item ∷ []),
        );
      }),
      fits,
    )

-- A `release` that does not throw, on an item whose counters agree with its reservations, leaves such
-- an item.
pub release-IsStocked :
    (o : Text) (item : StockItem) {rs : List Reservation} {item' : StockItem}
    → release o item ≡ ok (rs, item')
    → IsStocked item
    → IsStocked item'
release-IsStocked o item h v =
    let (free, same, after) = release-ok o item h in
    let split = open_units-mark released o item.reservations refl in
    subst IsStocked (sym after) (record {
      reserved_nonneg = omega (int_laws, v.loaded_are_counted, split);
      reserved_le_units = omega (int_laws, v.reserved_le_units, split);
      loaded_are_counted = omega (int_laws, v.loaded_are_counted, split);
    })

-- A `consume` that does not throw, on an item whose counters agree with its reservations, leaves such
-- an item.
pub consume-IsStocked :
    (o : Text) (item : StockItem) {rs : List Reservation} {item' : StockItem}
    → consume o item ≡ ok (rs, item')
    → IsStocked item
    → IsStocked item'
consume-IsStocked o item h v =
    let (free, same, after) = consume-ok o item h in
    let split = open_units-mark consumed o item.reservations refl in
    subst IsStocked (sym after) (record {
      reserved_nonneg = omega (int_laws, v.loaded_are_counted, split);
      reserved_le_units = omega (int_laws, v.reserved_le_units, split);
      loaded_are_counted = omega (int_laws, v.loaded_are_counted, split);
    })

pub replenish-IsStocked : (q : ℕ) (item : StockItem) → IsStocked item → IsStocked (replenish q item)
unfolding replenish
replenish-IsStocked q item v = record {
  reserved_nonneg = v.reserved_nonneg;
  reserved_le_units = omega (int_laws, v.reserved_le_units);
  loaded_are_counted = v.loaded_are_counted;
}
