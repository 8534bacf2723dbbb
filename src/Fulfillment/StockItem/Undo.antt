-- ===== src/Fulfillment/StockItem/Undo.antt =====
-- How the operations of stock-item.ts undo, repeat and exclude one another.
use order_to_cash_nestjs.Fulfillment.StockItem.Bounds.{reserve-ok, reserved_item}
use order_to_cash_nestjs.Result.{ok, is_ok}
use order_to_cash_nestjs.Fulfillment.StockItem.{
  Reservation, StockItem, ReserveInput, release, reserve, is_of, consume, with_status,
  reservation_for,
}
use order_to_cash_nestjs.Fulfillment.Status.{
  ReservationStatus, is_reserved, is_consumed, is_released, released,
}
use order_to_cash_nestjs.Base.{
  ℕ, ◌+◌, ◌≡◌, refl, ◌∙◌, ap, true, false, List, [], ◌∷◌, ◌++◌, none, arith, is_empty, Bool-cases,
  inl, inr, map, filter, Option-cases, is_some, find?,
}
use order_to_cash_nestjs.Base.Int.{ℤ, pos, ◌+ℤ◌, int_laws, ◌-ℤ◌, eq_of_parts}
use order_to_cash_nestjs.Base.Text.{Text, text_eq_refl}
use order_to_cash_nestjs.Fulfillment.StockItem.Counters.{
  open_of, mark, release-ok, open_units_of, consumed_one, release_lem, released_item-none,
  is_empty-nil, released_one, consume_lem, released_item,
}

-- Nothing of the order is open once it is marked.
open_of-mark :
    (s : ReservationStatus) (o : Text) (rs : List Reservation)
    → is_reserved s ≡ false
    → open_of o (mark s o rs) ≡ []
open_of-mark s o [] h = refl
open_of-mark s o (r ∷ rs) h = ground (arith, open_of-mark s o rs h)

consumed-mark :
    (o : Text) (rs : List Reservation)
    → find? (λ r. is_consumed r.status) (filter (is_of o) rs) ≡ none
    → find? (λ r. is_consumed r.status) (filter (is_of o) (mark released o rs)) ≡ none
consumed-mark o [] h = refl
consumed-mark o (r ∷ rs) h = ground (arith, consumed-mark o rs)

released-mark :
    (o : Text) (rs : List Reservation)
    → is_empty (open_of o rs) ≡ false
    → is_some (find? (λ r. is_released r.status) (filter (is_of o) (mark released o rs))) ≡ true
released-mark o [] h = cc
released-mark o (r ∷ rs) h = ground (arith, released-mark o rs)

-- After a `release` of an order that did not throw, a second `release` of the order returns no
-- reservation and changes nothing.
pub release-twice :
    (o : Text) (item : StockItem) {rs : List Reservation} {item' : StockItem}
    → release o item ≡ ok (rs, item')
    → release o item' ≡ ok ([], item')
release-twice o item {rs} {item'} h =
    let (free, same, after) = release-ok o item h in
    let none_open : open_of o item'.reservations ≡ [] =
      ap (λ (i : StockItem). open_of o i.reservations) after
      ∙ open_of-mark released o item.reservations refl in
    let still_free : consumed_one o item' ≡ none =
      ap (consumed_one o) after ∙ consumed-mark o item.reservations free in
    release_lem o item'
    ∙ rw (still_free, none_open)
        (ap ok (λ i. ([], released_item-none o item' (ap is_empty none_open) i)))

-- After a `release` of an order that returned some reservation, `consume` of the order throws.
pub release-excludes_consume :
    (o : Text) (item : StockItem) {r : Reservation} {rs : List Reservation} {item' : StockItem}
    → release o item ≡ ok (r ∷ rs, item')
    → is_ok (consume o item') ≡ false
release-excludes_consume o item {r} {rs} {item'} h =
    let (free, same, after) = release-ok o item h in
    let some_open : is_empty (open_of o item.reservations) ≡ false =
      elim (Bool-cases (is_empty (open_of o item.reservations))) [
        | inl e ↦
            cc
              (same, ap (map (with_status released)) (is_empty-nil (open_of o item.reservations) e))
        | inr e ↦ e
      ] in
    let gone : is_some (released_one o item') ≡ true =
      ap (λ i. is_some (released_one o i)) after ∙ released-mark o item.reservations some_open in
    elim (Option-cases (released_one o item')) [
      | inl e ↦ cc (rw e at gone)
      | inr (x, e) ↦ rw (consume_lem o item', e) refl
    ]

open_units_of-reservation :
    (input : ReserveInput) (item : StockItem) (xs : List Reservation)
    → open_units_of input.order_reference (xs ++ reservation_for input item ∷ [])
      ≡ open_units_of input.order_reference xs + input.units
open_units_of-reservation input item [] = ground (arith, text_eq_refl input.order_reference)
open_units_of-reservation input item (x ∷ xs) =
    omega (arith, open_units_of-reservation input item xs)

back_again : (a : ℤ) (m n : ℕ) → m ≡ n → a +ℤ pos n -ℤ pos m ≡ a
back_again a m n h = eq_of_parts _ _ (omega (int_laws, h))

-- A `reserve` for an order with nothing open on the item, followed by a `release` of the order,
-- neither of which throws, leaves both counters of the item as they were.
pub release-reserve :
    (input : ReserveInput) (item : StockItem) {r : Reservation} {item' item'' : StockItem}
    {rs : List Reservation}
    → reserve input item ≡ ok (r, item')
    → open_units_of input.order_reference item.reservations ≡ 0
    → release input.order_reference item' ≡ ok (rs, item'')
    → (item''.reserved_units ≡ item.reserved_units) × (item''.units ≡ item.units)
release-reserve input item {r} {item'} {item''} h none_open k =
    let (fits, same, after) = reserve-ok input item h in
    let (free, released_, after') = release-ok input.order_reference item' k in
    let after'' : item'' ≡ released_item input.order_reference (reserved_item input item) =
      after' ∙ ap (released_item input.order_reference) after in
    let freed = open_units_of-reservation input item item.reservations ∙ omega (arith, none_open) in
    (
      ap (λ (i : StockItem). i.reserved_units) after''
          ∙ back_again item.reserved_units _ input.units freed,
      ap (λ (i : StockItem). i.units) after'',
    )
