-- ===== src/Fulfillment/StockItem/Life.antt =====
-- The life of a stock item: any sequence of the calls of stock-item.ts that change it.
use order_to_cash_nestjs.Base.Int.{int_laws, ◌-ℤ◌, pos}
use order_to_cash_nestjs.Fulfillment.Status.{ReservationStatus, is_reserved, released, consumed}
use order_to_cash_nestjs.Base.Text.{Text}
use mathlib.Core.Path.{subst}
use order_to_cash_nestjs.Result.{ok}
use order_to_cash_nestjs.Base.{◌≡◌, List, ℕ, ap, ◌∙◌, false, refl, sym, ◌∷◌, []}
use order_to_cash_nestjs.Fulfillment.StockItem.Bounds.{
  reserve-IsStocked, release-IsStocked, consume-IsStocked, replenish-IsStocked, reserved_item,
  reserve-ok, open_units-append,
}
use order_to_cash_nestjs.Fulfillment.StockItem.Counters.{
  IsStocked, unaccounted_units, release-ok, open_units_of, consume-ok, open_units, mark,
  open_units-mark,
}
use order_to_cash_nestjs.Fulfillment.StockItem.{
  StockItem, ReserveInput, Reservation, reserve, release, consume, replenish, reservation_for,
}

-- A call that does not throw.
pub data StockChange (item item' : StockItem) : Type 0 where
  reserving :
      (input : ReserveInput) (r : Reservation)
      → reserve input item ≡ ok (r, item')
      → StockChange item item'
  releasing :
      (o : Text) (rs : List Reservation) → release o item ≡ ok (rs, item') → StockChange item item'
  consuming :
      (o : Text) (rs : List Reservation) → consume o item ≡ ok (rs, item') → StockChange item item'
  replenishing : (q : ℕ) → replenish q item ≡ item' → StockChange item item'

pub data ReachableStock (item : StockItem) : StockItem → Type 0 where
  unchanged : ReachableStock item item
  then_change :
      {mid item' : StockItem}
      → ReachableStock item mid
      → StockChange mid item'
      → ReachableStock item item'

StockChange-IsStocked :
    {item item' : StockItem} → StockChange item item' → IsStocked item → IsStocked item'
StockChange-IsStocked {item} (reserving input r h) v = (reserve-IsStocked input item h v).0
StockChange-IsStocked {item} (releasing o rs h) v = release-IsStocked o item h v
StockChange-IsStocked {item} (consuming o rs h) v = consume-IsStocked o item h v
StockChange-IsStocked {item} (replenishing q h) v = subst IsStocked h (replenish-IsStocked q item v)

marked-same :
    (s : ReservationStatus) (o : Text) (item : StockItem)
    → is_reserved s ≡ false
    → item.reserved_units
        -ℤ pos (open_units_of o item.reservations)
        -ℤ pos (open_units (mark s o item.reservations))
      ≡ unaccounted_units item
marked-same s o item h = omega (int_laws, open_units-mark s o item.reservations h)

reserved-same :
    (input : ReserveInput) (item : StockItem)
    → unaccounted_units (reserved_item input item) ≡ unaccounted_units item
reserved-same input item =
    omega (int_laws, open_units-append item.reservations (reservation_for input item ∷ []))

StockChange-same :
    {item item' : StockItem}
    → StockChange item item'
    → unaccounted_units item' ≡ unaccounted_units item
unfolding replenish
StockChange-same {item} (reserving input r h) =
    ap unaccounted_units (reserve-ok input item h).2 ∙ reserved-same input item
StockChange-same {item} (releasing o rs h) =
    ap unaccounted_units (release-ok o item h).2 ∙ marked-same released o item refl
StockChange-same {item} (consuming o rs h) =
    ap unaccounted_units (consume-ok o item h).2 ∙ marked-same consumed o item refl
StockChange-same {item} (replenishing q h) = ap unaccounted_units (sym h)

-- Take an item with reserved units between 0 and its units (F1), whose loaded reservations in
-- status `reserved` come to no more than the reserved units. After any sequence of `reserve`,
-- `release`, `consume` and `replenish` calls that do not throw the same holds, and the reserved
-- units are as far above those reservations as before, so that an item loaded with all of its
-- reservations keeps F2.
pub ReachableStock-IsStocked :
    {item item' : StockItem}
    → ReachableStock item item'
    → IsStocked item
    → IsStocked item' × (unaccounted_units item' ≡ unaccounted_units item)
ReachableStock-IsStocked unchanged v = (v, refl)
ReachableStock-IsStocked (then_change r c) v =
    let (stocked, same) = ReachableStock-IsStocked r v in
    (StockChange-IsStocked c stocked, StockChange-same c ∙ same)
