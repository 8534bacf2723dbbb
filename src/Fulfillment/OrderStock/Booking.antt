-- ===== src/Fulfillment/OrderStock/Booking.antt =====
-- What `reserveOrderStock` (order-stock-reservation.ts) is to leave in an item: one reservation for
-- each line of its product, appended in the order of the lines, and their units counted.
use mathlib.Core.Path.{subst}
use order_to_cash_nestjs.Fulfillment.StockItem.Bounds.{reserved_item}
use order_to_cash_nestjs.Fulfillment.Facts.{ReservationRef}
use order_to_cash_nestjs.Fulfillment.OrderStock.{
  ReserveOrderLine, ReserveOrderInput, by_product, set_product, line_input,
}
use order_to_cash_nestjs.Fulfillment.StockItem.{
  StockItem, Reservation, StockItemSnapshot, to_snapshot, reservation_for,
}
use order_to_cash_nestjs.Base.Text.{Text, ◌=t◌, text_eq_iff, text_eq_refl}
use order_to_cash_nestjs.Base.Int.{ℤ, ◌+ℤ◌, pos, int_laws}
use order_to_cash_nestjs.Base.{
  ℕ, Option, List, ◌++◌, ◌∷◌, some, ◌≡◌, [], ◌+◌, if◌then◌else◌, none, ap, true, false, refl,
  Bool-cases, inl, inr, arith,
}
use order_to_cash_nestjs.Fulfillment.Status.{reserved}
use order_to_cash_nestjs.Fulfillment.OrderStock.Lookup.{
  requested, by_product-has, by_product-set_product, by_product-set_other,
}

-- The reference to the reservation of each line, the k-th id drawn for the first.
abbrev pub refs_of : (ℕ → Text) → ℕ → List ReserveOrderLine → List ReservationRef
refs_of fresh k [] = []
refs_of fresh k (line ∷ lines) =
    record { reservation_id = fresh k; product_code = line.product_code; units = line.units }
    ∷ refs_of fresh (k + 1) lines

-- The reservations of an item of a company and a product.
abbrev pub reservations_made :
    (ℕ → Text) → ℕ → ReserveOrderInput → Text → Text → List ReserveOrderLine → List Reservation
reservations_made fresh k input company code [] = []
reservations_made fresh k input company code (line ∷ lines) =
    (if line.product_code =t code
      then record {
        id = fresh k;
        order_reference = input.order_reference;
        company_code = company;
        retailer_code = input.retailer_code;
        product_code = code;
        units = line.units;
        status = reserved;
      }
        ∷ []
      else [])
    ++ reservations_made fresh (k + 1) input company code lines

abbrev pub booked :
    (ℕ → Text)
    → ℕ
    → ReserveOrderInput
    → List ReserveOrderLine
    → StockItemSnapshot
    → StockItemSnapshot
booked fresh k input lines s = record s {
  reserved_units = s.reserved_units +ℤ pos (requested s.product_code lines);
  reservations =
      s.reservations ++ reservations_made fresh k input s.company_code s.product_code lines;
}

-- The stored fields of the item of a product.
abbrev pub snapshot_in : Option StockItem → Option StockItemSnapshot
snapshot_in none = none
snapshot_in (some item) = some (to_snapshot item)

abbrev pub booked_in :
    (ℕ → Text)
    → ℕ
    → ReserveOrderInput
    → List ReserveOrderLine
    → Option StockItem
    → Option StockItemSnapshot
booked_in fresh k input lines none = none
booked_in fresh k input lines (some item) = some (booked fresh k input lines (to_snapshot item))

append_assoc : (r s t : List Reservation) → (r ++ s) ++ t ≡ r ++ (s ++ t)
append_assoc [] s t = refl
append_assoc (x ∷ r) s t = ap (λ (l : List Reservation). x ∷ l) (append_assoc r s t)

append-nil : (r : List Reservation) → r ≡ r ++ []
append-nil [] = refl
append-nil (x ∷ r) = ap (λ (l : List Reservation). x ∷ l) (append-nil r)

pub booked_in-nothing :
    (fresh : ℕ → Text) (k : ℕ) (input : ReserveOrderInput) (found : Option StockItem)
    → snapshot_in found ≡ booked_in fresh k input [] found
booked_in-nothing fresh k input none = refl
booked_in-nothing fresh k input (some item) = λ i. some (record (to_snapshot item) {
  reserved_units = add_zero (to_snapshot item).reserved_units i;
  reservations = append-nil (to_snapshot item).reservations i;
})
  where
    add_zero : (a : ℤ) → a ≡ a +ℤ pos 0
    add_zero a = omega int_laws

add_twice : (a : ℤ) (m n : ℕ) → a +ℤ pos m +ℤ pos n ≡ a +ℤ pos (m + n)
add_twice a m n = omega int_laws

-- The item that a line books on.
booked-own :
    (fresh : ℕ → Text) (k : ℕ) (input : ReserveOrderInput) (line : ReserveOrderLine)
    (lines : List ReserveOrderLine) (item : StockItem)
    → (item.product_code =t line.product_code) ≡ true
    → booked fresh
        (k + 1)
        input
        lines
        (to_snapshot (reserved_item (line_input (fresh k) input line) item))
      ≡ booked fresh k input (line ∷ lines) (to_snapshot item)
unfolding to_snapshot
booked-own fresh k input line lines item own =
    let same : (line.product_code =t item.product_code) ≡ true =
      rw ((text_eq_iff item.product_code line.product_code).0 own)
        (text_eq_refl line.product_code) in
    rw same λ i. record {
      id = item.id;
      company_code = item.company_code;
      product_code = item.product_code;
      units = item.units;
      reserved_units =
          add_twice item.reserved_units line.units (requested item.product_code lines) i;
      low_stock_threshold = item.low_stock_threshold;
      reservations =
          append_assoc item.reservations
            (reservation_for (line_input (fresh k) input line) item ∷ [])
            (reservations_made fresh (k + 1) input item.company_code item.product_code lines) i;
    }

-- Any other item.
booked-other :
    (fresh : ℕ → Text) (k : ℕ) (input : ReserveOrderInput) (line : ReserveOrderLine)
    (lines : List ReserveOrderLine) (item : StockItem)
    → (line.product_code =t item.product_code) ≡ false
    → booked fresh (k + 1) input lines (to_snapshot item)
      ≡ booked fresh k input (line ∷ lines) (to_snapshot item)
unfolding to_snapshot
booked-other fresh k input line lines item other =
    let same : requested item.product_code lines ≡ 0 + requested item.product_code lines =
      omega arith in
    rw other λ i. record {
      id = item.id;
      company_code = item.company_code;
      product_code = item.product_code;
      units = item.units;
      reserved_units = item.reserved_units +ℤ pos (same i);
      low_stock_threshold = item.low_stock_threshold;
      reservations =
          item.reservations
          ++ reservations_made fresh (k + 1) input item.company_code item.product_code lines;
    }

-- One round of the second loop.
pub booked_in-step :
    (fresh : ℕ → Text) (k : ℕ) (input : ReserveOrderInput) (line : ReserveOrderLine)
    (lines : List ReserveOrderLine) (items : List StockItem) (item : StockItem) (code : Text)
    → by_product line.product_code items ≡ some item
    → booked_in fresh (k + 1) input lines (
        by_product code (
          set_product line.product_code
            (reserved_item (line_input (fresh k) input line) item)
            items))
      ≡ booked_in fresh k input (line ∷ lines) (by_product code items)
booked_in-step fresh k input line lines items item code found =
    let item' = reserved_item (line_input (fresh k) input line) item in
    let (has, own) = by_product-has line.product_code items found in
    elim (Bool-cases (line.product_code =t code)) [
      | inl here ↦
          subst
            (λ c.
              booked_in fresh (k + 1) input lines
                (by_product c (set_product line.product_code item' items))
              ≡ booked_in fresh k input (line ∷ lines) (by_product c items))
            ((text_eq_iff line.product_code code).0 here)
            (rw (by_product-set_product line.product_code item' items has own, found)
              (ap some (booked-own fresh k input line lines item own)))
      | inr there ↦
          rw (by_product-set_other line.product_code code item' items own there)
            (others (by_product code items) there λ x e. (by_product-has code items e).1)
    ]
  where
    others :
        (o : Option StockItem)
        → (line.product_code =t code) ≡ false
        → ((x : StockItem) → o ≡ some x → (x.product_code =t code) ≡ true)
        → booked_in fresh (k + 1) input lines o ≡ booked_in fresh k input (line ∷ lines) o
    others none there h = refl
    others (some x) there h = ap some (
        booked-other fresh k input line lines x
          (rw ((text_eq_iff x.product_code code).0 (h x refl)) there))
