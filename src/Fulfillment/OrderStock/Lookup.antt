-- ===== src/Fulfillment/OrderStock/Lookup.antt =====
-- The `Map` lookups of order-stock-reservation.ts: the items by product, the requested totals.
use mathlib.Core.Path.{subst}
use order_to_cash_nestjs.Base.Int.{ℤ, ◌+ℤ◌, pos, int_laws}
use order_to_cash_nestjs.Base.{
  ℕ, ◌+◌, ◌≡◌, refl, ap, true, false, List, [], ◌∷◌, Option, none, some, arith, if◌then◌else◌, All,
  Bool-cases, inl, inr, length, map,
}
use order_to_cash_nestjs.Base.Text.{Text, ◌=t◌, text_eq_iff}
use order_to_cash_nestjs.Fulfillment.StockItem.{StockItem, to_snapshot}
use order_to_cash_nestjs.Fulfillment.OrderStock.{
  ReserveOrderLine, by_product, set_product, has_product, sum_requested,
}

-- The units of a product over the lines of an order.
abbrev pub requested : Text → List ReserveOrderLine → ℕ
requested code [] = 0
requested code (line ∷ lines) =
    (if line.product_code =t code then line.units else 0) + requested code lines

pub sum_requested_lem :
    (totals : Text → ℕ) (lines : List ReserveOrderLine) (code : Text)
    → sum_requested totals lines code ≡ totals code + requested code lines
unfolding sum_requested
sum_requested_lem totals [] code = omega arith
sum_requested_lem totals (line ∷ lines) code =
    rw
      (sum_requested_lem
        (λ code. if line.product_code =t code then totals code + line.units else totals code) lines
        code)
      (ground arith)

pub by_product-has :
    (code : Text) (items : List StockItem) {item : StockItem}
    → by_product code items ≡ some item
    → (has_product code items ≡ true) × ((item.product_code =t code) ≡ true)
unfolding by_product
by_product-has code [] h = cc
by_product-has code (x ∷ xs) {item} h = ground (arith, by_product-has code xs {item = item})

pub has-set_product :
    (code c : Text) (changed : StockItem) (items : List StockItem)
    → (changed.product_code =t code) ≡ true
    → has_product c (set_product code changed items) ≡ has_product c items
unfolding set_product
has-set_product code c changed [] h = refl
has-set_product code c changed (x ∷ xs) h = grind (
  arith,
  has-set_product code c changed xs,
  text_eq_iff x.product_code code,
  text_eq_iff changed.product_code code,
)

-- The changed item is found under its code, and every other item as before.
pub by_product-set_product :
    (code : Text) (changed : StockItem) (items : List StockItem)
    → has_product code items ≡ true
    → (changed.product_code =t code) ≡ true
    → by_product code (set_product code changed items) ≡ some changed
unfolding by_product set_product
by_product-set_product code changed [] h same = cc
by_product-set_product code changed (x ∷ xs) h same =
    ground
      (arith, by_product-set_product code changed xs, has-set_product code code changed xs same)

pub by_product-set_other :
    (code c : Text) (changed : StockItem) (items : List StockItem)
    → (changed.product_code =t code) ≡ true
    → (code =t c) ≡ false
    → by_product c (set_product code changed items) ≡ by_product c items
unfolding by_product set_product
by_product-set_other code c changed [] same other = refl
by_product-set_other code c changed (x ∷ xs) same other = grind (
  arith,
  by_product-set_other code c changed xs same other,
  has-set_product code c changed xs same,
  text_eq_iff x.product_code code,
  text_eq_iff changed.product_code code,
)

pub All-set_product {κ} :
    (P : StockItem → Type κ) (code : Text) (changed : StockItem) (items : List StockItem)
    → All P items
    → P changed
    → All P (set_product code changed items)
unfolding set_product
All-set_product P code changed [] h k = tt
All-set_product P code changed (x ∷ xs) h k =
    ground (arith, All-set_product P code changed xs h.1 k)

pub has-by_product :
    (code : Text) (items : List StockItem)
    → has_product code items ≡ true
    → (item : StockItem) × (by_product code items ≡ some item)
unfolding by_product
has-by_product code [] h = cc
has-by_product code (x ∷ xs) h = elim (Bool-cases (has_product code xs)) [
  | inl e ↦ let (item, found) = has-by_product code xs e in (item, rw e found)
  | inr e ↦ (x, ground (arith, h, e))
]

-- `reservedUnits` of a product, 0 for one without an item.
abbrev reserved_units_in : Option StockItem → ℤ
reserved_units_in none = pos 0
reserved_units_in (some item) = item.reserved_units

abbrev pub reserved_of : Text → List StockItem → ℤ
reserved_of code items = reserved_units_in (by_product code items)

add_zero : (a : ℤ) → a ≡ a +ℤ pos 0
add_zero a = omega int_laws

pub reserved_of-set_product :
    (code c : Text) (u : ℕ) (item changed : StockItem) (items : List StockItem)
    → by_product code items ≡ some item
    → (changed.product_code =t code) ≡ true
    → changed.reserved_units ≡ item.reserved_units +ℤ pos u
    → reserved_of c (set_product code changed items)
      ≡ reserved_of c items +ℤ pos (if code =t c then u else 0)
reserved_of-set_product code c u item changed items found same counted =
    elim (Bool-cases (code =t c)) [
      | inl here ↦ rw (here) (
          subst (λ c. reserved_of c (set_product code changed items) ≡ reserved_of c items +ℤ pos u)
            ((text_eq_iff code c).0 here)
            (rw
              (
                by_product-set_product code changed items (by_product-has code items found).0 same,
                found,
              )
              counted))
      | inr there ↦
          rw (there, by_product-set_other code c changed items same there)
            (add_zero (reserved_of c items))
    ]

-- The facts that the items carry.
abbrev pub facts_of : List StockItem → ℕ
facts_of [] = 0
facts_of (item ∷ items) = length item.domain_events + facts_of items

pub facts_of-set_product :
    (code : Text) (n : ℕ) (item changed : StockItem) (items : List StockItem)
    → by_product code items ≡ some item
    → length changed.domain_events ≡ length item.domain_events + n
    → facts_of (set_product code changed items) ≡ facts_of items + n
unfolding by_product set_product
facts_of-set_product code n item changed [] found counted = cc
facts_of-set_product code n item changed (x ∷ xs) found counted =
    elim (Bool-cases (has_product code xs)) [
      | inl e ↦
          rw e (omega (arith, facts_of-set_product code n item changed xs (rw e at found) counted))
      | inr e ↦ ground (arith, found, e, counted)
    ]

pub snapshots-set_product :
    (code : Text) (item changed : StockItem) (items : List StockItem)
    → by_product code items ≡ some item
    → to_snapshot changed ≡ to_snapshot item
    → map to_snapshot (set_product code changed items) ≡ map to_snapshot items
unfolding by_product set_product
snapshots-set_product code item changed [] found same = cc
snapshots-set_product code item changed (x ∷ xs) found same =
    elim (Bool-cases (has_product code xs)) [
      | inl e ↦ rw e (
          ap (λ l. to_snapshot x ∷ l)
            (snapshots-set_product code item changed xs (rw e at found) same))
      | inr e ↦ ground (arith, found, e, same)
    ]
