-- ===== src/Fulfillment/OrderStock/Loop.antt =====
-- The second loop of `reserveOrderStock`, and the fact that ends a call: neither throws.
use order_to_cash_nestjs.Fulfillment.OrderStock.Booking.{
  refs_of, snapshot_in, booked_in-nothing, booked_in, booked_in-step,
}
use order_to_cash_nestjs.Errors.{plain_error}
use mathlib.Core.Path.{subst}
use order_to_cash_nestjs.Fulfillment.StockItem.Bounds.{
  reserved_item, reserve-IsStocked, reserve_lem,
}
use order_to_cash_nestjs.Fulfillment.StockItem.Counters.{IsStocked}
use order_to_cash_nestjs.Result.{ok, err, ◌>>=◌}
use order_to_cash_nestjs.Fulfillment.OrderStock.Lookup.{
  reserved_of, requested, facts_of, by_product-has, reserved_of-set_product, has-set_product,
  facts_of-set_product, All-set_product,
}
use order_to_cash_nestjs.Base.Text.{Text, text_eq_refl, ◌=t◌, text_eq_iff}
use order_to_cash_nestjs.Fulfillment.Facts.{ReservationRef}
use order_to_cash_nestjs.Fulfillment.StockItem.{
  ReserveInput, StockItem, available_units, reservation_for, can_reserve, Reservation,
}
use order_to_cash_nestjs.Fulfillment.OrderStock.{
  ReserveOrderLine, by_product, reserve_lines, reserve, has_product, ReserveOrderInput, line_input,
  set_product, ref_of,
}
use order_to_cash_nestjs.Base.{
  ℕ, ◌+◌, ◌≡◌, refl, ◌∙◌, ap, true, List, [], ◌∷◌, ◌++◌, none, some, arith, if◌then◌else◌, All,
  Bool-cases, inl, inr, All-map, sym,
}
use order_to_cash_nestjs.Base.Int.{pos, ◌≤ℤ◌, ◌+ℤ◌, int_laws, ℤ}
use order_to_cash_nestjs.Fulfillment.OrderStock.Shortages.{Can, Can-step}

-- Every line can have the rest of its product's total.
abbrev pub Ready : List ReserveOrderLine → List StockItem → Type 0
Ready lines items =
    All (λ line. Can line.product_code (requested line.product_code lines) items) lines

-- What the second loop comes to.
pub record Filled (fresh : ℕ → Text) (k : ℕ) (input : ReserveOrderInput)
    (lines : List ReserveOrderLine) (refs refs' : List ReservationRef)
    (items items' : List StockItem) : Type 0 where
  pub a_reference_each : refs' ≡ refs ++ refs_of fresh k lines
  pub all_booked :
      (code : Text)
      → snapshot_in (by_product code items') ≡ booked_in fresh k input lines (by_product code items)
  pub totals_reserved :
      (code : Text) → reserved_of code items' ≡ reserved_of code items +ℤ pos (requested code lines)
  pub same_products : (code : Text) → has_product code items' ≡ has_product code items
  pub same_facts : facts_of items' ≡ facts_of items
  pub stocked : All IsStocked items → All IsStocked items'

reserve-Can :
    (input : ReserveInput) (n : ℕ) (item : StockItem)
    → pos (input.units + n) ≤ℤ available_units item
    → reserve input item ≡ ok (reservation_for input item, reserved_item input item)
reserve-Can input n item fits =
    let can : can_reserve input.units item ≡ true = ground (arith, fits) in
    rw (reserve_lem input item, can)

Ready-first :
    (line : ReserveOrderLine) (lines : List ReserveOrderLine) (items : List StockItem)
    → Ready (line ∷ lines) items
    → (item : StockItem) × (by_product line.product_code items ≡ some item)
      × (pos (line.units + requested line.product_code lines) ≤ℤ available_units item)
Ready-first line lines items ((item, e, fits), rest) =
    (item, e, rw (text_eq_refl line.product_code) at fits)

IsStocked-reserved_item :
    (input : ReserveInput) (item : StockItem)
    → reserve input item ≡ ok (reservation_for input item, reserved_item input item)
    → IsStocked item
    → IsStocked (reserved_item input item)
IsStocked-reserved_item input item h v = (reserve-IsStocked input item h v).0

pub by_product-All :
    (P : StockItem → Type 0) (code : Text) (items : List StockItem) {item : StockItem}
    → by_product code items ≡ some item
    → All P items
    → P item
unfolding by_product
by_product-All P code [] e h = cc
by_product-All P code (x ∷ xs) {item} e h = elim (Bool-cases (has_product code xs)) [
  | inl later ↦ by_product-All P code xs (rw later at e) h.1
  | inr here ↦ let same : x ≡ item = ground (arith, rw here at e) in subst P same h.0
]

add_zero : (a : ℤ) → a ≡ a +ℤ pos 0
add_zero a = omega int_laws

add_twice : (a : ℤ) (m n : ℕ) → a +ℤ pos m +ℤ pos n ≡ a +ℤ pos (m + n)
add_twice a m n = omega int_laws

reserve_lines-step :
    (fresh : ℕ → Text) (k : ℕ) (input : ReserveOrderInput) (line : ReserveOrderLine)
    (lines : List ReserveOrderLine) (refs : List ReservationRef) (items : List StockItem)
    {item item' : StockItem} {r : Reservation}
    → by_product line.product_code items ≡ some item
    → reserve (line_input (fresh k) input line) item ≡ ok (r, item')
    → reserve_lines fresh k input (line ∷ lines) refs items
      ≡ reserve_lines fresh
          (k + 1)
          input
          lines
          (refs ++ ref_of r ∷ [])
          (set_product line.product_code item' items)
unfolding reserve_lines
reserve_lines-step fresh k input line lines refs items found done =
    (λ i. elim (found i) [
      | none ↦ err plain_error
      | some item ↦ reserve (line_input (fresh k) input line) item >>= λ done.
          reserve_lines fresh (k + 1) input lines (refs ++ ref_of done.0 ∷ [])
            (set_product line.product_code done.1 items)
    ])
    ∙ ap
        (λ m. m >>= λ done.
          reserve_lines fresh (k + 1) input lines (refs ++ ref_of done.0 ∷ [])
            (set_product line.product_code done.1 items))
        done

append_nil : (refs : List ReservationRef) → refs ++ [] ≡ refs
append_nil [] = refl
append_nil (r ∷ refs) = ap (λ (l : List ReservationRef). r ∷ l) (append_nil refs)

ref-moves :
    (refs : List ReservationRef) (r : ReservationRef) (more : List ReservationRef)
    → (refs ++ r ∷ []) ++ more ≡ refs ++ r ∷ more
ref-moves [] r more = refl
ref-moves (x ∷ refs) r more = ap (λ (l : List ReservationRef). x ∷ l) (ref-moves refs r more)

pub reserve_lines-Filled :
    (fresh : ℕ → Text) (k : ℕ) (input : ReserveOrderInput) (lines : List ReserveOrderLine)
    (refs : List ReservationRef) (items : List StockItem)
    → Ready lines items
    → (refs' : List ReservationRef) × (items' : List StockItem) × (reserve_lines fresh k input lines
          refs items
        ≡ ok (refs', items'))
      × Filled fresh k input lines refs refs' items items'
unfolding reserve_lines
reserve_lines-Filled fresh k input [] refs items ready = (
  refs,
  items,
  refl,
  record {
    a_reference_each = sym (append_nil refs);
    all_booked = λ code. booked_in-nothing fresh k input (by_product code items);
    totals_reserved = λ code. add_zero (reserved_of code items);
    same_products = λ code. refl;
    same_facts = refl;
    stocked = λ v. v;
  },
)
reserve_lines-Filled fresh k input (line ∷ lines) refs items ready =
    let (item, found, fits) = Ready-first line lines items ready in
    let request = line_input (fresh k) input line in
    let done = reserve-Can request (requested line.product_code lines) item fits in
    let item' = reserved_item request item in
    let items' = set_product line.product_code item' items in
    let same : (item'.product_code =t line.product_code) ≡ true =
      (by_product-has line.product_code items found).1 in
    let refs1 = refs ++ ref_of (reservation_for request item) ∷ [] in
    let ready' : Ready lines items' =
      All-map
        (λ m can.
          Can-step line.product_code m.product_code (requested m.product_code lines) line.units item
            item' items found same (omega int_laws) can)
        lines ready.1 in
    let (refs', items'', run, filled) =
      reserve_lines-Filled fresh (k + 1) input lines refs1 items' ready' in
    (
      refs',
      items'',
      reserve_lines-step fresh k input line lines refs items found done ∙ run,
      record {
        a_reference_each =
            filled.a_reference_each
            ∙ ref-moves refs (ref_of (reservation_for request item)) (refs_of fresh (k + 1) lines)
            ∙ ap
                (λ (c : Text).
                  refs
                  ++ record { reservation_id = fresh k; product_code = c; units = line.units }
                    ∷ refs_of fresh (k + 1) lines)
                ((text_eq_iff item.product_code line.product_code).0 same);
        all_booked = λ code.
            filled.all_booked code ∙ booked_in-step fresh k input line lines items item code found;
        totals_reserved = λ code.
            filled.totals_reserved code
            ∙ rw
                (reserved_of-set_product line.product_code code line.units item item' items found
                  same refl)
                (add_twice (reserved_of code items)
                  (if line.product_code =t code then line.units else 0) (requested code lines));
        same_products = λ code.
            filled.same_products code ∙ has-set_product line.product_code code item' items same;
        same_facts =
            filled.same_facts
            ∙ facts_of-set_product line.product_code 0 item item' items found (omega arith)
            ∙ omega arith;
        stocked = λ v. filled.stocked (
            All-set_product IsStocked line.product_code item' items v (
              IsStocked-reserved_item request item done
                (by_product-All IsStocked line.product_code items found v)));
      },
    )
