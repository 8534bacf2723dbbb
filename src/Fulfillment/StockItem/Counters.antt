-- ===== src/Fulfillment/StockItem/Counters.antt =====
-- The counters of a stock item and the reservations behind them, through every operation.
use order_to_cash_nestjs.Errors.{reservation_terminal, to_release, to_consume}
use order_to_cash_nestjs.Result.{ok, err, ok-injective}
use order_to_cash_nestjs.Base.Int.{pos, ◌≤ℤ◌, ◌-ℤ◌, ℤ, int_laws}
use order_to_cash_nestjs.Fulfillment.Status.{
  ReservationStatus, is_reserved, released, consumed, is_consumed, is_released,
}
use order_to_cash_nestjs.Fulfillment.StockItem.{
  consume, release, StockItem, sum_units, transition_open, Reservation, release_reservation,
  consume_reservation, is_open_of, is_of, with_status, release_open, consume_open,
}
use order_to_cash_nestjs.Base.Text.{Text}
use order_to_cash_nestjs.Base.{
  List, ℕ, ◌∷◌, ◌≡◌, filter, ◌≤◌, map, ◌+◌, if◌then◌else◌, arith, [], refl, is_empty, false, true,
  find?, none, ◌∙◌, Option, some, Bool-cases, inl, inr, ap, sym, Option-cases,
}

abbrev total_units : List Reservation → ℕ
total_units [] = 0
total_units (r ∷ rs) = r.units + total_units rs

-- The units that the loaded reservations still hold: of one order, and of all.
abbrev pub open_units_of : Text → List Reservation → ℕ
open_units_of o [] = 0
open_units_of o (r ∷ rs) = (if is_open_of o r then r.units else 0) + open_units_of o rs

abbrev pub open_units : List Reservation → ℕ
open_units [] = 0
open_units (r ∷ rs) = (if is_reserved r.status then r.units else 0) + open_units rs

-- The counters agree with the reservations. F1 is the second field. The third is the half of F2
-- (reservedUnits is the sum of the open reservations) that holds also when the item is loaded with
-- some of its reservations only; `release` and `consume` subtract the units of those without a test.
pub record IsStocked (item : StockItem) : Type 0 where
  pub reserved_nonneg : pos 0 ≤ℤ item.reserved_units
  pub reserved_le_units : item.reserved_units ≤ℤ item.units
  pub loaded_are_counted : pos (open_units item.reservations) ≤ℤ item.reserved_units

-- The reserved units that no loaded reservation accounts for: 0 is F2.
abbrev pub unaccounted_units : StockItem → ℤ
unaccounted_units item = item.reserved_units -ℤ pos (open_units item.reservations)

sum_units-total : (n : ℕ) (rs : List Reservation) → sum_units n rs ≡ n + total_units rs
unfolding sum_units
sum_units-total n [] = omega arith
sum_units-total n (r ∷ rs) = rw (sum_units-total (n + r.units) rs) (omega arith)

total-filter :
    (o : Text) (rs : List Reservation)
    → total_units (filter (λ r. is_reserved r.status) (filter (is_of o) rs)) ≡ open_units_of o rs
total-filter o [] = refl
total-filter o (r ∷ rs) = ground (arith, total-filter o rs)

open_units_of-le : (o : Text) (rs : List Reservation) → open_units_of o rs ≤ open_units rs
open_units_of-le o [] = omega arith
open_units_of-le o (r ∷ rs) = ground (arith, open_units_of-le o rs)

-- The loop as one map: the open reservations of the order take the new status.
abbrev pub mark : ReservationStatus → Text → List Reservation → List Reservation
mark s o = map (λ r. if is_open_of o r then with_status s r else r)

-- The loop never throws: what it steps is reserved.
transition_open-release :
    (o : Text) (rs : List Reservation)
    → transition_open release_reservation o rs ≡ ok (mark released o rs)
unfolding transition_open release_reservation
transition_open-release o [] = refl
transition_open-release o (r ∷ rs) = rw (transition_open-release o rs) (ground arith)

transition_open-consume :
    (o : Text) (rs : List Reservation)
    → transition_open consume_reservation o rs ≡ ok (mark consumed o rs)
unfolding transition_open consume_reservation
transition_open-consume o [] = refl
transition_open-consume o (r ∷ rs) = rw (transition_open-consume o rs) (ground arith)

abbrev pub open_of : Text → List Reservation → List Reservation
open_of o rs = filter (λ r. is_reserved r.status) (filter (is_of o) rs)

mark-none :
    (s : ReservationStatus) (o : Text) (rs : List Reservation)
    → is_empty (open_of o rs) ≡ true
    → mark s o rs ≡ rs
mark-none s o [] h = refl
mark-none s o (r ∷ rs) h = ground (arith, mark-none s o rs)

open_units_of-none :
    (o : Text) (rs : List Reservation) → is_empty (open_of o rs) ≡ true → open_units_of o rs ≡ 0
open_units_of-none o [] h = refl
open_units_of-none o (r ∷ rs) h = ground (arith, open_units_of-none o rs)

-- Marking takes an order's open units off.
pub open_units-mark :
    (s : ReservationStatus) (o : Text) (rs : List Reservation)
    → is_reserved s ≡ false
    → open_units (mark s o rs) + open_units_of o rs ≡ open_units rs
open_units-mark s o [] h = refl
open_units-mark s o (r ∷ rs) h = ground (arith, open_units-mark s o rs h)

total_units-map :
    (s : ReservationStatus) (rs : List Reservation)
    → total_units (map (with_status s) rs) ≡ total_units rs
total_units-map s [] = refl
total_units-map s (r ∷ rs) = omega (arith, total_units-map s rs)

pub is_empty-nil {ℓ} : {A : Type ℓ} (xs : List A) → is_empty xs ≡ true → xs ≡ []
is_empty-nil [] h = refl
is_empty-nil (x ∷ xs) h = cc

sub_zero : (a : ℤ) → a -ℤ pos 0 ≡ a
sub_zero a = omega int_laws

sum_open : (o : Text) (rs : List Reservation) → sum_units 0 (open_of o rs) ≡ open_units_of o rs
sum_open o rs = sum_units-total 0 (open_of o rs) ∙ omega (arith, total-filter o rs)

-- The item after an order's open reservations are released, or consumed.
abbrev pub released_item : Text → StockItem → StockItem
released_item o item = record item {
  reserved_units = item.reserved_units -ℤ pos (open_units_of o item.reservations);
  reservations = mark released o item.reservations;
}

abbrev pub consumed_item : Text → StockItem → StockItem
consumed_item o item = record item {
  units = item.units -ℤ pos (open_units_of o item.reservations);
  reserved_units = item.reserved_units -ℤ pos (open_units_of o item.reservations);
  reservations = mark consumed o item.reservations;
}

abbrev pub consumed_one : Text → StockItem → Option Reservation
consumed_one o item = find? (λ r. is_consumed r.status) (filter (is_of o) item.reservations)

abbrev pub released_one : Text → StockItem → Option Reservation
released_one o item = find? (λ r. is_released r.status) (filter (is_of o) item.reservations)

pub released_item-none :
    (o : Text) (item : StockItem)
    → is_empty (open_of o item.reservations) ≡ true
    → released_item o item ≡ item
released_item-none o item h = cc (
  mark-none released o item.reservations h,
  open_units_of-none o item.reservations h,
  sub_zero item.reserved_units,
)

pub consumed_item-none :
    (o : Text) (item : StockItem)
    → is_empty (open_of o item.reservations) ≡ true
    → consumed_item o item ≡ item
consumed_item-none o item h = cc (
  mark-none consumed o item.reservations h,
  open_units_of-none o item.reservations h,
  sub_zero item.reserved_units,
  sub_zero item.units,
)

release_open_lem :
    (o : Text) (item : StockItem)
    → release_open o item
      ≡ ok (map (with_status released) (open_of o item.reservations), released_item o item)
unfolding release_open
release_open_lem o item = elim (Bool-cases (is_empty (open_of o item.reservations))) [
  | inl none_open ↦ rw (none_open) (
      ap ok (λ i. (
        map (with_status released) (sym (is_empty-nil (open_of o item.reservations) none_open) i),
        sym (released_item-none o item none_open) i,
      )))
  | inr some_open ↦
      rw (some_open, transition_open-release o item.reservations, sum_open o item.reservations)
]

consume_open_lem :
    (o : Text) (item : StockItem)
    → consume_open o item
      ≡ ok (map (with_status consumed) (open_of o item.reservations), consumed_item o item)
unfolding consume_open
consume_open_lem o item = elim (Bool-cases (is_empty (open_of o item.reservations))) [
  | inl none_open ↦ rw (none_open) (
      ap ok (λ i. (
        map (with_status consumed) (sym (is_empty-nil (open_of o item.reservations) none_open) i),
        sym (consumed_item-none o item none_open) i,
      )))
  | inr some_open ↦
      rw (some_open, transition_open-consume o item.reservations, sum_open o item.reservations)
]

-- `release` in one equation: it throws exactly when a reservation of the order was consumed, naming
-- the first; otherwise it returns the open reservations of the order as released, marks exactly
-- those on the item, and takes exactly their units off `reservedUnits`.
pub release_lem :
    (o : Text) (item : StockItem)
    → release o item ≡ elim (consumed_one o item) [
      | some r ↦ err (reservation_terminal r.id consumed to_release)
      | none ↦ ok (map (with_status released) (open_of o item.reservations), released_item o item)
    ]
unfolding release
release_lem o item = λ i. elim (consumed_one o item) [
  | some r ↦ err (reservation_terminal r.id consumed to_release)
  | none ↦ release_open_lem o item i
]

-- `consume` in one equation: it throws exactly when a reservation of the order was released, naming
-- the first; otherwise it returns the open reservations of the order as consumed, marks exactly
-- those on the item, and takes exactly their units off both counters.
pub consume_lem :
    (o : Text) (item : StockItem)
    → consume o item ≡ elim (released_one o item) [
      | some r ↦ err (reservation_terminal r.id released to_consume)
      | none ↦ ok (map (with_status consumed) (open_of o item.reservations), consumed_item o item)
    ]
unfolding consume
consume_lem o item = λ i. elim (released_one o item) [
  | some r ↦ err (reservation_terminal r.id released to_consume)
  | none ↦ consume_open_lem o item i
]

pub release-ok :
    (o : Text) (item : StockItem) {rs : List Reservation} {item' : StockItem}
    → release o item ≡ ok (rs, item')
    → (consumed_one o item ≡ none)
      × (rs ≡ map (with_status released) (open_of o item.reservations))
      × (item' ≡ released_item o item)
release-ok o item h = elim (Option-cases (consumed_one o item)) [
  | inl e ↦
      let got = rw e at (sym (release_lem o item) ∙ h) in
      (e, λ i. (ok-injective (sym got) i).0, λ i. (ok-injective (sym got) i).1)
  | inr (r, e) ↦ let got = rw e at (sym (release_lem o item) ∙ h) in cc got
]

pub consume-ok :
    (o : Text) (item : StockItem) {rs : List Reservation} {item' : StockItem}
    → consume o item ≡ ok (rs, item')
    → (released_one o item ≡ none)
      × (rs ≡ map (with_status consumed) (open_of o item.reservations))
      × (item' ≡ consumed_item o item)
consume-ok o item h = elim (Option-cases (released_one o item)) [
  | inl e ↦
      let got = rw e at (sym (consume_lem o item) ∙ h) in
      (e, λ i. (ok-injective (sym got) i).0, λ i. (ok-injective (sym got) i).1)
  | inr (r, e) ↦ let got = rw e at (sym (consume_lem o item) ∙ h) in cc got
]
