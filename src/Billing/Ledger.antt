-- ===== src/Billing/Ledger.antt =====
-- apps/billing/src/domain/credit-ledger-entry.ts and credit-exposure.ts: the append-only ledger of a
-- credit line and `summariseLedger`, the one place where exposure is computed.
pub mod Exposure
use order_to_cash_nestjs.Base.{
  ℕ, Bool, true, false, List, [], ◌∷◌, map, if◌then◌else◌, Option, none, some,
}
use order_to_cash_nestjs.Base.Int.{ℤ, pos, ◌+ℤ◌, ◌-ℤ◌, min_ℤ}
use order_to_cash_nestjs.Base.Text.{Text, ◌=t◌}
use order_to_cash_nestjs.Kernel.Money.{Money}

-- CREDIT_ENTRY_TYPES
pub data EntryType : Type 0 where
  hold_entry consume_entry release_entry : EntryType

abbrev pub is_hold : EntryType → Bool
is_hold hold_entry = true
is_hold _ = false

-- `CreditLedgerEntry`, which is its snapshot.
pub record Entry : Type 0 where
  pub id : Text
  pub order_reference : Text
  pub amount : Money
  pub type_ : EntryType
  pub entry_date : ℕ

pub record OrderExposure : Type 0 where
  pub order_reference : Text
  pub exposure : ℤ
  pub open_exposure : ℤ
  pub active_hold : ℤ
  pub has_hold_entry : Bool

pub record LedgerSummary : Type 0 where
  pub by_order : List OrderExposure
  pub committed_exposure : ℤ
  pub active_holds : ℤ
  pub open_exposure : ℤ

-- `OrderAccumulator`
pub record Accumulator : Type 0 where
  pub hold : ℤ
  pub release : ℤ
  pub consume : ℤ
  pub has_hold_entry : Bool

abbrev pub no_entries : Accumulator
no_entries = record { hold = pos 0; release = pos 0; consume = pos 0; has_hold_entry = false }

-- The branches of the loop's body.
unfoldable pub book : EntryType → ℤ → Accumulator → Accumulator
book hold_entry amount acc = record acc { hold = acc.hold +ℤ amount; has_hold_entry = true }
book release_entry amount acc = record acc { release = acc.release +ℤ amount }
book consume_entry amount acc = record acc { consume = acc.consume +ℤ amount }

-- `byOrderAcc` in the order of `orderOrder`: an order enters at the end when it is first seen.
unfoldable pub accumulate : Entry → List (Text × Accumulator) → List (Text × Accumulator)
unfolding book
accumulate entry [] = (entry.order_reference, book entry.type_ entry.amount.amount no_entries) ∷ []
accumulate entry ((order_reference, acc) ∷ accs) =
    let rest = accumulate entry accs in
    if order_reference =t entry.order_reference
    then (order_reference, book entry.type_ entry.amount.amount acc) ∷ accs
    else (order_reference, acc) ∷ rest

unfoldable pub accumulate_all : List Entry → List (Text × Accumulator) → List (Text × Accumulator)
unfolding accumulate
accumulate_all [] accs = accs
accumulate_all (entry ∷ entries) accs = accumulate_all entries (accumulate entry accs)

unfoldable pub exposure_of : Text × Accumulator → OrderExposure
unfolding min_ℤ
exposure_of (order_reference, acc) =
    let exposure = acc.hold -ℤ acc.release in
    let open_exposure = min_ℤ acc.consume exposure in
    record {
      order_reference = order_reference;
      exposure = exposure;
      open_exposure = open_exposure;
      active_hold = exposure -ℤ open_exposure;
      has_hold_entry = acc.has_hold_entry;
    }

-- `byOrder.reduce((sum, order) => sum + f(order), 0)`
unfoldable pub sum_by : (OrderExposure → ℤ) → ℤ → List OrderExposure → ℤ
sum_by f sum [] = sum
sum_by f sum (order ∷ orders) = sum_by f (sum +ℤ f order) orders

unfoldable pub summarise_ledger : List Entry → LedgerSummary
unfolding accumulate_all exposure_of sum_by
summarise_ledger entries =
    let by_order = map exposure_of (accumulate_all entries []) in
    record {
      by_order = by_order;
      committed_exposure = sum_by (λ o. o.exposure) (pos 0) by_order;
      active_holds = sum_by (λ o. o.active_hold) (pos 0) by_order;
      open_exposure = sum_by (λ o. o.open_exposure) (pos 0) by_order;
    }

-- A figure of an order, as `byOrder.find(...)?.f ?? 0` reads it.
abbrev pub figure : (OrderExposure → ℤ) → Option OrderExposure → ℤ
figure f none = pos 0
figure f (some order) = f order
