-- ===== src/Kernel/Money/Laws.antt =====
-- Laws of `Money`: what its constructors accept and how its operations answer.
use order_to_cash_nestjs.Base.{
  ℕ, suc, ◌+◌, ◌/◌, ◌≡◌, refl, true, [], ◌∷◌, arith, if◌then◌else◌, all,
}
use order_to_cash_nestjs.Base.Int.{
  +ℤ_cancel, sub_ℕ, ◌*ℤ◌, ◌%ℤ◌, ◌<ℤ◌, ◌≤ℤ◌, pos, negsuc, ℤ, ◌+ℤ◌, ◌-ℤ◌,
}
use order_to_cash_nestjs.Base.Text.{Text, ◌=t◌, text_eq_iff}
use order_to_cash_nestjs.Errors.{currency_mismatch, invalid_money_amount}
use order_to_cash_nestjs.Result.{ok, err}
use order_to_cash_nestjs.Kernel.Money.{
  Money, IsMoney, is_safe_integer, is_upper_letter, upper, to_upper_case, matches_currency_code,
  validate_currency, of, add, subtract, mod100,
}

upper_id : (c : ℕ) → is_upper_letter c ≡ true → upper c ≡ c ∷ []
unfolding is_upper_letter upper
upper_id c h = ground arith

to_upper_case_id : (s : Text) → all is_upper_letter s ≡ true → to_upper_case s ≡ s
unfolding to_upper_case
to_upper_case_id [] h = refl
to_upper_case_id (c ∷ s) h = ground (arith, upper_id c, to_upper_case_id s)

-- A code that is in normal form is accepted as it stands.
validate_currency_id : (c : Text) → matches_currency_code c ≡ true → validate_currency c ≡ ok c
unfolding validate_currency matches_currency_code
validate_currency_id c h = ground (arith, to_upper_case_id c)

-- Whatever `of` returns is well formed.
of-IsMoney : (n : ℤ) (c : Text) {m : Money} → of n c ≡ ok m → IsMoney m
unfolding of validate_currency
of-IsMoney n c h = ground arith

-- On a normalised code `of` only tests the amount.
of_lem :
    (n : ℤ) (c : Text)
    → matches_currency_code c ≡ true
    → of n c ≡ (
        if is_safe_integer n
        then ok (record { amount = n; currency = c })
        else err (invalid_money_amount n))
unfolding of
of_lem n c h = ground (arith, validate_currency_id c h)

-- On a well-formed amount `add` answers by the currencies and the range of the sum alone: it throws
-- `CurrencyMismatchError` for another currency, `InvalidMoneyAmountError` for a sum that is no safe
-- integer, and otherwise returns the sum in the currency.
pub add_lem :
    (a b : Money)
    → IsMoney a
    → add a b ≡ (
        if a.currency =t b.currency
        then if is_safe_integer (a.amount +ℤ b.amount)
          then ok (record { amount = a.amount +ℤ b.amount; currency = a.currency })
          else err (invalid_money_amount (a.amount +ℤ b.amount))
        else err (currency_mismatch a.currency b.currency))
unfolding add
add_lem a b h = ground (arith, of_lem (a.amount +ℤ b.amount) a.currency h.code)

subtract_lem :
    (a b : Money)
    → IsMoney a
    → subtract a b ≡ (
        if a.currency =t b.currency
        then if is_safe_integer (a.amount -ℤ b.amount)
          then ok (record { amount = a.amount -ℤ b.amount; currency = a.currency })
          else err (invalid_money_amount (a.amount -ℤ b.amount))
        else err (currency_mismatch a.currency b.currency))
unfolding subtract
subtract_lem a b h = ground (arith, of_lem (a.amount -ℤ b.amount) a.currency h.code)

add-ok :
    (a b : Money) {c : Money}
    → add a b ≡ ok c
    → IsMoney a
    → IsMoney c
      × (c.amount ≡ a.amount +ℤ b.amount)
      × (c.currency ≡ a.currency)
      × (b.currency ≡ a.currency)
add-ok a b e h = ground (arith, add_lem a b h, text_eq_iff a.currency b.currency)

-- A sum that `add` returned for a well-formed amount is undone by `subtract`: taking off the second
-- amount gives back the first.
pub subtract-add : (a b : Money) {c : Money} → IsMoney a → add a b ≡ ok c → subtract c b ≡ ok a
subtract-add a b {c} h e =
    let (valid, sum, same, other) = add-ok a b e h in
    ground (
      arith,
      subtract_lem c b valid,
      +ℤ_cancel a.amount b.amount,
      text_eq_iff c.currency b.currency,
      h.safe,
    )

mod100_of_int :
    (n : ℤ)
    → let r = (n %ℤ 100 +ℤ pos 100) %ℤ 100 in
      (k : ℤ) × (n ≡ k *ℤ 100 +ℤ r) × (pos 0 ≤ℤ r) × (r <ℤ pos 100)
unfolding ◌%ℤ◌ ◌+ℤ◌ ◌*ℤ◌
mod100_of_int (pos n) = (pos (n / 100), ground arith, ground arith, ground arith)
mod100_of_int (negsuc n) = (sub_ℕ 0 ((suc n + 99) / 100), ground arith, ground arith, ground arith)

-- `mod100` of an amount is from 0 to 99 and differs from the amount by a multiple of 100, for
-- negative amounts too.
pub mod100_lem :
    (a : Money)
    → (k : ℤ) × (a.amount ≡ k *ℤ 100 +ℤ mod100 a) × (pos 0 ≤ℤ mod100 a) × (mod100 a <ℤ pos 100)
unfolding mod100
mod100_lem a = mod100_of_int a.amount
