-- ===== src/Witnesses/Kernel.antt =====
-- The theorems on the shared kernel's values, at concrete codes, numbers and amounts.
use order_to_cash_nestjs.Kernel.MoneyText.Grouping.{IsGrouped, starts_with_zero}
use order_to_cash_nestjs.Kernel.MoneyText.ReadBack.{read_digits, magnitude, format_money_lem}
use order_to_cash_nestjs.Kernel.MoneyText.{
  format_money, with_fraction, group_thousands, padded_digits, currency_exponent, decimal_text,
  exponent_of, trim_start, trim_end, is_space,
}
use order_to_cash_nestjs.Errors.{invalid_business_reference}
use order_to_cash_nestjs.Witnesses.Samples.{eur}
use order_to_cash_nestjs.Base.{
  ℕ, ◌≡◌, ◌≢◌, ◌↔◌, refl, true, set, arith, ◌%◌, false, if◌then◌else◌, ltb, ◌&&◌, ◌++◌, ◌∷◌, [],
  length, all,
}
use order_to_cash_nestjs.Base.Int.{pos, negsuc, ◌+ℤ◌, ltb_ℤ, pos_part}
use order_to_cash_nestjs.Base.Text.{Text, codes, ◌=t◌}
use order_to_cash_nestjs.Result.{ok, err}
use order_to_cash_nestjs.Kernel.Money
use order_to_cash_nestjs.Kernel.Money.{
  Money, matches_currency_code, is_safe_integer, add, is_upper_letter, assert_same_currency,
  IsMoney, validate_currency, to_upper_case, upper, is_lower_letter,
}
use order_to_cash_nestjs.Kernel.Gln
use order_to_cash_nestjs.Kernel.Gln.{is_digits, is_digit, digit, weigh, compute_check_digit}
use order_to_cash_nestjs.Kernel.Gln.CheckDigit.{of_iff, mistyped_digit, gs1_sum}
use order_to_cash_nestjs.Kernel.Reference
use order_to_cash_nestjs.Kernel.Reference.{
  from_sequence, number_to_string, decimal, order_number, invoice_reference, prefix,
}
use order_to_cash_nestjs.Kernel.Reference.Numbering.{from_sequence_iff, reference, of-from_sequence}

abbrev a_gln : Text
a_gln = codes "4006381333931"

of_iff_example :
    (Gln.of a_gln ≡ ok a_gln) ↔ ((is_digits 13 a_gln ≡ true) × (gs1_sum false a_gln % 10 ≡ 0))
of_iff_example = of_iff a_gln

mistyped_digit_example : Gln.of (set a_gln 3 b'9') ≢ ok (set a_gln 3 b'9')
unfolding Gln.of compute_check_digit weigh is_digits is_digit digit
mistyped_digit_example = mistyped_digit a_gln 3 b'9' refl (omega arith) refl (λ e. omega (arith, e))

abbrev exponents : ℕ → Text
exponents n = codes "1e+21"

from_sequence_iff_example : from_sequence exponents order_number (negsuc 4) ≡ (
    if ltb_ℤ (pos 0) (negsuc 4) && ltb_ℤ (negsuc 4) (pos 1000000)
    then ok (reference order_number (pos_part (negsuc 4)))
    else err (invalid_business_reference (prefix order_number)))
from_sequence_iff_example = from_sequence_iff exponents order_number (negsuc 4) (omega arith)

number_run : (r : Text) × (from_sequence exponents invoice_reference (pos 1234) ≡ ok r)
unfolding from_sequence number_to_string decimal
number_run = (_, refl)

of-from_sequence_example : Reference.of invoice_reference number_run.0 ≡ ok number_run.0
of-from_sequence_example =
    of-from_sequence exponents invoice_reference (pos 1234) (omega arith) number_run.1

eur-IsMoney : (n : ℕ) → is_safe_integer (pos n) ≡ true → IsMoney (eur n)
unfolding matches_currency_code is_upper_letter
eur-IsMoney n h = record { safe = h; code = refl }

sum_run : (m : Money) × (add (eur 250) (eur 50) ≡ ok m)
unfolding add Money.of assert_same_currency validate_currency matches_currency_code to_upper_case
    upper is_upper_letter is_lower_letter is_safe_integer ◌=t◌ ◌+ℤ◌
sum_run = (_, refl)

format_money_lem_example :
    (whole : Text) × (grouped : Text) × (fraction : Text) × (format_money
        (negsuc 123456)
        (codes "EUR")
      ≡ codes "-"
        ++ ((grouped ++ (if ltb 0 (currency_exponent (codes "EUR")) then b'.' ∷ fraction else []))
            ++ b' ' ∷ codes "EUR"))
    × IsGrouped whole grouped
    × (length fraction ≡ currency_exponent (codes "EUR"))
    × (all is_digit (whole ++ fraction) ≡ true)
    × (starts_with_zero whole ≡ true → length whole ≡ 1)
    × (read_digits 0 (whole ++ fraction) ≡ magnitude (negsuc 123456))
format_money_lem_example = format_money_lem (negsuc 123456) (codes "EUR") (omega arith)

-- The text itself.
format_money_run : format_money (negsuc 123456) (codes "EUR") ≡ codes "-1 234.57 EUR"
unfolding format_money with_fraction padded_digits decimal_text currency_exponent group_thousands
    exponent_of trim_start trim_end is_space decimal ◌=t◌ to_upper_case upper
format_money_run = refl
