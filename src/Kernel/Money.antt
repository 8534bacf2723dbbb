-- ===== src/Kernel/Money.antt =====
-- packages/shared-kernel/src/domain/money.ts: an integer count of minor units with a currency code.
-- The count is an integer; `Number.isSafeInteger` is the test `is_safe_integer`. Sums and products
-- that leave the safe range are rounded by JavaScript, but stay outside it, so the test answers as
-- on the exact integer.
pub mod Laws
use order_to_cash_nestjs.Base.{
  ℕ, ◌-◌, ◌≡◌, Bool, true, ◌&&◌, [], ◌∷◌, ◌++◌, leb, ◌==◌, if◌then◌else◌, not, length, all,
}
use order_to_cash_nestjs.Base.Int.{
  ℤ, pos, pos_part, neg_part, ◌+ℤ◌, ◌-ℤ◌, ◌*ℤ◌, ◌%ℤ◌, ltb_ℤ, leb_ℤ, eqb_ℤ,
}
use order_to_cash_nestjs.Base.Text.{Text, ◌=t◌}
use order_to_cash_nestjs.Errors.{invalid_money_amount, invalid_currency_code, currency_mismatch}
use order_to_cash_nestjs.Result.{Result, ok, err, ◌>>=◌, ◌>>◌, throw_if}

pub record Money : Type 0 where
  pub amount : ℤ
  pub currency : Text

abbrev max_safe_integer : ℕ
max_safe_integer = 9007199254740991

unfoldable pub is_safe_integer : ℤ → Bool
is_safe_integer n = leb (pos_part n) max_safe_integer && leb (neg_part n) max_safe_integer

unfoldable pub is_upper_letter : ℕ → Bool
is_upper_letter c = leb b'A' c && leb c b'Z'

unfoldable pub is_lower_letter : ℕ → Bool
is_lower_letter c = leb b'a' c && leb c b'z'

-- `toUpperCase` of one code unit, as far as the pattern of a currency code can tell: the ASCII
-- letters, and the few other code units whose upper case is ASCII. All else stays outside A-Z.
unfoldable pub upper : ℕ → Text
unfolding is_lower_letter
upper c =
    if is_lower_letter c
    then (c - 32) ∷ []
    else if c == 0xdf
    then b'S' ∷ b'S' ∷ []
    else if c == 0x131
    then b'I' ∷ []
    else if c == 0x17f
    then b'S' ∷ []
    else if c == 0xfb00
    then b'F' ∷ b'F' ∷ []
    else if c == 0xfb01
    then b'F' ∷ b'I' ∷ []
    else if c == 0xfb02
    then b'F' ∷ b'L' ∷ []
    else if c == 0xfb03
    then b'F' ∷ b'F' ∷ b'I' ∷ []
    else if c == 0xfb04
    then b'F' ∷ b'F' ∷ b'L' ∷ []
    else if c == 0xfb05
    then b'S' ∷ b'T' ∷ []
    else if c == 0xfb06
    then b'S' ∷ b'T' ∷ []
    else c ∷ []

unfoldable pub to_upper_case : Text → Text
to_upper_case [] = []
to_upper_case (c ∷ cs) = upper c ++ to_upper_case cs

-- CURRENCY_CODE_PATTERN, /^[A-Z]{3}$/
unfoldable pub matches_currency_code : Text → Bool
matches_currency_code s = (length s == 3) && all is_upper_letter s

unfoldable pub validate_currency : Text → Result Text
validate_currency currency =
    if matches_currency_code (to_upper_case currency)
    then ok (to_upper_case currency)
    else err (invalid_currency_code currency)

-- `Money.of`
unfoldable pub of : ℤ → Text → Result Money
of amount currency = do
  throw_if (not (is_safe_integer amount)) (invalid_money_amount amount)
  code ← validate_currency currency
  ok (record { amount = amount; currency = code })

-- `Money.zero`
unfoldable pub zero_money : Text → Result Money
unfolding of
zero_money currency = of (pos 0) currency

unfoldable pub assert_same_currency : Money → Money → Result (Unit {0})
assert_same_currency a b =
    throw_if (not (a.currency =t b.currency)) (currency_mismatch a.currency b.currency)

unfoldable pub add : Money → Money → Result Money
unfolding of assert_same_currency
add a b = do assert_same_currency a b; of (a.amount +ℤ b.amount) a.currency

unfoldable pub subtract : Money → Money → Result Money
unfolding of assert_same_currency
subtract a b = do assert_same_currency a b; of (a.amount -ℤ b.amount) a.currency

-- The argument is a `Quantity`'s count.
unfoldable pub multiply : Money → ℕ → Result Money
unfolding of
multiply a quantity = of (a.amount *ℤ quantity) a.currency

unfoldable negate : Money → Result Money
unfolding of
negate a = of (pos 0 -ℤ a.amount) a.currency

abbrev pub is_negative : Money → Bool
is_negative a = ltb_ℤ a.amount (pos 0)

abbrev is_zero : Money → Bool
is_zero a = eqb_ℤ a.amount (pos 0)

abbrev is_positive : Money → Bool
is_positive a = ltb_ℤ (pos 0) a.amount

abbrev pub equals : Money → Money → Bool
equals a b = eqb_ℤ a.amount b.amount && (a.currency =t b.currency)

unfoldable compare_to : Money → Money → Result ℤ
unfolding assert_same_currency
compare_to a b = do assert_same_currency a b; ok (a.amount -ℤ b.amount)

unfoldable is_greater_than : Money → Money → Result Bool
unfolding compare_to
is_greater_than a b = do c ← compare_to a b; ok (ltb_ℤ (pos 0) c)

unfoldable is_less_than_or_equal : Money → Money → Result Bool
unfolding compare_to
is_less_than_or_equal a b = do c ← compare_to a b; ok (leb_ℤ c (pos 0))

-- `((amount % 100) + 100) % 100`
unfoldable pub mod100 : Money → ℤ
mod100 a = (a.amount %ℤ 100 +ℤ pos 100) %ℤ 100

-- What every `Money` that `of` returns satisfies: a safe amount and a normalised code.
pub record IsMoney (m : Money) : Type 0 where
  pub safe : is_safe_integer m.amount ≡ true
  pub code : matches_currency_code m.currency ≡ true
