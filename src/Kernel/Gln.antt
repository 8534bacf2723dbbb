-- ===== src/Kernel/Gln.antt =====
-- packages/shared-kernel/src/domain/gln.ts: 13 decimal digits, the last a GS1 mod-10 check digit.
-- A GLN is its text.
pub mod CheckDigit
use order_to_cash_nestjs.Base.{
  ℕ, zero, suc, ◌+◌, ◌-◌, ◌*◌, ◌%◌, Bool, ◌&&◌, not, leb, ◌==◌, if◌then◌else◌, length, all, take,
  get_or,
}
use order_to_cash_nestjs.Base.Text.{Text}
use order_to_cash_nestjs.Errors.{invalid_gln}
use order_to_cash_nestjs.Result.{Result, ok, ◌>>=◌, ◌>>◌, throw_if}

-- `\d`
unfoldable pub is_digit : ℕ → Bool
is_digit c = leb b'0' c && leb c b'9'

-- `Number` of a digit.
unfoldable pub digit : ℕ → ℕ
digit c = c - b'0'

-- `/^\d{n}$/`
unfoldable pub is_digits : ℕ → Text → Bool
unfolding is_digit
is_digits n s = (length s == n) && all is_digit s

abbrev pub weight : ℕ → ℕ
weight distance = if distance % 2 == 0 then 3 else 1

-- The loop of `computeCheckDigit`: the rounds left, the loop's variable and the running sum.
unfoldable pub weigh : Text → ℕ → ℕ → ℕ → ℕ
weigh body zero distance sum = sum
weigh body (suc rounds) distance sum =
    weigh body rounds (distance + 1)
      (sum + digit (get_or body (length body - 1 - distance) b'0') * weight distance)

unfoldable pub compute_check_digit : Text → Result ℕ
unfolding weigh
compute_check_digit body = do
  throw_if (not (is_digits 12 body)) (invalid_gln body)
  ok ((10 - weigh body (length body) 0 0 % 10) % 10)

-- `GLN.of`
unfoldable pub of : Text → Result Text
unfolding compute_check_digit
of value = do
  throw_if (not (is_digits 13 value)) (invalid_gln value)
  expected ← compute_check_digit (take 12 value)
  throw_if (not (digit (get_or value 12 b'0') == expected)) (invalid_gln value)
  ok value
