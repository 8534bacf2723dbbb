-- ===== src/Kernel/Reference.antt =====
-- packages/shared-kernel/src/domain/business-reference.ts: `<PREFIX>-######`. The four reference
-- classes differ in their prefix alone and are one type of kinds here; a reference is its text.
-- `String` of a number below 10^21 is its decimal numeral; from there on JavaScript writes an
-- exponent, which is the parameter `exponent_form` (of the magnitude).
pub mod Digits
pub mod Numbering
use Prim.Native.Nat.{◌^◌}
use order_to_cash_nestjs.Base.{
  ℕ, zero, suc, ◌+◌, ◌-◌, ◌/◌, ◌%◌, ◌&&◌, not, [], ◌∷◌, ◌++◌, ltb, ◌==◌, if◌then◌else◌, length,
  take, drop, replicate,
}
use order_to_cash_nestjs.Base.Int.{ℤ, pos, negsuc, leb_ℤ}
use order_to_cash_nestjs.Base.Text.{Text, codes, ◌=t◌}
use order_to_cash_nestjs.Errors.{invalid_business_reference}
use order_to_cash_nestjs.Result.{Result, ok, err, ◌>>◌, throw_if}
use order_to_cash_nestjs.Kernel.Gln.{is_digits}

pub data ReferenceKind : Type 0 where
  order_number despatch_reference invoice_reference credit_line_reference : ReferenceKind

-- PREFIX
abbrev pub prefix : ReferenceKind → Text
prefix order_number = codes "ORD"
prefix despatch_reference = codes "DES"
prefix invoice_reference = codes "INV"
prefix credit_line_reference = codes "CR"

abbrev sequence_width : ℕ
sequence_width = 6

-- The digits of `n` before `acc`; 21 rounds serve every number below 10^21.
unfoldable pub decimal : ℕ → ℕ → Text → Text
decimal zero n acc = acc
decimal (suc f) n acc =
    let acc' = (b'0' + n % 10) ∷ acc in
    let rest = decimal f (n / 10) acc' in if n / 10 == 0 then acc' else rest

abbrev pub numeral : (ℕ → Text) → ℕ → Text
numeral exponent_form n = if ltb n (10 ^ 21) then decimal 21 n [] else exponent_form n

unfoldable pub number_to_string : (ℕ → Text) → ℤ → Text
unfolding decimal
number_to_string exponent_form (pos n) = numeral exponent_form n
number_to_string exponent_form (negsuc n) = b'-' ∷ numeral exponent_form (suc n)

abbrev pub pad_start : ℕ → ℕ → Text → Text
pad_start width fill s = replicate (width - length s) fill ++ s

-- `BusinessReference.format`, behind the four `fromSequence`, of a number that `Number.isInteger`
-- accepts: the type is that of the integers, the sign is tested.
unfoldable pub from_sequence : (ℕ → Text) → ReferenceKind → ℤ → Result Text
from_sequence exponent_form kind sequence =
    let padded = pad_start sequence_width b'0' (number_to_string exponent_form sequence) in
    do
      throw_if (leb_ℤ sequence (pos 0)) (invalid_business_reference (prefix kind))
      throw_if (not (length padded == sequence_width)) (invalid_business_reference (prefix kind))
      ok (prefix kind ++ b'-' ∷ padded)

-- `BusinessReference.parse`, behind the four `of`: the pattern `^PREFIX-\d{6}$`.
unfoldable pub of : ReferenceKind → Text → Result Text
of kind value =
    let head = prefix kind ++ b'-' ∷ [] in
    if (take (length head) value =t head) && is_digits sequence_width (drop (length head) value)
    then ok value
    else err (invalid_business_reference (prefix kind))
