-- ===== src/Kernel/Reference/Numbering.antt =====
-- Sequence numbers and the references that they give.
use order_to_cash_nestjs.Base.Int.{pos, ℤ, ◌<ℤ◌, ltb_ℤ, pos_part, negsuc}
use order_to_cash_nestjs.Kernel.Reference.Digits.{six_digits, padded_decimal, long_decimal}
use order_to_cash_nestjs.Kernel.Gln.{is_digit, is_digits}
use Prim.Native.Nat.{◌^◌}
use order_to_cash_nestjs.Errors.{invalid_business_reference}
use order_to_cash_nestjs.Result.{ok, err}
use native.Mathlib.Decide.{dec_lt}
use order_to_cash_nestjs.Base.{
  ℕ, ◌<◌, ◌≡◌, [], ◌∷◌, ◌≤◌, length, arith, ◌++◌, if◌then◌else◌, ◌&&◌, lt→ltb, ◌-◌, true, ◌∙◌, sym,
  ap,
}
use order_to_cash_nestjs.Base.Text.{Text, ◌=t◌}
use order_to_cash_nestjs.Kernel.Reference.{
  number_to_string, pad_start, decimal, ReferenceKind, from_sequence, of, prefix, order_number,
}

-- A reference of the kind, with the six digits of its sequence number.
abbrev pub reference : ReferenceKind → ℕ → Text
reference kind n = prefix kind ++ b'-' ∷ six_digits n

number_to_string-below :
    (sci : ℕ → Text) (n : ℕ) → n < 10 ^ 21 → number_to_string sci (pos n) ≡ decimal 21 n []
number_to_string-below sci n h = unfold number_to_string in rw (lt→ltb n (10 ^ 21) h)

from_sequence-below :
    (sci : ℕ → Text) (kind : ReferenceKind) (n : ℕ)
    → 0 < n
    → n < 1000000
    → from_sequence sci kind (pos n) ≡ ok (reference kind n)
unfolding from_sequence
from_sequence-below sci kind n p h =
    rw (number_to_string-below sci n (omega arith), padded_decimal n h) (ground arith)

pad_start-length :
    (width c : ℕ) (s : Text) → width ≤ length s → length (pad_start width c s) ≡ length s
pad_start-length width c s h = let e : width - length s ≡ 0 = omega arith in rw e

from_sequence-above :
    (sci : ℕ → Text) (kind : ReferenceKind) (n : ℕ)
    → 1000000 ≤ n
    → n < 10 ^ 21
    → from_sequence sci kind (pos n) ≡ err (invalid_business_reference (prefix kind))
unfolding from_sequence
from_sequence-above sci kind n p h =
    let long : 7 ≤ length (decimal 21 n []) = long_decimal n p in
    let same : length (pad_start 6 b'0' (decimal 21 n [])) ≡ length (decimal 21 n []) =
      pad_start-length 6 b'0' (decimal 21 n []) (omega arith) in
    rw (number_to_string-below sci n h) (ground arith)

-- For an integer below 10^21, negative ones included, `fromSequence` of each reference class
-- returns the prefix, a dash and the six decimal digits of the integer if it is from 1 to 999999,
-- and throws otherwise.
pub from_sequence_iff :
    (exponent_form : ℕ → Text) (kind : ReferenceKind) (n : ℤ)
    → n <ℤ pos (10 ^ 21)
    → from_sequence exponent_form kind n ≡ (
        if ltb_ℤ (pos 0) n && ltb_ℤ n (pos 1000000)
        then ok (reference kind (pos_part n))
        else err (invalid_business_reference (prefix kind)))
from_sequence_iff sci kind (negsuc n) h = unfold from_sequence in ground arith
from_sequence_iff sci kind (pos n) h = elim (dec_lt n 1000000) [
  | yes small ↦ elim (dec_lt 0 n) [
    | yes more ↦ rw (from_sequence-below sci kind n more small) (ground arith)
    | no zero_ ↦ unfold from_sequence in ground arith
  ]
  | no big ↦ rw (from_sequence-above sci kind n (omega arith) (omega arith)) (ground arith)
]

six_digits-are : (n : ℕ) → is_digits 6 (six_digits n) ≡ true
unfolding is_digits is_digit
six_digits-are n = ground arith

of-reference : (kind : ReferenceKind) (n : ℕ) → of kind (reference kind n) ≡ ok (reference kind n)
unfolding of ◌=t◌
of-reference order_number n = ground (arith, six_digits-are n)
of-reference _ n = ground (arith, six_digits-are n)

reference-injective :
    (j k : ReferenceKind) (m n : ℕ)
    → m < 1000000
    → n < 1000000
    → reference j m ≡ reference k n
    → (j ≡ k) × (m ≡ n)
reference-injective order_number k m n h l e = ground arith
reference-injective j k m n h l e = ground arith

-- A reference that `fromSequence` makes from an integer below 10^21 is accepted by the `of` of its
-- class as it stands.
pub of-from_sequence :
    (exponent_form : ℕ → Text) (kind : ReferenceKind) (n : ℤ) {r : Text}
    → n <ℤ pos (10 ^ 21)
    → from_sequence exponent_form kind n ≡ ok r
    → of kind r ≡ ok r
of-from_sequence sci kind n h e =
    ground (arith, from_sequence_iff sci kind n h, of-reference kind (pos_part n))

from_sequence-made :
    (sci : ℕ → Text) (kind : ReferenceKind) (n : ℤ) {r : Text}
    → n <ℤ pos (10 ^ 21)
    → from_sequence sci kind n ≡ ok r
    → (n ≡ pos (pos_part n)) × (pos_part n < 1000000) × (reference kind (pos_part n) ≡ r)
from_sequence-made sci kind n h e = ground (arith, from_sequence_iff sci kind n h)

-- Two calls of `fromSequence` with integers below 10^21 that return the same reference are calls of
-- one class with one number.
pub from_sequence-injective :
    (exponent_form : ℕ → Text) (j k : ReferenceKind) (m n : ℤ) {r : Text}
    → m <ℤ pos (10 ^ 21)
    → n <ℤ pos (10 ^ 21)
    → from_sequence exponent_form j m ≡ ok r
    → from_sequence exponent_form k n ≡ ok r
    → (j ≡ k) × (m ≡ n)
from_sequence-injective sci j k m n {r} h l e f =
    let (same_m, small_m, made_m) = from_sequence-made sci j m h e in
    let (same_n, small_n, made_n) = from_sequence-made sci k n l f in
    let (kinds, numbers) =
      reference-injective j k (pos_part m) (pos_part n) small_m small_n (made_m ∙ sym made_n) in
    (kinds, same_m ∙ ap pos numbers ∙ sym same_n)
