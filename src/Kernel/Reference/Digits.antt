-- ===== src/Kernel/Reference/Digits.antt =====
-- The decimal numerals of sequence numbers.
use native.Mathlib.Decide.{dec_lt}
use order_to_cash_nestjs.Base.{ℕ, ◌+◌, ◌/◌, ◌%◌, ◌<◌, ◌≡◌, [], ◌∷◌, ◌≤◌, suc, length, arith, zero}
use order_to_cash_nestjs.Base.Text.{Text}
use order_to_cash_nestjs.Kernel.Reference.{pad_start, decimal}

-- The six digits of a number below a million.
abbrev pub six_digits : ℕ → Text
six_digits n =
    (b'0' + n / 100000 % 10)
    ∷ (b'0' + n / 10000 % 10)
    ∷ (b'0' + n / 1000 % 10)
    ∷ (b'0' + n / 100 % 10)
    ∷ (b'0' + n / 10 % 10)
    ∷ (b'0' + n % 10)
    ∷ []

decimal_last : (f n : ℕ) (acc : Text) → n < 10 → decimal (suc f) n acc ≡ (b'0' + n % 10) ∷ acc
unfolding decimal
decimal_last f n acc h = ground arith

decimal_more :
    (f n : ℕ) (acc : Text)
    → 10 ≤ n
    → decimal (suc f) n acc ≡ decimal f (n / 10) ((b'0' + n % 10) ∷ acc)
unfolding decimal
decimal_more f n acc h = ground arith

length-le-decimal : (f n : ℕ) (acc : Text) → length acc ≤ length (decimal f n acc)
unfolding decimal
length-le-decimal zero n acc = omega arith
length-le-decimal (suc f) n acc =
    ground (arith, length-le-decimal f (n / 10) ((b'0' + n % 10) ∷ acc))

decimal_one : (n : ℕ) → n < 10 → pad_start 6 b'0' (decimal 21 n []) ≡ six_digits n
decimal_one n h = ground (arith, decimal_last 20 (n) ([]))

decimal_two : (n : ℕ) → 10 ≤ n → n < 100 → pad_start 6 b'0' (decimal 21 n []) ≡ six_digits n
decimal_two n l h =
    ground (arith, decimal_more 20 (n) ([]), decimal_last 19 (n / 10) ((b'0' + n % 10) ∷ []))

decimal_three : (n : ℕ) → 100 ≤ n → n < 1000 → pad_start 6 b'0' (decimal 21 n []) ≡ six_digits n
decimal_three n l h = ground (
  arith,
  decimal_more 20 (n) ([]),
  decimal_more 19 (n / 10) ((b'0' + n % 10) ∷ []),
  decimal_last 18 (n / 10 / 10) ((b'0' + n / 10 % 10) ∷ (b'0' + n % 10) ∷ []),
)

decimal_four : (n : ℕ) → 1000 ≤ n → n < 10000 → pad_start 6 b'0' (decimal 21 n []) ≡ six_digits n
decimal_four n l h = ground (
  arith,
  decimal_more 20 (n) ([]),
  decimal_more 19 (n / 10) ((b'0' + n % 10) ∷ []),
  decimal_more 18 (n / 10 / 10) ((b'0' + n / 10 % 10) ∷ (b'0' + n % 10) ∷ []),
  decimal_last 17 (n / 10 / 10 / 10)
      ((b'0' + n / 10 / 10 % 10) ∷ (b'0' + n / 10 % 10) ∷ (b'0' + n % 10) ∷ []),
)

decimal_five : (n : ℕ) → 10000 ≤ n → n < 100000 → pad_start 6 b'0' (decimal 21 n []) ≡ six_digits n
decimal_five n l h = ground (
  arith,
  decimal_more 20 (n) ([]),
  decimal_more 19 (n / 10) ((b'0' + n % 10) ∷ []),
  decimal_more 18 (n / 10 / 10) ((b'0' + n / 10 % 10) ∷ (b'0' + n % 10) ∷ []),
  decimal_more 17 (n / 10 / 10 / 10)
      ((b'0' + n / 10 / 10 % 10) ∷ (b'0' + n / 10 % 10) ∷ (b'0' + n % 10) ∷ []),
  decimal_last 16 (n / 10 / 10 / 10 / 10) (
      (b'0' + n / 10 / 10 / 10 % 10)
      ∷ (b'0' + n / 10 / 10 % 10)
      ∷ (b'0' + n / 10 % 10)
      ∷ (b'0' + n % 10)
      ∷ []),
)

decimal_six : (n : ℕ) → 100000 ≤ n → n < 1000000 → pad_start 6 b'0' (decimal 21 n []) ≡ six_digits n
decimal_six n l h = ground (
  arith,
  decimal_more 20 (n) ([]),
  decimal_more 19 (n / 10) ((b'0' + n % 10) ∷ []),
  decimal_more 18 (n / 10 / 10) ((b'0' + n / 10 % 10) ∷ (b'0' + n % 10) ∷ []),
  decimal_more 17 (n / 10 / 10 / 10)
      ((b'0' + n / 10 / 10 % 10) ∷ (b'0' + n / 10 % 10) ∷ (b'0' + n % 10) ∷ []),
  decimal_more 16 (n / 10 / 10 / 10 / 10) (
      (b'0' + n / 10 / 10 / 10 % 10)
      ∷ (b'0' + n / 10 / 10 % 10)
      ∷ (b'0' + n / 10 % 10)
      ∷ (b'0' + n % 10)
      ∷ []),
  decimal_last 15 (n / 10 / 10 / 10 / 10 / 10) (
      (b'0' + n / 10 / 10 / 10 / 10 % 10)
      ∷ (b'0' + n / 10 / 10 / 10 % 10)
      ∷ (b'0' + n / 10 / 10 % 10)
      ∷ (b'0' + n / 10 % 10)
      ∷ (b'0' + n % 10)
      ∷ []),
)

-- The numeral of a number below a million, with zeros before it, is its six digits.
pub padded_decimal : (n : ℕ) → n < 1000000 → pad_start 6 b'0' (decimal 21 n []) ≡ six_digits n
padded_decimal n h = elim (dec_lt n 10) [
  | yes a ↦ decimal_one n a
  | no a ↦ elim (dec_lt n 100) [
    | yes b ↦ decimal_two n (omega arith) b
    | no b ↦ elim (dec_lt n 1000) [
      | yes c ↦ decimal_three n (omega arith) c
      | no c ↦ elim (dec_lt n 10000) [
        | yes d ↦ decimal_four n (omega arith) d
        | no d ↦ elim (dec_lt n 100000) [
          | yes e ↦ decimal_five n (omega arith) e
          | no e ↦ decimal_six n (omega arith) h
        ]
      ]
    ]
  ]
]

pub long_decimal : (n : ℕ) → 1000000 ≤ n → 7 ≤ length (decimal 21 n [])
long_decimal n h = ground (
  arith,
  decimal_more 20 (n) ([]),
  decimal_more 19 (n / 10) ((b'0' + n % 10) ∷ []),
  decimal_more 18 (n / 10 / 10) ((b'0' + n / 10 % 10) ∷ (b'0' + n % 10) ∷ []),
  decimal_more 17 (n / 10 / 10 / 10)
      ((b'0' + n / 10 / 10 % 10) ∷ (b'0' + n / 10 % 10) ∷ (b'0' + n % 10) ∷ []),
  decimal_more 16 (n / 10 / 10 / 10 / 10) (
      (b'0' + n / 10 / 10 / 10 % 10)
      ∷ (b'0' + n / 10 / 10 % 10)
      ∷ (b'0' + n / 10 % 10)
      ∷ (b'0' + n % 10)
      ∷ []),
  decimal_more 15 (n / 10 / 10 / 10 / 10 / 10) (
      (b'0' + n / 10 / 10 / 10 / 10 % 10)
      ∷ (b'0' + n / 10 / 10 / 10 % 10)
      ∷ (b'0' + n / 10 / 10 % 10)
      ∷ (b'0' + n / 10 % 10)
      ∷ (b'0' + n % 10)
      ∷ []),
  decimal_last 14 (n / 10 / 10 / 10 / 10 / 10 / 10) (
      (b'0' + n / 10 / 10 / 10 / 10 / 10 % 10)
      ∷ (b'0' + n / 10 / 10 / 10 / 10 % 10)
      ∷ (b'0' + n / 10 / 10 / 10 % 10)
      ∷ (b'0' + n / 10 / 10 % 10)
      ∷ (b'0' + n / 10 % 10)
      ∷ (b'0' + n % 10)
      ∷ []),
  length-le-decimal 14 (n / 10 / 10 / 10 / 10 / 10 / 10 / 10) (
      (b'0' + n / 10 / 10 / 10 / 10 / 10 / 10 % 10)
      ∷ (b'0' + n / 10 / 10 / 10 / 10 / 10 % 10)
      ∷ (b'0' + n / 10 / 10 / 10 / 10 % 10)
      ∷ (b'0' + n / 10 / 10 / 10 % 10)
      ∷ (b'0' + n / 10 / 10 % 10)
      ∷ (b'0' + n / 10 % 10)
      ∷ (b'0' + n % 10)
      ∷ []),
  decimal_more 14 (n / 10 / 10 / 10 / 10 / 10 / 10) (
      (b'0' + n / 10 / 10 / 10 / 10 / 10 % 10)
      ∷ (b'0' + n / 10 / 10 / 10 / 10 % 10)
      ∷ (b'0' + n / 10 / 10 / 10 % 10)
      ∷ (b'0' + n / 10 / 10 % 10)
      ∷ (b'0' + n / 10 % 10)
      ∷ (b'0' + n % 10)
      ∷ []),
)
