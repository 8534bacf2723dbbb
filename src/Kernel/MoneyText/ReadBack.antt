-- ===== src/Kernel/MoneyText/ReadBack.antt =====
-- Lemmas on the text that `formatMoney` (money-text.ts) writes and the digits in it.
use order_to_cash_nestjs.Kernel.Gln.{is_digit}
use order_to_cash_nestjs.Kernel.MoneyText.Grouping.{
  length-replicate, IsGrouped, group_thousands-IsGrouped, starts_with_zero,
  padded_digits-are_digits, no_superfluous_zero,
}
use order_to_cash_nestjs.Base.{take-drop, all}
use order_to_cash_nestjs.Base.Int.{ℤ, pos_part, neg_part, ltb_ℤ, pos}
use native.Mathlib.Nat.{pow-suc}
use Prim.Native.Nat.{◌^◌, suc}
use order_to_cash_nestjs.Base.Text.{Text}
use order_to_cash_nestjs.Kernel.Reference.{decimal}
use order_to_cash_nestjs.Kernel.MoneyText.{
  group_thousands, padded_digits, format_money, decimal_text, with_fraction, currency_exponent,
}
use order_to_cash_nestjs.Base.{
  ℕ, ◌∷◌, ◌++◌, ◌≡◌, ◌<◌, if◌then◌else◌, leb, ◌&&◌, ◌/◌, ◌*◌, arith, ◌+◌, ◌-◌, [], Bool-cases, refl,
  length, ◌%◌, ◌==◌, inl, inr, false, replicate, zero, take, ◌≤◌, drop, ap, ◌∙◌, true,
  length-append, ltb,
}

-- The number that the digits of a text make after `acc`, all else skipped.
unfoldable pub read_digits : ℕ → Text → ℕ
read_digits acc [] = acc
read_digits acc (c ∷ cs) =
    read_digits (if leb b'0' c && leb c b'9' then acc * 10 + (c - b'0') else acc) cs

read_digits-append :
    (acc : ℕ) (s t : Text) → read_digits acc (s ++ t) ≡ read_digits (read_digits acc s) t
unfolding read_digits
read_digits-append acc [] t = refl
read_digits-append acc (c ∷ cs) t =
    read_digits-append (if leb b'0' c && leb c b'9' then acc * 10 + (c - b'0') else acc) cs t

read_digits-decimal :
    (f n : ℕ) (acc : Text)
    → n < 10 ^ f
    → 0 < f
    → read_digits 0 (decimal f n acc) ≡ read_digits n acc
unfolding read_digits decimal
read_digits-decimal zero n acc h p = elim p [ ]
read_digits-decimal (suc f) n acc h p = elim (Bool-cases (n / 10 == 0)) [
  | inl small ↦ rw small (ap (λ (a : ℕ). read_digits a acc) (ground (arith, small)))
  | inr large ↦ rw large (
      read_digits-decimal f (n / 10) ((b'0' + n % 10) ∷ acc) (fewer f n h) (positive f n h large)
      ∙ ap (λ (a : ℕ). read_digits a acc) (ground arith))
]
  where
    fewer : (f n : ℕ) → n < 10 ^ suc f → n / 10 < 10 ^ f
    fewer f n h = omega (arith, pow-suc 10 f, h)

    positive : (f n : ℕ) → n < 10 ^ suc f → (n / 10 == 0) ≡ false → 0 < f
    positive zero n h large = absurd (ground (arith, large, h))
    positive (suc f) n h large = omega arith

read_digits-zeros : (k : ℕ) (s : Text) → read_digits 0 (replicate k b'0' ++ s) ≡ read_digits 0 s
unfolding read_digits
read_digits-zeros zero s = refl
read_digits-zeros (suc k) s = read_digits-zeros k s

decimal-nonempty : (f n : ℕ) (acc : Text) → 0 < length acc → 0 < length (decimal f n acc)
unfolding decimal
decimal-nonempty zero n acc h = h
decimal-nonempty (suc f) n acc h =
    ground (arith, decimal-nonempty f (n / 10) ((b'0' + n % 10) ∷ acc))

pub padded_digits_lem :
    (n exponent : ℕ)
    → n < 10 ^ 21
    → (read_digits 0 (padded_digits n exponent) ≡ n)
      × (exponent < length (padded_digits n exponent))
unfolding padded_digits decimal_text
padded_digits_lem n exponent h = elim (Bool-cases (leb (length (decimal 21 n [])) exponent)) [
  | inl short ↦ rw short (
    read_digits-zeros (exponent + 1 - length (decimal 21 n [])) (decimal 21 n []) ∙ whole,
    omega (
      arith,
      length-append (replicate (exponent + 1 - length (decimal 21 n [])) b'0') (decimal 21 n []),
      length-replicate (exponent + 1 - length (decimal 21 n [])) b'0',
      leb→le short,
    ),
  )
  | inr long ↦ rw long (whole, lt_of_leb long)
]
  where
    whole : read_digits 0 (decimal 21 n []) ≡ n
    whole = read_digits-decimal 21 n [] h (omega arith) ∙ (unfold read_digits in refl)

    leb→le : {a b : ℕ} → leb a b ≡ true → a ≤ b
    leb→le h = ground (arith, h)

    lt_of_leb : {a b : ℕ} → leb a b ≡ false → b < a
    lt_of_leb h = ground (arith, h)

length-take : (k : ℕ) (s : Text) → k ≤ length s → length (take k s) ≡ k
length-take zero s h = refl
length-take (suc k) [] h = absurd (omega (arith, h))
length-take (suc k) (c ∷ s) h = omega (arith, length-take k s (omega (arith, h)))

length-drop : (k : ℕ) (s : Text) → length (drop k s) ≡ length s - k
length-drop zero s = omega arith
length-drop (suc k) [] = omega arith
length-drop (suc k) (c ∷ s) = omega (arith, length-drop k s)

abbrev pub magnitude : ℤ → ℕ
magnitude z = pos_part z + neg_part z

grouped : (s : Text) → 0 < length s → IsGrouped s (group_thousands s)
grouped [] h = elim h [ ]
grouped (d ∷ ds) h = group_thousands-IsGrouped d ds

-- For an amount of magnitude below 10^21 `formatMoney` writes a minus sign exactly if it is
-- negative, a whole part of decimal digits in groups, with a space between two groups, one to three
-- digits in the first and three in every other, a point and as many decimal digits as the currency
-- has minor digits, if it has any, then a space and the currency. A whole part that starts with 0
-- is that digit alone. The digits, read back, are the magnitude of the amount.
pub format_money_lem :
    (minor_units : ℤ) (currency : Text)
    → magnitude minor_units < 10 ^ 21
    → (whole : Text) × (grouped : Text) × (fraction : Text) × (format_money minor_units currency
        ≡ (if ltb_ℤ minor_units (pos 0) then b'-' ∷ [] else [])
          ++ ((grouped ++ (if ltb 0 (currency_exponent currency) then b'.' ∷ fraction else []))
              ++ b' ' ∷ currency))
      × IsGrouped whole grouped
      × (length fraction ≡ currency_exponent currency)
      × (all is_digit (whole ++ fraction) ≡ true)
      × (starts_with_zero whole ≡ true → length whole ≡ 1)
      × (read_digits 0 (whole ++ fraction) ≡ magnitude minor_units)
unfolding format_money with_fraction
format_money_lem minor_units currency h =
    let e = currency_exponent currency in
    let n = magnitude minor_units in
    let digits = padded_digits n e in
    let (value, long) = padded_digits_lem n e h in
    let split = take-drop (length digits - e) digits in
    let counted = length-take (length digits - e) digits (omega arith) in
    let whole = take (length digits - e) digits in
    (
      whole,
      group_thousands whole,
      drop (length digits - e) digits,
      refl,
      grouped whole (omega (arith, counted, long)),
      omega (arith, length-drop (length digits - e) digits, long),
      ap (all is_digit) split ∙ padded_digits-are_digits n e,
      (λ z. omega (arith, counted, long, no_superfluous_zero n e h z)),
      ap (read_digits 0) split ∙ value,
    )
