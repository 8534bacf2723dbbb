-- ===== src/Kernel/MoneyText/Grouping.antt =====
-- What the text of `formatMoney` (money-text.ts) looks like: groups of three digits, and no zero
-- before the first digit that counts.
use order_to_cash_nestjs.Base.{
  List, ℕ, all, Bool, ◌∷◌, ◌≡◌, All, replicate, length, false, ◌<◌, ◌++◌, ◌≤◌, [], ◌+◌,
  if◌then◌else◌, arith, true, ◌==◌, take, refl, ◌*◌, ◌%◌, zero, Bool-cases, ◌-◌, length-append,
  ◌&&◌, ◌/◌, leb, not, inl, is_empty, inr, ltb, sym, ◌∙◌, ap,
}
use order_to_cash_nestjs.Kernel.Gln.{is_digit}
use order_to_cash_nestjs.Kernel.Reference.{decimal, pad_start}
use order_to_cash_nestjs.Kernel.MoneyText.{group_thousands, padded_digits, decimal_text}
use order_to_cash_nestjs.Base.Text.{Text}
use native.Mathlib.Nat.{pow-suc}
use Prim.Native.Nat.{◌^◌, suc}

-- A text and further texts, with a space before each of these.
abbrev pub joined : Text → List Text → Text
joined first [] = first
joined first (group ∷ groups) = first ++ b' ' ∷ joined group groups

abbrev pub flattened : Text → List Text → Text
flattened first [] = first
flattened first (group ∷ groups) = first ++ flattened group groups

-- The digits in groups with a space between two of them: one to three digits in the first group,
-- exactly three in every other.
pub record IsGrouped (digits grouped : Text) : Type 0 where
  pub first : Text
  pub groups : List Text
  pub is_joined : grouped ≡ joined first groups
  pub same_digits : flattened first groups ≡ digits
  pub threes : All (λ group. length group ≡ 3) groups
  pub a_digit : 0 < length first
  pub three_at_most : length first ≤ 3

joined-cons : (d : ℕ) (f : Text) (gs : List Text) → joined (d ∷ f) gs ≡ d ∷ joined f gs
joined-cons d f [] = refl
joined-cons d f (g ∷ gs) = refl

flattened-cons : (d : ℕ) (f : Text) (gs : List Text) → flattened (d ∷ f) gs ≡ d ∷ flattened f gs
flattened-cons d f [] = refl
flattened-cons d f (g ∷ gs) = refl

length-flattened :
    (first : Text) (groups : List Text)
    → All (λ (group : Text). length group ≡ 3) groups
    → length (flattened first groups) ≡ length first + length groups * 3
length-flattened first [] h = omega arith
length-flattened first (g ∷ gs) h =
    omega (arith, length-append first (flattened g gs), length-flattened g gs h.1, h.0)

group-cons :
    (d e : ℕ) (ds : Text) {grouped : Text}
    → IsGrouped (e ∷ ds) grouped
    → IsGrouped (d ∷ e ∷ ds) (
        d
        ∷ (if (length (e ∷ ds) % 3 == 0) && not (is_empty (e ∷ ds))
            then b' ' ∷ grouped
            else grouped))
group-cons d e ds {grouped} g =
    let counted : length g.first + length g.groups * 3 ≡ length (e ∷ ds) =
      sym (length-flattened g.first g.groups g.threes)
      ∙ ap (λ (s : Text). length s) g.same_digits in
    elim (Bool-cases ((length (e ∷ ds) % 3 == 0) && not (is_empty (e ∷ ds)))) [
      | inl full ↦
          let three : length g.first ≡ 3 =
            let z : length (e ∷ ds) % 3 ≡ 0 = ground (arith, full) in
            omega (arith, z, counted, g.a_digit, g.three_at_most) in
          record {
            first = d ∷ [];
            groups = g.first ∷ g.groups;
            is_joined = rw full (ap (λ (s : Text). d ∷ b' ' ∷ s) g.is_joined);
            same_digits = ap (λ (s : Text). d ∷ s) g.same_digits;
            threes = (three, g.threes);
            a_digit = omega arith;
            three_at_most = omega arith;
          }
      | inr more ↦ record {
        first = d ∷ g.first;
        groups = g.groups;
        is_joined =
            rw more (ap (λ (s : Text). d ∷ s) g.is_joined ∙ sym (joined-cons d g.first g.groups));
        same_digits = flattened-cons d g.first g.groups ∙ ap (λ (s : Text). d ∷ s) g.same_digits;
        threes = g.threes;
        a_digit = omega arith;
        three_at_most =
            let z : (length (e ∷ ds) % 3 == 0) ≡ false = ground (arith, more) in
            let not_three : length g.first < 3 =
              not_full (length g.groups) z counted g.three_at_most in
            omega (arith, not_three);
      }
    ]
  where
    not_full : {a n : ℕ} (k : ℕ) → (n % 3 == 0) ≡ false → a + k * 3 ≡ n → a ≤ 3 → a < 3
    not_full {a} {n} k z c h = elim (Bool-cases (ltb a 3)) [
      | inl less ↦ ground (arith, less)
      | inr not_less ↦ absurd (ground (arith, not_less, z, c, h))
    ]

pub group_thousands-IsGrouped : (d : ℕ) (ds : Text) → IsGrouped (d ∷ ds) (group_thousands (d ∷ ds))
unfolding group_thousands
group_thousands-IsGrouped d [] = record {
  first = d ∷ [];
  groups = [];
  is_joined = refl;
  same_digits = refl;
  threes = tt;
  a_digit = omega arith;
  three_at_most = omega arith;
}
group_thousands-IsGrouped d (e ∷ ds) = group-cons d e ds (group_thousands-IsGrouped e ds)

all-append :
    (s t : Text) → all is_digit s ≡ true → all is_digit t ≡ true → all is_digit (s ++ t) ≡ true
all-append [] t h k = k
all-append (c ∷ s) t h k = ground (arith, all-append s t)

zeros-are_digits : (k : ℕ) → all is_digit (replicate k b'0') ≡ true
unfolding is_digit
zeros-are_digits zero = refl
zeros-are_digits (suc k) = zeros-are_digits k

pub length-replicate : (k c : ℕ) → length (replicate k c) ≡ k
length-replicate zero c = refl
length-replicate (suc k) c = omega (arith, length-replicate k c)

decimal-digits :
    (f n : ℕ) (acc : Text) → all is_digit acc ≡ true → all is_digit (decimal f n acc) ≡ true
unfolding decimal is_digit
decimal-digits zero n acc h = h
decimal-digits (suc f) n acc h = elim (Bool-cases (n / 10 == 0)) [
  | inl small ↦ rw small (ground (arith, h))
  | inr large ↦ rw large (decimal-digits f (n / 10) ((b'0' + n % 10) ∷ acc) (ground (arith, h)))
]

pub padded_digits-are_digits : (n exponent : ℕ) → all is_digit (padded_digits n exponent) ≡ true
unfolding padded_digits decimal_text
padded_digits-are_digits n exponent = elim (Bool-cases (leb (length (decimal 21 n [])) exponent)) [
  | inl short ↦ rw short (
      all-append (replicate (exponent + 1 - length (decimal 21 n [])) b'0') (decimal 21 n [])
        (zeros-are_digits _) (decimal-digits 21 n [] refl))
  | inr long ↦ rw long (decimal-digits 21 n [] refl)
]

-- Whether a text starts with a zero.
abbrev pub starts_with_zero : Text → Bool
starts_with_zero [] = false
starts_with_zero (c ∷ cs) = c == b'0'

decimal-leads :
    (f n : ℕ) (acc : Text)
    → n < 10 ^ f
    → 0 < n
    → (c : ℕ) × (rest : Text) × (decimal f n acc ≡ c ∷ rest) × ((c == b'0') ≡ false)
unfolding decimal
decimal-leads zero n acc h p = absurd (omega (arith, h, p))
decimal-leads (suc f) n acc h p = elim (Bool-cases (n / 10 == 0)) [
  | inl small ↦ (b'0' + n % 10, acc, rw small refl, ground (arith, small, p))
  | inr large ↦
      let (c, rest, run, lead) =
        decimal-leads f (n / 10) ((b'0' + n % 10) ∷ acc) (omega (arith, pow-suc 10 f, h))
          (ground (arith, large)) in
      (c, rest, rw large run, lead)
]

-- A whole part that starts with a zero is that zero.
pub no_superfluous_zero :
    (n exponent : ℕ)
    → n < 10 ^ 21
    → starts_with_zero
        (take (length (padded_digits n exponent) - exponent) (padded_digits n exponent))
      ≡ true
    → length (padded_digits n exponent) ≤ exponent + 1
unfolding padded_digits decimal_text
no_superfluous_zero n exponent h z = elim (Bool-cases (leb (length (decimal 21 n [])) exponent)) [
  | inl short ↦ rw short (padded-length short)
  | inr long ↦ rw long (elim (Bool-cases (n == 0)) [
    | inl none_ ↦ let e : n ≡ 0 = ground (arith, none_) in rw e (unfold decimal in omega arith)
    | inr some_ ↦
        let (c, rest, run, lead) = decimal-leads 21 n [] h (ground (arith, some_)) in
        absurd (leading (decimal 21 n []) exponent c rest run lead (rw long at z) long)
  ])
]
  where
    leb→le : {a b : ℕ} → leb a b ≡ true → a ≤ b
    leb→le h = ground (arith, h)

    padded-length :
        leb (length (decimal 21 n [])) exponent ≡ true
        → length (pad_start (exponent + 1) b'0' (decimal 21 n [])) ≤ exponent + 1
    padded-length short = omega (
      arith,
      length-append (replicate (exponent + 1 - length (decimal 21 n [])) b'0') (decimal 21 n []),
      length-replicate (exponent + 1 - length (decimal 21 n [])) b'0',
      leb→le short,
    )

    below : {a b : ℕ} → leb (suc a) b ≡ false → b ≤ a
    below h = ground (arith, h)

    leading :
        (s : Text) (e c : ℕ) (rest : Text)
        → s ≡ c ∷ rest
        → (c == b'0') ≡ false
        → starts_with_zero (take (length s - e) s) ≡ true
        → leb (length s) e ≡ false
        → ⊥
    leading s e c rest run lead z long =
        let long' : e ≤ length rest = below (rw run at long) in
        let more : suc (length rest) - e ≡ suc (length rest - e) = omega (arith, long') in
        let z' : starts_with_zero (take (suc (length rest) - e) (c ∷ rest)) ≡ true = rw run at z in
        let z'' : (c == b'0') ≡ true = rw more at z' in cc
