-- ===== src/Kernel/Gln/CheckDigit.antt =====
-- What the check digit of a GLN guarantees.
use order_to_cash_nestjs.Base.{
  ℕ, zero, suc, ◌+◌, ◌-◌, ◌*◌, ◌%◌, ◌≡◌, refl, ◌≢◌, ◌⊎◌, inl, inr, ◌↔◌, Bool, true, false, not, [],
  ◌∷◌, arith, if◌then◌else◌, length, all, set, take, ◌==◌, get_or, ◌<◌, Bool-cases,
}
use order_to_cash_nestjs.Base.Text.{Text}
use order_to_cash_nestjs.Errors.{invalid_gln}
use order_to_cash_nestjs.Result.{ok, err}
use order_to_cash_nestjs.Kernel.Gln.{is_digit, digit, is_digits, weigh, of}

-- The GS1 sum, from the left: the digits weighted alternately by 1 and 3.
abbrev pub gs1_sum : Bool → Text → ℕ
gs1_sum heavy [] = 0
gs1_sum heavy (c ∷ cs) = digit c * (if heavy then 3 else 1) + gs1_sum (not heavy) cs

digits-length : (n : ℕ) (v : Text) → is_digits n v ≡ true → length v ≡ n
unfolding is_digits
digits-length n v h = ground arith

digits-all : (n : ℕ) (v : Text) → is_digits n v ≡ true → all is_digit v ≡ true
unfolding is_digits
digits-all n v h = ground arith

all-take : (n : ℕ) (v : Text) → all is_digit v ≡ true → all is_digit (take n v) ≡ true
all-take zero v h = refl
all-take (suc n) [] h = refl
all-take (suc n) (x ∷ v) h = ground (arith, all-take n v)

digit_of_all :
    (v : Text) (i : ℕ) → all is_digit v ≡ true → i < length v → is_digit (get_or v i b'0') ≡ true
digit_of_all [] i h l = absurd (omega arith)
digit_of_all (x ∷ v) zero h l = ground arith
digit_of_all (x ∷ v) (suc i) h l = digit_of_all v i (ground arith) (omega arith)

digit-lt : (c : ℕ) → is_digit c ≡ true → digit c < 10
unfolding is_digit digit
digit-lt c h = ground arith

digit-injective : (c d : ℕ) → is_digit c ≡ true → is_digit d ≡ true → digit c ≡ digit d → c ≡ d
unfolding is_digit digit
digit-injective c d h k e = ground arith

body_digits :
    (v : Text) → is_digits 13 v ≡ true → length (take 12 v) ≡ 12 → is_digits 12 (take 12 v) ≡ true
body_digits v h l = unfold is_digits in ground (arith, all-take 12 v (digits-all 13 v h))

-- The check digit closes the sum.
closes : (x sum : ℕ) → x < 10 → ((x == (10 - sum % 10) % 10) ≡ true) ↔ ((sum + x) % 10 ≡ 0)
closes x sum h = (ground arith, ground arith)

-- What `of` does once the shape is right.
of_shape :
    (v : Text)
    → is_digits 13 v ≡ true
    → is_digits 12 (take 12 v) ≡ true
    → of v ≡ (
        if digit (get_or v 12 b'0') == (10 - weigh (take 12 v) 12 0 0 % 10) % 10
        then ok v
        else err (invalid_gln v))
unfolding of
of_shape v h k = ground (arith, digits-length 12 (take 12 v) k)

weigh_total :
    (v : Text)
    → length v ≡ 13
    → weigh (take 12 v) 12 0 0 + digit (get_or v 12 b'0') ≡ gs1_sum false v
unfolding weigh
weigh_total (c0 ∷ c1 ∷ c2 ∷ c3 ∷ c4 ∷ c5 ∷ c6 ∷ c7 ∷ c8 ∷ c9 ∷ c10 ∷ c11 ∷ c12 ∷ []) h = omega arith
weigh_total v h = absurd (omega arith)

take-length : (v : Text) → length v ≡ 13 → length (take 12 v) ≡ 12
take-length (c0 ∷ c1 ∷ c2 ∷ c3 ∷ c4 ∷ c5 ∷ c6 ∷ c7 ∷ c8 ∷ c9 ∷ c10 ∷ c11 ∷ c12 ∷ []) h = refl
take-length v h = absurd (omega arith)

of_digits : (v : Text) → is_digits 13 v ≡ true → (of v ≡ ok v) ↔ (gs1_sum false v % 10 ≡ 0)
of_digits v h =
    let len : length v ≡ 13 = digits-length 13 v h in
    let last : digit (get_or v 12 b'0') < 10 =
      digit-lt _ (digit_of_all v 12 (digits-all 13 v h) (omega arith)) in
    let shape : of v ≡ (
        if digit (get_or v 12 b'0') == (10 - weigh (take 12 v) 12 0 0 % 10) % 10
        then ok v
        else err (invalid_gln v)) =
      of_shape v h (body_digits v h (take-length v len)) in
    rw (shape, ← weigh_total v len)
      (
        ground (arith, closes _ (weigh (take 12 v) 12 0 0) last),
        ground (arith, closes _ (weigh (take 12 v) 12 0 0) last),
      )

-- `GLN.of` accepts a text exactly if it is 13 digits whose sum, weighted alternately by 1 and 3
-- from the left, is a multiple of 10.
pub of_iff : (v : Text) → (of v ≡ ok v) ↔ ((is_digits 13 v ≡ true) × (gs1_sum false v % 10 ≡ 0))
unfolding of
of_iff v = elim (Bool-cases (is_digits 13 v)) [
  | inl e ↦ (λ h. (e, (of_digits v e).0 h), λ h. (of_digits v e).1 h.1)
  | inr e ↦ (ground arith, λ h. cc)
]

-- A digit replaced: the sum moves by the difference times the weight of the place.
gs1_sum-set :
    (heavy : Bool) (v : Text) (i c : ℕ)
    → i < length v
    → (w : ℕ) × ((w ≡ 1) ⊎ (w ≡ 3))
      × (gs1_sum heavy (set v i c) + digit (get_or v i b'0') * w ≡ gs1_sum heavy v + digit c * w)
gs1_sum-set heavy [] i c h = absurd (omega arith)
gs1_sum-set true (x ∷ v) zero c h = (3, inr refl, omega arith)
gs1_sum-set false (x ∷ v) zero c h = (1, inl refl, omega arith)
gs1_sum-set heavy (x ∷ v) (suc i) c h =
    let (w, which, moved) = gs1_sum-set (not heavy) v i c (omega arith) in (w, which, omega arith)

-- A text that `GLN.of` accepts, with one digit at any place replaced by a different digit, is
-- refused.
pub mistyped_digit :
    (v : Text) (i c : ℕ)
    → of v ≡ ok v
    → i < 13
    → is_digit c ≡ true
    → get_or v i b'0' ≢ c
    → of (set v i c) ≢ ok (set v i c)
mistyped_digit v i c good l dig differs bad =
    let (digits, sum) = (of_iff v).0 good in
    let (digits', sum') = (of_iff (set v i c)).0 bad in
    let len : length v ≡ 13 = digits-length 13 v digits in
    let (w, which, moved) = gs1_sum-set false v i c (omega arith) in
    let old : is_digit (get_or v i b'0') ≡ true =
      digit_of_all v i (digits-all 13 v digits) (omega arith) in
    differs
      (digit-injective (get_or v i b'0') c old dig (ground (arith, digit-lt _ old, digit-lt _ dig)))
