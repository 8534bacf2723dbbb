-- ===== src/Base/Text.antt =====
-- JavaScript strings as the sequences of their UTF-16 code units.
use Prim.Native.Char.{code}
use Prim.Native.String.{String}
use Prim.Native.Nat.{ℕ}
use mathlib.Core.Path.{◌≡◌, refl}
use mathlib.Core.Logic.{◌↔◌}
use mathlib.Core.Bool.{Bool, true, false, ◌&&◌}
use mathlib.Core.List.{List, [], ◌∷◌}
use native.Mathlib.Omega.{arith}
use order_to_cash_nestjs.Base.Tests.{◌==◌}

abbrev pub Text : Type 0
Text = List ℕ

-- The code units of a literal (all literals here are of the basic plane).
abbrev pub codes : String → Text
codes String.[] = []
codes (String.◌∷◌ c s) = code c ∷ codes s

-- `===` on strings.
infix 50 ◌=t◌
unfoldable pub ◌=t◌ : Text → Text → Bool
[] =t [] = true
[] =t (y ∷ ys) = false
(x ∷ xs) =t [] = false
(x ∷ xs) =t (y ∷ ys) = (x == y) && (xs =t ys)

pub text_eq_iff : (a b : Text) → ((a =t b) ≡ true) ↔ (a ≡ b)
unfolding ◌=t◌
text_eq_iff [] [] = ground arith
text_eq_iff [] (y ∷ ys) = ground arith
text_eq_iff (x ∷ xs) [] = ground arith
text_eq_iff (x ∷ xs) (y ∷ ys) = ground (arith, text_eq_iff xs ys)

pub text_eq_refl : (a : Text) → (a =t a) ≡ true
text_eq_refl a = (text_eq_iff a a).1 refl
