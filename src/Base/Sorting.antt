-- ===== src/Base/Sorting.antt =====
-- Lexicographic comparison of texts, and sorting by a strict order: two elements that the order
-- tells apart can be inserted in either order, so that a sorted list forgets the order of arrival.
use mathlib.Core.Path.{◌≡◌, refl}
use mathlib.Core.Logic.{◌⊎◌}
use mathlib.Core.Bool.{Bool, true, false, ◌&&◌, ◌||◌}
use mathlib.Core.List.{List, [], ◌∷◌}
use native.Mathlib.Omega.{arith}
use order_to_cash_nestjs.Base.Tests.{ltb, ◌==◌, if◌then◌else◌}
use order_to_cash_nestjs.Base.Text.{Text}

-- `<` on strings: by their code units from the left.
unfoldable pub text_ltb : Text → Text → Bool
text_ltb [] [] = false
text_ltb [] (y ∷ ys) = true
text_ltb (x ∷ xs) [] = false
text_ltb (x ∷ xs) (y ∷ ys) = ltb x y || (x == y && text_ltb xs ys)

pub text_ltb-asymm : (a b : Text) → text_ltb a b ≡ true → text_ltb b a ≡ false
unfolding text_ltb
text_ltb-asymm [] [] h = refl
text_ltb-asymm [] (y ∷ ys) h = refl
text_ltb-asymm (x ∷ xs) [] h = cc
text_ltb-asymm (x ∷ xs) (y ∷ ys) h = ground (arith, text_ltb-asymm xs ys)

pub text_ltb_trans :
    (a b c : Text) → text_ltb a b ≡ true → text_ltb b c ≡ true → text_ltb a c ≡ true
unfolding text_ltb
text_ltb_trans [] [] c h k = cc
text_ltb_trans [] (y ∷ ys) [] h k = cc
text_ltb_trans [] (y ∷ ys) (z ∷ zs) h k = refl
text_ltb_trans (x ∷ xs) [] c h k = cc
text_ltb_trans (x ∷ xs) (y ∷ ys) [] h k = cc
text_ltb_trans (x ∷ xs) (y ∷ ys) (z ∷ zs) h k = ground (arith, text_ltb_trans xs ys zs)

pub text_ltb-total : (a b : Text) → text_ltb a b ≡ false → text_ltb b a ≡ false → a ≡ b
unfolding text_ltb
text_ltb-total [] [] h k = refl
text_ltb-total [] (y ∷ ys) h k = cc
text_ltb-total (x ∷ xs) [] h k = cc
text_ltb-total (x ∷ xs) (y ∷ ys) h k = ground (arith, text_ltb-total xs ys)

pub record IsStrictOrder {ℓ} {A : Type ℓ} (before : A → A → Bool) : Type ℓ where
  pub asymm : (a b : A) → before a b ≡ true → before b a ≡ false
  pub trans : (a b c : A) → before a b ≡ true → before b c ≡ true → before a c ≡ true

module _ {ℓ} {A : Type ℓ} (before : A → A → Bool) where
  -- Before the first element that does not come before it.
  unfoldable pub insert : A → List A → List A
  insert a [] = a ∷ []
  insert a (x ∷ xs) = let rest = insert a xs in if before x a then x ∷ rest else a ∷ x ∷ xs

  unfoldable pub sort : List A → List A
  unfolding insert
  sort [] = []
  sort (x ∷ xs) = insert x (sort xs)

  abbrev pub Apart : A → A → Type 0
  Apart a b = (before a b ≡ true) ⊎ (before b a ≡ true)

  pub insert-insert :
      (o : IsStrictOrder before) (a b : A) (xs : List A)
      → Apart a b
      → insert a (insert b xs) ≡ insert b (insert a xs)
  unfolding insert
  insert-insert o a b [] h = ground (arith, o.asymm a b, o.asymm b a)
  insert-insert o a b (x ∷ xs) h =
      ground
        (arith, o.asymm a b, o.asymm b a, o.trans x a b, o.trans x b a, insert-insert o a b xs h)
