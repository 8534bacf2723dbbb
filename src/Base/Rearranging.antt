-- ===== src/Base/Rearranging.antt =====
-- Lemmas on rearrangements of lists, and on sorting them.
use mathlib.Core.List.{Permᴰ, Memᴰ}
use mathlib.Core.List.Permᴰ
use mathlib.Core.Path.{◌≡◌, refl, ap, ◌∙◌, subst}
use mathlib.Core.Logic.{inl, inr}
use mathlib.Core.Bool.{Bool}
use mathlib.Core.List.{List, [], ◌∷◌, map, ◌++◌}
use native.Mathlib.Omega.{arith}
use order_to_cash_nestjs.Base.Tests.{Bool-cases}
use order_to_cash_nestjs.Base.Lists.{All, any, length}
use order_to_cash_nestjs.Base.Sorting.{sort, insert, insert-insert, Apart, IsStrictOrder}

module _ {ℓ} {A : Type ℓ} where
  pub All-perm {κ} : (P : A → Type κ) (xs ys : List A) → Permᴰ xs ys → All P xs → All P ys
  All-perm P _ _ Permᴰ.nil h = h
  All-perm P _ _ (Permᴰ.cons e r) h = (subst P e h.0, All-perm P _ _ r h.1)
  All-perm P _ _ (Permᴰ.swap e f) h = (subst P f h.1.0, (subst P e h.0, h.1.1))
  All-perm P _ _ (Permᴰ.trans r s) h = All-perm P _ _ s (All-perm P _ _ r h)

  pub length-perm : (xs ys : List A) → Permᴰ xs ys → length xs ≡ length ys
  length-perm _ _ Permᴰ.nil = refl
  length-perm _ _ (Permᴰ.cons {l₁ = xs} {l₂ = ys} e r) = omega (arith, length-perm xs ys r)
  length-perm _ _ (Permᴰ.swap e f) = refl
  length-perm _ _ (Permᴰ.trans {l₂ = m} r s) = length-perm _ m r ∙ length-perm m _ s

  pub any-perm : (p : A → Bool) (xs ys : List A) → Permᴰ xs ys → any p xs ≡ any p ys
  any-perm p _ _ Permᴰ.nil = refl
  any-perm p _ _ (Permᴰ.cons {l₁ = xs} {l₂ = ys} e r) = ground (arith, ap p e, any-perm p xs ys r)
  any-perm p _ _ (Permᴰ.swap e f) = ground (arith, ap p e, ap p f)
  any-perm p _ _ (Permᴰ.trans {l₂ = m} r s) = any-perm p _ m r ∙ any-perm p m _ s

  pub Memᴰ-perm : {a : A} (xs ys : List A) → Permᴰ xs ys → Memᴰ a xs → Memᴰ a ys
  Memᴰ-perm _ _ Permᴰ.nil n = elim n [ ]
  Memᴰ-perm _ _ (Permᴰ.cons e r) (Memᴰ.head f) = Memᴰ.head (f ∙ e)
  Memᴰ-perm _ _ (Permᴰ.cons e r) (Memᴰ.tail m) = Memᴰ.tail (Memᴰ-perm _ _ r m)
  Memᴰ-perm _ _ (Permᴰ.swap e f) (Memᴰ.head g) = Memᴰ.tail (Memᴰ.head (g ∙ e))
  Memᴰ-perm _ _ (Permᴰ.swap e f) (Memᴰ.tail (Memᴰ.head g)) = Memᴰ.head (g ∙ f)
  Memᴰ-perm _ _ (Permᴰ.swap e f) (Memᴰ.tail (Memᴰ.tail m)) = Memᴰ.tail (Memᴰ.tail m)
  Memᴰ-perm _ _ (Permᴰ.trans {l₂ = m} r s) n = Memᴰ-perm m _ s (Memᴰ-perm _ m r n)

  pub snoc-perm : (a : A) (xs : List A) → Permᴰ (xs ++ a ∷ []) (a ∷ xs)
  snoc-perm a [] = Permᴰ.refl (a ∷ [])
  snoc-perm a (x ∷ xs) = Permᴰ.trans (Permᴰ.cons refl (snoc-perm a xs)) (Permᴰ.swap refl refl)

  -- A relation between each element and those after it.
  abbrev pub Pairwise {κ} : (A → A → Type κ) → List A → Type κ
  Pairwise R [] = Unit
  Pairwise R (x ∷ xs) = All (R x) xs × Pairwise R xs

  pub Pairwise-perm {κ} :
      (R : A → A → Type κ)
      → ((a b : A) → R a b → R b a)
      → (xs ys : List A) → Permᴰ xs ys
      → Pairwise R xs
      → Pairwise R ys
  Pairwise-perm R sym' _ _ Permᴰ.nil h = h
  Pairwise-perm R sym' (x ∷ xs) (y ∷ ys) (Permᴰ.cons e r) h =
      (subst (λ z. All (R z) ys) e (All-perm (R x) xs ys r h.0), Pairwise-perm R sym' xs ys r h.1)
  Pairwise-perm R sym' (a ∷ b ∷ l) (a' ∷ b' ∷ _) (Permᴰ.swap e f) h =
      let swapped : Pairwise R (b ∷ a ∷ l) = ((sym' a b h.0.0, h.1.0), (h.0.1, h.1.1)) in
      let moved : ◌≡◌ {A = List A} (b ∷ a ∷ l) (a' ∷ b' ∷ l) = cc (e, f) in
      subst (Pairwise R) moved swapped
  Pairwise-perm R sym' _ _ (Permᴰ.trans {l₂ = m} r s) h =
      Pairwise-perm R sym' m _ s (Pairwise-perm R sym' _ m r h)

pub map-perm {ℓ κ} :
    {A : Type ℓ} {B : Type κ} (f : A → B) (xs ys : List A)
    → Permᴰ xs ys
    → Permᴰ (map f xs) (map f ys)
map-perm f _ _ Permᴰ.nil = Permᴰ.nil
map-perm f _ _ (Permᴰ.cons {l₁ = xs} {l₂ = ys} e r) = Permᴰ.cons (ap f e) (map-perm f xs ys r)
map-perm f _ _ (Permᴰ.swap e g) = Permᴰ.swap (ap f e) (ap f g)
map-perm f _ _ (Permᴰ.trans {l₂ = m} r s) = Permᴰ.trans (map-perm f _ m r) (map-perm f m _ s)

module _ {ℓ} {A : Type ℓ} (before : A → A → Bool) where
  pub Apart-sym : (a b : A) → Apart before a b → Apart before b a
  Apart-sym a b (inl h) = inr h
  Apart-sym a b (inr h) = inl h

  pub sort-perm :
      IsStrictOrder before
      → (xs ys : List A) → Permᴰ xs ys
      → Pairwise (Apart before) xs
      → sort before xs ≡ sort before ys
  unfolding sort
  sort-perm o _ _ Permᴰ.nil h = refl
  sort-perm o (x ∷ xs) (y ∷ ys) (Permᴰ.cons p r) h = rw (p, sort-perm o xs ys r h.1) refl
  sort-perm o (a ∷ b ∷ l) (a' ∷ b' ∷ _) (Permᴰ.swap p q) h =
      rw (← p, ← q) (insert-insert before o a b (sort before l) h.0.0)
  sort-perm o _ _ (Permᴰ.trans {l₂ = m} r s) h =
      sort-perm o _ m r h ∙ sort-perm o m _ s (Pairwise-perm (Apart before) Apart-sym _ m r h)

  insert-perm : (a : A) (xs : List A) → Permᴰ (insert before a xs) (a ∷ xs)
  unfolding insert
  insert-perm a [] = Permᴰ.refl (a ∷ [])
  insert-perm a (x ∷ xs) = elim (Bool-cases (before x a)) [
    | inl h ↦ rw h (Permᴰ.trans (Permᴰ.cons refl (insert-perm a xs)) (Permᴰ.swap refl refl))
    | inr h ↦ rw h (Permᴰ.refl (a ∷ x ∷ xs))
  ]

  pub sort-keeps : (xs : List A) → Permᴰ (sort before xs) xs
  unfolding sort
  sort-keeps [] = Permᴰ.nil
  sort-keeps (x ∷ xs) =
      Permᴰ.trans (insert-perm x (sort before xs)) (Permᴰ.cons refl (sort-keeps xs))

pub Memᴰ-map {ℓ κ} :
    {A : Type ℓ} {B : Type κ} (f : A → B) {a : A} (xs : List A) → Memᴰ a xs → Memᴰ (f a) (map f xs)
Memᴰ-map f _ (Memᴰ.head e) = Memᴰ.head (ap f e)
Memᴰ-map f _ (Memᴰ.tail m) = Memᴰ.tail (Memᴰ-map f _ m)
