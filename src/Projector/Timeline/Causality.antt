-- ===== src/Projector/Timeline/Causality.antt =====
-- Causes and effects in the order of `causalTimelineOrder` (delta-to-pipeline.ts).
use order_to_cash_nestjs.Base.Rearranging.{Pairwise, Memᴰ-perm, sort-keeps, Memᴰ-map}
use mathlib.Core.Path.{subst}
use order_to_cash_nestjs.Base.Text.{Text, ◌=t◌, text_eq_iff}
use order_to_cash_nestjs.Base.Sorting.{insert, sort, Apart, text_ltb-asymm}
use order_to_cash_nestjs.Projector.Timeline.{
  TimelineEntry, is_cause_of, Placed, causal_timeline_order, placed_before,
}
use order_to_cash_nestjs.Projector.Timeline.Rearranged.{
  depth_in, IsFresh, AreDistinct, placed_before-IsStrictOrder, with_depths, depth_fixpoint_lem,
  Apart-with_depths,
}
use order_to_cash_nestjs.Base.{
  List, ℕ, ◌≡◌, ◌<◌, ◌∷◌, any, ◌≤◌, ◌==◌, if◌then◌else◌, length, true, [], arith, ◌+◌, suc, zero,
  find?, Bool, map, some, Bool-cases, none, inl, refl, ap, inr, ◌∙◌, All, false, All-map, sym,
}
use mathlib.Core.List.{Memᴰ}
use mathlib.Core.List.Permᴰ

-- `a`, and further on in the list `b`.
pub data Precedes {ℓ} {A : Type ℓ} (a b : A) : List A → Type ℓ where
  first : {x : A} {xs : List A} → a ≡ x → Memᴰ b xs → Precedes a b (x ∷ xs)
  later : {x : A} {xs : List A} → Precedes a b xs → Precedes a b (x ∷ xs)

-- The length of the chain of causes of an entry within its tie group, if that chain ends.
pub data CausalDepth (xs : List TimelineEntry) : ℕ → TimelineEntry → Type 0 where
  uncaused : {e : TimelineEntry} → find? (is_cause_of e) xs ≡ none → CausalDepth xs zero e
  caused :
      {k : ℕ} {e c : TimelineEntry}
      → find? (is_cause_of e) xs ≡ some c
      → CausalDepth xs k c
      → CausalDepth xs (suc k) e

depth_in_lem :
    (xs : List TimelineEntry) (n : ℕ) {k : ℕ} {e : TimelineEntry}
    → CausalDepth xs k e
    → k ≤ n
    → depth_in xs n e ≡ k
unfolding depth_in
depth_in_lem xs zero (uncaused found) h = refl
depth_in_lem xs (suc n) (uncaused found) h = rw (found, depth_in) refl
depth_in_lem xs zero (caused found c) h = absurd (omega arith)
depth_in_lem xs (suc n) (caused found c) h =
    rw (found, depth_in) (omega (arith, depth_in_lem xs n c (omega arith)))

-- Counting: a list that holds every number below `k` has `k` elements.
Covers : ℕ → List ℕ → Type 0
Covers k ds = (j : ℕ) → j < k → any (λ d. d == j) ds ≡ true

erase : ℕ → List ℕ → List ℕ
erase k [] = []
erase k (d ∷ ds) = let rest = erase k ds in if d == k then ds else d ∷ rest

length-erase :
    (k : ℕ) (ds : List ℕ) → any (λ d. d == k) ds ≡ true → length (erase k ds) + 1 ≡ length ds
unfolding erase
length-erase k [] h = cc
length-erase k (d ∷ ds) h = ground (arith, h, length-erase k ds)

any-erase :
    (k j : ℕ) (ds : List ℕ)
    → j < k
    → any (λ d. d == j) ds ≡ true
    → any (λ d. d == j) (erase k ds) ≡ true
unfolding erase
any-erase k j [] l h = cc
any-erase k j (d ∷ ds) l h = ground (arith, h, any-erase k j ds l)

Covers-length : (k : ℕ) (ds : List ℕ) → Covers k ds → k ≤ length ds
unfolding Covers
Covers-length zero ds h = omega arith
Covers-length (suc k) ds h =
    let smaller = Covers-length k (erase k ds) (λ j l. any-erase k j ds l (h j (omega arith))) in
    omega (arith, smaller, length-erase k ds (h k (omega arith)))

any-map :
    (f : TimelineEntry → ℕ) (j : ℕ) (xs : List TimelineEntry) (p : TimelineEntry → Bool)
    {c : TimelineEntry}
    → find? p xs ≡ some c
    → f c ≡ j
    → any (λ d. d == j) (map f xs) ≡ true
any-map f j [] p h e = cc
any-map f j (x ∷ xs) p {c} h e = elim (Bool-cases (p x)) [
  | inl at ↦ let same : x ≡ c = ground (arith, at, h) in ground (arith, ap f same, e)
  | inr not_at ↦ ground (arith, any-map f j xs p (ground (arith, not_at, h)) e)
]

chain-Covers :
    (xs : List TimelineEntry) (n : ℕ) {k : ℕ} {e : TimelineEntry}
    → CausalDepth xs k e
    → k ≤ n
    → Covers k (map (depth_in xs n) xs)
unfolding Covers
chain-Covers xs n (uncaused found) h j l = absurd (omega arith)
chain-Covers xs n {k = suc k} {e} (caused {c} found chain) h j l = elim (Bool-cases (j == k)) [
  | inl last ↦
      any-map (depth_in xs n) j xs (is_cause_of e) found
        (ground (arith, depth_in_lem xs n chain (omega arith), last))
  | inr more ↦ chain-Covers xs n chain (omega arith) j (ground (arith, l, more))
]

-- The rounds are enough: the fixpoint's depth is the length of the chain.
pub depth_fixpoint_rounds :
    (xs : List TimelineEntry) {k : ℕ} {e : TimelineEntry}
    → CausalDepth xs k e
    → depth_in xs (length xs) e ≡ k
depth_fixpoint_rounds xs {k} d = depth_in_lem xs (length xs) d (
    omega (
      arith,
      Covers-length k (map (depth_in xs k) xs) (chain-Covers xs k d (omega arith)),
      length-map (depth_in xs k) xs,
    ))
  where
    length-map : {A B : Type 0} (f : A → B) (ys : List A) → length (map f ys) ≡ length ys
    length-map f [] = refl
    length-map f (y ∷ ys) = omega (arith, length-map f ys)

-- Sorted strictly: each element before all that follow.
abbrev IsSorted : List Placed → Type 0
IsSorted [] = Unit
IsSorted (x ∷ xs) = All (λ y. placed_before x y ≡ true) xs × IsSorted xs

All-insert :
    (P : Placed → Type 0) (a : Placed) (xs : List Placed)
    → P a
    → All P xs
    → All P (insert placed_before a xs)
unfolding insert
All-insert P a [] p h = (p, tt)
All-insert P a (x ∷ xs) p h = elim (Bool-cases (placed_before x a)) [
  | inl e ↦ rw e (h.0, All-insert P a xs p h.1)
  | inr e ↦ rw e (p, h)
]

after_first :
    (a x : Placed) → Apart placed_before a x → placed_before x a ≡ false → placed_before a x ≡ true
after_first a x (inl h) e = h
after_first a x (inr h) e = cc (h, e)

All-after :
    (a x : Placed) (xs : List Placed)
    → placed_before a x ≡ true
    → All (λ y. placed_before x y ≡ true) xs
    → All (λ y. placed_before a y ≡ true) xs
All-after a x xs h all = All-map (λ y k. placed_before-IsStrictOrder.trans a x y h k) xs all

insert-IsSorted :
    (a : Placed) (xs : List Placed)
    → All (Apart placed_before a) xs
    → IsSorted xs
    → IsSorted (insert placed_before a xs)
unfolding insert
insert-IsSorted a [] h s = (tt, tt)
insert-IsSorted a (x ∷ xs) h s = elim (Bool-cases (placed_before x a)) [
  | inl e ↦
      rw e (All-insert (λ y. placed_before x y ≡ true) a xs e s.0, insert-IsSorted a xs h.1 s.1)
  | inr e ↦ let lt = after_first a x h.0 e in rw e ((lt, All-after a x xs lt s.0), s)
]

sort-All : (P : Placed → Type 0) (xs : List Placed) → All P xs → All P (sort placed_before xs)
unfolding sort
sort-All P [] h = tt
sort-All P (x ∷ xs) h = All-insert P x (sort placed_before xs) h.0 (sort-All P xs h.1)

sort-IsSorted :
    (xs : List Placed) → Pairwise (Apart placed_before) xs → IsSorted (sort placed_before xs)
unfolding sort
sort-IsSorted [] h = tt
sort-IsSorted (x ∷ xs) h =
    insert-IsSorted x (sort placed_before xs) (sort-All (λ y. Apart placed_before x y) xs h.0)
      (sort-IsSorted xs h.1)

All-Mem : (P : Placed → Type 0) (a : Placed) (xs : List Placed) → All P xs → Memᴰ a xs → P a
All-Mem P a _ h (Memᴰ.head e) = subst P (sym e) h.0
All-Mem P a _ h (Memᴰ.tail m) = All-Mem P a _ h.1 m

irreflexive : (a : Placed) → placed_before a a ≡ true → ⊥
irreflexive a h = cc (h, placed_before-IsStrictOrder.asymm a a h)

sorted-Precedes :
    (a b : Placed) (xs : List Placed)
    → IsSorted xs
    → placed_before a b ≡ true
    → Memᴰ a xs
    → Memᴰ b xs
    → Precedes a b xs
sorted-Precedes a b _ s h (Memᴰ.head e) (Memᴰ.head f) =
    absurd (irreflexive a (subst (λ z. placed_before a z ≡ true) (f ∙ sym e) h))
sorted-Precedes a b _ s h (Memᴰ.head e) (Memᴰ.tail n) = first e n
sorted-Precedes a b (x ∷ xs) s h (Memᴰ.tail m) (Memᴰ.head f) =
    let back =
      subst (λ z. placed_before z a ≡ true) (sym f)
        (All-Mem (λ y. placed_before x y ≡ true) a xs s.0 m) in
    absurd (irreflexive a (placed_before-IsStrictOrder.trans a b a h back))
sorted-Precedes a b _ s h (Memᴰ.tail m) (Memᴰ.tail n) = later (sorted-Precedes a b _ s.1 h m n)

Precedes-map :
    {A B : Type 0} (f : A → B) {a b : A} (xs : List A)
    → Precedes a b xs
    → Precedes (f a) (f b) (map f xs)
Precedes-map f _ (first e m) = first (ap f e) (Memᴰ-map f _ m)
Precedes-map f _ (later p) = later (Precedes-map f _ p)

Fresh-Mem :
    (id : Text) (c : TimelineEntry) (xs : List TimelineEntry)
    → IsFresh id xs
    → Memᴰ c xs
    → (c.event_id =t id) ≡ false
Fresh-Mem id c _ h (Memᴰ.head e) = rw e h.0
Fresh-Mem id c _ h (Memᴰ.tail m) = Fresh-Mem id c _ h.1 m

-- With distinct ids the cause of an entry is found where there is one.
cause_found :
    (e c : TimelineEntry) (xs : List TimelineEntry)
    → AreDistinct xs
    → Memᴰ c xs
    → is_cause_of e c ≡ true
    → find? (is_cause_of e) xs ≡ some c
cause_found e c _ h (Memᴰ.head p) cause = rw (← p, cause) refl
cause_found e c (x ∷ xs) h (Memᴰ.tail m) cause =
    let other = Fresh-Mem x.event_id c xs h.0 m in
    ground (
      arith,
      cause,
      other,
      cause_found e c xs h.1 m cause,
      text_eq_iff c.event_id e.causation_id,
      text_eq_iff x.event_id e.causation_id,
      text_eq_iff c.event_id x.event_id,
    )

-- In the causal order of a timeline with distinct event ids, an entry whose `causationId` is the id
-- of another entry of the same instant stands after that entry, wherever the two were appended,
-- provided that the chain of causes of the latter within the instant ends.
pub cause-Precedes :
    (xs : List TimelineEntry) {k : ℕ} (e c : TimelineEntry)
    → AreDistinct xs
    → Memᴰ c xs
    → Memᴰ e xs
    → is_cause_of e c ≡ true
    → CausalDepth xs k c
    → Precedes c e (causal_timeline_order xs)
unfolding causal_timeline_order placed_before
cause-Precedes xs e c h m n cause chain =
    let d = λ (x : TimelineEntry). depth_in xs (length xs) x in
    let deeper = depth_fixpoint_rounds xs (caused {e = e} (cause_found e c xs h m cause) chain) in
    let sorted = sort-IsSorted (with_depths d xs) (Apart-with_depths d xs h) in
    let at = λ (x : TimelineEntry) (i : Memᴰ x xs).
      Memᴰ-perm _ _ (Permᴰ.symm (sort-keeps placed_before (with_depths d xs)))
        (Memᴰ-map (λ (y : TimelineEntry). (y, d y)) xs i) in
    rw (depth_fixpoint_lem xs) (
      Precedes-map (λ (p : Placed). p.0) (sort placed_before (with_depths d xs))
        (sorted-Precedes (c, d c) (e, d e) _ sorted
          (tied e c (d e) (d c) cause (rw (deeper, depth_fixpoint_rounds xs chain) refl)) (at c m)
          (at e n)))
  where
    tied :
        (e c : TimelineEntry) (i j : ℕ)
        → is_cause_of e c ≡ true
        → i ≡ suc j
        → placed_before (c, j) (e, i) ≡ true
    tied e c i j cause deeper = ground (
      arith,
      cause,
      deeper,
      text_eq_iff c.occurred_at e.occurred_at,
      text_ltb-asymm c.occurred_at e.occurred_at,
    )
