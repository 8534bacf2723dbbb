-- ===== src/Projector/Timeline/Rearranged.antt =====
-- Depths of entries by recursion, and `causalTimelineOrder` of a rearranged list.
use order_to_cash_nestjs.Base.Rearranging.{
  Pairwise, Pairwise-perm, length-perm, map-perm, sort-perm, sort-keeps,
}
use mathlib.Core.Path.{subst, fun_ext}
use order_to_cash_nestjs.Base.Sorting.{
  IsStrictOrder, Apart, text_ltb-asymm, text_ltb-total, text_ltb_trans, sort,
}
use order_to_cash_nestjs.Projector.Timeline.{
  relax, relax_rounds, depth_fixpoint, TimelineEntry, Placed, depth_after, is_cause_of,
  placed_before, causal_timeline_order,
}
use order_to_cash_nestjs.Base.{
  List, ◌≡◌, map, All, ◌∷◌, ℕ, length, [], suc, arith, ◌+◌, ap, false, find?, refl, ◌∙◌, zero, none,
  some, Bool-cases, inl, inr, Option-cases, sym,
}
use order_to_cash_nestjs.Base.Text.{Text, ◌=t◌, text_eq_iff}
use mathlib.Core.List.{Permᴰ}

-- No two entries have one id.
abbrev pub IsFresh : Text → List TimelineEntry → Type 0
IsFresh id xs = All (λ x. (x.event_id =t id) ≡ false) xs

abbrev pub HaveOtherIds : TimelineEntry → TimelineEntry → Type 0
HaveOtherIds x y = (y.event_id =t x.event_id) ≡ false

abbrev pub AreDistinct : List TimelineEntry → Type 0
AreDistinct xs = Pairwise HaveOtherIds xs

HaveOtherIds-sym : (x y : TimelineEntry) → HaveOtherIds x y → HaveOtherIds y x
HaveOtherIds-sym x y h =
    ground (arith, h, text_eq_iff y.event_id x.event_id, text_eq_iff x.event_id y.event_id)

pub AreDistinct-perm : (xs ys : List TimelineEntry) → Permᴰ xs ys → AreDistinct xs → AreDistinct ys
AreDistinct-perm xs ys r h = Pairwise-perm HaveOtherIds HaveOtherIds-sym xs ys r h

-- The depth of an entry after some rounds, by recursion on the rounds.
unfoldable pub depth_in : List TimelineEntry → ℕ → TimelineEntry → ℕ
depth_in xs zero e = 0
depth_in xs (suc n) e = elim (find? (is_cause_of e) xs) [ none ↦ 0 | some c ↦ depth_in xs n c + 1 ]

abbrev pub placed_in : List TimelineEntry → ℕ → TimelineEntry → Placed
placed_in xs n e = (e, depth_in xs n e)

find?-map :
    (d : TimelineEntry → ℕ) (e : TimelineEntry) (xs : List TimelineEntry)
    → depth_after (find? (λ c. is_cause_of e c.0) (map (λ x. (x, d x)) xs))
      ≡ (elim (find? (is_cause_of e) xs) [ none ↦ 0 | some c ↦ d c + 1 ])
find?-map d e [] = refl
find?-map d e (x ∷ xs) = elim (Bool-cases (is_cause_of e x)) [
  | inl h ↦ rw h refl
  | inr h ↦ rw h (find?-map d e xs)
]

map-ext : {A B : Type 0} (f g : A → B) (xs : List A) → ((x : A) → f x ≡ g x) → map f xs ≡ map g xs
map-ext f g [] h = refl
map-ext f g (x ∷ xs) h = ground (arith, h x, map-ext f g xs h)

map-compose :
    {A B C : Type 0} (f : B → C) (g : A → B) (xs : List A)
    → map f (map g xs) ≡ map (λ x. f (g x)) xs
map-compose f g [] = refl
map-compose f g (x ∷ xs) = ground (arith, map-compose f g xs)

relax_lem :
    (xs : List TimelineEntry) (n : ℕ)
    → relax (map (placed_in xs n) xs) ≡ map (placed_in xs (suc n)) xs
unfolding relax depth_in
relax_lem xs n =
    map-compose
      (λ e. (e.0, depth_after (find? (λ c. is_cause_of e.0 c.0) (map (placed_in xs n) xs))))
      (placed_in xs n) xs
    ∙ map-ext _ _ xs (λ e. ap (λ (d : ℕ). (e, d)) (find?-map (depth_in xs n) e xs))

relax_rounds_lem :
    (xs : List TimelineEntry) (n k : ℕ)
    → relax_rounds k (map (placed_in xs n) xs) ≡ map (placed_in xs (k + n)) xs
unfolding relax_rounds
relax_rounds_lem xs n zero = ap (λ (m : ℕ). map (placed_in xs m) xs) (omega arith)
relax_rounds_lem xs n (suc k) =
    ap (relax_rounds k) (relax_lem xs n)
    ∙ relax_rounds_lem xs (suc n) k
    ∙ ap (λ (m : ℕ). map (placed_in xs m) xs) (omega arith)

pub depth_fixpoint_lem :
    (xs : List TimelineEntry) → depth_fixpoint xs ≡ map (placed_in xs (length xs)) xs
unfolding depth_fixpoint depth_in
depth_fixpoint_lem xs =
    ap (relax_rounds (length xs)) (map-ext _ _ xs (λ e. refl))
    ∙ relax_rounds_lem xs 0 (length xs)
    ∙ ap (λ (m : ℕ). map (placed_in xs m) xs) (omega arith)

cause-perm :
    (e : TimelineEntry) (xs ys : List TimelineEntry)
    → Permᴰ xs ys
    → AreDistinct xs
    → find? (is_cause_of e) xs ≡ find? (is_cause_of e) ys
cause-perm e _ _ Permᴰ.nil h = refl
cause-perm e (x ∷ xs) (y ∷ ys) (Permᴰ.cons p r) h = ground (arith, p, cause-perm e xs ys r h.1)
cause-perm e (a ∷ b ∷ l) (a' ∷ b' ∷ _) (Permᴰ.swap p q) h =
    rw (← p, ← q)
      (ground (
        arith,
        h.0.0,
        text_eq_iff a.event_id e.causation_id,
        text_eq_iff b.event_id e.causation_id,
        text_eq_iff b.event_id a.event_id,
      ))
cause-perm e _ _ (Permᴰ.trans {l₂ = m} r s) h =
    cause-perm e _ m r h ∙ cause-perm e m _ s (AreDistinct-perm _ m r h)

depth_in-perm :
    (xs ys : List TimelineEntry)
    → Permᴰ xs ys
    → AreDistinct xs
    → (n : ℕ) (e : TimelineEntry) → depth_in xs n e ≡ depth_in ys n e
unfolding depth_in
depth_in-perm xs ys r h zero e = refl
depth_in-perm xs ys r h (suc n) e =
    rw (cause-perm e xs ys r h, depth_in)
      (elim (Option-cases (find? (is_cause_of e) ys)) [
        | inl none_found ↦ rw (none_found, depth_in) refl
        | inr (c, found) ↦
            rw (found, depth_in) (ap (λ (d : ℕ). d + 1) (depth_in-perm xs ys r h n c))
      ])

pub placed_before-IsStrictOrder : IsStrictOrder placed_before
unfolding placed_before
placed_before-IsStrictOrder = record {
  asymm = λ a b h. ground (
    arith,
    h,
    text_ltb-asymm a.0.occurred_at b.0.occurred_at,
    text_ltb-asymm a.0.event_id b.0.event_id,
    text_eq_iff a.0.occurred_at b.0.occurred_at,
    text_eq_iff b.0.occurred_at a.0.occurred_at,
    text_ltb-asymm b.0.occurred_at a.0.occurred_at,
  );
  trans = λ a b c h k. ground (
    arith,
    h,
    k,
    text_ltb_trans a.0.occurred_at b.0.occurred_at c.0.occurred_at,
    text_ltb_trans a.0.event_id b.0.event_id c.0.event_id,
    text_eq_iff a.0.occurred_at b.0.occurred_at,
    text_eq_iff b.0.occurred_at c.0.occurred_at,
    text_eq_iff a.0.occurred_at c.0.occurred_at,
  );
}

pub distinct-Apart :
    (a b : Placed) → (b.0.event_id =t a.0.event_id) ≡ false → Apart placed_before a b
unfolding placed_before
distinct-Apart a b h = elim (Bool-cases (placed_before a b)) [
  | inl yes' ↦ inl yes'
  | inr no' ↦ inr (
      ground (
        arith,
        no',
        h,
        text_ltb-total a.0.occurred_at b.0.occurred_at,
        text_ltb-total a.0.event_id b.0.event_id,
        text_eq_iff a.0.occurred_at b.0.occurred_at,
        text_eq_iff b.0.occurred_at a.0.occurred_at,
        text_eq_iff b.0.event_id a.0.event_id,
      ))
]

abbrev pub with_depths : (TimelineEntry → ℕ) → List TimelineEntry → List Placed
with_depths d xs = map (λ e. (e, d e)) xs

Apart-from :
    (d : TimelineEntry → ℕ) (x : TimelineEntry) (xs : List TimelineEntry)
    → IsFresh x.event_id xs
    → All (Apart placed_before (x, d x)) (with_depths d xs)
Apart-from d x [] h = tt
Apart-from d x (y ∷ ys) h = (distinct-Apart (x, d x) (y, d y) h.0, Apart-from d x ys h.1)

pub Apart-with_depths :
    (d : TimelineEntry → ℕ) (xs : List TimelineEntry)
    → AreDistinct xs
    → Pairwise (Apart placed_before) (with_depths d xs)
Apart-with_depths d [] h = tt
Apart-with_depths d (x ∷ xs) h = (Apart-from d x xs h.0, Apart-with_depths d xs h.1)

-- A timeline is the same whatever the order in which its entries were appended.
pub causal_timeline_order-perm :
    (xs ys : List TimelineEntry)
    → Permᴰ xs ys
    → AreDistinct xs
    → causal_timeline_order xs ≡ causal_timeline_order ys
unfolding causal_timeline_order
causal_timeline_order-perm xs ys r h =
    let one_map : placed_in xs (length xs) ≡ placed_in ys (length ys) = fun_ext (λ e.
      ap (λ (d : ℕ). (e, d))
        (depth_in-perm xs ys r h (length xs) e
          ∙ ap (λ (n : ℕ). depth_in ys n e) (length-perm xs ys r))) in
    let d = λ (e : TimelineEntry). depth_in ys (length ys) e in
    ap (map (λ (e : Placed). e.0)) (
      ap (sort placed_before)
        (depth_fixpoint_lem xs ∙ ap (λ (f : TimelineEntry → Placed). map f xs) one_map)
      ∙ sort-perm placed_before placed_before-IsStrictOrder (with_depths d xs) (with_depths d ys)
          (map-perm (λ (e : TimelineEntry). (e, d e)) xs ys r) (Apart-with_depths d xs h)
      ∙ ap (sort placed_before) (sym (depth_fixpoint_lem ys)))

map_id :
    (f : TimelineEntry → TimelineEntry) (xs : List TimelineEntry)
    → ((e : TimelineEntry) → f e ≡ e)
    → map f xs ≡ xs
map_id f [] h = refl
map_id f (x ∷ xs) h = ground (arith, h x, map_id f xs h)

-- The order loses and invents no entry.
pub causal_timeline_order-keeps : (xs : List TimelineEntry) → Permᴰ (causal_timeline_order xs) xs
unfolding causal_timeline_order
causal_timeline_order-keeps xs =
    let firsts =
      map-compose (λ (e : Placed). e.0) (placed_in xs (length xs)) xs ∙ map_id _ xs (λ e. refl) in
    let back = ap (map (λ (e : Placed). e.0)) (depth_fixpoint_lem xs) ∙ firsts in
    subst (Permᴰ (map (λ (e : Placed). e.0) (sort placed_before (depth_fixpoint xs)))) back
      (map-perm (λ (e : Placed). e.0) _ _ (sort-keeps placed_before (depth_fixpoint xs)))
