-- ===== src/Gateway/Replay/Resuming.antt =====
-- A buffer (replay-buffer.ts) after any pushes, and what a client that resumes is sent.
use mathlib.Core.List.{append-nil, append_assoc}
use order_to_cash_nestjs.Result.{ok, ok-injective}
use order_to_cash_nestjs.Base.{
  ℕ, List, length, ◌++◌, All, ◌≡◌, ◌≤◌, ◌∷◌, false, none, arith, [], Bool-cases, if◌then◌else◌,
  refl, ltb, inl, some, true, inr, map, length-append, suc, ◌+◌, ap, sym, ◌∙◌, Bool,
}
use order_to_cash_nestjs.Base.Text.{Text, ◌=t◌, text_eq_refl}
use order_to_cash_nestjs.Gateway.Replay.{
  shift_excess, slice_after, push_all, Frame, push, ReplayBuffer, new_buffer, replay_after,
  replayed,
}

module _ {T : Type 0} where
  shift_length : (n : ℕ) (xs : List (Frame T)) → length (shift_excess n xs) ≤ n
  unfolding shift_excess
  shift_length n [] = omega arith
  shift_length n (x ∷ xs) = ground (arith, shift_length n xs)

  shift-short : (n : ℕ) (xs : List (Frame T)) → length xs ≤ n → shift_excess n xs ≡ xs
  unfolding shift_excess
  shift-short n [] h = refl
  shift-short n (x ∷ xs) h = ground (arith, h)

  -- What a push drops has been dropped, or would be.
  shift-shift :
      (n : ℕ) (xs : List (Frame T)) (e : Frame T)
      → shift_excess n (shift_excess n xs ++ e ∷ []) ≡ shift_excess n (xs ++ e ∷ [])
  unfolding shift_excess
  shift-shift n [] e = refl
  shift-shift n (x ∷ xs) e = elim (Bool-cases (ltb n (length (x ∷ xs)))) [
    | inl long ↦
        let longer : ltb n (length (x ∷ (xs ++ e ∷ []))) ≡ true =
          ground (arith, long, length-append xs (e ∷ [])) in
        rw (long, longer) (shift-shift n xs e)
    | inr short ↦ rw short refl
  ]

  abbrev pub OtherCursor : Text → Frame T → Type 0
  OtherCursor c f = (f.cursor =t c) ≡ false

  shift-All :
      (n : ℕ) (c : Text) (xs : List (Frame T))
      → All (OtherCursor c) xs
      → All (OtherCursor c) (shift_excess n xs)
  unfolding shift_excess
  shift-All n c [] h = tt
  shift-All n c (x ∷ xs) h = elim (Bool-cases (ltb n (length (x ∷ xs)))) [
    | inl e ↦ rw e (shift-All n c xs h.1)
    | inr e ↦ rw e h
  ]

  not_there : (c : Text) (xs : List (Frame T)) → All (OtherCursor c) xs → slice_after c xs ≡ none
  unfolding slice_after
  not_there c [] h = refl
  not_there c (x ∷ xs) h = rw h.0 (not_there c xs h.1)

  -- Whether the entry is still there decides what is sent.
  shifted :
      (n : ℕ) (c : Text) (v : T) (before later : List (Frame T))
      → All (OtherCursor c) before
      → All (OtherCursor c) later
      → slice_after c (shift_excess n (before ++ record { cursor = c; value = v } ∷ later))
        ≡ (if ltb (length later) n then some (map (λ x. x.value) later) else none)
  unfolding shift_excess slice_after
  shifted n c v [] later b l = elim (Bool-cases (ltb (length later) n)) [
    | inl e ↦
        let kept : ltb n (suc (length later)) ≡ false = ground (arith, e) in
        rw (e, kept, text_eq_refl c) refl
    | inr e ↦
        let gone : ltb n (suc (length later)) ≡ true = ground (arith, e) in
        rw (e, gone) (not_there c (shift_excess n later) (shift-All n c later l))
  ]
  shifted n c v (x ∷ before) later b l =
      elim (Bool-cases
        (ltb n (length (x ∷ (before ++ record { cursor = c; value = v } ∷ later))))) [
          | inl e ↦ rw e (shifted n c v before later b.1 l)
          | inr e ↦
              let short : length before + suc (length later) ≤ n =
                ground
                  (arith, e, length-append before (record { cursor = c; value = v } ∷ later)) in
              let rest = shifted n c v before later b.1 l in
              let same = shift-short n (before ++ record { cursor = c; value = v } ∷ later) (
                omega (
                  arith,
                  short,
                  length-append before (record { cursor = c; value = v } ∷ later),
                )) in
              rw (e, b.0) (ap (slice_after c) (sym same) ∙ rest)
        ]

  abbrev of_frames : ℕ → List (Frame T) → ReplayBuffer T
  of_frames n fs = record { capacity = n; entries = fs }

  pushed :
      (fs : List (Frame T)) (n : ℕ) (earlier : List (Frame T))
      → push_all fs (of_frames n (shift_excess n earlier))
        ≡ of_frames n (shift_excess n (earlier ++ fs))
  unfolding push_all push
  pushed [] n earlier =
      ap (λ (l : List (Frame T)). of_frames n (shift_excess n l)) (sym (append-nil earlier))
  pushed (f ∷ fs) n earlier =
      ap (λ (l : List (Frame T)). push_all fs (of_frames n l)) (shift-shift n earlier f)
      ∙ pushed fs n (earlier ++ f ∷ [])
      ∙ ap (λ (l : List (Frame T)). of_frames n (shift_excess n l))
          (append_assoc earlier (f ∷ []) fs)

  abbrev pub values_of : List (Frame T) → List T
  values_of fs = map (λ (f : Frame T). f.value) fs

  made_empty :
      (capacity : ℕ) {start : ReplayBuffer T}
      → new_buffer capacity ≡ ok start
      → start ≡ of_frames capacity (shift_excess capacity [])
  unfolding new_buffer shift_excess
  made_empty capacity made = elim (Bool-cases (ltb capacity 1)) [
    | inl e ↦ let got = rw e at made in cc got
    | inr e ↦ let got = rw e at made in sym (ok-injective got)
  ]

  -- A client that resumes after a frame whose cursor no other pushed frame has is sent exactly the
  -- values pushed after it, in their order, if these are fewer than the capacity of the buffer;
  -- otherwise it is told that it cannot resume, and sent nothing (R55).
  pub replay_after_lem :
      (capacity : ℕ) {start : ReplayBuffer T} (c : Text) (v : T) (before later : List (Frame T))
      → new_buffer capacity ≡ ok start
      → All (OtherCursor c) before
      → All (OtherCursor c) later
      → replay_after (some c) (push_all (before ++ record { cursor = c; value = v } ∷ later) start)
        ≡ (if ltb (length later) capacity
            then record { resumed = true; missed = values_of later }
            else record { resumed = false; missed = [] })
  unfolding new_buffer replay_after shift_excess
  replay_after_lem capacity {start} c v before later made b l =
      let history = before ++ record { cursor = c; value = v } ∷ later in
      let at_start : start ≡ of_frames capacity (shift_excess capacity []) =
        made_empty capacity made in
      let buffer = ap (push_all history) at_start ∙ pushed history capacity [] in
      ap (λ (r : ReplayBuffer T). replayed (slice_after c r.entries)) buffer
      ∙ ap replayed (shifted capacity c v before later b l)
      ∙ by_case (ltb (length later) capacity)
    where
      by_case :
          (t : Bool)
          → replayed (if t then some (values_of later) else none) ≡ (
              if t
              then record { resumed = true; missed = values_of later }
              else record { resumed = false; missed = [] })
      by_case true = refl
      by_case false = refl
