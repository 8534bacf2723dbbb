-- ===== src/Saga/Dispatch/Attempts.antt =====
-- The loop of attempts in `dispatch` (saga-command-dispatcher.ts).
use order_to_cash_nestjs.Base.Text.{Text}
use order_to_cash_nestjs.Saga.Dispatch.{
  run_attempts, Verdict, Attempt, DispatcherConfig, answered, turned_down, failure, resolved,
  exhausted, business_rejection,
}
use order_to_cash_nestjs.Base.{
  ℕ, List, ◌∷◌, Bool, ◌<◌, ◌≡◌, ◌+◌, true, arith, [], suc, false, ap, inl, ◌⊎◌, ◌≤◌, ◌∙◌, inr, ◌*◌,
  zero, sym, refl, ◌-◌, ltb, lt→ltb,
}
use Prim.Native.Nat.{◌^◌}
use native.Mathlib.Nat.{pow-suc}

abbrev pub is_failure : Attempt → Bool
is_failure (failure message) = true
is_failure _ = false

-- The first `n` attempts after `made` fail.
abbrev pub AllFail : (ℕ → Attempt) → ℕ → ℕ → Type 0
AllFail attempts made n = (i : ℕ) → i < n → is_failure (attempts (made + i + 1)) ≡ true

-- What the responder answers where the loop ends, after `left` rounds at most.
abbrev pub EndsWith : (ℕ → Attempt) → ℕ → ℕ → Text → Verdict → Type 0
EndsWith attempts left made last (answered n) =
    (j : ℕ) × (j < left) × AllFail attempts made j × (n ≡ made + j + 1) × (attempts n ≡ resolved)
EndsWith attempts left made last (turned_down n message) =
    (j : ℕ) × (j < left)
    × AllFail attempts made j
    × (n ≡ made + j + 1)
    × (attempts n ≡ business_rejection message)
EndsWith attempts left made last (exhausted n message) =
    AllFail attempts made left
    × (n ≡ made + left)
    × (((left ≡ 0) × (message ≡ last)) ⊎ ((0 < left) × (attempts n ≡ failure message)))

none_fail : (attempts : ℕ → Attempt) (made : ℕ) → AllFail attempts made 0
none_fail attempts made i h = elim h [ ]

one_more :
    (attempts : ℕ → Attempt) (made n : ℕ) {message : Text}
    → attempts (made + 1) ≡ failure message
    → AllFail attempts (made + 1) n
    → AllFail attempts made (suc n)
one_more attempts made n at rest zero h = ap is_failure (ap attempts (omega arith) ∙ at)
one_more attempts made n at rest (suc i) h =
    ap (λ (k : ℕ). is_failure (attempts k)) (omega arith) ∙ rest i (omega arith)

shift :
    (attempts : ℕ → Attempt) (left made : ℕ) (last message : Text) (v : Verdict)
    → attempts (made + 1) ≡ failure message
    → EndsWith attempts left (made + 1) message v
    → EndsWith attempts (suc left) made last v
shift attempts left made last message (answered n) at (j, h, all, e, r) =
    (suc j, omega arith, one_more attempts made j at all, omega arith, r)
shift attempts left made last message (turned_down n m) at (j, h, all, e, r) =
    (suc j, omega arith, one_more attempts made j at all, omega arith, r)
shift attempts left made last message (exhausted n m) at (all, e, inl (z, same)) = (
  one_more attempts made left at all,
  omega arith,
  inr (omega arith, ap attempts (omega arith) ∙ at ∙ ap failure (sym same)),
)
shift attempts left made last message (exhausted n m) at (all, e, inr (p, r)) =
    (one_more attempts made left at all, omega arith, inr (omega arith, r))

Attempt-cases :
    (a : Attempt)
    → (a ≡ resolved) ⊎ ((m : Text) × (a ≡ business_rejection m)) ⊎ ((m : Text) × (a ≡ failure m))
Attempt-cases resolved = inl refl
Attempt-cases (business_rejection m) = inr (inl (m, refl))
Attempt-cases (failure m) = inr (inr (m, refl))

-- How the loop of a dispatch ends: on an answer or a business rejection it stops at once, having
-- seen only other failures before it, and reports the number of attempts and the message of the
-- rejection; it is exhausted only when every round failed so, and then it reports the last message.
pub run_attempts-EndsWith :
    (config : DispatcherConfig) (attempts : ℕ → Attempt) (left made : ℕ) (last : Text)
    → EndsWith attempts left made last (run_attempts config attempts left made last).0
unfolding run_attempts
run_attempts-EndsWith config attempts zero made last =
    (none_fail attempts made, omega arith, inl (refl, refl))
run_attempts-EndsWith config attempts (suc left) made last =
    elim (Attempt-cases (attempts (made + 1))) [
      | inl at ↦ rw (at, run_attempts) (0, omega arith, none_fail attempts made, omega arith, at)
      | inr (inl (m, at)) ↦
          rw (at, run_attempts) (0, omega arith, none_fail attempts made, omega arith, at)
      | inr (inr (m, at)) ↦
          rw (at, run_attempts)
            (shift attempts left made last m (run_attempts config attempts left (made + 1) m).0 at
              (run_attempts-EndsWith config attempts left (made + 1) m))
    ]

abbrev pub attempts_made : Verdict → ℕ
attempts_made (answered n) = n
attempts_made (turned_down n message) = n
attempts_made (exhausted n message) = n

abbrev pub sum : List ℕ → ℕ
sum [] = 0
sum (d ∷ ds) = d + sum ds

mul_mono : (b : ℕ) {x y : ℕ} → x ≤ y → b * x ≤ b * y
mul_mono b h = grind (arith, h)

pow_mono : (m k : ℕ) → 2 ^ m ≤ 2 ^ (m + k)
pow_mono m zero =
    let e : 2 ^ (m + 0) ≡ 2 ^ m = ap (λ (n : ℕ). 2 ^ n) (omega arith) in omega (arith, e)
pow_mono m (suc k) =
    let e : 2 ^ (m + suc k) ≡ 2 ^ (m + k) * 2 =
      ap (λ (n : ℕ). 2 ^ n) (omega arith) ∙ pow-suc 2 (m + k) in
    omega (arith, pow_mono m k, e)

-- No more delays.
at_once : (b made left n : ℕ) → made + suc left ≡ n → 0 + b * 2 ^ made ≤ b * 2 ^ (n - 1)
at_once b made left n h =
    let e : n - 1 ≡ made + left = omega arith in
    rw e (omega (arith, mul_mono b (pow_mono made left)))

doubled : (b made : ℕ) → b * 2 ^ (made + 1) ≡ b * 2 ^ made + b * 2 ^ made
doubled b made =
    let e : 2 ^ (made + 1) ≡ 2 ^ made * 2 = ap (λ (n : ℕ). 2 ^ n) (omega arith) ∙ pow-suc 2 made in
    rw e (grind arith)

delays_bound :
    (config : DispatcherConfig) (attempts : ℕ → Attempt) (left made : ℕ) (last : Text)
    → made + suc left ≡ config.max_attempts
    → (attempts_made (run_attempts config attempts (suc left) made last).0 ≤ config.max_attempts)
      × (sum (run_attempts config attempts (suc left) made last).1
            + config.backoff_base_ms * 2 ^ made
          ≤ config.backoff_base_ms * 2 ^ (config.max_attempts - 1))
unfolding run_attempts
delays_bound config attempts zero made last h = elim (Attempt-cases (attempts (made + 1))) [
  | inl at ↦
      rw (at, run_attempts)
        (omega arith, at_once config.backoff_base_ms made 0 config.max_attempts h)
  | inr (inl (m, at)) ↦
      rw (at, run_attempts)
        (omega arith, at_once config.backoff_base_ms made 0 config.max_attempts h)
  | inr (inr (m, at)) ↦
      let last_round : ltb (made + 1) config.max_attempts ≡ false = ground (arith, h) in
      rw (at, run_attempts)
        (rw last_round (omega arith, at_once config.backoff_base_ms made 0 config.max_attempts h))
]
delays_bound config attempts (suc left) made last h =
    let ih = λ (m : Text). delays_bound config attempts left (made + 1) m (omega arith) in
    elim (Attempt-cases (attempts (made + 1))) [
      | inl at ↦
          rw (at, run_attempts)
            (omega arith, at_once config.backoff_base_ms made (suc left) config.max_attempts h)
      | inr (inl (m, at)) ↦
          rw (at, run_attempts)
            (omega arith, at_once config.backoff_base_ms made (suc left) config.max_attempts h)
      | inr (inr (m, at)) ↦
          let not_last : ltb (made + 1) config.max_attempts ≡ true =
            lt→ltb (made + 1) config.max_attempts (omega arith) in
          rw (at, run_attempts)
            (rw not_last ((ih m).0, omega (arith, (ih m).1, doubled config.backoff_base_ms made)))
    ]

-- A dispatch with a positive `maxAttempts` makes at most that many attempts, and its timeouts and
-- the delays between attempts come to at most `maxAttempts * timeoutMs + backoffBaseMs * (2 ^
-- (maxAttempts - 1) - 1)` milliseconds.
pub dispatch_budget :
    (config : DispatcherConfig) (attempts : ℕ → Attempt)
    → 0 < config.max_attempts
    → let (verdict, delays) = run_attempts config attempts config.max_attempts 0 [] in
      (attempts_made verdict ≤ config.max_attempts)
      × (attempts_made verdict * config.timeout_ms + sum delays + config.backoff_base_ms
          ≤ config.max_attempts * config.timeout_ms
            + config.backoff_base_ms * 2 ^ (config.max_attempts - 1))
dispatch_budget config attempts h = at_rounds config.max_attempts h refl
  where
    at_rounds :
        (n : ℕ)
        → 0 < n
        → n ≡ config.max_attempts
        → (attempts_made (run_attempts config attempts n 0 []).0 ≤ config.max_attempts)
          × (attempts_made (run_attempts config attempts n 0 []).0 * config.timeout_ms
                + sum (run_attempts config attempts n 0 []).1
                + config.backoff_base_ms
              ≤ config.max_attempts * config.timeout_ms
                + config.backoff_base_ms * 2 ^ (config.max_attempts - 1))
    at_rounds zero p e = elim p [ ]
    at_rounds (suc n) p e =
        let (made, waited) = delays_bound config attempts n 0 [] (omega arith) in
        (made, omega (arith, waited, mul_mono config.timeout_ms made))

-- The responder resolves one of the first `rounds` attempts, and fails those before it.
abbrev pub ResolvesWithin : ℕ → (ℕ → Attempt) → ℕ → Type 0
ResolvesWithin rounds attempts made =
    (j : ℕ) × (j < rounds) × AllFail attempts made j × (attempts (made + j + 1) ≡ resolved)

not_failure :
    (attempts : ℕ → Attempt) (n : ℕ) → attempts n ≡ resolved → is_failure (attempts n) ≡ true → ⊥
not_failure attempts n at h = cc (at, h, ap is_failure at)

rejects_no_failure :
    (attempts : ℕ → Attempt) (n : ℕ) {m : Text}
    → attempts n ≡ business_rejection m
    → is_failure (attempts n) ≡ true
    → ⊥
rejects_no_failure attempts n at h = cc (at, h, ap is_failure at)

pub run_attempts-answered :
    (config : DispatcherConfig) (attempts : ℕ → Attempt) (left made : ℕ) (last : Text)
    → ResolvesWithin left attempts made
    → (n : ℕ) × ((run_attempts config attempts left made last).0 ≡ answered n)
unfolding run_attempts
run_attempts-answered config attempts zero made last (j, h, all, at) = absurd (omega (arith, h))
run_attempts-answered config attempts (suc left) made last (zero, h, all, at) =
    let first : attempts (made + 1) ≡ resolved = ap attempts (omega arith) ∙ at in
    rw (first, run_attempts) (made + 1, refl)
run_attempts-answered config attempts (suc left) made last (suc j, h, all, at) =
    elim (Attempt-cases (attempts (made + 1))) [
      | inl first ↦ rw (first, run_attempts) (made + 1, refl)
      | inr (inl (m, first)) ↦ absurd (
          rejects_no_failure attempts (made + 1) first
            (ap (λ (k : ℕ). is_failure (attempts k)) (omega arith) ∙ all 0 (omega arith)))
      | inr (inr (m, first)) ↦
          rw (first, run_attempts)
            (run_attempts-answered config attempts left (made + 1) m (
              j,
              omega arith,
              λ i l.
                  ap (λ (k : ℕ). is_failure (attempts k)) (omega arith) ∙ all (suc i) (omega arith),
              ap attempts (omega arith) ∙ at,
            ))
    ]
