-- ===== src/Result.antt =====
-- A call that may throw a domain error: its value, or the error.
use order_to_cash_nestjs.Base.{Bool, true, false, ◌≡◌, refl}
use order_to_cash_nestjs.Errors.{DomainError}

-- `err` is a throw.
pub data Result {ℓ} (A : Type ℓ) : Type ℓ where
  err : DomainError → Result A
  ok : A → Result A

abbrev pub is_ok {ℓ} : {A : Type ℓ} → Result A → Bool
is_ok (err thrown) = false
is_ok (ok value) = true

module _ {ℓ κ} {A : Type ℓ} {B : Type κ} where
  infixl 5 ◌>>=◌ ◌>>◌
  -- The statements after a call: they run if it returned.
  abbrev pub ◌>>=◌ : Result A → (A → Result B) → Result B
  err thrown >>= next = err thrown
  ok value >>= next = next value

  abbrev pub ◌>>◌ : Result A → Result B → Result B
  call >> next = call >>= λ nothing. next

  -- A chain that returned: each call in it did.
  pub bind-ok :
      (call : Result A) (next : A → Result B) {result : B}
      → (call >>= next) ≡ ok result
      → (value : A) × (call ≡ ok value) × (next value ≡ ok result)
  bind-ok (err thrown) next returned = cc
  bind-ok (ok value) next returned = (value, refl, returned)

-- `if (bad) throw e`
abbrev pub throw_if : Bool → DomainError → Result (Unit {0})
throw_if false thrown = ok tt
throw_if true thrown = err thrown

pub ok-injective {ℓ} : {A : Type ℓ} {a b : A} → ok a ≡ ok b → a ≡ b
ok-injective h = cc
