-- ===== src/Prelude/Outcome.antt =====
-- Results of code that may throw: a value, or the exception.
use mathlib.Core.Path.{◌≡◌, refl}
use mathlib.Core.Logic.{◌⊎◌, inl, inr}
use mathlib.Core.Bool.{Bool, true, false}

pub data Result {ℓ} (E A : Type ℓ) : Type ℓ where
  ok : A → Result E A
  err : E → Result E A

-- `if (c) throw e;`
abbrev pub throw_if : {E : Type 0} → Bool → E → Result E (Unit {0})
throw_if true e = err e
throw_if false e = ok tt

infixl 5 ◌>>=◌ ◌>>◌
abbrev pub ◌>>=◌ {ℓ} : {E A B : Type ℓ} → Result E A → (A → Result E B) → Result E B
err e >>= next = err e
ok a >>= next = next a

abbrev pub ◌>>◌ : {E B : Type 0} → Result E (Unit {0}) → Result E B → Result E B
first >> next = first >>= λ _. next

pub Result-cases {ℓ} :
    {E A : Type ℓ} (r : Result E A) → ((a : A) × (r ≡ ok a)) ⊎ ((e : E) × (r ≡ err e))
Result-cases (err e) = inr (e, refl)
Result-cases (ok a) = inl (a, refl)
