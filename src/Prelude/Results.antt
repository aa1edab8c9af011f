-- ===== src/Prelude/Results.antt =====
-- A call that returns a value or an error.
use mathlib.Core.Path.{◌≡◌, refl}
use mathlib.Core.Logic.{◌⊎◌, inl, inr}
use mathlib.Core.Bool.{Bool, true, false}

pub data Result (E A : Type 0) : Type 0 where
  ok : A → Result E A
  err : E → Result E A

abbrev pub is_ok : {E A : Type 0} → Result E A → Bool
is_ok (ok a) = true
is_ok (err e) = false

infixl 5 ◌>>=◌
abbrev pub ◌>>=◌ : {E A B : Type 0} → Result E A → (A → Result E B) → Result E B
ok a >>= f = f a
err e >>= f = err e

pub Result-cases :
    {E A : Type 0} (r : Result E A) → ((a : A) × (r ≡ ok a)) ⊎ ((e : E) × (r ≡ err e))
Result-cases (ok a) = inl (a, refl)
Result-cases (err e) = inr (e, refl)

-- What holds of every error, and of what follows each value, holds of the chain.
pub chain_cases {κ} :
    {E A B : Type 0} (P : Result E B → Type κ) (r : Result E A) {f : A → Result E B}
    → ((a : A) → r ≡ ok a → P (f a))
    → ((e : E) → P (err e))
    → P (r >>= f)
chain_cases P (ok a) next stop = next a refl
chain_cases P (err e) next stop = stop e
