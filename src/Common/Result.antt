-- ===== src/Common/Result.antt =====
-- The result of code that may return an error, and its `do` notation.
use mathlib.Core.Path.{◌≡◌, refl}
use mathlib.Core.Logic.{◌⊎◌, inl, inr}

pub data Result {ℓ} (E : Type 0) (A : Type ℓ) : Type ℓ where
  ok : A → Result E A
  err : E → Result E A

module _ {ℓ} {E : Type 0} {A : Type ℓ} where
  -- To split on a computed result and keep the equation.
  pub Result-cases : (r : Result E A) → ((a : A) × (r ≡ ok a)) ⊎ ((e : E) × (r ≡ err e))
  Result-cases (ok a) = inl (a, refl)
  Result-cases (err e) = inr (e, refl)

  pub ok-injective : {a b : A} → ◌≡◌ {A = Result E A} (ok a) (ok b) → a ≡ b
  ok-injective h = cc

  module _ {κ} {B : Type κ} where
    infixl 5 ◌>>=◌
    abbrev pub ◌>>=◌ : Result E A → (A → Result E B) → Result E B
    ok value >>= rest = rest value
    err e >>= rest = err e

    -- What succeeds has succeeded in its first part.
    pub >>=-eq-ok :
        (r : Result E A) (rest : A → Result E B) {b : B}
        → (r >>= rest) ≡ ok b
        → (value : A) × (r ≡ ok value) × (rest value ≡ ok b)
    >>=-eq-ok (err e) rest h = cc
    >>=-eq-ok (ok value) rest h = (value, refl, h)
