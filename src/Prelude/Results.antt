-- ===== src/Prelude/Results.antt =====
-- Results of fallible code, Go's pair of a value and an error, with `do` blocks.
use mathlib.Core.Path.{◌≡◌, refl}
use mathlib.Core.Logic.{◌⊎◌, inl, inr}
use mathlib.Core.Bool.{Bool, true, false}

pub data Result {ℓ κ} (E : Type κ) (A : Type ℓ) : Type (ℓ ⊔ κ) where
  ok : A → Result E A
  err : E → Result E A

infixl 5 ◌>>=◌ ◌>>◌
abbrev pub ◌>>=◌ {ℓ κ μ} :
    {E : Type μ} {A : Type ℓ} {B : Type κ} → Result E A → (A → Result E B) → Result E B
ok a >>= f = f a
err e >>= f = err e

abbrev pub ◌>>◌ {ℓ μ} : {E : Type μ} {B : Type ℓ} → Result E (Unit {0}) → Result E B → Result E B
m >> k = m >>= λ _. k

abbrev pub guard {μ} : {E : Type μ} → Bool → E → Result E (Unit {0})
guard true e = ok tt
guard false e = err e

-- The two halves of a chain that succeeded: what the second made of it, and what the first gave.
pub chain_parts {ℓ κ μ} :
    {E : Type μ} {A : Type ℓ} {B : Type κ} (first : Result E A) (second : A → Result E B) {z : B}
    → (first >>= second) ≡ ok z
    → (y : A) × (second y ≡ ok z) × (first ≡ ok y)
chain_parts (err e) second both = cc
chain_parts (ok y) second both = (y, both, refl)

abbrev pub is_ok {ℓ μ} : {E : Type μ} {A : Type ℓ} → Result E A → Bool
is_ok (ok a) = true
is_ok (err e) = false

pub Result-cases {ℓ μ} :
    {E : Type μ} {A : Type ℓ} (r : Result E A) → ((a : A) × (r ≡ ok a)) ⊎ ((e : E) × (r ≡ err e))
Result-cases (ok a) = inl (a, refl)
Result-cases (err e) = inr (e, refl)
