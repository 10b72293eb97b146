-- ===== src/Prelude/Effects.antt =====
-- Code that changes a state and may fail, Go's functions that return an error, with `do` blocks.
use mathlib.Core.Path.{◌≡◌, refl}
use mathlib.Core.Bool.{Bool, true, false}
use mathlib.Core.Option.{Option, none, some}
use exasol_local_vm.Prelude.Results.{Result, ok, err}

abbrev pub Run {ℓ κ μ} : Type ℓ → Type κ → Type μ → Type (ℓ ⊔ κ ⊔ μ)
Run S E A = S → Result E A × S

module _ {ℓ κ μ} {S : Type ℓ} {E : Type κ} where
  abbrev pub continue {ν} :
      {A : Type μ} {B : Type ν} → (A → Run S E B) → Result E A × S → Result E B × S
  continue f (ok a, s) = f a s
  continue f (err e, s) = (err e, s)

infixl 5 ◌>>=◌ ◌>>◌
abbrev pub ◌>>=◌ {ℓ κ μ ν} :
    {S : Type ℓ} {E : Type κ} {A : Type μ} {B : Type ν} → Run S E A → (A → Run S E B) → Run S E B
◌>>=◌ m f s = continue f (m s)

abbrev pub ◌>>◌ {ℓ κ ν} :
    {S : Type ℓ} {E : Type κ} {B : Type ν} → Run S E (Unit {0}) → Run S E B → Run S E B
m >> k = m >>= λ _. k

module _ {ℓ κ} {S : Type ℓ} {E : Type κ} where
  abbrev pub return {μ} : {A : Type μ} → A → Run S E A
  return a s = (ok a, s)

  -- An error, unless the test holds.
  abbrev pub ensure : Bool → E → Run S E (Unit {0})
  ensure true e s = (ok tt, s)
  ensure false e s = (err e, s)

  abbrev pub modify : (S → S) → Run S E (Unit {0})
  modify f s = (ok tt, f s)

  abbrev pub gets {μ} : {A : Type μ} → (S → A) → Run S E A
  gets f s = (ok (f s), s)

  abbrev pub some_or {μ} : {A : Type μ} → Option A → E → Run S E A
  some_or none e s = (err e, s)
  some_or (some a) e s = (ok a, s)

-- To prove something of a chain, prove it of the ways that its first part can go.
module _ {ℓ κ μ ν} {S : Type ℓ} {E : Type κ} {A : Type μ} (P : Result E A × S → Type ν)
    (s : S) where
  pub ensure_cases :
      (b : Bool) (e : E) (k : Run S E A)
      → (b ≡ true → P (k s))
      → (b ≡ false → P (err e, s))
      → P ((ensure b e >> k) s)
  ensure_cases true e k good bad = good refl
  ensure_cases false e k good bad = bad refl

  pub some_or_cases {ρ} :
      {B : Type ρ} (o : Option B) (e : E) (k : B → Run S E A)
      → ((a : B) → o ≡ some a → P (k a s))
      → (o ≡ none → P (err e, s))
      → P ((some_or o e >>= k) s)
  some_or_cases none e k good bad = bad refl
  some_or_cases (some a) e k good bad = good a refl

  pub run_cases {ρ} :
      {B : Type ρ} (m : Run S E B) (k : B → Run S E A)
      → ((a : B) (t : S) → m s ≡ (ok a, t) → P (k a t))
      → ((e : E) (t : S) → m s ≡ (err e, t) → P (err e, t))
      → P ((m >>= k) s)
  run_cases {B} m k good bad = go (m s) refl
    where
      go : (o : Result E B × S) → m s ≡ o → P (continue k o)
      go (ok a, t) e = good a t e
      go (err x, t) e = bad x t e
