-- ===== src/Prelude/Lists.antt =====
-- Lists measured and cut by native numbers, and predicates on all members, by recursion.
use Prim.Native.Nat.{ℕ, zero, suc, ◌+◌, ◌≤◌}
use mathlib.Core.Path.{◌≡◌, refl, ap, sym, ◌∙◌}
use mathlib.Core.Logic.{◌≢◌}
use mathlib.Core.Bool.{Bool, true, false, ◌&&◌}
use mathlib.Core.List.{List, [], ◌∷◌, ◌++◌}
use native.Mathlib.Nat.{zero-add, suc-add}
use native.Mathlib.Omega.{arith}

module _ {ℓ} {A : Type ℓ} where
  abbrev pub length : List A → ℕ
  length [] = 0
  length (x ∷ xs) = suc (length xs)

  abbrev pub is_nil : List A → Bool
  is_nil [] = true
  is_nil (x ∷ xs) = false

  abbrev pub drop : ℕ → List A → List A
  drop zero xs = xs
  drop (suc n) [] = []
  drop (suc n) (x ∷ xs) = drop n xs

  abbrev pub take : ℕ → List A → List A
  take zero xs = []
  take (suc n) [] = []
  take (suc n) (x ∷ xs) = x ∷ take n xs

  pub drop-append : (xs ys : List A) → drop (length xs) (xs ++ ys) ≡ ys
  drop-append [] ys = refl
  drop-append (x ∷ xs) ys = drop-append xs ys

  pub take-append : (xs ys : List A) → take (length xs) (xs ++ ys) ≡ xs
  take-append [] ys = refl
  take-append (x ∷ xs) ys = ap (λ zs. x ∷ zs) (take-append xs ys)

  pub length-append : (xs ys : List A) → length (xs ++ ys) ≡ length xs + length ys
  length-append [] ys = omega arith
  length-append (x ∷ xs) ys = omega (arith, length-append xs ys)

  pub take-all : (n : ℕ) (s : List A) → length s ≤ n → take n s ≡ s
  take-all zero [] h = refl
  take-all (suc n) [] h = refl
  take-all zero (c ∷ s) h = absurd (omega arith)
  take-all (suc n) (c ∷ s) h = ap (λ x. c ∷ x) (take-all n s (omega arith))

  pub length-take_le : (n : ℕ) (s : List A) → length (take n s) ≤ n
  length-take_le zero s = omega arith
  length-take_le (suc n) [] = omega arith
  length-take_le (suc n) (c ∷ s) = let h = length-take_le n s in omega arith

  pub take-append_le : (n : ℕ) (s more : List A) → n ≤ length s → take n (s ++ more) ≡ take n s
  take-append_le zero s more h = refl
  take-append_le (suc n) [] more h = absurd (omega arith)
  take-append_le (suc n) (c ∷ s) more h = ap (λ x. c ∷ x) (take-append_le n s more (omega arith))

  take_nil : (n : ℕ) → take n [] ≡ []
  take_nil zero = refl
  take_nil (suc n) = refl

  pub take-take-drop : (a b : ℕ) (s : List A) → take a s ++ take b (drop a s) ≡ take (a + b) s
  take-take-drop zero b s = rw zero-add refl
  take-take-drop (suc a) b [] = take_nil b ∙ sym (take_nil (suc a + b))
  take-take-drop (suc a) b (c ∷ s) = rw suc-add (ap (λ x. c ∷ x) (take-take-drop a b s))

module _ {ℓ} {A : Type ℓ} (p : A → Bool) where
  abbrev pub all : List A → Bool
  all [] = true
  all (x ∷ xs) = p x && all xs

module _ {ℓ κ} {A : Type ℓ} (P : A → Type κ) where
  abbrev pub All : List A → Type κ
  All [] = Unit
  All (x ∷ xs) = P x × All xs

  pub All-append : (xs ys : List A) → All xs → All ys → All (xs ++ ys)
  All-append [] ys _ hy = hy
  All-append (x ∷ xs) ys (px, hx) hy = (px, All-append xs ys hx hy)

module _ {ℓ κ κ'} {A : Type ℓ} (P : A → Type κ) (Q : A → Type κ') where
  pub All-map : ((x : A) → P x → Q x) → (xs : List A) → All P xs → All Q xs
  All-map f [] h = tt
  All-map f (x ∷ xs) (h, hs) = (f x h, All-map f xs hs)

module _ {ℓ} {A : Type ℓ} (p : A → Bool) where
  pub all_sound : (xs : List A) → all p xs ≡ true → All (λ x. p x ≡ true) xs
  all_sound [] h = tt
  all_sound (x ∷ xs) h = (ground arith, all_sound xs (ground arith))

  pub all_complete : (xs : List A) → All (λ x. p x ≡ true) xs → all p xs ≡ true
  all_complete [] h = ground arith
  all_complete (x ∷ xs) (h, hs) = ground (arith, all_complete xs hs)

-- No member of the list is `b`.
abbrev pub Lacks : ℕ → List ℕ → Type 0
Lacks b = All (λ c. c ≢ b)
