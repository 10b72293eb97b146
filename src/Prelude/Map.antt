-- ===== src/Prelude/Map.antt =====
-- Go's maps with string keys, as association lists. Lookups say what a map is: the order of the list
-- stands for the unspecified order of a map.
use exasol_local_vm.Prelude.Tests.{if◌then◌else◌, Bool-cases}
use exasol_local_vm.Prelude.Lists.{All}
use mathlib.Core.Logic.{inl, inr}
use exasol_local_vm.Prelude.Texts.{Text, text_eq, text_eq_iff, text_eq_refl}
use mathlib.Core.Path.{◌≡◌, refl}
use mathlib.Core.Option
use mathlib.Core.Option.{Option, none, some}
use mathlib.Core.List.{List, [], ◌∷◌}
use native.Mathlib.Omega.{arith}

abbrev pub Map {ℓ} : Type ℓ → Type ℓ
Map V = List (Text × V)

module _ {ℓ} {V : Type ℓ} where
  unfoldable pub lookup : Text → Map V → Option V
  unfolding text_eq
  lookup k [] = none
  lookup k ((j, v) ∷ m) = if text_eq k j then some v else lookup k m

  unfoldable pub insert : Text → V → Map V → Map V
  unfolding text_eq
  insert k v [] = (k, v) ∷ []
  insert k v ((j, w) ∷ m) = if text_eq k j then (k, v) ∷ m else (j, w) ∷ insert k v m

  unfoldable pub delete : Text → Map V → Map V
  unfolding text_eq
  delete k [] = []
  delete k ((j, v) ∷ m) = let rest = delete k m in if text_eq k j then rest else (j, v) ∷ rest

  -- The loop that fills a new map from the entries of another.
  unfoldable pub map_values {κ} : {W : Type κ} → (V → W) → Map V → Map W
  map_values f [] = []
  map_values f ((j, v) ∷ m) = (j, f v) ∷ map_values f m

  pub lookup-insert :
      (k j : Text) (v : V) (m : Map V)
      → lookup k (insert j v m) ≡ (if text_eq k j then some v else lookup k m)
  unfolding lookup insert
  lookup-insert k j v [] = refl
  lookup-insert k j v ((i, w) ∷ m) =
      ground (arith, text_eq_iff k j, text_eq_iff j i, text_eq_iff k i, lookup-insert k j v m)

  pub lookup-delete :
      (k j : Text) (m : Map V) → lookup k (delete j m) ≡ (if text_eq k j then none else lookup k m)
  unfolding lookup delete
  lookup-delete k j [] = ground arith
  lookup-delete k j ((i, w) ∷ m) =
      ground (arith, text_eq_iff k j, text_eq_iff j i, text_eq_iff k i, lookup-delete k j m)

  pub lookup-insert_self : (k : Text) (v : V) (m : Map V) → lookup k (insert k v m) ≡ some v
  lookup-insert_self k v m = rw (lookup-insert, text_eq_refl)

  pub lookup-delete_self : (k : Text) (m : Map V) → lookup k (delete k m) ≡ none
  lookup-delete_self k m = rw (lookup-delete, text_eq_refl)

module _ {ℓ κ} {V : Type ℓ} {W : Type κ} (f : V → W) where
  pub lookup-map_values :
      (k : Text) (m : Map V) → lookup k (map_values f m) ≡ Option.map f (lookup k m)
  unfolding lookup map_values
  lookup-map_values k [] = refl
  lookup-map_values k ((j, v) ∷ m) = ground (arith, lookup-map_values k m)

module _ {ℓ} {V : Type ℓ} where
  -- Adding an absent key and deleting it again gives the same map, in the same order.
  pub delete-insert :
      (k : Text) (v : V) (m : Map V) → lookup k m ≡ none → delete k (insert k v m) ≡ m
  unfolding lookup insert delete
  delete-insert k v [] h = rw text_eq_refl
  delete-insert k v ((j, w) ∷ m) h = ground (arith, delete-insert k v m)

module _ {ℓ κ} {V : Type ℓ} (P : Text × V → Type κ) where
  pub All-insert : (k : Text) (v : V) (m : Map V) → P (k, v) → All P m → All P (insert k v m)
  unfolding insert
  All-insert k v [] p h = (p, tt)
  All-insert k v ((j, w) ∷ m) p (hj, h) = elim (Bool-cases (text_eq k j)) [
    | inl same ↦ rw same (p, h)
    | inr other ↦ rw other (hj, All-insert k v m p h)
  ]

  pub All-delete : (k : Text) (m : Map V) → All P m → All P (delete k m)
  unfolding delete
  All-delete k [] h = tt
  All-delete k ((j, w) ∷ m) (hj, h) = elim (Bool-cases (text_eq k j)) [
    | inl same ↦ rw same (All-delete k m h)
    | inr other ↦ rw other (hj, All-delete k m h)
  ]

  pub All-lookup : (k : Text) {v : V} (m : Map V) → All P m → lookup k m ≡ some v → P (k, v)
  unfolding lookup
  All-lookup k {v} [] h e = cc
  All-lookup k {v} ((j, w) ∷ m) (hj, h) e = elim (Bool-cases (text_eq k j)) [
    | inl same ↦
        let kj = (text_eq_iff k j).0 same in let wv : w ≡ v = ground arith in rw (kj, ← wv) hj
    | inr other ↦ All-lookup k m h (rw other at e)
  ]

module _ {ℓ} {V : Type ℓ} where
  pub delete-absent : (k : Text) (m : Map V) → lookup k m ≡ none → delete k m ≡ m
  unfolding lookup delete
  delete-absent k [] h = refl
  delete-absent k ((j, w) ∷ m) h = ground (arith, delete-absent k m)

  pub delete-head : (k : Text) (v : V) (m : Map V) → lookup k m ≡ none → delete k ((k, v) ∷ m) ≡ m
  unfolding delete
  delete-head k v m h = rw (text_eq_refl k) (delete-absent k m h)

  pub lookup-head : (k : Text) (v : V) (m : Map V) → lookup k ((k, v) ∷ m) ≡ some v
  unfolding lookup
  lookup-head k v m = rw (text_eq_refl k)
