-- ===== src/Std/Strings.antt =====
-- The functions of Go's `strings` that the launcher calls.
pub mod Laws
use exasol_local_vm.Prelude.{
  ℕ, zero, suc, ◌+◌, Text, Bool, true, false, ◌&&◌, ◌||◌, List, [], ◌∷◌, ◌++◌, Option, none, some,
  ltb, leb, ◌==◌, if◌then◌else◌, is_nil, length,
}

-- `unicode.IsSpace`
unfoldable pub is_space : ℕ → Bool
is_space c =
    leb 9 c && leb c 13
    || c == 32
    || c == 0x85
    || c == 0xA0
    || c == 0x1680
    || leb 0x2000 c && leb c 0x200a
    || c == 0x2028
    || c == 0x2029
    || c == 0x202f
    || c == 0x205f
    || c == 0x3000

unfoldable pub trim_left : Text → Text
trim_left [] = []
trim_left (c ∷ s) = let rest = trim_left s in if is_space c then rest else c ∷ s

unfoldable pub trim_right : Text → Text
trim_right [] = []
trim_right (c ∷ s) = let rest = trim_right s in if is_space c && is_nil rest then [] else c ∷ rest

-- `strings.TrimSpace`
unfoldable pub trim_space : Text → Text
unfolding trim_left trim_right
trim_space s = trim_left (trim_right s)

abbrev pub push : ℕ → List Text → List Text
push c [] = (c ∷ []) ∷ []
push c (p ∷ ps) = (c ∷ p) ∷ ps

-- `strings.Split` at a single character
unfoldable pub split : Text → ℕ → List Text
split [] sep = [] ∷ []
split (c ∷ s) sep = let rest = split s sep in if c == sep then [] ∷ rest else push c rest

-- `strings.SplitN(s, sep, 2)` at a single character
unfoldable pub split_two : Text → ℕ → List Text
split_two [] sep = [] ∷ []
split_two (c ∷ s) sep = let rest = split_two s sep in if c == sep then [] ∷ s ∷ [] else push c rest

-- `strings.Join`
unfoldable pub join : List Text → Text → Text
join [] sep = []
join (p ∷ []) sep = p
join (p ∷ q ∷ ps) sep = p ++ (sep ++ join (q ∷ ps) sep)

-- `strings.ReplaceAll` of a single character
unfoldable pub replace_all : Text → ℕ → Text → Text
replace_all [] old new = []
replace_all (c ∷ s) old new =
    let rest = replace_all s old new in if c == old then new ++ rest else c ∷ rest

-- `strings.HasPrefix`
unfoldable pub has_prefix : Text → Text → Bool
has_prefix s [] = true
has_prefix [] (d ∷ p) = false
has_prefix (c ∷ s) (d ∷ p) = c == d && has_prefix s p

abbrev pub next_index : Option ℕ → Option ℕ
next_index none = none
next_index (some n) = some (suc n)

-- `strings.Index`: where the first occurrence begins
unfoldable pub index : Text → Text → Option ℕ
unfolding has_prefix
index [] p = if is_nil p then some 0 else none
index (c ∷ s) p = let rest = next_index (index s p) in if has_prefix (c ∷ s) p then some 0 else rest
