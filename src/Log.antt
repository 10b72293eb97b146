-- ===== src/Log.antt =====
-- launcher/mac/main.go, `readLastLines`: the end of the console log.
use exasol_local_vm.Prelude.{
  ℕ, zero, suc, ◌-◌, ◌≤◌, Text, List, [], ◌∷◌, ◌++◌, Option, none, some, leb, if◌then◌else◌, length,
  drop, ◌≡◌, refl, ap, arith, ◌⊎◌, inl, inr, true, false, if_cases,
}
use exasol_local_vm.Std.Strings.{trim_space, split}

abbrev last_of : ℕ → List Text → List Text
last_of n lines = if leb (length lines) n then lines else drop (length lines - n) lines

-- The content of the file, if it can be read, and the number of lines wanted, which is not negative.
unfoldable pub read_last_lines : Option Text → ℕ → Option (List Text)
read_last_lines none n = none
read_last_lines (some content) n = some (last_of n (split (trim_space content) b'\n'))

pub record IsEnd (n : ℕ) (lines last : List Text) : Type 0 where
  pub earlier : List Text
  pub whole : (earlier ++ last) ≡ lines
  pub short : length last ≤ n
  pub full : (length last ≡ n) ⊎ (last ≡ lines)

dropped : (k : ℕ) (xs : List Text) → List Text
dropped zero xs = []
dropped (suc k) [] = []
dropped (suc k) (x ∷ xs) = x ∷ dropped k xs

dropped-drop : (k : ℕ) (xs : List Text) → (dropped k xs ++ drop k xs) ≡ xs
unfolding dropped
dropped-drop zero xs = refl
dropped-drop (suc k) [] = refl
dropped-drop (suc k) (x ∷ xs) = ap (λ ys. x ∷ ys) (dropped-drop k xs)

length-drop : (k : ℕ) (xs : List Text) → length (drop k xs) ≡ length xs - k
length-drop zero xs = omega arith
length-drop (suc k) [] = omega arith
length-drop (suc k) (x ∷ xs) = ground (arith, length-drop k xs)

all-IsEnd : (n : ℕ) (lines : List Text) → leb (length lines) n ≡ true → IsEnd n lines lines
all-IsEnd n lines h = record { earlier = []; whole = refl; short = ground arith; full = inr refl }

drop-IsEnd :
    (n : ℕ) (lines : List Text)
    → leb (length lines) n ≡ false
    → IsEnd n lines (drop (length lines - n) lines)
drop-IsEnd n lines h = record {
  earlier = dropped (length lines - n) lines;
  whole = dropped-drop (length lines - n) lines;
  short = ground (arith, length-drop (length lines - n) lines);
  full = inl (ground (arith, length-drop (length lines - n) lines));
}

last_of-IsEnd : (n : ℕ) (lines : List Text) → IsEnd n lines (last_of n lines)
last_of-IsEnd n lines =
    if_cases (IsEnd n lines) (leb (length lines) n) (all-IsEnd n lines) (drop-IsEnd n lines)

-- Of a log that can be read, the lines are the end of its trimmed text's lines: all of them, or
-- exactly as many as asked for, and never more.
pub read_last_lines-IsEnd :
    (content : Text) (n : ℕ)
    → (last : List Text) × (read_last_lines (some content) n ≡ some last)
      × IsEnd n (split (trim_space content) b'\n') last
unfolding read_last_lines
read_last_lines-IsEnd content n =
    (last_of n (split (trim_space content) b'\n'), refl, last_of-IsEnd n _)
