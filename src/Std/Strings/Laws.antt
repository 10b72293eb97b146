-- ===== src/Std/Strings/Laws.antt =====
-- Laws of trimming, splitting and joining.
use exasol_local_vm.Prelude.{
  ℕ, Text, false, ◌≡◌, ◌≢◌, refl, List, [], ◌∷◌, ◌++◌, arith, is_nil, All, All-append, Lacks,
}
use exasol_local_vm.Std.Strings.{
  is_space, trim_left, trim_right, trim_space, split, split_two, join,
}

abbrev pub IsPrintable : ℕ → Type 0
IsPrintable c = is_space c ≡ false

trim_right_id : (s : Text) → All IsPrintable s → trim_right s ≡ s
unfolding trim_right
trim_right_id [] h = refl
trim_right_id (c ∷ s) (hc, hs) = ground (arith, trim_right_id s hs)

trim_left_id : (s : Text) → All IsPrintable s → trim_left s ≡ s
unfolding trim_left
trim_left_id [] h = refl
trim_left_id (c ∷ s) (hc, hs) = rw hc

pub trim_space_id : (s : Text) → All IsPrintable s → trim_space s ≡ s
unfolding trim_space
trim_space_id s h = rw (trim_right_id s h) (trim_left_id s h)

pub split_none : (s : Text) (sep : ℕ) → Lacks sep s → split s sep ≡ s ∷ []
unfolding split
split_none [] sep h = refl
split_none (c ∷ s) sep (hc, hs) = ground (arith, split_none s sep hs)

pub split-append :
    (s rest : Text) (sep : ℕ) → Lacks sep s → split (s ++ sep ∷ rest) sep ≡ s ∷ split rest sep
unfolding split
split-append [] rest sep h = ground arith
split-append (c ∷ s) rest sep (hc, hs) = ground (arith, split-append s rest sep hs)

-- Splitting a join gives the parts back.
pub split-join :
    (ps : List Text) (sep : ℕ) → ps ≢ [] → All (Lacks sep) ps → split (join ps (sep ∷ [])) sep ≡ ps
unfolding join
split-join [] sep h _ = absurd (h refl)
split-join (p ∷ []) sep h (hp, _) = split_none p sep hp
split-join (p ∷ q ∷ ps) sep h (hp, hs) =
    rw (split-append p (join (q ∷ ps) (sep ∷ [])) sep hp, split-join (q ∷ ps) sep (cc) hs)

-- What begins with a printable character is not blank.
pub trim_space-cons : (c : ℕ) (s : Text) → IsPrintable c → is_nil (trim_space (c ∷ s)) ≡ false
unfolding trim_space trim_right trim_left
trim_space-cons c s h = ground arith

join-Lacks :
    (b : ℕ) (ps : List Text) (sep : Text) → Lacks b sep → All (Lacks b) ps → Lacks b (join ps sep)
unfolding join
join-Lacks b [] sep hs h = tt
join-Lacks b (p ∷ []) sep hs (hp, _) = hp
join-Lacks b (p ∷ q ∷ ps) sep hs (hp, h) =
    All-append _ p _ hp (All-append _ sep _ hs (join-Lacks b (q ∷ ps) sep hs h))

pub split_two-append :
    (s rest : Text) (sep : ℕ) → Lacks sep s → split_two (s ++ sep ∷ rest) sep ≡ s ∷ rest ∷ []
unfolding split_two
split_two-append [] rest sep h = ground arith
split_two-append (c ∷ s) rest sep (h, hs) = ground (arith, split_two-append s rest sep hs)

pub is_nil-append : (s : Text) (c : ℕ) (rest : Text) → is_nil (s ++ c ∷ rest) ≡ false
is_nil-append [] c rest = refl
is_nil-append (d ∷ s) c rest = refl
