-- ===== src/Std/Path.antt =====
-- `filepath.Clean`, `Join`, `Abs` and `Dir` of Go's `path/filepath`, on Unix.
use exasol_local_vm.Prelude.{
  Text, codes, text_eq, Bool, true, false, ◌||◌, List, [], ◌∷◌, ◌++◌, ◌==◌, ◌≡◌, arith,
  if◌then◌else◌, is_nil,
}
use exasol_local_vm.Std.Strings.{split, join}

abbrev pub is_abs : Text → Bool
is_abs [] = false
is_abs (c ∷ s) = c == b'/'

-- A `..`: it takes the last element away, and stays where there is none, unless the path is rooted.
unfoldable pub go_up : Bool → List Text → List Text
go_up rooted [] = if rooted then [] else codes ".." ∷ []
go_up rooted (last ∷ rest) = if text_eq last (codes "..") then codes ".." ∷ last ∷ rest else rest

-- The elements that are left, the last one first.
unfoldable pub elements : Bool → List Text → List Text → List Text
elements rooted seen [] = seen
elements rooted seen (e ∷ rest) =
    elements rooted
      (if is_nil e || text_eq e (codes ".")
        then seen
        else if text_eq e (codes "..")
        then go_up rooted seen
        else e ∷ seen)
      rest

abbrev pub reversed : List Text → List Text → List Text
reversed out [] = out
reversed out (e ∷ rest) = reversed (e ∷ out) rest

unfoldable pub rooted_text : Bool → Text → Text
rooted_text true s = b'/' ∷ s
rooted_text false s = if is_nil s then codes "." else s

-- `filepath.Clean`
unfoldable pub clean : Text → Text
unfolding elements go_up rooted_text
clean s =
    rooted_text (is_abs s) (join (reversed [] (elements (is_abs s) [] (split s b'/'))) (b'/' ∷ []))

pub clean-not_nil : (s : Text) → is_nil (clean s) ≡ false
unfolding clean rooted_text
clean-not_nil s = ground arith

-- `filepath.Join` of two elements, of which the second may be empty
unfoldable pub join_path : Text → Text → Text
join_path dir name =
    if is_nil dir
    then (if is_nil name then [] else clean name)
    else if is_nil name
    then clean dir
    else clean (dir ++ b'/' ∷ name)

-- `filepath.Abs`, given the working directory
unfoldable pub abs : Text → Text → Text
abs work_dir s = if is_abs s then clean s else join_path work_dir s

-- The part of a path up to its last `/`.
unfoldable pub up_to_slash : Text → Text
up_to_slash [] = []
up_to_slash (c ∷ s) =
    let rest = up_to_slash s in if is_nil rest then (if c == b'/' then c ∷ [] else []) else c ∷ rest

-- `filepath.Dir`
unfoldable pub dir : Text → Text
unfolding up_to_slash
dir s = clean (up_to_slash s)
