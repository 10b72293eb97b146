-- ===== src/Wait/InitOutput/Reads.antt =====
-- What the guest prints is what the daemon reads.
use native.Mathlib.Nat.{zero-add, suc-add}
use exasol_local_vm.Prelude.{
  ℕ, zero, suc, ◌+◌, ◌-◌, ◌*◌, ◌≤◌, ◌<◌, Text, true, false, [], ◌∷◌, ◌++◌, Option, none, some, ◌≡◌,
  refl, ◌∙◌, ap, inl, inr, arith, ltb, leb, ◌==◌, length, drop, drop-append, take-append, Lacks,
  Bool-cases,
}
use exasol_local_vm.Std.Strings.{trim_space, index, has_prefix}
use exasol_local_vm.Wait.{Sleep, second}
use exasol_local_vm.Wait.InitOutput.{
  InitOutput, start_marker, end_marker, absent, between, slice, find_end, find_start, find_output,
  check_output, read_console, Console, half_second, init_loop, wait_for_init_output, Initialised,
}

-- A console log with one whole output, that lacks `=`, on lines of its own.
abbrev pub output_log : Text → Text → Text → Text
output_log before body after = before ++ (start_marker ++ (b'\n' ∷ (body ++ (end_marker ++ after))))

has_prefix-append : (p s : Text) → has_prefix (p ++ s) p ≡ true
unfolding has_prefix
has_prefix-append [] s = refl
has_prefix-append (c ∷ p) s = ground (arith, has_prefix-append p s)

index_end :
    (body after : Text)
    → Lacks b'=' body
    → index (body ++ (end_marker ++ after)) end_marker ≡ some (length body)
unfolding index has_prefix
index_end [] after h = refl
index_end (c ∷ body) after (hc, hs) =
    let ne : (c == b'=') ≡ false = ground arith in rw (ne, index_end body after hs) refl

index_markers :
    (body after : Text)
    → Lacks b'=' body
    → index (start_marker ++ (b'\n' ∷ (body ++ (end_marker ++ after)))) end_marker
      ≡ some (suc (length start_marker + length body))
unfolding index has_prefix
index_markers body after h = rw (index_end body after h) (ap some (omega arith))

drop-add : (xs ys : Text) (n : ℕ) → drop (length xs + n) (xs ++ ys) ≡ drop n ys
drop-add [] ys n = rw zero-add refl
drop-add (x ∷ xs) ys n = rw suc-add (drop-add xs ys n)

slice_lem :
    (before body after : Text)
    → slice
        (output_log before body after)
        (length before + length start_marker)
        (length before + suc (length start_marker + length body))
      ≡ between (b'\n' ∷ body)
unfolding slice
slice_lem before body after =
    let le : leb (length before + length start_marker)
          (length before + suc (length start_marker + length body))
        ≡ true =
      ground arith in
    let e : length before
          + suc (length start_marker + length body)
          - (length before + length start_marker)
        ≡ suc (length body) =
      omega arith in
    rw (le, e, drop-add before _ (length start_marker))
      (ap between (take-append (b'\n' ∷ body) (end_marker ++ after)))

-- The first start marker of the log is the one behind `before`.
abbrev pub IsFirst : Text → Text → Text → Type 0
IsFirst before body after = index (output_log before body after) start_marker ≡ some (length before)

find_output_lem :
    (before body after : Text)
    → Lacks b'=' body
    → IsFirst before body after
    → find_output (output_log before body after) ≡ between (b'\n' ∷ body)
unfolding find_output find_start find_end
find_output_lem before body after h first =
    rw (first, drop-append before _, index_markers body after h) (slice_lem before body after)

-- The log has no whole output yet.
abbrev pub Quiet : Option Text → Type 0
Quiet none = Unit
Quiet (some content) = find_output content ≡ absent

-- From some time on the console log holds the output of the init scripts, and it did not before.
pub record Prints (console : Console) (since : ℕ) (body : Text) : Type 0 where
  pub quiet : (t : ℕ) → t < since → Quiet (console t)
  pub before : ℕ → Text
  pub after : ℕ → Text
  pub lacks : Lacks b'=' body
  pub first : (t : ℕ) → IsFirst (before t) body (after t)
  pub shown : (t : ℕ) → since ≤ t → console t ≡ some (output_log (before t) body (after t))

module _ (decode : Text → Option InitOutput) (console : Console) (sleep : Sleep)
    (since round deadline : ℕ) (body : Text) (prints : Prints console since body)
    (slept : (t d : ℕ) → t + d ≤ sleep t d) (slept_by : (t : ℕ) → sleep t half_second ≤ t + round)
    (fits : since + round ≤ deadline) where
  read_console-Quiet :
      (c : Option Text) (later : Initialised) → Quiet c → read_console decode c later ≡ later
  unfolding read_console
  read_console-Quiet none later q = refl
  read_console-Quiet (some content) later q = rw q refl

  read_console_output :
      (before after : Text) (later : Initialised)
      → IsFirst before body after
      → read_console decode (some (output_log before body after)) later
        ≡ some (check_output (decode (trim_space (b'\n' ∷ body))))
  unfolding read_console
  read_console_output before after later first =
      rw (find_output_lem before body after prints.lacks first) refl

  init_loop-reads :
      (rounds now : ℕ)
      → now < since + round
      → deadline ≤ now + rounds * half_second
      → init_loop decode console sleep deadline (suc rounds) now
        ≡ some (check_output (decode (trim_space (b'\n' ∷ body))))
  unfolding init_loop
  init_loop-reads zero now start enough = absurd (omega arith)
  init_loop-reads (suc r) now start enough =
      let before : ltb now deadline ≡ true = ground arith in
      let a = slept now half_second in
      let b = slept_by now in
      elim (Bool-cases (ltb now since)) [
        | inl early ↦
            let l : now < since = ground arith in
            rw before (
              read_console-Quiet (console now) _ (prints.quiet now l)
              ∙ init_loop-reads r (sleep now half_second) (omega arith) (omega arith))
        | inr late ↦
            let l : since ≤ now = ground arith in
            rw (before, prints.shown now l)
              (read_console_output (prints.before now) (prints.after now) _ (prints.first now))
      ]

-- If the console log holds, from some time on that lies at least a round before the timeout, the init
-- scripts' output behind its first start marker, without `=` in it, and no whole output before that,
-- then the wait ends with the check of exactly the text between the markers. Sleeps last at least as
-- long as asked for and at most a round.
pub wait_for_init_output-reads :
    (decode : Text → Option InitOutput) (console : Console) (sleep : Sleep)
    (seconds now since round : ℕ) (body : Text)
    → Prints console since body
    → ((t d : ℕ) → t + d ≤ sleep t d)
    → ((t : ℕ) → sleep t half_second ≤ t + round)
    → now < since + round
    → since + round ≤ now + seconds * second
    → wait_for_init_output decode console sleep seconds now
      ≡ some (check_output (decode (trim_space (b'\n' ∷ body))))
unfolding wait_for_init_output
wait_for_init_output-reads decode console sleep seconds now since round body prints slept slept_by
      start fits =
    init_loop-reads decode console sleep since round (now + seconds * second) body prints slept
      slept_by fits (2 * seconds) now start (omega arith)
