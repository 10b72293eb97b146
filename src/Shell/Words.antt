-- ===== src/Shell/Words.antt =====
-- The remote shell splits the command line into exactly the arguments that were given. The shell's
-- part is an independent reading of POSIX quoting: blanks separate words, single quotes keep all
-- up to the next single quote, and double quotes keep all up to the next double quote. What has
-- a meaning of its own outside single quotes (`$`, `;`, a newline and so on) is refused, so that
-- nothing the proof accepts would be expanded or run.
use exasol_local_vm.Prelude.{
  ℕ, Text, Bool, false, ◌&&◌, ◌||◌, List, [], ◌∷◌, ◌++◌, Option, none, some, ◌≡◌, refl, ◌∙◌, ap,
  arith, if_cases, leb, ◌==◌, if◌then◌else◌, append_assoc, append-nil,
}
use exasol_local_vm.Std.Strings.{replace_all, join}
use exasol_local_vm.Shell.{quoted_quote, quote_shell_argument, remote_command}

pub data Mode : Type 0 where
  -- between words, in a word outside quotes, and in either kind of quotes
  between plain single double : Mode

-- Characters that stand for themselves outside quotes and in double quotes.
abbrev is_safe : ℕ → Bool
is_safe c =
    leb b'a' c && leb c b'z'
    || leb b'A' c && leb c b'Z'
    || leb b'0' c && leb c b'9'
    || c == b'-'
    || c == b'_'
    || c == b'.'
    || c == b'/'
    || c == b'\''

abbrev prepend : Text → Option (List Text) → Option (List Text)
prepend word none = none
prepend word (some words) = some (word ∷ words)

-- The words of a command line behind the word so far; `none` where quotes stay open or a character
-- would be interpreted.
unfoldable pub words : Mode → Text → Text → Option (List Text)
words between word [] = some []
words plain word [] = some (word ∷ [])
words single word [] = none
words double word [] = none
words between word (c ∷ s) =
    let skip = words between [] s in
    let quoted = words single [] s in
    let quoted2 = words double [] s in
    let start = words plain (c ∷ []) s in
    if c == b' '
    then skip
    else if c == b'\''
    then quoted
    else if c == b'"'
    then quoted2
    else if is_safe c
    then start
    else none
words plain word (c ∷ s) =
    let next = words between [] s in
    let quoted = words single word s in
    let quoted2 = words double word s in
    let more = words plain (word ++ c ∷ []) s in
    if c == b' '
    then prepend word next
    else if c == b'\''
    then quoted
    else if c == b'"'
    then quoted2
    else if is_safe c
    then more
    else none
words single word (c ∷ s) =
    let closed = words plain word s in
    let more = words single (word ++ c ∷ []) s in if c == b'\'' then closed else more
words double word (c ∷ s) =
    let closed = words plain word s in
    let more = words double (word ++ c ∷ []) s in
    if c == b'"' then closed else if is_safe c then more else none

-- `sh -c` on a command line
unfoldable pub shell_words : Text → Option (List Text)
shell_words line = words between [] line

quote_kept :
    (word rest : Text)
    → words single word (quoted_quote ++ rest) ≡ words single (word ++ b'\'' ∷ []) rest
unfolding words
quote_kept word rest = refl

letter_kept :
    (c : ℕ) (word rest : Text)
    → (c == b'\'') ≡ false
    → words single word (c ∷ rest) ≡ words single (word ++ c ∷ []) rest
unfolding words
letter_kept c word rest h = rw h

body_kept :
    (value word rest : Text)
    → words single word (replace_all value b'\'' quoted_quote ++ rest)
      ≡ words single (word ++ value) rest
unfolding replace_all
body_kept [] word rest = rw append-nil
body_kept (c ∷ value) word rest =
    let body = replace_all value b'\'' quoted_quote ++ rest in
    if_cases (λ (t : Text). words single word (t ++ rest) ≡ words single (word ++ c ∷ value) rest)
      (c == b'\'')
      (λ same.
        let e : c ≡ b'\'' = ground arith in
        rw e (quote_kept word body ∙ body_kept value (word ++ b'\'' ∷ []) rest ∙ rw append_assoc))
      (λ other.
        letter_kept c word body other ∙ body_kept value (word ++ c ∷ []) rest ∙ rw append_assoc)

opened : (s : Text) → words between [] (b'\'' ∷ s) ≡ words single [] s
unfolding words
opened s = refl

closed : (word s : Text) → words single word (b'\'' ∷ s) ≡ words plain word s
unfolding words
closed word s = refl

argument_kept :
    (value rest : Text)
    → words between [] (quote_shell_argument value ++ rest) ≡ words plain value rest
unfolding quote_shell_argument
argument_kept value rest =
    opened _ ∙ (rw append_assoc (body_kept value [] (b'\'' ∷ rest)) ∙ closed value rest)

at_end : (word : Text) → words plain word [] ≡ some (word ∷ [])
unfolding words
at_end word = refl

at_blank : (word s : Text) → words plain word (b' ' ∷ s) ≡ prepend word (words between [] s)
unfolding words
at_blank word s = refl

-- The remote shell reads exactly the words of the command, whatever characters they hold: nothing is
-- split, expanded or run.
pub shell_words-remote_command :
    (command : List Text) → shell_words (remote_command command) ≡ some command
unfolding shell_words remote_command join
shell_words-remote_command [] = unfold words in refl
shell_words-remote_command (a ∷ []) =
    rw (← append-nil (quote_shell_argument a)) (argument_kept a [] ∙ at_end a)
shell_words-remote_command (a ∷ b ∷ more) =
    argument_kept a _ ∙ (at_blank a _ ∙ ap (prepend a) (shell_words-remote_command (b ∷ more)))
