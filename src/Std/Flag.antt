-- ===== src/Std/Flag.antt =====
-- `FlagSet.Parse` of Go's `flag`, for boolean flags and flags with a value. The values are checked by
-- the caller, in the order of the settings.
use exasol_local_vm.Prelude.{
  Text, codes, text_eq, ◌||◌, List, [], ◌∷◌, Option, none, some, ◌==◌, if◌then◌else◌,
}

pub data Kind : Type 0 where
  boolean valued : Kind

-- The flags of a set, by name.
abbrev pub Flags : Type 0
Flags = Text → Option Kind

-- What an argument is: no flag, the end of the flags, nothing that can be read, or a flag, perhaps
-- with its value behind `=`.
pub data Token : Type 0 where
  operand terminator malformed : Token
  flag : Text → Option Text → Token

-- A name up to the first `=`, and the value behind it.
unfoldable pub cut : Text → Text × Option Text
cut [] = ([], none)
cut (c ∷ s) = let (name, value) = cut s in if c == b'=' then ([], some s) else (c ∷ name, value)

unfoldable pub named : Text → Token
unfolding cut
named [] = malformed
named (c ∷ s) =
    if c == b'-' || c == b'=' then malformed else let (name, value) = cut s in flag (c ∷ name) value

unfoldable pub long : Text → Token
unfolding named
long [] = terminator
long (c ∷ s) = named (c ∷ s)

unfoldable pub token : Text → Token
unfolding long named
token (c ∷ d ∷ s) = if c == b'-' then (if d == b'-' then long s else named (d ∷ s)) else operand
token _ = operand

-- The flags that were set, each with its text, and the arguments behind them.
pub record Parsed : Type 0 where
  pub settings : List (Text × Text)
  pub rest : List Text

abbrev pub only : List Text → Option Parsed
only rest = some (record { settings = []; rest = rest })

abbrev pub setting : Text → Text → Option Parsed → Option Parsed
setting name value none = none
setting name value (some p) = some (record p { settings = (name, value) ∷ p.settings })

-- A flag, given what reading goes on with behind it, and the reading in which the next argument, if
-- there is one, is its value.
unfoldable pub set_flag :
    Option Kind → Text → Option Text → Option Parsed → Option Parsed → Option Parsed
set_flag none name value behind taken = none
set_flag (some boolean) name none behind taken = setting name (codes "true") behind
set_flag (some boolean) name (some value) behind taken = setting name value behind
set_flag (some valued) name (some value) behind taken = setting name value behind
set_flag (some valued) name none behind taken = taken

unfoldable pub parse_token :
    Flags → List Text → Token → Text → Option Parsed → Option Parsed → Option Parsed
unfolding set_flag
parse_token flags behind_args operand s behind taken = only (s ∷ behind_args)
parse_token flags behind_args terminator s behind taken = only behind_args
parse_token flags behind_args malformed s behind taken = none
parse_token flags behind_args (flag name value) s behind taken =
    set_flag (flags name) name value behind taken

-- The name of a flag.
abbrev pub flag_name : Token → Text
flag_name (flag name value) = name
flag_name _ = []

unfoldable pub parse_flags : Flags → List Text → Option Parsed
unfolding parse_token token
parse_flags flags [] = only []
parse_flags flags (s ∷ []) = parse_token flags [] (token s) s (only []) none
parse_flags flags (s ∷ v ∷ args) =
    let behind = parse_flags flags (v ∷ args) in
    let taken = setting (flag_name (token s)) v (parse_flags flags args) in
    parse_token flags (v ∷ args) (token s) s behind taken

-- The last value that a flag was set to, or a default.
unfoldable pub value_of : Text → Text → List (Text × Text) → Text
value_of name default [] = default
value_of name default ((n, v) ∷ settings) =
    value_of name (if text_eq n name then v else default) settings
