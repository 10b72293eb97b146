-- ===== src/Cli/Main.antt =====
-- launcher/mac/main.go: `main` reads the command line, and decides what to run or with which code to
-- exit. What it prints is left out.
pub mod Daemon
use exasol_local_vm.Prelude.{
  ℕ, Text, codes, text_eq, Bool, true, false, not, ◌||◌, List, [], ◌∷◌, Option, none, some,
  if◌then◌else◌, is_nil, ℤ, pos, leb_ℤ, Result, ok, err, ◌>>=◌,
}
use exasol_local_vm.Std.Strconv.{atoi}
use exasol_local_vm.Std.Flag.{Flags, boolean, valued, Parsed, parse_flags, value_of}
use exasol_local_vm.Forward.Spec.{ForwardSpec, SpecError, set}

pub data Command : Type 0 where
  forward : List Text → Command
  init : Text → Command
  start : Text → Text → ℤ → List ForwardSpec → Command
  daemon : Text → Text → Text → Command
  run : List Text → Bool → Command
  resize_data : Text → Command
  stop status health_check version : Command

-- A command to run, or an exit code at once.
pub data Dispatch : Type 0 where
  command : Command → Dispatch
  exit : ℕ → Dispatch

unfoldable pub init_flags : Flags
init_flags name = if text_eq name (codes "ssh-key") then some valued else none

unfoldable pub dispatch_init : Option Parsed → Dispatch
dispatch_init none = exit 2
dispatch_init (some p) =
    if is_nil p.rest then command (init (value_of (codes "ssh-key") [] p.settings)) else exit 2

unfoldable pub start_flags : Flags
start_flags name = if text_eq name (codes "forward") then some valued else none

-- `forwardSpecList.Set` at each `--forward`; the error of one of them ends the parsing.
unfoldable pub set_flags :
    List ForwardSpec → List (Text × Text) → Result SpecError (List ForwardSpec)
set_flags forwards [] = ok forwards
set_flags forwards ((name, value) ∷ settings) = do
  forwards' ← set forwards value
  set_flags forwards' settings

unfoldable pub dispatch_size : Text → Text → List ForwardSpec → Option ℤ → Dispatch
dispatch_size cpu_count ram_size forwards none = exit 1
dispatch_size cpu_count ram_size forwards (some size_gb) =
    if leb_ℤ size_gb (pos 0) then exit 1 else command (start cpu_count ram_size size_gb forwards)

unfoldable pub dispatch_positional : List Text → List ForwardSpec → Dispatch
dispatch_positional (cpu_count ∷ ram_size ∷ size ∷ []) forwards =
    dispatch_size cpu_count ram_size forwards (atoi size)
dispatch_positional _ forwards = exit 2

unfoldable pub dispatch_forwards : List Text → Result SpecError (List ForwardSpec) → Dispatch
dispatch_forwards rest (err e) = exit 2
dispatch_forwards rest (ok forwards) = dispatch_positional rest forwards

unfoldable pub dispatch_start : Option Parsed → Dispatch
dispatch_start none = exit 2
dispatch_start (some p) = dispatch_forwards p.rest (set_flags [] p.settings)

-- Without an encoded list there are no forwards.
unfoldable pub dispatch_daemon : List Text → Dispatch
dispatch_daemon [] = exit 1
dispatch_daemon (cpu_count ∷ []) = exit 1
dispatch_daemon (cpu_count ∷ ram_size ∷ []) = command (daemon cpu_count ram_size [])
dispatch_daemon (cpu_count ∷ ram_size ∷ encoded ∷ _) = command (daemon cpu_count ram_size encoded)

unfoldable pub run_flags : Flags
run_flags name =
    if text_eq name (codes "tty") || text_eq name (codes "t") then some boolean else none

abbrev pub is_any : Text → List Text → Bool
is_any s [] = false
is_any s (t ∷ texts) = text_eq s t || is_any s texts

-- `strconv.ParseBool`
unfoldable pub parse_bool : Text → Option Bool
parse_bool s =
    if is_any s
      (codes "1" ∷ codes "t" ∷ codes "T" ∷ codes "TRUE" ∷ codes "true" ∷ codes "True" ∷ [])
    then some true
    else if is_any s
        (codes "0" ∷ codes "f" ∷ codes "F" ∷ codes "FALSE" ∷ codes "false" ∷ codes "False" ∷ [])
    then some false
    else none

-- Both flags set one variable; the last one counts.
unfoldable pub set_tty : Bool → List (Text × Text) → Option Bool
set_tty tty [] = some tty
set_tty tty ((name, value) ∷ settings) = elim (parse_bool value) [
  | none ↦ none
  | some b ↦ set_tty b settings
]

unfoldable pub dispatch_tty : Bool → List Text → Option Bool → Dispatch
dispatch_tty stdin_is_terminal args none = exit 2
dispatch_tty stdin_is_terminal args (some tty) =
    if is_nil args
    then (if stdin_is_terminal then command (run [] true) else exit 2)
    else command (run args tty)

unfoldable pub dispatch_run : Bool → Option Parsed → Dispatch
dispatch_run stdin_is_terminal none = exit 2
dispatch_run stdin_is_terminal (some p) =
    dispatch_tty stdin_is_terminal p.rest (set_tty false p.settings)

unfoldable pub dispatch_resize : List Text → Dispatch
dispatch_resize [] = exit 1
dispatch_resize (size ∷ _) = command (resize_data size)

-- `main`, on the program's arguments and whether the standard input is a terminal.
unfoldable pub dispatch : Bool → List Text → Dispatch
unfolding dispatch_init dispatch_start dispatch_daemon dispatch_run dispatch_resize
dispatch stdin_is_terminal (program ∷ name ∷ args) =
    if text_eq name (codes "forward")
    then command (forward args)
    else if text_eq name (codes "init")
    then dispatch_init (parse_flags init_flags args)
    else if text_eq name (codes "start")
    then dispatch_start (parse_flags start_flags args)
    else if text_eq name (codes "__daemon__")
    then dispatch_daemon args
    else if text_eq name (codes "stop")
    then command stop
    else if text_eq name (codes "run")
    then dispatch_run stdin_is_terminal (parse_flags run_flags args)
    else if text_eq name (codes "status")
    then command status
    else if text_eq name (codes "health-check")
    then command health_check
    else if text_eq name (codes "resize-data")
    then dispatch_resize args
    else if text_eq name (codes "version")
    then command version
    else exit 1
dispatch stdin_is_terminal _ = exit 1

-- The exit code behind a command: that of `ssh`, where it has failed, or 1 for any other error.
unfoldable pub exit_code : Result (Option ℕ) (Unit {0}) → ℕ
exit_code (ok _) = 0
exit_code (err (some code)) = code
exit_code (err none) = 1
