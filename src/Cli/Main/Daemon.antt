-- ===== src/Cli/Main/Daemon.antt =====
-- What `start` was asked for is what its daemon process runs with.
use mathlib.Core.Path.{subst}
use exasol_local_vm.Prelude.{
  Text, codes, text_eq, Bool, false, List, [], ◌∷◌, Option, none, some, ◌≡◌, refl, arith, ℤ, pos,
  ◌≤ℤ◌, ok, All, is_nil, leb_ℤ, chain_parts, if_cases, Result-cases, inl, inr,
}
use exasol_local_vm.Std.Strconv.{atoi}
use exasol_local_vm.Std.Flag.{Parsed}
use exasol_local_vm.Forward.Spec.{
  ForwardSpec, IsValid, DistinctNames, string, set, parse_forward_specs,
}
use exasol_local_vm.Forward.Spec.Lists.{set-IsValid, parse-string}
use exasol_local_vm.Start.{daemon_args}
use exasol_local_vm.Cli.Main.{
  Command, start, daemon, Dispatch, command, exit, set_flags, dispatch_size, dispatch_positional,
  dispatch_forwards, dispatch_init, dispatch_tty, dispatch_run, dispatch_resize, set_tty,
  dispatch_start, dispatch_daemon, dispatch,
}

set_flags-IsValid :
    (settings : List (Text × Text)) (done list : List ForwardSpec)
    → set_flags done settings ≡ ok list
    → All IsValid done × DistinctNames done
    → All IsValid list × DistinctNames list
unfolding set_flags
set_flags-IsValid [] done list h v =
    let e : done ≡ list = cc in subst (λ l. All IsValid l × DistinctNames l) e v
set_flags-IsValid ((name, value) ∷ settings) done list h v =
    let (next, q, p) = chain_parts (set done value) _ h in
    set_flags-IsValid settings next list q (set-IsValid done value p v)

-- What a start command says of its arguments.
abbrev Starts : Command → Type 0
Starts (start cpu_count ram_size size_gb forwards) =
    (pos 1 ≤ℤ size_gb) × All IsValid forwards × DistinctNames forwards
Starts _ = Unit

abbrev Sound : Dispatch → Type 0
Sound (command c) = Starts c
Sound (exit code) = Unit

dispatch_size-Sound :
    (cpu_count ram_size : Text) (forwards : List ForwardSpec) (size : Option ℤ)
    → All IsValid forwards × DistinctNames forwards
    → Sound (dispatch_size cpu_count ram_size forwards size)
unfolding dispatch_size
dispatch_size-Sound cpu_count ram_size forwards none v = tt
dispatch_size-Sound cpu_count ram_size forwards (some size_gb) v =
    if_cases Sound (leb_ℤ size_gb (pos 0)) (λ _. tt) (λ large. (ground arith, v.0, v.1))

dispatch_positional-Sound :
    (rest : List Text) (forwards : List ForwardSpec)
    → All IsValid forwards × DistinctNames forwards
    → Sound (dispatch_positional rest forwards)
unfolding dispatch_positional
dispatch_positional-Sound (a ∷ b ∷ c ∷ []) forwards v = dispatch_size-Sound a b forwards (atoi c) v
dispatch_positional-Sound [] forwards v = tt
dispatch_positional-Sound (a ∷ []) forwards v = tt
dispatch_positional-Sound (a ∷ b ∷ []) forwards v = tt
dispatch_positional-Sound (a ∷ b ∷ c ∷ d ∷ rest) forwards v = tt

dispatch_start-Sound : (p : Option Parsed) → Sound (dispatch_start p)
unfolding dispatch_start dispatch_forwards
dispatch_start-Sound none = tt
dispatch_start-Sound (some p) = elim (Result-cases (set_flags [] p.settings)) [
  | inl (forwards, e) ↦
      rw (e, dispatch_forwards)
        (dispatch_positional-Sound p.rest forwards
          (set_flags-IsValid p.settings [] forwards e (tt, tt)))
  | inr (x, e) ↦ rw (e, dispatch_forwards) tt
]

dispatch_init-Sound : (p : Option Parsed) → Sound (dispatch_init p)
unfolding dispatch_init
dispatch_init-Sound none = tt
dispatch_init-Sound (some p) = if_cases Sound (is_nil p.rest) (λ _. tt) (λ _. tt)

dispatch_daemon-Sound : (args : List Text) → Sound (dispatch_daemon args)
unfolding dispatch_daemon
dispatch_daemon-Sound [] = tt
dispatch_daemon-Sound (a ∷ []) = tt
dispatch_daemon-Sound (a ∷ b ∷ []) = tt
dispatch_daemon-Sound (a ∷ b ∷ c ∷ rest) = tt

dispatch_tty-Sound :
    (terminal : Bool) (args : List Text) (tty : Option Bool)
    → Sound (dispatch_tty terminal args tty)
unfolding dispatch_tty
dispatch_tty-Sound terminal args none = tt
dispatch_tty-Sound terminal args (some tty) =
    if_cases Sound (is_nil args) (λ _. if_cases Sound terminal (λ _. tt) (λ _. tt)) (λ _. tt)

dispatch_run-Sound : (terminal : Bool) (p : Option Parsed) → Sound (dispatch_run terminal p)
unfolding dispatch_run
dispatch_run-Sound terminal none = tt
dispatch_run-Sound terminal (some p) = dispatch_tty-Sound terminal p.rest (set_tty false p.settings)

dispatch_resize-Sound : (args : List Text) → Sound (dispatch_resize args)
unfolding dispatch_resize
dispatch_resize-Sound [] = tt
dispatch_resize-Sound (a ∷ args) = tt

dispatch-Sound : (terminal : Bool) (args : List Text) → Sound (dispatch terminal args)
unfolding dispatch
dispatch-Sound terminal [] = tt
dispatch-Sound terminal (program ∷ []) = tt
dispatch-Sound terminal (program ∷ name ∷ args) =
    if_cases Sound (text_eq name (codes "forward")) (λ _. tt)
      (λ _.
        if_cases Sound (text_eq name (codes "init")) (λ _. dispatch_init-Sound _)
          (λ _.
            if_cases Sound (text_eq name (codes "start")) (λ _. dispatch_start-Sound _)
              (λ _.
                if_cases Sound (text_eq name (codes "__daemon__")) (λ _. dispatch_daemon-Sound args)
                  (λ _.
                    if_cases Sound (text_eq name (codes "stop")) (λ _. tt)
                      (λ _.
                        if_cases Sound (text_eq name (codes "run"))
                          (λ _. dispatch_run-Sound terminal _)
                          (λ _.
                            if_cases Sound (text_eq name (codes "status")) (λ _. tt)
                              (λ _.
                                if_cases Sound (text_eq name (codes "health-check")) (λ _. tt)
                                  (λ _.
                                    if_cases Sound (text_eq name (codes "resize-data"))
                                      (λ _. dispatch_resize-Sound args)
                                      (λ _.
                                        if_cases Sound (text_eq name (codes "version")) (λ _. tt)
                                          (λ _. tt))))))))))

-- If `main` accepts a command line as a start, its disk size is positive, and the daemon process that
-- `startCmd` launches for it is dispatched to the daemon with the same processors and memory and with
-- a text of forwards that it reads back as exactly the forwards of the command line.
pub dispatch-daemon_args :
    (terminal daemon_terminal : Bool) (args : List Text) (executable cpu_count ram_size : Text)
    (size_gb : ℤ) (forwards : List ForwardSpec)
    → dispatch terminal args ≡ command (start cpu_count ram_size size_gb forwards)
    → (pos 1 ≤ℤ size_gb)
      × (encoded : Text) × (dispatch daemon_terminal
            (daemon_args executable cpu_count ram_size forwards)
          ≡ command (daemon cpu_count ram_size encoded))
      × (parse_forward_specs encoded ≡ ok forwards)
unfolding dispatch text_eq
dispatch-daemon_args terminal daemon_terminal args executable cpu_count ram_size size_gb forwards
      h =
    let (size, valid, distinct) = subst Sound h (dispatch-Sound terminal args) in
    (size, string forwards, refl, parse-string forwards valid distinct)
