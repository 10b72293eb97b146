-- ===== src/Cli/ForwardCommand/Reached.antt =====
-- A forward command that succeeds, from its command line to the daemon's state file.
use mathlib.Core.Path.{subst}
use exasol_local_vm.Prelude.{Text, true, List, some, ◌≡◌, sym, ◌∙◌, arith, ok, err}
use exasol_local_vm.Prelude.Map.{Map, lookup}
use exasol_local_vm.Forward.Spec.{ForwardSpec, parse_forward_specs}
use exasol_local_vm.Forward.StateFile.{ForwardState, Files}
use exasol_local_vm.Forward.Registry.{
  Daemon, Os, ForwardRequest, ForwardResponse, handle_if, handle_forward_request,
}
use exasol_local_vm.Forward.Registry.Requests.{BindsExactly}
use exasol_local_vm.Forward.Registry.Published.{view, published_at}
use exasol_local_vm.Forward.Registry.Effects.{handle_forward_request-flags}
use exasol_local_vm.Forward.Registry.Refinement.{Refines, handle_forward_request-Refines}
use exasol_local_vm.Forward.Lifecycle.{System, request, Reach, next, started}
use exasol_local_vm.Forward.Lifecycle.Safety.{Reach-WellFormed, Reach-IsPublished}
use exasol_local_vm.Socket.{to_daemon, Dial, serve}
use exasol_local_vm.Cli.ForwardCommand.{parse_forward_command, forward_cmd, printed}
use exasol_local_vm.Cli.ForwardCommand.Served.{forward_cmd-serve}

printed-ok :
    (r : ForwardResponse) (states : Map ForwardState) → printed r ≡ ok states → r ≡ ok states
printed-ok (ok forwards) states h = cc
printed-ok (err e) states h = cc

-- Only a ready daemon grants a request.
granted-ready :
    (os : Os) (req : ForwardRequest) (d : Daemon) (states : Map ForwardState)
    → (handle_forward_request os req d).0 ≡ ok states
    → d.ready ≡ true
unfolding handle_forward_request handle_if
granted-ready os req d states h = ground arith

-- What a command that succeeded has done, from a daemon in one state to the next: the map of forwards has
-- taken the step asked for, and what the client has printed is the new map, and what the state file lists.
pub record IsGranted (req : ForwardRequest) (d d' : Daemon) (states : Map ForwardState)
    : Type 0 where
  pub step : Refines req d d'
  pub answer : (k : Text) → lookup k states ≡ view d' k
  pub published : (k : Text) → published_at k d'.files.state_file ≡ lookup k states

module _ (vm_ip forward_list : Text) (specs : List ForwardSpec) (f : Files) (s : System)
    (parsed : parse_forward_specs forward_list ≡ ok specs) (run : Reach vm_ip (started f specs) s)
    (os : Os) (dial : Dial) (binds : BindsExactly os) where
  handled-IsGranted :
      (req : ForwardRequest) (states : Map ForwardState)
      → (handle_forward_request os req s.daemon).0 ≡ ok states
      → IsGranted req s.daemon (handle_forward_request os req s.daemon).1 states
  handled-IsGranted req states h =
      let (step, answer) =
        handle_forward_request-Refines os req s.daemon binds
          (Reach-WellFormed vm_ip forward_list specs f s parsed run) h in
      let later = next run (request s.daemon s.phase os req binds) in
      let ready =
        (handle_forward_request-flags os req s.daemon).0 ∙ granted-ready os req s.daemon states h in
      let listed = Reach-IsPublished vm_ip forward_list specs f _ parsed later ready in
      record { step = step; answer = answer; published = λ k. listed k ∙ sym (answer k) }

  -- If a forward command that the client accepts succeeds over a working connection, on a daemon that has
  -- reached its state from a start with a parsed list of forwards, then the map of forwards has taken the
  -- step asked for, the client has printed the new map, `vm-state.json` lists that very map, and the
  -- daemon's new state is again one that it can reach.
  pub forward_cmd-IsGranted :
      (args : List Text) (req : ForwardRequest) (states : Map ForwardState)
      → parse_forward_command args ≡ ok req
      → forward_cmd args (to_daemon os dial s.daemon) ≡ ok states
      → IsGranted req s.daemon (serve os dial (some req) s.daemon).1 states
        × Reach vm_ip
            (started f specs)
            (record s { daemon = (serve os dial (some req) s.daemon).1 })
  forward_cmd-IsGranted args req states accepted good =
      let (answered, state, ok_request) = forward_cmd-serve os dial s.daemon args req accepted in
      let h = printed-ok _ states (sym answered ∙ good) in
      (
        subst (λ d. IsGranted req s.daemon d states) (sym state) (handled-IsGranted req states h),
        subst (λ d. Reach vm_ip (started f specs) (record s { daemon = d })) (sym state)
            (next run (request s.daemon s.phase os req binds)),
      )
