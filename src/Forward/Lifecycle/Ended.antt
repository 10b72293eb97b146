-- ===== src/Forward/Lifecycle/Ended.antt =====
-- A daemon that has ended its startup or its service has closed its forwarders.
use mathlib.Core.Path.{subst}
use exasol_local_vm.Prelude.{Text, ok, ap, [], ◌≡◌, ◌∙◌, List}
use exasol_local_vm.Forward.Spec.{ForwardSpec, parse_forward_specs}
use exasol_local_vm.Forward.StateFile.{Files}
use exasol_local_vm.Forward.Registry.{
  Daemon, Os, ForwardRequest, close_forwarders, handle_forward_request,
}
use exasol_local_vm.Forward.Registry.WellFormed.{WellFormed}
use exasol_local_vm.Forward.Registry.Requests.{files-WellFormed}
use exasol_local_vm.Forward.Registry.Close.{close_forwarders-Stopped}
use exasol_local_vm.Forward.Lifecycle.{
  Phase, starting, serving, degraded, ended, System, Step, bind, bind_failed, ssh_ready,
  write_failed, ssh_not_ready, request, signal, vm_stopped, degraded_vm_stopped,
  runtime_not_written, Reach, here, next, started,
}
use exasol_local_vm.Forward.Lifecycle.Invariant.{Inv, idle_request}
use exasol_local_vm.Forward.Lifecycle.Safety.{Reach-Inv, started-Inv}

-- At the end of the main goroutine nothing is registered.
abbrev EmptyAtEnd : Daemon → Phase → Type 0
EmptyAtEnd d (starting rest states) = Unit
EmptyAtEnd d (serving wait) = Unit
EmptyAtEnd d degraded = Unit
EmptyAtEnd d ended = d.registry ≡ []

closed-EmptyAtEnd : (d : Daemon) (p : Phase) → WellFormed d → EmptyAtEnd (close_forwarders d) p
closed-EmptyAtEnd d (starting rest states) w = tt
closed-EmptyAtEnd d (serving wait) w = tt
closed-EmptyAtEnd d degraded w = tt
closed-EmptyAtEnd d ended w = (close_forwarders-Stopped d w).registry

request-EmptyAtEnd :
    (os : Os) (req : ForwardRequest) (d : Daemon) (p : Phase)
    → Inv (record { daemon = d; phase = p })
    → EmptyAtEnd d p
    → EmptyAtEnd (handle_forward_request os req d).1 p
request-EmptyAtEnd os req d (starting rest states) i h = tt
request-EmptyAtEnd os req d (serving wait) i h = tt
request-EmptyAtEnd os req d degraded i h = tt
request-EmptyAtEnd os req d ended i h = ap (λ x. x.registry) (idle_request os req d i.phase) ∙ h

Step-EmptyAtEnd :
    (vm_ip : Text) {s t : System}
    → Step vm_ip s t
    → Inv s
    → EmptyAtEnd s.daemon s.phase
    → EmptyAtEnd t.daemon t.phase
Step-EmptyAtEnd vm_ip (bind d d' os spec rest states f x h) i e = tt
Step-EmptyAtEnd vm_ip (bind_failed d os spec rest states h) i e = closed-EmptyAtEnd d ended i.formed
Step-EmptyAtEnd vm_ip (ssh_ready d wait up os facts states f h) i e = tt
Step-EmptyAtEnd vm_ip (write_failed d wait up os facts states x f h) i e =
    closed-EmptyAtEnd (record d { files = f }) ended (files-WellFormed d f i.formed)
Step-EmptyAtEnd vm_ip (runtime_not_written d wait up states) i e =
    closed-EmptyAtEnd d ended i.formed
Step-EmptyAtEnd vm_ip (ssh_not_ready d wait down states) i e = tt
Step-EmptyAtEnd vm_ip (request d p os req x) i e = request-EmptyAtEnd os req d p i e
Step-EmptyAtEnd vm_ip (signal d p) i e = closed-EmptyAtEnd d p i.formed
Step-EmptyAtEnd vm_ip (vm_stopped d wait) i e = closed-EmptyAtEnd d ended i.formed
Step-EmptyAtEnd vm_ip (degraded_vm_stopped d) i e = closed-EmptyAtEnd d ended i.formed

Reach-EmptyAtEnd :
    (vm_ip : Text) {s t : System}
    → Reach vm_ip s t
    → Inv s
    → EmptyAtEnd s.daemon s.phase
    → EmptyAtEnd t.daemon t.phase
Reach-EmptyAtEnd vm_ip here i e = e
Reach-EmptyAtEnd vm_ip (next r x) i e =
    Step-EmptyAtEnd vm_ip x (Reach-Inv vm_ip r i) (Reach-EmptyAtEnd vm_ip r i e)

EmptyAtEnd-ended : (d : Daemon) (p : Phase) → p ≡ ended → EmptyAtEnd d p → d.registry ≡ []
EmptyAtEnd-ended d p e h = subst (EmptyAtEnd d) e h

-- A daemon that started with a parsed list of forwards and whose main goroutine has ended has none
-- registered, whatever was requested meanwhile and since.
pub Reach-closed :
    (vm_ip forward_list : Text) (specs : List ForwardSpec) (f : Files) (s : System)
    → parse_forward_specs forward_list ≡ ok specs
    → Reach vm_ip (started f specs) s
    → s.phase ≡ ended
    → s.daemon.registry ≡ []
Reach-closed vm_ip forward_list specs f s h r e =
    EmptyAtEnd-ended s.daemon s.phase e
      (Reach-EmptyAtEnd vm_ip r (started-Inv forward_list specs f h) tt)
