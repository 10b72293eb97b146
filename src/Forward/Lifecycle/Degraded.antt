-- ===== src/Forward/Lifecycle/Degraded.antt =====
-- A daemon that has found SSH not ready stays up, but publishes nothing.
use mathlib.Core.Path.{subst}
use exasol_local_vm.Prelude.{Text, true, false, List, [], ◌≡◌, refl, sym, ap, ◌∙◌, arith, ok, Bool}
use exasol_local_vm.Forward.Spec.{ForwardSpec, parse_forward_specs}
use exasol_local_vm.Forward.StateFile.{missing, Files}
use exasol_local_vm.Forward.Registry.{Daemon, close_forwarders}
use exasol_local_vm.Forward.Registry.Close.{close_forwarders-Stopped}
use exasol_local_vm.Forward.Lifecycle.{
  Phase, starting, serving, degraded, ended, System, Step, bind, bind_failed, ssh_ready,
  write_failed, ssh_not_ready, request, signal, vm_stopped, degraded_vm_stopped,
  runtime_not_written, Reach, here, next, started,
}
use exasol_local_vm.Forward.Lifecycle.Invariant.{Inv, idle_request}
use exasol_local_vm.Forward.Lifecycle.Safety.{Reach-Inv, started-Inv}
use exasol_local_vm.Forward.Lifecycle.Collect.{close_forwarders-files}
use exasol_local_vm.Forward.Lifecycle.Publication.{InStory, Reach-InStory, none_listed}

abbrev is_past : Phase → Bool
is_past (starting rest states) = false
is_past (serving wait) = false
is_past degraded = true
is_past ended = true

-- Past a start without SSH the daemon writes no state file, until it ends.
record InDegraded (s : System) (p : Phase) : Type 0 where
  no_file : s.daemon.files.state_file ≡ missing
  idle : s.daemon.ready ≡ false
  past : is_past p ≡ true

closed-InDegraded :
    (vm_ip : Text) (d : Daemon) (p q : Phase)
    → Inv (record { daemon = d; phase = p })
    → InDegraded (record { daemon = d; phase = p }) p
    → is_past q ≡ true
    → InDegraded (record { daemon = close_forwarders d; phase = q }) q
closed-InDegraded vm_ip d p q i h x = record {
  no_file = ap (λ f. f.state_file) (close_forwarders-files d) ∙ h.no_file;
  idle = (close_forwarders-Stopped d i.formed).ready;
  past = x;
}

Step-InDegraded :
    (vm_ip : Text) {s t : System}
    → Step vm_ip s t
    → Inv s
    → InDegraded s s.phase
    → InDegraded t t.phase
Step-InDegraded vm_ip (bind d d' os spec rest states f x h) i w = absurd (ground (arith, w.past))
Step-InDegraded vm_ip (bind_failed d os spec rest states h) i w = absurd (ground (arith, w.past))
Step-InDegraded vm_ip (ssh_ready d wait up os facts states f h) i w =
    absurd (ground (arith, w.past))
Step-InDegraded vm_ip (write_failed d wait up os facts states e f h) i w =
    absurd (ground (arith, w.past))
Step-InDegraded vm_ip (runtime_not_written d wait up states) i w = absurd (ground (arith, w.past))
Step-InDegraded vm_ip (ssh_not_ready d wait down states) i w = absurd (ground (arith, w.past))
Step-InDegraded vm_ip (request d p os req x) i w =
    subst (λ y. InDegraded (record { daemon = y; phase = p }) p)
      (sym (idle_request os req d w.idle)) w
Step-InDegraded vm_ip (signal d p) i w = closed-InDegraded vm_ip d p p i w w.past
Step-InDegraded vm_ip (vm_stopped d wait) i w = absurd (ground (arith, w.past))
Step-InDegraded vm_ip (degraded_vm_stopped d) i w =
    closed-InDegraded vm_ip d degraded ended i w refl

Reach-InDegraded :
    (vm_ip : Text) {s t : System}
    → Reach vm_ip s t
    → Inv s
    → InDegraded s s.phase
    → InDegraded t t.phase
Reach-InDegraded vm_ip here i w = w
Reach-InDegraded vm_ip (next r x) i w =
    Step-InDegraded vm_ip x (Reach-Inv vm_ip r i) (Reach-InDegraded vm_ip r i w)

degraded-InDegraded :
    (vm_ip : Text) (first : System) (specs : List ForwardSpec) (s : System) (p : Phase)
    → p ≡ degraded
    → Inv (record { daemon = s.daemon; phase = p })
    → InStory vm_ip first specs s p
    → InDegraded s p
degraded-InDegraded vm_ip first specs s (starting rest states) e i w = absurd (cc)
degraded-InDegraded vm_ip first specs s (serving wait) e i w = absurd (cc)
degraded-InDegraded vm_ip first specs s ended e i w = absurd (cc)
degraded-InDegraded vm_ip first specs s degraded e i w = record {
  no_file = w;
  idle = i.phase;
  past = refl;
}

-- A daemon that started with a parsed list of forwards and with no `vm-state.json`, and has found SSH
-- not ready, never writes that file.
pub Reach-degraded :
    (vm_ip forward_list : Text) (specs : List ForwardSpec) (f : Files) (s t : System)
    → parse_forward_specs forward_list ≡ ok specs
    → f.state_file ≡ missing
    → Reach vm_ip (started f specs) s
    → s.phase ≡ degraded
    → Reach vm_ip s t
    → t.daemon.files.state_file ≡ missing
Reach-degraded vm_ip forward_list specs f s t h m r e x =
    let start_inv = started-Inv forward_list specs f h in
    let i = Reach-Inv vm_ip r start_inv in
    let w =
      Reach-InStory vm_ip (started f specs) specs start_inv
        (m, record { done = []; whole = refl; kept = tt; unused = none_listed specs }) r in
    (Reach-InDegraded vm_ip x i
      (degraded-InDegraded vm_ip (started f specs) specs s s.phase e i w)).no_file
