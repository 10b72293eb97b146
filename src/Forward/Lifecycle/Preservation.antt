-- ===== src/Forward/Lifecycle/Preservation.antt =====
-- Every step of the daemon keeps the invariant of its lifecycle.
use mathlib.Core.Path.{subst}
use exasol_local_vm.Prelude.{
  ℕ, Text, text_eq, codes, List, [], ◌∷◌, some, ◌≡◌, refl, sym, ◌∙◌, inl, inr, arith, ok,
}
use exasol_local_vm.Prelude.Map.{Map, lookup, insert, lookup-insert}
use exasol_local_vm.Std.Net.Canonical.{canonical_loopback-localhost}
use exasol_local_vm.Forward.Spec.{ForwardSpec}
use exasol_local_vm.Forward.StateFile.{ForwardState, forwards, object, Files, FileCalls}
use exasol_local_vm.Forward.StateFile.Atomic.{write_vm_state-file}
use exasol_local_vm.Forward.Registry.{Forwarder, Daemon, Os, opened, state_of, register_forwarder}
use exasol_local_vm.Forward.Registry.WellFormed.{register-WellFormed}
use exasol_local_vm.Forward.Registry.Requests.{
  BindsExactly, exact_port, files-WellFormed, handle_forward_request-WellFormed,
}
use exasol_local_vm.Forward.Registry.Published.{published_at}
use exasol_local_vm.Forward.Registry.Effects.{handle_forward_request-flags}
use exasol_local_vm.Forward.Registry.Close.{close_forwarders-Stopped}
use exasol_local_vm.Forward.Lifecycle.{
  starting, serving, ended, System, loopback_ip, registered, Facts, write_healthy, publish, SshWait,
  Step, bind, bind_failed, ssh_ready, write_failed, ssh_not_ready, request, signal, vm_stopped,
  degraded_vm_stopped, runtime_not_written,
}
use exasol_local_vm.Forward.Lifecycle.Invariant.{
  Inv, started_forwarder, stopped-Inv, Fresh-after, Collected-after, request-InPhase,
  signal-InPhase,
}

registered-flags :
    (f : Forwarder) (d : Daemon)
    → ((registered f (opened d)).ready ≡ d.ready)
      × ((registered f (opened d)).stopping ≡ d.stopping)
unfolding register_forwarder
registered-flags f d = (refl, refl)

-- The forwarder of a round of the startup loop.
abbrev bound : Daemon → Text → ForwardSpec → ℕ → Forwarder
bound d vm_ip spec q = record {
  id = d.next_id;
  name = spec.name;
  host_ip = loopback_ip;
  requested_port = spec.host_port;
  guest_host = vm_ip;
  guest_port = spec.guest_port;
  port = q;
}

bound-Inv :
    (os : Os) (d : Daemon) (vm_ip : Text) (spec : ForwardSpec) (rest : List ForwardSpec)
    (states : Map ForwardState) (q : ℕ)
    → BindsExactly os
    → os.listen loopback_ip spec.host_port ≡ some q
    → Inv (record { daemon = d; phase = starting (spec ∷ rest) states })
    → Inv (record {
      daemon = registered (bound d vm_ip spec q) (opened d);
      phase = starting rest (insert spec.name (state_of (bound d vm_ip spec q)) states);
    })
bound-Inv os d vm_ip spec rest states q x l i =
    let f = bound d vm_ip spec q in
    let (v, vs) = i.phase.valid in
    let (n, ns) = i.phase.fresh in
    let (e, es) = i.phase.distinct in
    let (ready, stopping) = registered-flags f d in
    record {
      formed = register-WellFormed f d i.formed refl n (record {
        keyed = refl;
        valid = v;
        loopback = canonical_loopback-localhost;
        exact = exact_port os loopback_ip spec.host_port q x v.host_low l;
        old = omega arith;
      });
      not_both = rw (ready, stopping) i.not_both;
      phase = record {
        idle = ready ∙ i.phase.idle;
        valid = vs;
        distinct = es;
        fresh = Fresh-after d f rest e ns;
        collected = elim i.phase.collected [
          | inl stopped ↦ inl (stopping ∙ stopped)
          | inr same ↦ inr (Collected-after d f states same)
        ];
      };
    }

written-published :
    (os : FileCalls) (facts : Facts) (states : Map ForwardState) (f g : Files) (k : Text)
    → write_healthy os facts states f ≡ (ok tt, g)
    → published_at k g.state_file ≡ lookup k states
unfolding write_healthy text_eq
written-published os facts states f g k h = ground (
  arith,
  h,
  write_vm_state-file os (object (insert (codes "forwards") (forwards states) facts)) f,
  lookup-insert (codes "forwards") (codes "forwards") (forwards states) facts,
)

-- The state file is written and the daemon is made ready.
published-Inv :
    (vm_ip : Text) (d : Daemon) (wait : SshWait) (os : FileCalls) (facts : Facts)
    (states : Map ForwardState) (f : Files)
    → write_healthy os facts states d.files ≡ (ok tt, f)
    → Inv (record { daemon = d; phase = starting [] states })
    → Inv (record { daemon = publish vm_ip f d; phase = serving wait })
unfolding publish
published-Inv vm_ip d wait os facts states f h i = record {
  formed = record {
    distinct = i.formed.distinct;
    entries = i.formed.entries;
    listeners = i.formed.listeners;
  };
  not_both = ground arith;
  phase = elim i.phase.collected [
    | inl stopped ↦ inl (rw stopped refl)
    | inr same ↦ inr (λ k. written-published os facts states d.files f k h ∙ same k)
  ];
}

pub Step-Inv : (vm_ip : Text) {s t : System} → Step vm_ip s t → Inv s → Inv t
Step-Inv vm_ip (bind d d' os spec rest states f x h) i =
    let (q, l, e, g) =
      started_forwarder os spec.name loopback_ip spec.host_port vm_ip spec.guest_port d d' f h in
    subst
      (λ y. Inv (record {
        daemon = registered f y;
        phase = starting rest (insert spec.name (state_of f) states);
      }))
      (sym e)
      (subst
        (λ y. Inv (record {
          daemon = registered y (opened d);
          phase = starting rest (insert spec.name (state_of y) states);
        }))
        (sym g) (bound-Inv os d vm_ip spec rest states q x l i))
Step-Inv vm_ip (bind_failed d os spec rest states h) i =
    stopped-Inv d ended i.formed (close_forwarders-Stopped d i.formed).ready
Step-Inv vm_ip (ssh_ready d wait up os facts states f h) i =
    published-Inv vm_ip d wait os facts states f h i
Step-Inv vm_ip (write_failed d wait up os facts states e f h) i =
    stopped-Inv (record d { files = f }) ended (files-WellFormed d f i.formed)
      (close_forwarders-Stopped (record d { files = f }) (files-WellFormed d f i.formed)).ready
Step-Inv vm_ip (runtime_not_written d wait up states) i =
    stopped-Inv d ended i.formed (close_forwarders-Stopped d i.formed).ready
Step-Inv vm_ip (ssh_not_ready d wait down states) i = record {
  formed = i.formed;
  not_both = i.not_both;
  phase = i.phase.idle;
}
Step-Inv vm_ip (request d p os req x) i = record {
  formed = handle_forward_request-WellFormed os req d x i.formed;
  not_both = (let (a, b) = handle_forward_request-flags os req d in rw (a, b) i.not_both);
  phase = request-InPhase d p os req i.formed i.phase;
}
Step-Inv vm_ip (signal d p) i = stopped-Inv d p i.formed (signal-InPhase d p i.formed i.phase)
Step-Inv vm_ip (vm_stopped d wait) i =
    stopped-Inv d ended i.formed (close_forwarders-Stopped d i.formed).ready
Step-Inv vm_ip (degraded_vm_stopped d) i =
    stopped-Inv d ended i.formed (close_forwarders-Stopped d i.formed).ready
