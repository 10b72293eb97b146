-- ===== src/Socket/Reported.antt =====
-- A health check of a daemon that serves, next to what the daemon has published.
use mathlib.Core.Option
use mathlib.Core.Path.{subst}
use exasol_local_vm.Prelude.{
  Text, text_eq, codes, Bool, true, false, not, ◌&&◌, ◌||◌, List, Option, none, some, ◌≡◌, refl,
  sym, arith, ok,
}
use exasol_local_vm.Prelude.Map.{Map, lookup}
use exasol_local_vm.Forward.Spec.{ForwardSpec, parse_forward_specs}
use exasol_local_vm.Forward.StateFile.{ForwardState, Files}
use exasol_local_vm.Forward.Registry.{Forwarder, Daemon, Os, state_of}
use exasol_local_vm.Forward.Registry.Published.{published_at}
use exasol_local_vm.Forward.Lifecycle.{System, started, Reach}
use exasol_local_vm.Forward.Lifecycle.Safety.{Reach-IsPublished}
use exasol_local_vm.Socket.{
  to_daemon, DialFailure, classify_dial_err, Dial, PortHealthResponse, query_health_check,
}
use exasol_local_vm.Socket.Health.{is_reachable, query_health_check-serve}

abbrev has_timed_out : Option DialFailure → Bool
has_timed_out none = false
has_timed_out (some e) = e.net_timeout || e.deadline_exceeded

abbrev is_refused : Option DialFailure → Bool
is_refused none = false
is_refused (some e) = e.refused && not (e.net_timeout || e.deadline_exceeded)

-- A dial is reachable without an error, a timeout if either of the two tests says so, refused if it is
-- that and no timeout, and blocked otherwise.
pub record Describes (e : Option DialFailure) (state : Text) : Type 0 where
  pub reachable : text_eq state (codes "reachable") ≡ is_reachable e
  pub timeout : text_eq state (codes "timeout") ≡ has_timed_out e
  pub refused : text_eq state (codes "refused") ≡ is_refused e
  pub blocked :
      text_eq state (codes "blocked")
      ≡ (not (is_reachable e) && not (has_timed_out e) && not (is_refused e))

classify_dial_err-Describes : (e : Option DialFailure) → Describes e (classify_dial_err e)
unfolding classify_dial_err text_eq
classify_dial_err-Describes none = record {
  reachable = refl;
  timeout = refl;
  refused = refl;
  blocked = refl;
}
classify_dial_err-Describes (some e) = record {
  reachable = ground arith;
  timeout = ground arith;
  refused = ground arith;
  blocked = ground arith;
}

-- What the state file and the health check say of a name: nothing, or a forward, and how the guest's
-- port of that forward answers a dial.
pub data Reported (dial : Dial) (d : Daemon) (k : Text)
    : Option ForwardState → Option PortHealthResponse → Type 0 where
  absent : Reported dial d k none none
  present :
      (f : Forwarder) (s : ForwardState) (h : PortHealthResponse)
      → lookup k d.registry ≡ some f
      → s ≡ state_of f
      → Describes (dial f.guest_host s.guest_port) h.state
      → Reported dial d k (some s) (some h)

module _ (dial : Dial) (d : Daemon) (k : Text) where
  registered-Reported :
      (o : Option Forwarder)
      → lookup k d.registry ≡ o
      → Reported dial d k (Option.map state_of o) (
          Option.map (λ f. record { state = classify_dial_err (dial f.guest_host f.guest_port) }) o)
  registered-Reported none e = absent
  registered-Reported (some f) e =
      present f (state_of f) _ e refl (classify_dial_err-Describes (dial f.guest_host f.guest_port))

-- On a daemon that is ready, having reached its state from a start with a parsed list of forwards, the
-- client's health check over a working connection succeeds, and it reports exactly the names that
-- `vm-state.json` lists; for each, the state says of a dial to the guest's port that the file lists, at
-- the guest host of the forwarder registered under the name, whether it succeeded, timed out, was
-- refused or failed otherwise.
pub query_health_check-Reported :
    (vm_ip forward_list : Text) (specs : List ForwardSpec) (f : Files) (s : System)
    → parse_forward_specs forward_list ≡ ok specs
    → Reach vm_ip (started f specs) s
    → s.daemon.ready ≡ true
    → (os : Os) (dial : Dial)
    → (ports : Map PortHealthResponse) × (query_health_check (to_daemon os dial s.daemon)
        ≡ ok ports)
      × ((k : Text)
          → Reported dial s.daemon k (published_at k s.daemon.files.state_file) (lookup k ports))
query_health_check-Reported vm_ip forward_list specs f s parsed run ready os dial =
    let (ports, answered, listed, kept) = query_health_check-serve os dial s.daemon in
    (
      ports,
      answered,
      λ k.
          subst (λ o. Reported dial s.daemon k o (lookup k ports))
            (sym (Reach-IsPublished vm_ip forward_list specs f s parsed run ready k))
            (subst (Reported dial s.daemon k (Option.map state_of (lookup k s.daemon.registry)))
              (sym (listed k))
              (registered-Reported dial s.daemon k (lookup k s.daemon.registry) refl)),
    )
