-- ===== src/Forward/Registry/Close.antt =====
-- `closeForwarders` closes every listener and empties the registry.
use mathlib.Core.Path.{subst}
use exasol_local_vm.Prelude.{ap, ℕ, true, false, [], ◌∷◌, ◌≡◌, refl, ◌∙◌}
use exasol_local_vm.Prelude.Map.{Map, lookup, delete, delete-head, lookup-head}
use exasol_local_vm.Forward.Registry.{
  Forwarder, Daemon, close_forwarder, unregister, close_all, close_forwarders,
}
use exasol_local_vm.Forward.Registry.WellFormed.{
  WellFormed, has_id, Distinct, unregister-WellFormed,
}

-- What is left of a daemon that is shut down.
pub record Closed (d d' : Daemon) : Type 0 where
  pub formed : WellFormed d'
  pub none_left : d'.registry ≡ []
  pub ready_kept : d'.ready ≡ d.ready
  pub stopping_kept : d'.stopping ≡ d.stopping

close_all-Closed :
    (m : Map Forwarder) (d : Daemon) → WellFormed d → d.registry ≡ m → Closed d (close_all m d)
unfolding close_all unregister close_forwarder
close_all-Closed [] d w e = record {
  formed = w;
  none_left = e;
  ready_kept = refl;
  stopping_kept = refl;
}
close_all-Closed ((k, f) ∷ m) d w e =
    let head = subst Distinct e w.distinct in
    let smaller = unregister-WellFormed k f d w (ap (lookup k) e ∙ lookup-head k f m) in
    let gone = ap (delete k) e ∙ delete-head k f m head.0 in
    let rest =
      close_all-Closed m (record (close_forwarder f d) { registry = delete k d.registry }) smaller
        gone in
    record {
      formed = rest.formed;
      none_left = rest.none_left;
      ready_kept = rest.ready_kept;
      stopping_kept = rest.stopping_kept;
    }

-- What `closeForwarders` leaves: nothing is registered, no listener is open, and the daemon is marked
-- as stopping and not ready.
pub record Stopped (d : Daemon) : Type 0 where
  pub formed : WellFormed d
  pub registry : d.registry ≡ []
  pub listeners : (i : ℕ) → d.listening i ≡ false
  pub ready : d.ready ≡ false
  pub stopping : d.stopping ≡ true

-- Closing the forwarders of a well-formed daemon leaves none registered and no listener open.
pub close_forwarders-Stopped : (d : Daemon) → WellFormed d → Stopped (close_forwarders d)
unfolding close_forwarders has_id
close_forwarders-Stopped d w =
    let c =
      close_all-Closed d.registry (record d { ready = false; stopping = true })
        (record { distinct = w.distinct; entries = w.entries; listeners = w.listeners }) refl in
    record {
      formed = c.formed;
      registry = c.none_left;
      ready = c.ready_kept;
      stopping = c.stopping_kept;
      listeners = λ i. c.formed.listeners i ∙ ap (has_id i) c.none_left;
    }
