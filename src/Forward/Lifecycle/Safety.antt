-- ===== src/Forward/Lifecycle/Safety.antt =====
-- What holds in every state that the daemon can reach, however its goroutines interleave.
use exasol_local_vm.Prelude.{Text, true, false, ◌&&◌, List, [], ◌∷◌, ◌≡◌, refl, inl, inr, arith, ok}
use exasol_local_vm.Prelude.Map.{lookup}
use exasol_local_vm.Forward.Spec.{ForwardSpec, parse_forward_specs}
use exasol_local_vm.Forward.Spec.Lists.{parse_forward_specs_sound}
use exasol_local_vm.Forward.StateFile.{Files}
use exasol_local_vm.Forward.Registry.{Daemon}
use exasol_local_vm.Forward.Registry.WellFormed.{WellFormed, has_id}
use exasol_local_vm.Forward.Registry.Published.{IsPublished}
use exasol_local_vm.Forward.Lifecycle.{
  Phase, starting, serving, degraded, ended, System, started, Reach, here, next,
}
use exasol_local_vm.Forward.Lifecycle.Invariant.{Fresh, InPhase, Inv}
use exasol_local_vm.Forward.Lifecycle.Preservation.{Step-Inv}

pub Reach-Inv : (vm_ip : Text) {s t : System} → Reach vm_ip s t → Inv s → Inv t
Reach-Inv vm_ip here i = i
Reach-Inv vm_ip (next r x) i = Step-Inv vm_ip x (Reach-Inv vm_ip r i)

IsPublished-when_ready : (d : Daemon) (p : Phase) → InPhase d p → d.ready ≡ true → IsPublished d
IsPublished-when_ready d (starting rest states) h e = absurd (ground (arith, h.idle))
IsPublished-when_ready d (serving wait) (inl h) e = absurd (ground arith)
IsPublished-when_ready d (serving wait) (inr h) e = h
IsPublished-when_ready d degraded h e = absurd (ground arith)
IsPublished-when_ready d ended h e = absurd (ground arith)

no_entries : (rest : List ForwardSpec) (f : Files) → Fresh (started f []).daemon rest
unfolding lookup
no_entries [] f = tt
no_entries (spec ∷ rest) f = (refl, no_entries rest f)

pub started-Inv :
    (forward_list : Text) (specs : List ForwardSpec) (f : Files)
    → parse_forward_specs forward_list ≡ ok specs
    → Inv (started f specs)
unfolding lookup has_id
started-Inv forward_list specs f h =
    let (valid, distinct) = parse_forward_specs_sound forward_list h in
    record {
      formed = record { distinct = tt; entries = tt; listeners = λ i. refl };
      not_both = refl;
      phase = record {
        idle = refl;
        valid = valid;
        distinct = distinct;
        fresh = no_entries specs f;
        collected = inr (λ k. refl);
      };
    }

module _ (vm_ip forward_list : Text) (specs : List ForwardSpec) (f : Files) (s : System)
    (h : parse_forward_specs forward_list ≡ ok specs) (r : Reach vm_ip (started f specs) s) where
  -- Whatever the daemon has done since it started with a parsed list of forwards, its registry is
  -- well formed: names and identities differ, settings are valid, and exactly the registered forwards
  -- are listening.
  pub Reach-WellFormed : WellFormed s.daemon
  Reach-WellFormed = (Reach-Inv vm_ip r (started-Inv forward_list specs f h)).formed

  -- Whenever a daemon that started with a parsed list of forwards is ready, `vm-state.json` lists
  -- exactly the registered forwards.
  pub Reach-IsPublished : s.daemon.ready ≡ true → IsPublished s.daemon
  Reach-IsPublished e =
      IsPublished-when_ready s.daemon s.phase
        (Reach-Inv vm_ip r (started-Inv forward_list specs f h)).phase e

  -- A daemon that started with a parsed list of forwards and has begun to stop is never ready.
  pub Reach-stopping : (s.daemon.stopping && s.daemon.ready) ≡ false
  Reach-stopping = (Reach-Inv vm_ip r (started-Inv forward_list specs f h)).not_both
