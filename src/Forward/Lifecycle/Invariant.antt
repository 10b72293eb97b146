-- ===== src/Forward/Lifecycle/Invariant.antt =====
-- The invariant of the daemon's lifecycle, which every step of either goroutine keeps.
use mathlib.Core.Path.{subst}
use exasol_local_vm.Prelude.{
  ℕ, Text, text_eq_iff, true, false, ◌&&◌, List, [], ◌∷◌, none, some, ◌≡◌, sym, ◌∙◌, ◌⊎◌, inl, inr,
  arith, ℤ, All, Option-cases,
}
use exasol_local_vm.Prelude.Map.{Map, lookup, insert, lookup-insert}
use exasol_local_vm.Forward.Spec.{ForwardSpec, IsValid, has_name, DistinctNames}
use exasol_local_vm.Forward.StateFile.{ForwardState}
use exasol_local_vm.Forward.Registry.{
  Forwarder, Daemon, Os, ForwardRequest, opened, state_of, start_forwarder, register_forwarder,
  handle_forward_request, handle_if, close_forwarders,
}
use exasol_local_vm.Forward.Registry.WellFormed.{WellFormed}
use exasol_local_vm.Forward.Registry.Published.{
  view, IsPublished, handle_forward_request-IsPublished,
}
use exasol_local_vm.Forward.Registry.Effects.{handle_forward_request-flags}
use exasol_local_vm.Forward.Registry.Close.{Stopped, close_forwarders-Stopped}
use exasol_local_vm.Forward.Lifecycle.{
  Phase, starting, serving, degraded, ended, System, registered,
}

abbrev pub Fresh : Daemon → List ForwardSpec → Type 0
Fresh d = All (λ spec. lookup spec.name d.registry ≡ none)

-- The states that the startup loop has collected are those of the registry, as long as no signal
-- has emptied it.
pub record IsStarting (d : Daemon) (rest : List ForwardSpec) (states : Map ForwardState)
    : Type 0 where
  pub idle : d.ready ≡ false
  pub valid : All IsValid rest
  pub distinct : DistinctNames rest
  pub fresh : Fresh d rest
  pub collected : (d.stopping ≡ true) ⊎ ((k : Text) → lookup k states ≡ view d k)

abbrev pub InPhase : Daemon → Phase → Type 0
InPhase d (starting rest states) = IsStarting d rest states
InPhase d (serving wait) = (d.ready ≡ false) ⊎ IsPublished d
InPhase d degraded = d.ready ≡ false
InPhase d ended = d.ready ≡ false

pub record Inv (s : System) : Type 0 where
  pub formed : WellFormed s.daemon
  pub not_both : (s.daemon.stopping && s.daemon.ready) ≡ false
  pub phase : InPhase s.daemon s.phase

pub started_forwarder :
    (os : Os) (name ip : Text) (port : ℤ) (guest : Text) (guest_port : ℤ) (d d' : Daemon)
    (f : Forwarder)
    → start_forwarder os name ip port guest guest_port d ≡ some (f, d')
    → (q : ℕ) × (os.listen ip port ≡ some q)
      × (d' ≡ opened d)
      × (f ≡ record {
        id = d.next_id;
        name = name;
        host_ip = ip;
        requested_port = port;
        guest_host = guest;
        guest_port = guest_port;
        port = q;
      })
unfolding start_forwarder
started_forwarder os name ip port guest guest_port d d' f h =
    elim (Option-cases (os.listen ip port)) [
      | inl e ↦ absurd (ground arith)
      | inr (q, e) ↦ (q, e, ground arith, ground arith)
    ]

pub Fresh-after :
    (d : Daemon) (f : Forwarder) (rest : List ForwardSpec)
    → has_name f.name rest ≡ false
    → Fresh d rest
    → Fresh (registered f (opened d)) rest
unfolding has_name register_forwarder
Fresh-after d f [] h x = tt
Fresh-after d f (spec ∷ rest) h (hs, x) = (
  ground (arith, lookup-insert spec.name f.name f d.registry, text_eq_iff spec.name f.name),
  Fresh-after d f rest (ground arith) x,
)

pub Collected-after :
    (d : Daemon) (f : Forwarder) (states : Map ForwardState)
    → ((k : Text) → lookup k states ≡ view d k)
    → (k : Text) → lookup k (insert f.name (state_of f) states) ≡ view (registered f (opened d)) k
unfolding register_forwarder
Collected-after d f states h k =
    ground
      (arith, lookup-insert k f.name (state_of f) states, lookup-insert k f.name f d.registry, h k)

close_forwarders-Fresh : (d : Daemon) → Stopped d → (rest : List ForwardSpec) → Fresh d rest
unfolding lookup
close_forwarders-Fresh d s [] = tt
close_forwarders-Fresh d s (spec ∷ rest) = (rw s.registry, close_forwarders-Fresh d s rest)

pub signal-InPhase :
    (d : Daemon) (p : Phase) → WellFormed d → InPhase d p → InPhase (close_forwarders d) p
signal-InPhase d (starting rest states) w h =
    let s = close_forwarders-Stopped d w in
    record {
      idle = s.ready;
      valid = h.valid;
      distinct = h.distinct;
      fresh = close_forwarders-Fresh _ s rest;
      collected = inl s.stopping;
    }
signal-InPhase d (serving wait) w h = inl (close_forwarders-Stopped d w).ready
signal-InPhase d degraded w h = (close_forwarders-Stopped d w).ready
signal-InPhase d ended w h = (close_forwarders-Stopped d w).ready

pub stopped-Inv :
    (d : Daemon) (p : Phase)
    → WellFormed d
    → InPhase (close_forwarders d) p
    → Inv (record { daemon = close_forwarders d; phase = p })
stopped-Inv d p w h =
    let s = close_forwarders-Stopped d w in
    record { formed = s.formed; not_both = rw (s.stopping, s.ready); phase = h }

pub idle_request :
    (os : Os) (req : ForwardRequest) (d : Daemon)
    → d.ready ≡ false
    → (handle_forward_request os req d).1 ≡ d
unfolding handle_forward_request handle_if
idle_request os req d h = ground arith

pub request-InPhase :
    (d : Daemon) (p : Phase) (os : Os) (req : ForwardRequest)
    → WellFormed d
    → InPhase d p
    → InPhase (handle_forward_request os req d).1 p
request-InPhase d (starting rest states) os req w h =
    subst (λ x. IsStarting x rest states) (sym (idle_request os req d h.idle)) h
request-InPhase d (serving wait) os req w (inl h) =
    inl ((handle_forward_request-flags os req d).0 ∙ h)
request-InPhase d (serving wait) os req w (inr h) =
    inr (handle_forward_request-IsPublished os req d w h)
request-InPhase d degraded os req w h = (handle_forward_request-flags os req d).0 ∙ h
request-InPhase d ended os req w h = (handle_forward_request-flags os req d).0 ∙ h
