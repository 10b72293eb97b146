-- ===== src/Socket/Probing.antt =====
-- launcher/mac/forwarding.go, `probeForwarders`: one goroutine for each forwarder of the snapshot, a
-- mutex around the result, and a wait for all of them.
pub mod Places
pub mod Ends
use mathlib.Core.Path.{subst}
use mathlib.Core.Option
use exasol_local_vm.Prelude.{
  ℕ, ◌+◌, ◌*◌, ◌≤◌, ◌<◌, suc, Text, text_eq, text_eq_iff, false, [], ◌∷◌, Option, none, some, ◌≡◌,
  refl, sym, ◌∙◌, ap, ◌⊎◌, inl, inr, arith, length, Bool-cases,
}
use exasol_local_vm.Prelude.Map.{
  Map, lookup, insert, delete, lookup-insert, lookup-delete, lookup-insert_self, lookup-delete_self,
  lookup-head, lookup-map_values,
}
use exasol_local_vm.Forward.Registry.{Forwarder, Daemon}
use exasol_local_vm.Socket.{Dial, probe, PortHealthResponse, probe_forwarders}

-- The goroutines that dial, those that have an answer and wait for the mutex, and the result.
pub record Probes : Type 0 where
  pub dialing : Map Forwarder
  pub answered : Map Text
  pub result : Map PortHealthResponse

module _ (dial : Dial) where
  -- What any one of the goroutines does next.
  pub data Advance (s : Probes) : Probes → Type 0 where
    dialed :
        (name : Text) (f : Forwarder)
        → lookup name s.dialing ≡ some f
        → Advance s (record s {
          dialing = delete name s.dialing;
          answered = insert name (probe dial f) s.answered;
        })
    stored :
        (name state : Text)
        → lookup name s.answered ≡ some state
        → Advance s (record s {
          answered = delete name s.answered;
          result = insert name (record { state = state }) s.result;
        })

  -- A run, with the number of its steps.
  pub data Runs (s : Probes) : ℕ → Probes → Type 0 where
    here : Runs s 0 s
    next : {t u : Probes} {n : ℕ} → Runs s n t → Advance t u → Runs s (suc n) u

-- All goroutines are spawned, and none has begun.
abbrev pub spawned : Daemon → Probes
spawned d = record { dialing = d.registry; answered = []; result = [] }

-- `wg.Wait` returns.
abbrev pub IsFinished : Probes → Type 0
IsFinished s = (s.dialing ≡ []) × (s.answered ≡ [])
