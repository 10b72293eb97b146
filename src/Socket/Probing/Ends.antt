-- ===== src/Socket/Probing/Ends.antt =====
-- The runs of `probeForwarders` end, and how.
use exasol_local_vm.Prelude.{
  ℕ, ◌+◌, ◌*◌, ◌≤◌, ◌<◌, suc, Text, [], ◌∷◌, some, ◌≡◌, refl, ◌∙◌, ap, ◌⊎◌, inl, inr, arith, length,
}
use exasol_local_vm.Prelude.Map.{Map, lookup, insert, delete, lookup-head}
use exasol_local_vm.Forward.Registry.{Forwarder, Daemon}
use exasol_local_vm.Socket.{Dial, probe, probe_forwarders}
use exasol_local_vm.Socket.Probing.{
  Probes, Advance, dialed, stored, Runs, here, next, spawned, IsFinished,
}
use exasol_local_vm.Socket.Probing.Places.{finished-probe_forwarders}

length-delete_le : {V : Type 0} (k : Text) (m : Map V) → length (delete k m) ≤ length m
unfolding delete
length-delete_le k [] = omega arith
length-delete_le k ((j, v) ∷ m) = ground (arith, length-delete_le k m)

length-delete_lt :
    {V : Type 0} (k : Text) (v : V) (m : Map V)
    → lookup k m ≡ some v
    → length (delete k m) < length m
unfolding lookup delete
length-delete_lt k v [] h = cc
length-delete_lt k v ((j, w) ∷ m) h = ground (arith, length-delete_lt k v m, length-delete_le k m)

length-insert_le :
    {V : Type 0} (k : Text) (v : V) (m : Map V) → length (insert k v m) ≤ suc (length m)
unfolding insert
length-insert_le k v [] = omega arith
length-insert_le k v ((j, w) ∷ m) = ground (arith, length-insert_le k v m)

-- The steps that the goroutines can still make, at most.
abbrev pub steps_left : Probes → ℕ
steps_left s = 2 * length s.dialing + length s.answered

Advance-steps_left : (dial : Dial) {s t : Probes} → Advance dial s t → steps_left t < steps_left s
Advance-steps_left dial {s} (dialed name f found) =
    let a = length-delete_lt name f s.dialing found in
    let b = length-insert_le name (probe dial f) s.answered in omega arith
Advance-steps_left dial {s} (stored name state found) =
    let a = length-delete_lt name state s.answered found in omega arith

Runs-steps_left :
    (dial : Dial) {s t : Probes} {n : ℕ} → Runs dial s n t → n + steps_left t ≤ steps_left s
Runs-steps_left dial here = omega arith
Runs-steps_left dial (next r m) =
    let a = Runs-steps_left dial r in let b = Advance-steps_left dial m in omega arith

-- Some goroutine can go on, until all have finished.
progress :
    (dial : Dial) (dialing : Map Forwarder) (answered : Map Text) (s : Probes)
    → s.dialing ≡ dialing
    → s.answered ≡ answered
    → IsFinished s ⊎ ((t : Probes) × Advance dial s t)
progress dial [] [] s a b = inl (a, b)
progress dial ((k, f) ∷ m) answered s a b =
    inr (_, dialed k f (ap (λ x. lookup k x) a ∙ lookup-head k f m))
progress dial [] ((k, v) ∷ m) s a b =
    inr (_, stored k v (ap (λ x. lookup k x) b ∙ lookup-head k v m))

-- However the goroutines of a health check are interleaved: they have made at most two steps for each
-- forward, and either one of them can go on, or all have finished, and the result has for each name what
-- dialing the forwarders one after the other gives.
pub Runs-probe_forwarders :
    (dial : Dial) (d : Daemon) (s : Probes) (n : ℕ)
    → Runs dial (spawned d) n s
    → (n ≤ 2 * length d.registry)
      × (((t : Probes) × Advance dial s t)
          ⊎ (IsFinished s × ((k : Text) → lookup k s.result ≡ lookup k (probe_forwarders dial d))))
Runs-probe_forwarders dial d s n r = (
  let a = Runs-steps_left dial r in omega arith,
  elim (progress dial s.dialing s.answered s refl refl) [
    | inl done ↦ inr (done, finished-probe_forwarders dial d r done)
    | inr more ↦ inl more
  ],
)
