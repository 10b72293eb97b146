-- ===== src/Tests/Probings.antt =====
-- launcher/mac/forwarding.go: a health check of two forwards whose probes overlap.
use exasol_local_vm.Prelude.{
  ◌≤◌, ◌*◌, ◌⊎◌, length, ℕ, ◌+◌, Text, codes, text_eq, ◌≡◌, ◌==◌, if◌then◌else◌, refl, [], ◌∷◌,
  none, some, pos, negsuc,
}
use exasol_local_vm.Prelude.Map.{lookup, insert, delete}
use exasol_local_vm.Forward.Registry.{Forwarder, Daemon}
use exasol_local_vm.Socket.{Dial, probe, classify_dial_err, probe_forwarders}
use exasol_local_vm.Socket.Probing.{
  Advance, Probes, dialed, stored, Runs, here, next, spawned, IsFinished,
}
use exasol_local_vm.Socket.Probing.Ends.{Runs-probe_forwarders}
use exasol_local_vm.Tests.Requests.{started}
use exasol_local_vm.Tests.Sockets.{refused}

abbrev forwarder : Text → ℕ → ℕ → Forwarder
forwarder name i guest_port = record {
  id = i;
  name = name;
  host_ip = codes "127.0.0.1";
  requested_port = pos 0;
  guest_host = codes "192.168.64.2";
  guest_port = pos guest_port;
  port = 50000 + i;
}

abbrev ssh : Forwarder
ssh = forwarder (codes "ssh") 0 22

abbrev database : Forwarder
database = forwarder (codes "sql") 1 8563

abbrev serving : Daemon
serving = record started { registry = (codes "ssh", ssh) ∷ (codes "sql", database) ∷ [] }

-- Nothing listens on the port of the database.
abbrev dial : Dial
dial host (pos n) = if n == 22 then none else some refused
dial host (negsuc n) = some refused

-- Both dial, and the database is answered first.
finished : (s : Probes) × Runs dial (spawned serving) 4 s × IsFinished s
unfolding lookup insert delete text_eq probe classify_dial_err
finished = (
  _,
  next
      (next (next (next here (dialed (codes "sql") database refl)) (dialed (codes "ssh") ssh refl))
        (stored (codes "sql") (codes "refused") refl))
      (stored (codes "ssh") (codes "reachable") refl),
  (refl, refl),
)

Runs-probe_forwarders_example :
    (4 ≤ 2 * length serving.registry)
    × (((t : Probes) × Advance dial finished.0 t)
        ⊎ (IsFinished finished.0
            × ((k : Text) → lookup k finished.0.result ≡ lookup k (probe_forwarders dial serving))))
Runs-probe_forwarders_example = Runs-probe_forwarders dial serving finished.0 4 finished.1
