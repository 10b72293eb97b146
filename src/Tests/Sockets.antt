-- ===== src/Tests/Sockets.antt =====
-- launcher/mac/main.go: clients of the status socket.
use exasol_local_vm.Prelude.{codes, ◌≡◌, Text, [], ◌∷◌, true, false, some, ok}
use exasol_local_vm.Prelude.Map.{Map, lookup}
use exasol_local_vm.Forward.Registry.WellFormed.{WellFormed}
use exasol_local_vm.Forward.Registry.Published.{IsPublished}
use exasol_local_vm.Socket.{
  to_daemon, DialFailure, Dial, PortHealthResponse, serve, query_health_check,
}
use exasol_local_vm.Socket.Health.{serve-IsPublished}
use exasol_local_vm.Socket.Reported.{Reported, query_health_check-Reported}
use exasol_local_vm.Forward.Registry.Published.{published_at}
use exasol_local_vm.Tests.Lifecycles.{
  guest_ip, spec, no_files, ready_system, parsed, reaches, is_ready,
}
use exasol_local_vm.Tests.Requests.{
  system, system_binds, started, started-WellFormed, started-IsPublished, add_database,
}

abbrev pub refused : DialFailure
refused = record {
  net_timeout = false;
  deadline_exceeded = false;
  refused = true;
  not_permitted = false;
  access_denied = false;
  host_unreachable = false;
  network_unreachable = false;
}

abbrev pub dial : Dial
dial host port = some refused

query_health_check-Reported_example :
    (ports : Map PortHealthResponse) × (query_health_check
        (to_daemon system dial ready_system.daemon)
      ≡ ok ports)
    × ((k : Text)
        → Reported dial ready_system.daemon k
            (published_at k ready_system.daemon.files.state_file)
            (lookup k ports))
query_health_check-Reported_example =
    query_health_check-Reported guest_ip (codes "sql:8563:0") (spec ∷ []) no_files ready_system
      parsed reaches is_ready system dial

serve-IsPublished_example :
    WellFormed (serve system dial (some add_database) started).1
    × IsPublished (serve system dial (some add_database) started).1
serve-IsPublished_example =
    serve-IsPublished system dial started (some add_database) system_binds started-WellFormed
      started-IsPublished
