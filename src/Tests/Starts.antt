-- ===== src/Tests/Starts.antt =====
-- launcher/mac/main.go: a start that succeeds.
use exasol_local_vm.Prelude.{
  Text, Result, ◌*◌, codes, text_eq, ◌≡◌, refl, [], ◌∷◌, List, none, some, true, false, pos, is_ok,
  mul_int64, of_bits,
}
use exasol_local_vm.Forward.Spec.{ForwardSpec}
use exasol_local_vm.Forward.StateFile.{object, raw, missing}
use exasol_local_vm.Disk.{gib, truncate, size_bytes, grow, ensure_existing, ensure_data_disk}
use exasol_local_vm.Socket.{Connection, is_vm_running}
use exasol_local_vm.Start.{
  daemon_args, Event, Host, StartCalls, state_file, put_tree, refresh_assets, put_disk, ensure_disk,
  remove_state, remove_runtime, remove_marker, remove_stale, StartError, prepare, launch, verdict,
  start_cmd,
}
use exasol_local_vm.Start.Launch.{IsLaunched, start_cmd-IsLaunched}
use exasol_local_vm.Prelude.Map.{lookup, insert, delete}
use exasol_local_vm.Std.Strings.{join, split}
use exasol_local_vm.Std.Path.{join_path, dir, clean}
use exasol_local_vm.Assets.{
  file, put_file, place, entry_path, place_at, extract, extract_tar_xz, remove_all, legacy_paths,
  refresh_init_assets,
}
use exasol_local_vm.Tests.Inits.{init_calls, assets}
use exasol_local_vm.Tests.Disks.{calls}

-- A launcher's directory after a daemon that died, and a disk of 20 GB.
abbrev pub crashed : Host
crashed = record {
  initialized = true;
  tree = (codes "vm-shared/slc.json", file [] false) ∷ [];
  disk = some (record { size = 20 * gib; byte = λ i. 7 });
  files = record { state_file = object ((codes "cpu_count", raw (codes "2")) ∷ []); temp = none };
  runtime = some (codes "{}");
  marker = some (codes "boot failed");
  log = some (codes "old");
  launched = none;
}

abbrev pub host_calls : StartCalls
host_calls = record {
  files = init_calls;
  assets = some assets;
  disk = calls;
  executable = some (codes "/opt/exasol-vm");
  open_log = true;
  remove = true;
  start_process = true;
}

-- Nothing listens on the socket.
abbrev pub nobody : Connection
nobody = record { connects = false; sends = false; received = λ req. none }

abbrev pub database : List ForwardSpec
database = record { name = codes "db"; guest_port = pos 8563; host_port = pos 0 } ∷ []

-- One run of `start`, up to its forwards and what the parent sees first.
abbrev pub run_start : List ForwardSpec → Event → Result StartError (Unit {0}) × Host
run_start forwards event =
    start_cmd host_calls nobody (codes "4") (codes "8192") (pos 50) forwards event (some []) crashed

pub run_start-files :
    (forwards : List ForwardSpec) (event : Event)
    → (run_start forwards event).1.files ≡ record { state_file = missing; temp = none }
unfolding start_cmd launch prepare refresh_assets put_tree refresh_init_assets remove_all
    legacy_paths delete ensure_disk put_disk remove_stale remove_state remove_runtime remove_marker
    verdict is_vm_running ensure_data_disk ensure_existing grow truncate size_bytes mul_int64
    of_bits extract_tar_xz extract place_at place entry_path put_file join_path dir clean text_eq
    insert lookup join split
run_start-files forwards event = refl

abbrev pub launched_args : List ForwardSpec → List Text
launched_args = daemon_args (codes "/opt/exasol-vm") (codes "4") (codes "8192")

pub run_start-launched :
    (forwards : List ForwardSpec)
    → (run_start forwards state_file).1.launched ≡ some (launched_args forwards)
unfolding start_cmd launch prepare refresh_assets put_tree refresh_init_assets remove_all
    legacy_paths delete ensure_disk put_disk remove_stale remove_state remove_runtime remove_marker
    verdict is_vm_running ensure_data_disk ensure_existing grow truncate size_bytes mul_int64
    of_bits extract_tar_xz extract place_at place entry_path put_file join_path dir clean text_eq
    insert lookup join split
run_start-launched forwards = refl

pub succeeds : (forwards : List ForwardSpec) → is_ok (run_start forwards state_file).0 ≡ true
unfolding start_cmd launch prepare refresh_assets put_tree refresh_init_assets remove_all
    legacy_paths delete ensure_disk put_disk remove_stale remove_state remove_runtime remove_marker
    verdict is_vm_running ensure_data_disk ensure_existing grow truncate size_bytes mul_int64
    of_bits extract_tar_xz extract place_at place entry_path put_file join_path dir clean text_eq
    insert lookup join split
succeeds forwards = refl

pub launches :
    (forwards : List ForwardSpec)
    → is_ok (launch host_calls nobody (codes "4") (codes "8192") (pos 50) forwards crashed).0 ≡ true
unfolding launch prepare refresh_assets put_tree refresh_init_assets remove_all legacy_paths delete
    ensure_disk put_disk remove_stale remove_state remove_runtime remove_marker verdict
    is_vm_running ensure_data_disk ensure_existing grow truncate size_bytes mul_int64 of_bits
    extract_tar_xz extract place_at place entry_path put_file join_path dir clean text_eq insert
    lookup join split
launches forwards = refl

start_cmd-IsLaunched_example :
    (state_file ≡ state_file)
    × IsLaunched host_calls nobody
        (codes "4")
        (codes "8192")
        (pos 50)
        database
        crashed
        (run_start database state_file).1
start_cmd-IsLaunched_example =
    start_cmd-IsLaunched host_calls nobody (codes "4") (codes "8192") (pos 50) database crashed
      state_file (some []) (succeeds database)
