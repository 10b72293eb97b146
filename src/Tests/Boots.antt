-- ===== src/Tests/Boots.antt =====
-- launcher/mac/main.go: a daemon with a data disk that starts its machine.
use exasol_local_vm.Prelude.{
  codes, text_eq, ◌≡◌, refl, [], ◌∷◌, List, none, some, true, false, pos, ok, err, arith, Result,
  ◌*◌,
}
use exasol_local_vm.Prelude.Map.{lookup}
use exasol_local_vm.Std.Strings.{is_space, trim_space, split, join}
use exasol_local_vm.Std.Strconv.{atoi, itoa, parse_uint}
use exasol_local_vm.Std.Path.{join_path, abs, clean}
use exasol_local_vm.Init.{load_runtime_config}
use exasol_local_vm.Forward.Spec.{
  ForwardSpec, is_name_char, port_from, has_name, set, set_all, parse_forward_spec,
  parse_forward_specs,
}
use exasol_local_vm.Boot.Devices.{
  VzCalls, loaded, boot_loader, serial_port, block_device, storage, network, share, to_uint64,
  megabytes, VmConfig, validated, configure, invalid,
}
use exasol_local_vm.Boot.{
  Boot, BootCalls, BootError, device_failed, lift, start_status_listener, parse_arguments, absolute,
  verify_disk, clear_console, find_data_disk, ensure_shared_dir, configure_machine, write_pid_file,
  cleaned, or_clean, start_machine, boot,
}
use exasol_local_vm.Boot.Outcome.{Outcome, boot-Outcome}

abbrev pub working_vz : VzCalls
working_vz = record {
  load_store = true;
  create_store = true;
  boot_loader = true;
  serial_attachment = true;
  serial_port = true;
  disk_attachment = λ p. true;
  block_device = λ p. true;
  nat_attachment = true;
  network_device = true;
  entropy_device = true;
  shared_directory = λ p. true;
  directory_share = true;
  file_system_device = true;
  configuration = λ c m. true;
  validate = some true;
  machine = true;
  start = true;
}

abbrev pub working_os : BootCalls
working_os = record {
  listen = true;
  chmod_socket = true;
  remove = true;
  work_dir = some (codes "/opt");
  is_file = λ p. true;
  truncate = true;
  make_dir = true;
  write_pid = true;
  pid = 7;
}

abbrev pub before : Boot
before = record {
  tree = [];
  socket = some false;
  console = some (codes "VM_IP=10.0.0.1");
  shared = false;
  pid_file = none;
  runtime = some (codes "{}");
}

abbrev pub after : Boot
after = record before {
  socket = some true;
  console = some [];
  shared = true;
  pid_file = some (codes "7");
}

abbrev pub database : List ForwardSpec
database = record { name = codes "sql"; guest_port = pos 8563; host_port = pos 0 } ∷ []

abbrev pub made : VmConfig
made = record {
  store = loaded;
  cpu_count = 4;
  memory = 8192 * 1048576;
  disks = codes "/opt/vm/data.img" ∷ codes "/opt/vm/disk.img" ∷ [];
  share = (codes "hostshare", codes "/opt/vm-shared");
}

run : VzCalls → Result BootError (List ForwardSpec × VmConfig) × Boot
unfolding boot or_clean cleaned parse_arguments lift load_runtime_config lookup parse_forward_specs
    set_all set has_name parse_forward_spec split trim_space is_space atoi is_name_char port_from
    start_status_listener parse_uint configure_machine verify_disk absolute abs join_path clean join
    boot_loader clear_console serial_port find_data_disk storage block_device network
    ensure_shared_dir share configure validated to_uint64 megabytes start_machine write_pid_file
    itoa text_eq
run vz = boot working_os vz (codes "4") (codes "8192") (codes "sql:8563:0") before

boots : run working_vz ≡ (ok (database, made), after)
unfolding run
boots = refl

pub boots_lem :
    boot working_os working_vz (codes "4") (codes "8192") (codes "sql:8563:0") before
    ≡ (ok (database, made), after)
unfolding run
boots_lem = boots

-- With an invalid configuration the runtime file is removed, no PID file is left, and no machine is made.
unbootable :
    run (record working_vz { validate = some false })
    ≡ (err (device_failed invalid), record after { pid_file = none; runtime = none })
unfolding run
unbootable = refl

boot-Outcome_example : Outcome working_os 4 8192 (codes "sql:8563:0") before (run working_vz)
unfolding run atoi parse_uint
boot-Outcome_example =
    boot-Outcome working_os working_vz (codes "4") (codes "8192") (codes "sql:8563:0") 4 8192 refl
      (omega arith) refl (omega arith) before
