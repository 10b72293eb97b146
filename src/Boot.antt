-- ===== src/Boot.antt =====
-- launcher/mac/main.go, `runVMDaemon` up to the VM's address: the status socket, the arguments, the
-- files, the machine and its start. The signal handler, which may end the process at any time, is left
-- out here, and so is what vz and the guest do to files.
pub mod Devices
pub mod Configured
pub mod Booted
pub mod Outcome
use exasol_local_vm.Prelude.{
  ℕ, Text, codes, Bool, true, false, not, ◌||◌, List, [], ◌∷◌, Option, none, some, if◌then◌else◌, ℤ,
  pos, Result, ok, err,
}
use exasol_local_vm.Prelude.Effects.{Run, ◌>>=◌, ◌>>◌, return, ensure, modify, gets, some_or}
use exasol_local_vm.Std.Strconv.{atoi, itoa, parse_uint}
use exasol_local_vm.Std.Path.{join_path, abs, is_abs}
use exasol_local_vm.Shell.{RuntimeConfig}
use exasol_local_vm.Assets.{Tree}
use exasol_local_vm.Init.{ConfigError, load_runtime_config, shared_dir}
use exasol_local_vm.Forward.Spec.{ForwardSpec, SpecError, parse_forward_specs}
use exasol_local_vm.Boot.Devices.{
  VzCalls, DeviceError, Store, boot_loader, serial_port, storage, network, share, VmConfig,
  configure,
}

-- The daemon's files: the runtime configuration, the socket and whether only its owner may use it, the
-- console log, whether the shared directory is there, `vm.pid` and `vm-runtime.json`.
pub record Boot : Type 0 where
  pub tree : Tree
  pub socket : Option Bool
  pub console : Option Text
  pub shared : Bool
  pub pid_file : Option Text
  pub runtime : Option Text

-- Which calls succeed, the working directory, what is there of the directory `vm`, and the process.
pub record BootCalls : Type 0 where
  pub listen : Bool
  pub chmod_socket : Bool
  pub remove : Bool
  pub work_dir : Option Text
  pub is_file : Text → Bool
  pub truncate : Bool
  pub make_dir : Bool
  pub write_pid : Bool
  pub pid : ℕ

pub data BootError : Type 0 where
  no_runtime_config : ConfigError → BootError
  bad_forwards : SpecError → BootError
  no_socket open_socket bad_cpu_count bad_ram_size no_path console_not_cleared no_shared_dir :
      BootError
  no_disk_image : Text → BootError
  device_failed : DeviceError → BootError
  no_machine not_started : BootError

abbrev pub Booting : Type 0 → Type 0
Booting = Run Boot BootError

-- A step that leaves the files alone.
unfoldable pub lift : {A : Type 0} {E : Type 0} → (E → BootError) → Result E A → Booting A
lift f (ok a) s = (ok a, s)
lift f (err e) s = (err (f e), s)

-- `startStatusListener`: a stale socket is removed, if that works, and a socket that cannot be
-- restricted to its owner is closed, which removes it.
unfoldable pub start_status_listener : BootCalls → Booting (Unit {0})
start_status_listener os = do
  modify (λ s. record s { socket = if os.remove then none else s.socket })
  ensure os.listen no_socket
  modify (λ s. record s { socket = some false })
  λ s.
      if os.chmod_socket
      then (ok tt, record s { socket = some true })
      else (err open_socket, record s { socket = none })

-- The arguments, and the socket between them.
unfoldable pub parse_arguments : BootCalls → Text → Text → Text → Booting (List ForwardSpec × ℤ × ℕ)
parse_arguments os cpu_count ram_size encoded = do
  tree ← gets (λ s. s.tree)
  config ← lift no_runtime_config (load_runtime_config tree)
  specs ← lift bad_forwards (parse_forward_specs encoded)
  start_status_listener os
  cpus ← some_or (atoi cpu_count) bad_cpu_count
  ram ← some_or (parse_uint ram_size) bad_ram_size
  return (specs, cpus, ram)

-- `filepath.Abs`
unfoldable pub absolute : BootCalls → Text → Option Text
absolute os path =
    if is_abs path
    then some (abs [] path)
    else elim os.work_dir [ none ↦ none | some dir ↦ some (abs dir path) ]

abbrev pub disk_path : Text
disk_path = codes "vm/disk.img"

abbrev pub data_path : Text
data_path = codes "vm/data.img"

abbrev pub store_path : Text
store_path = codes "vm/efi-nvram.bin"

unfoldable pub verify_disk : BootCalls → Booting Text
verify_disk os = do
  path ← some_or (absolute os disk_path) no_path
  ensure (os.is_file path) (no_disk_image path)
  return path

-- `os.Truncate` of the console log, which need not be there.
unfoldable pub clear_console : BootCalls → Booting (Unit {0})
clear_console os s = elim s.console [
  | none ↦ (ok tt, s)
  | some log ↦
      if os.truncate then (ok tt, record s { console = some [] }) else (err console_not_cleared, s)
]

-- The data disk, if its path can be found and it is there.
unfoldable pub find_data_disk : BootCalls → Option Text
unfolding absolute
find_data_disk os = elim (absolute os data_path) [
  | none ↦ none
  | some path ↦ if os.is_file path then some path else none
]

unfoldable pub ensure_shared_dir : BootCalls → Booting Text
ensure_shared_dir os = do
  there ← gets (λ s. s.shared)
  ensure (there || os.make_dir) no_shared_dir
  modify (λ s. record s { shared = true })
  some_or (absolute os shared_dir) no_path

-- From the arguments to a configuration that is valid.
unfoldable pub configure_machine : BootCalls → VzCalls → ℤ → ℕ → Booting VmConfig
configure_machine os vz cpus ram = do
  disk ← verify_disk os
  store ← lift device_failed (boot_loader vz (os.is_file store_path))
  clear_console os
  lift device_failed (serial_port vz)
  disks ← lift device_failed (storage vz (find_data_disk os) disk)
  lift device_failed (network vz)
  dir ← ensure_shared_dir os
  shared ← lift device_failed (share vz dir)
  lift device_failed (configure vz store cpus ram disks shared)

-- A failed write of the PID file is only warned about.
unfoldable pub write_pid_file : BootCalls → Booting (Unit {0})
write_pid_file os =
    modify (λ s. if os.write_pid then record s { pid_file = some (itoa (pos os.pid)) } else s)

-- The deferred functions of a daemon that returns.
unfoldable pub cleaned :
    {A : Type 0} → (Boot → Boot) → Result BootError A × Boot → Result BootError A × Boot
cleaned f (ok a, s) = (ok a, s)
cleaned f (err e, s) = (err e, f s)

unfoldable pub or_clean : {A : Type 0} → (Boot → Boot) → Booting A → Booting A
or_clean f m s = cleaned f (m s)

abbrev pub without_pid : BootCalls → Boot → Boot
without_pid os s = record s { pid_file = if os.remove then none else s.pid_file }

abbrev pub without_runtime : BootCalls → Boot → Boot
without_runtime os s = record s { runtime = if os.remove then none else s.runtime }

unfoldable pub start_machine : BootCalls → VzCalls → Booting (Unit {0})
start_machine os vz = do write_pid_file os; or_clean (without_pid os) (ensure vz.start not_started)

-- `runVMDaemon` up to the start of the machine.
unfoldable pub boot :
    BootCalls → VzCalls → Text → Text → Text → Booting (List ForwardSpec × VmConfig)
boot os vz cpu_count ram_size encoded = or_clean (without_runtime os) (do
  (specs, cpus, ram) ← parse_arguments os cpu_count ram_size encoded
  config ← configure_machine os vz cpus ram
  ensure vz.machine no_machine
  start_machine os vz
  return (specs, config))
