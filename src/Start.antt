-- ===== src/Start.antt =====
-- launcher/mac/main.go: `startCmd`, the parent process that prepares a start, launches the daemon and
-- waits for what becomes of it. What it prints, and the copy of the log on the terminal, are left out.
pub mod Clear
pub mod Launch
pub mod Parent
pub mod Tail
pub mod Monitors
pub mod Served
use exasol_local_vm.Prelude.{
  ℕ, Text, codes, Bool, true, false, not, ◌||◌, List, [], ◌∷◌, ◌++◌, Option, none, some,
  if◌then◌else◌, is_nil, ℤ, Result, ok, err,
}
use exasol_local_vm.Prelude.Effects.{Run, ◌>>=◌, ◌>>◌, return, ensure, modify, gets, some_or}
use exasol_local_vm.Std.Strings.{join}
use exasol_local_vm.Forward.Spec.{ForwardSpec, string}
use exasol_local_vm.Forward.StateFile.{Content, missing, Files}
use exasol_local_vm.Disk.{Disk, DiskCalls, DiskError, ensure_data_disk}
use exasol_local_vm.Socket.{Connection, is_vm_running}
use exasol_local_vm.Log.{read_last_lines}
use exasol_local_vm.Assets.{Tree, Archive, InitCalls, InitError, refresh_init_assets}
use exasol_local_vm.Init.{shared_dir}

-- What the launcher's directory holds: whether `vm` is there, the shared
-- directory's files, the data disk, `vm-state.json`,
-- `vm-runtime.json`, the marker of a degraded start, and `vm.log`; and the daemon that was launched.
pub record Host : Type 0 where
  pub initialized : Bool
  pub tree : Tree
  pub disk : Option Disk
  pub files : Files
  pub runtime : Option Text
  pub marker : Option Text
  pub log : Option Text
  pub launched : Option (List Text)

-- Which calls succeed, the embedded assets, and the path of the executable.
pub record StartCalls : Type 0 where
  pub files : InitCalls
  pub assets : Option Archive
  pub disk : DiskCalls
  pub executable : Option Text
  pub open_log : Bool
  pub remove : Bool
  pub start_process : Bool

-- How the daemon process ends: it cannot be waited for, it fails with a code, or it ends unasked.
pub data Exit : Type 0 where
  wait_failed unexpected : Exit
  failed : ℤ → Exit

pub data StartError : Type 0 where
  not_initialized already_running no_executable no_log stale_file no_process : StartError
  assets_failed : InitError → StartError
  disk_failed : DiskError → StartError
  timed_out : Text → StartError
  degraded : Text → StartError
  exited : Exit → Text → StartError

abbrev pub Start : Type 0 → Type 0
Start = Run Host StartError

unfoldable pub put_tree :
    Host → Result InitError (Unit {0}) × Tree → Result StartError (Unit {0}) × Host
put_tree h (ok _, tree) = (ok tt, record h { tree = tree })
put_tree h (err e, tree) = (err (assets_failed e), record h { tree = tree })

unfoldable pub refresh_assets : StartCalls → Start (Unit {0})
refresh_assets os h = put_tree h (refresh_init_assets os.files os.assets shared_dir h.tree)

unfoldable pub put_disk :
    Host → Result DiskError (Unit {0}) × Option Disk → Result StartError (Unit {0}) × Host
put_disk h (ok _, disk) = (ok tt, record h { disk = disk })
put_disk h (err e, disk) = (err (disk_failed e), record h { disk = disk })

unfoldable pub ensure_disk : StartCalls → ℤ → Start (Unit {0})
ensure_disk os size_gb h = put_disk h (ensure_data_disk os.disk size_gb h.disk)

abbrev pub is_missing : Content → Bool
is_missing missing = true
is_missing _ = false

abbrev pub is_none : Option Text → Bool
is_none none = true
is_none (some _) = false

-- A stale file is removed; that it is not there is no error.
unfoldable pub remove_state : StartCalls → Start (Unit {0})
remove_state os h =
    if is_missing h.files.state_file || os.remove
    then (ok tt, record h { files = record h.files { state_file = missing } })
    else (err stale_file, h)

unfoldable pub remove_runtime : StartCalls → Start (Unit {0})
remove_runtime os h =
    if is_none h.runtime || os.remove
    then (ok tt, record h { runtime = none })
    else (err stale_file, h)

unfoldable pub remove_marker : StartCalls → Start (Unit {0})
remove_marker os h =
    if is_none h.marker || os.remove
    then (ok tt, record h { marker = none })
    else (err stale_file, h)

unfoldable pub remove_stale : StartCalls → Start (Unit {0})
unfolding remove_state remove_runtime remove_marker
remove_stale os = do remove_state os; remove_runtime os; remove_marker os

-- Up to the launch: all checks, the disk, and the stale files. It ends with the executable's path.
unfoldable pub prepare : StartCalls → Connection → ℤ → Start Text
prepare os status size_gb = do
  initialized ← gets (λ h. h.initialized)
  ensure initialized not_initialized
  ensure (not (is_vm_running status)) already_running
  refresh_assets os
  ensure_disk os size_gb
  executable ← some_or os.executable no_executable
  ensure os.open_log no_log
  modify (λ h. record h { log = some [] })
  remove_stale os
  return executable

-- The command line of the daemon process.
abbrev pub daemon_args : Text → Text → Text → List ForwardSpec → List Text
daemon_args executable cpu_count ram_size forwards =
    executable ∷ codes "__daemon__" ∷ cpu_count ∷ ram_size ∷ string forwards ∷ []

unfoldable pub launch :
    StartCalls → Connection → Text → Text → ℤ → List ForwardSpec → Start (Unit {0})
launch os status cpu_count ram_size size_gb forwards = do
  executable ← prepare os status size_gb
  ensure os.start_process no_process
  modify (λ h. record h { launched = some (daemon_args executable cpu_count ram_size forwards) })

-- What the parent receives first: the state file is there, or was not within the timeout; the marker
-- of a degraded start; the end of the daemon.
pub data Event : Type 0 where
  state_file timeout : Event
  marker : Text → Event
  exit : Exit → Event

-- The marker's content, if it can be read, counts from when it holds an error.
unfoldable pub marker_error : Option Text → Option Text
marker_error none = none
marker_error (some error) = if is_nil error then none else some error

abbrev pub context_of : Option (List Text) → Text
context_of none = []
context_of (some lines) =
    if is_nil lines then [] else codes "\n\nLast 20 lines from vm.log:\n" ++ join lines (b'\n' ∷ [])

unfoldable pub log_context : Option Text → Text
log_context log = context_of (read_last_lines log 20)

unfoldable pub exit_context : Exit → Option Text → Text
exit_context (failed code) log = log_context log
exit_context _ log = []

unfoldable pub verdict : Event → Option Text → Result StartError (Unit {0})
unfolding log_context exit_context
verdict state_file log = ok tt
verdict timeout log = err (timed_out (log_context log))
verdict (marker error) log = err (degraded error)
verdict (exit x) log = err (exited x (exit_context x log))

-- `startCmd`, given the first event and the log at that time.
unfoldable pub start_cmd :
    StartCalls
    → Connection
    → Text
    → Text
    → ℤ
    → List ForwardSpec
    → Event
    → Option Text
    → Start (Unit {0})
start_cmd os status cpu_count ram_size size_gb forwards event log = do
  launch os status cpu_count ram_size size_gb forwards
  λ h. (verdict event log, record h { log = log })

-- `writeDaemonDegradedMarker`, given whether the file can be opened and written: the error that the
-- file holds. A write that fails leaves no error that could be read.
unfoldable pub write_degraded_marker : Bool → Bool → Text → Option Text → Option Text
write_degraded_marker opens writes error file =
    if opens then (if writes then some error else some []) else file
