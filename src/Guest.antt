-- ===== src/Guest.antt =====
-- launcher/mac/main.go: `runCmd` and `setGuestClock`, commands that `ssh` runs in the guest. What `ssh`
-- makes of its arguments is an argument.
pub mod Access
pub mod Clock
use exasol_local_vm.Prelude.{
  ℕ, Text, codes, List, [], ◌∷◌, Option, none, some, ℤ, Result, ok, err, ◌>>=◌, Bool, false,
}
use exasol_local_vm.Std.Strconv.{itoa}
use exasol_local_vm.Std.Net.{Ip, parse_ip}
use exasol_local_vm.Shell.{VmRuntimeState, RuntimeConfig, ssh_args}
use exasol_local_vm.Assets.{Tree}
use exasol_local_vm.Init.{ConfigError, load_runtime_config}

-- The file `vm-runtime.json`, decoded where it can be.
pub data RuntimeFile : Type 0 where
  unreadable malformed : RuntimeFile
  decoded : VmRuntimeState → RuntimeFile

-- `ssh` ends well, or with an exit code, or could not be run.
abbrev pub SshEnd : Type 0
SshEnd = Result (Option ℕ) (Unit {0})

pub data RunError : Type 0 where
  no_state bad_state : RunError
  bad_address : Text → RunError
  no_config : ConfigError → RunError
  failed : Option ℕ → RunError

unfoldable pub checked_state : VmRuntimeState → Option Ip → Result RunError VmRuntimeState
checked_state state none = err (bad_address state.ip)
checked_state state (some ip) = ok state

-- `loadVMRuntimeState`
unfoldable pub load_vm_runtime_state : RuntimeFile → Result RunError VmRuntimeState
unfolding checked_state
load_vm_runtime_state unreadable = err no_state
load_vm_runtime_state malformed = err bad_state
load_vm_runtime_state (decoded state) = checked_state state (parse_ip state.ip)

abbrev pub config_or_error : Result ConfigError RuntimeConfig → Result RunError RuntimeConfig
config_or_error (ok config) = ok config
config_or_error (err e) = err (no_config e)

abbrev pub run_ended : SshEnd → Result RunError (Unit {0})
run_ended (ok _) = ok tt
run_ended (err code) = err (failed code)

-- The arguments of `ssh` in `runCmd`.
unfoldable pub run_args : RuntimeFile → Tree → List Text → Bool → Result RunError (List Text)
run_args file tree command allocate_tty = do
  state ← load_vm_runtime_state file
  config ← config_or_error (load_runtime_config tree)
  ok (ssh_args state config command allocate_tty)

-- `runCmd`
unfoldable pub run_cmd :
    (List Text → SshEnd) → RuntimeFile → Tree → List Text → Bool → Result RunError (Unit {0})
unfolding run_args
run_cmd ssh file tree command allocate_tty = do
  args ← run_args file tree command allocate_tty
  run_ended (ssh args)

-- What `main` sees of the error of a run: the exit code of `ssh` inside it, if there is one.
abbrev pub exit_error : Result RunError (Unit {0}) → SshEnd
exit_error (ok _) = ok tt
exit_error (err (failed code)) = err code
exit_error (err _) = err none

-- The command of `setGuestClock`, at a Unix time in seconds.
unfoldable pub clock_command : ℤ → List Text
clock_command seconds = codes "date" ∷ codes "-u" ∷ codes "-s" ∷ (b'@' ∷ itoa seconds) ∷ []

-- `setGuestClock`
unfoldable pub set_guest_clock : (List Text → SshEnd) → VmRuntimeState → RuntimeConfig → ℤ → SshEnd
unfolding clock_command
set_guest_clock ssh state config seconds = ssh (ssh_args state config (clock_command seconds) false)
