-- ===== src/Tests/VmDaemons.antt =====
-- launcher/mac/main.go: a daemon from its launch to its end.
use exasol_local_vm.Prelude.{◌+◌, Text, codes, ◌≡◌, refl, [], ◌∷◌, some, true, ok, Option}
use exasol_local_vm.Std.Strings.{index, has_prefix, trim_space, split}
use exasol_local_vm.Std.Net.{parse_ip, parse_field}
use exasol_local_vm.Forward.Lifecycle.{vm_stopped}
use exasol_local_vm.Wait.{Sleep}
use exasol_local_vm.Wait.InitOutput.{
  InitOutput, Console, wait_for_init_output, init_loop, read_console, settle, find_output,
  find_start, find_end, slice, check_output,
}
use exasol_local_vm.Wait.Stop.{StopAnswers, Machine}
use exasol_local_vm.VmDaemon.{
  Process, forwarding, launched_process, booted, initialised, ran, returns, HandlerCalls, Runs,
  here, next, returned, alive,
}
use exasol_local_vm.VmDaemon.Returned.{IsGone, Runs-IsGone}
use exasol_local_vm.VmDaemon.Stops.{Stops}
use exasol_local_vm.Tests.Lifecycles.{
  guest_ip, spec, no_files, bound_system, ready_system, ssh_wait, to_bound, to_ready,
}
use exasol_local_vm.Tests.Boots.{working_os, working_vz, before, after, made, boots_lem}

abbrev sleep : Sleep
sleep t d = t + d

abbrev decode : Text → Option InitOutput
decode s = some (record { ip = guest_ip })

abbrev console : Console
console t = some (codes "=== INIT OUTPUT START ===\n{}\n=== INIT OUTPUT END ===\n")

initialises : wait_for_init_output decode console sleep 300 0 ≡ some (ok (record { ip = guest_ip }))
unfolding wait_for_init_output init_loop read_console settle find_output find_start find_end slice
    check_output index has_prefix trim_space parse_ip split parse_field
initialises = refl

abbrev RunsTo : Process → Type 0
RunsTo =
    Runs working_os working_vz (codes "4") (codes "8192") (codes "sql:8563:0")
      (launched_process before no_files)

-- The machine is started, its address is known, and the forward is published.
pub serving :
    (p : Process) × RunsTo p
    × (p.system ≡ ready_system)
    × (p.main ≡ forwarding guest_ip)
    × (p.life ≡ alive)
unfolding to_bound to_ready
serving = (
  _,
  next
      (next
        (next (next here (booted (spec ∷ []) made after refl refl boots_lem))
          (initialised decode console sleep 0 (record { ip = guest_ip }) refl refl initialises))
        (ran guest_ip bound_system to_bound refl refl refl))
      (ran guest_ip ready_system to_ready refl refl refl),
  refl,
  refl,
  refl,
)

-- The machine stops, and the daemon returns.
stopped : (p : Process) × RunsTo p × (p.life ≡ returned)
unfolding serving
stopped = (
  _,
  next (next serving.1 (ran guest_ip _ (vm_stopped ready_system.daemon ssh_wait) refl refl refl))
      (returns guest_ip refl refl refl),
  refl,
)

Runs-IsGone_example : IsGone before stopped.0
Runs-IsGone_example =
    Runs-IsGone working_os working_vz (codes "4") (codes "8192") (codes "sql:8563:0") before
      no_files refl stopped.0 stopped.1 stopped.2

-- A signal: the guest takes the poweroff, and has stopped at the first look.
abbrev answers : StopAnswers
answers = record { poweroff = true; can_request_stop = true; request_stop = true; can_stop = true }

abbrev machine : Machine
machine = record { requested = λ t. some t; stopped = λ t. (true, t) }

abbrev calls : HandlerCalls
calls = record { answers = answers; machine = machine; sleep = sleep; now = 0 }
