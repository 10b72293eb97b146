-- ===== src/Tests/Parents.antt =====
-- launcher/mac/main.go: a start, its daemon, and what the parent sees of it.
use mathlib.Core.Path.{subst}
use exasol_local_vm.Prelude.{
  ◌+◌, ◌*◌, true, none, Text, codes, text_eq, ◌≡◌, ◌≢◌, refl, sym, [], ◌∷◌, List, some, false, pos,
  is_ok,
}
use exasol_local_vm.Std.Strings.{is_space, trim_space, split}
use exasol_local_vm.Std.Strconv.{atoi}
use exasol_local_vm.Std.Flag.{parse_flags}
use exasol_local_vm.Forward.Spec.{is_name_char, port_from, parse_forward_spec, set, has_name}
use exasol_local_vm.Forward.StateFile.{missing, write_vm_state, fill_temp}
use exasol_local_vm.Wait.{second, sleep_until}
use exasol_local_vm.Wait.Ssh.{wait_for_ssh_service, ssh_loop, timed_out, dial_failed}
use exasol_local_vm.Forward.Lifecycle.{
  SshWait, HasFailed, System, degraded, started, Reach, here, next, ssh_not_ready, publish,
  write_healthy,
}
use exasol_local_vm.Start.{Event, state_file, marker}
use exasol_local_vm.Start.Parent.{start_cmd-degraded}
use exasol_local_vm.Cli.Main.{
  start, command, start_flags, set_flags, dispatch_size, dispatch_positional, dispatch_forwards,
  dispatch_start, dispatch,
}
use exasol_local_vm.Tests.Lifecycles.{
  guest_ip, spec, initial, bound_daemon, states, ready_system, to_bound,
}
use exasol_local_vm.Tests.Starts.{run_start, run_start-files, crashed, host_calls, nobody}

abbrev pub start_line : List Text
start_line =
    codes "exasol-vm"
    ∷ codes "start"
    ∷ codes "--forward"
    ∷ codes "sql:8563:0"
    ∷ codes "4"
    ∷ codes "8192"
    ∷ codes "50"
    ∷ []

pub starts :
    dispatch false start_line ≡ command (start (codes "4") (codes "8192") (pos 50) (spec ∷ []))
unfolding dispatch dispatch_start start_flags set_flags dispatch_size dispatch_positional
    dispatch_forwards text_eq parse_flags set has_name parse_forward_spec split trim_space is_space
    atoi is_name_char port_from
starts = refl

-- The runs of Lifecycles, from the files that `start` leaves.
from_start :
    (event : Event) (s : System)
    → Reach guest_ip initial s
    → Reach guest_ip (started (run_start (spec ∷ []) event).1.files (spec ∷ [])) s
from_start event s r =
    subst (λ f. Reach guest_ip (started f (spec ∷ [])) s) (sym (run_start-files (spec ∷ []) event))
      r

pub file_there : state_file ≡ state_file → ready_system.daemon.files.state_file ≢ missing
unfolding publish write_healthy write_vm_state fill_temp
file_there e x = cc

abbrev no_ssh : Event
no_ssh = marker (codes "timed out")

-- A guest that never answers a dial.
abbrev silent : SshWait
silent = record {
  net = λ target. record {
    dial = λ t d. (false, t);
    set_deadline = λ t. true;
    read = λ t d. (none, t);
  };
  sleep = λ t d. t + 200 * second;
  now = 0;
}

has_failed : HasFailed guest_ip silent
unfolding wait_for_ssh_service ssh_loop sleep_until
has_failed = (timed_out (some dial_failed), 200 * second, refl)

abbrev without_ssh : System
without_ssh = record { daemon = bound_daemon; phase = degraded }

not_seen : no_ssh ≡ state_file → bound_daemon.files.state_file ≢ missing
not_seen e x = cc

start_cmd-degraded_example : is_ok (run_start (spec ∷ []) no_ssh).0 ≡ false
start_cmd-degraded_example =
    start_cmd-degraded host_calls nobody false start_line (codes "4") (codes "8192") (pos 50)
      (spec ∷ []) crashed no_ssh (some []) starts guest_ip without_ssh without_ssh
      (from_start no_ssh without_ssh
        (next (next here to_bound) (ssh_not_ready bound_daemon silent has_failed states)))
      refl here not_seen
