-- ===== src/Tests/Lifecycles.antt =====
-- launcher/mac/main.go: a daemon that starts with one forward, and stops.
use exasol_local_vm.Prelude.{
  codes, ◌≡◌, refl, [], ◌∷◌, Text, ok, pos, none, some, true, ◌+◌, text_eq,
}
use exasol_local_vm.Prelude.Map.{Map, insert}
use exasol_local_vm.Std.Strings.{is_space, trim_space, split}
use exasol_local_vm.Std.Strconv.{atoi}
use exasol_local_vm.Std.Strings.{has_prefix}
use exasol_local_vm.Wait.Ssh.{wait_for_ssh_service, ssh_loop, read_banner}
use exasol_local_vm.Wait.Stop.{ssh_target}
use exasol_local_vm.Forward.Spec.{
  ForwardSpec, is_name_char, port_from, parse_forward_spec, has_name, set, set_all,
  parse_forward_specs,
}
use exasol_local_vm.Forward.StateFile.{ForwardState, missing, Files, write_vm_state, fill_temp}
use exasol_local_vm.Forward.Registry.{
  Forwarder, opened, state_of, Daemon, start_forwarder, register_forwarder,
}
use exasol_local_vm.Forward.Registry.WellFormed.{WellFormed}
use exasol_local_vm.Forward.Registry.Published.{IsPublished}
use exasol_local_vm.Forward.Lifecycle.{
  starting, serving, loopback_ip, registered, System, Step, bind, ssh_ready, SshWait, Reach, here,
  next, started, write_healthy, publish,
}
use exasol_local_vm.Forward.Lifecycle.Safety.{Reach-WellFormed, Reach-IsPublished}
use exasol_local_vm.Tests.Requests.{all_well, system, system_binds}

abbrev pub guest_ip : Text
guest_ip = codes "192.168.64.2"

abbrev pub spec : ForwardSpec
spec = record { name = codes "sql"; guest_port = pos 8563; host_port = pos 0 }

pub parsed : parse_forward_specs (codes "sql:8563:0") ≡ ok (spec ∷ [])
unfolding parse_forward_specs set_all set parse_forward_spec split trim_space is_space atoi
    is_name_char port_from has_name
parsed = refl

abbrev pub no_files : Files
no_files = record { state_file = missing; temp = none }

abbrev pub initial : System
initial = started no_files (spec ∷ [])

abbrev forwarder : Forwarder
forwarder = record {
  id = 0;
  name = codes "sql";
  host_ip = loopback_ip;
  requested_port = pos 0;
  guest_host = guest_ip;
  guest_port = pos 8563;
  port = 50000;
}

abbrev pub bound_daemon : Daemon
bound_daemon = registered forwarder (opened initial.daemon)

abbrev pub states : Map ForwardState
states = insert (codes "sql") (state_of forwarder) []

abbrev pub bound_system : System
bound_system = record { daemon = bound_daemon; phase = starting [] states }

abbrev pub written : Files
written = (write_healthy all_well [] states no_files).1

-- A guest whose SSH answers at once, at the address that it has reported, and no other.
abbrev pub ssh_wait : SshWait
ssh_wait = record {
  net = λ target. record {
    dial = λ t d. (text_eq target (codes "192.168.64.2:22"), t);
    set_deadline = λ t. true;
    read = λ t d. (some (codes "SSH-2.0-OpenSSH_9.7"), t);
  };
  sleep = λ t d. t + d;
  now = 0;
}

abbrev pub ready_system : System
ready_system = record { daemon = publish guest_ip written bound_daemon; phase = serving ssh_wait }

unfoldable pub to_bound : Step guest_ip initial bound_system
unfolding start_forwarder
to_bound = bind initial.daemon (opened initial.daemon) system spec [] [] forwarder system_binds refl

unfoldable pub to_ready : Step guest_ip bound_system ready_system
unfolding write_healthy write_vm_state fill_temp register_forwarder wait_for_ssh_service ssh_loop
    read_banner has_prefix text_eq ssh_target
to_ready = ssh_ready bound_daemon ssh_wait (0, refl) all_well [] states written refl

pub reaches : Reach guest_ip initial ready_system
reaches = next (next here to_bound) to_ready

Reach-WellFormed_example : WellFormed ready_system.daemon
Reach-WellFormed_example =
    Reach-WellFormed guest_ip (codes "sql:8563:0") (spec ∷ []) no_files ready_system parsed reaches

pub is_ready : ready_system.daemon.ready ≡ true
unfolding publish register_forwarder
is_ready = refl

Reach-IsPublished_example : IsPublished ready_system.daemon
Reach-IsPublished_example =
    Reach-IsPublished guest_ip (codes "sql:8563:0") (spec ∷ []) no_files ready_system parsed reaches
      is_ready
