-- ===== src/Tests/Commands.antt =====
-- launcher/mac/main.go and launcher/mac/forward_commands.go: command lines.
use exasol_local_vm.Prelude.{Text, codes, text_eq, ◌≡◌, refl, [], ◌∷◌, List, false, pos, ◌≤ℤ◌, ok}
use exasol_local_vm.Std.Strings.{is_space, trim_space, split}
use exasol_local_vm.Std.Strconv.{atoi}
use exasol_local_vm.Std.Net.{parse_ip, is_loopback, to4, parse_field}
use exasol_local_vm.Std.Flag.{parse_flags, value_of}
use exasol_local_vm.Forward.Spec.{
  ForwardSpec, is_name_char, port_from, parse_forward_spec, parse_forward_specs, set, has_name,
}
use exasol_local_vm.Forward.Registry.{ForwardRequest}
use exasol_local_vm.Cli.ForwardCommand.{
  parse_forward_command, parse_add, add_flags, add_request, is_loopback_text,
}
use exasol_local_vm.Start.{daemon_args}
use exasol_local_vm.Cli.Main.{
  start, daemon, command, start_flags, set_flags, dispatch_size, dispatch_positional,
  dispatch_forwards, dispatch_start, dispatch,
}
use exasol_local_vm.Cli.Main.Daemon.{dispatch-daemon_args}

abbrev pub add_line : List Text
add_line = codes "add" ∷ codes "--host-ip=127.0.0.2" ∷ codes "database:8563:18563" ∷ []

abbrev pub add_database : ForwardRequest
add_database = record {
  request = codes "forward-add";
  name = codes "database";
  guest_port = pos 8563;
  host_port = pos 18563;
  host_ip = codes "127.0.0.2";
}

pub parses : parse_forward_command add_line ≡ ok add_database
unfolding parse_forward_command parse_add add_flags add_request is_loopback_text text_eq parse_flags
    parse_forward_spec split trim_space is_space atoi is_name_char port_from parse_ip is_loopback
    to4 value_of parse_field
parses = refl

abbrev start_line : List Text
start_line =
    codes "exasol-vm"
    ∷ codes "start"
    ∷ codes "--forward"
    ∷ codes "db:8563:0"
    ∷ codes "--forward=web:443:18443"
    ∷ codes "4"
    ∷ codes "8192"
    ∷ codes "50"
    ∷ []

abbrev two_forwards : List ForwardSpec
two_forwards =
    record { name = codes "db"; guest_port = pos 8563; host_port = pos 0 }
    ∷ record { name = codes "web"; guest_port = pos 443; host_port = pos 18443 }
    ∷ []

starts :
    dispatch false start_line ≡ command (start (codes "4") (codes "8192") (pos 50) two_forwards)
unfolding dispatch dispatch_start start_flags set_flags dispatch_size dispatch_positional
    dispatch_forwards text_eq parse_flags set has_name parse_forward_spec split trim_space is_space
    atoi is_name_char port_from
starts = refl

dispatch-daemon_args_example :
    (pos 1 ≤ℤ pos 50)
    × (encoded : Text) × (dispatch false
          (daemon_args (codes "/opt/exasol-vm") (codes "4") (codes "8192") two_forwards)
        ≡ command (daemon (codes "4") (codes "8192") encoded))
    × (parse_forward_specs encoded ≡ ok two_forwards)
dispatch-daemon_args_example =
    dispatch-daemon_args false false start_line (codes "/opt/exasol-vm") (codes "4") (codes "8192")
      (pos 50) two_forwards starts
