-- ===== src/Tests/Reacheds.antt =====
-- launcher/mac/forward_commands.go: `forward add` at a daemon that serves one forward.
use exasol_local_vm.Prelude.{codes, text_eq, ◌≡◌, refl, [], ◌∷◌, some, pos, ok}
use exasol_local_vm.Prelude.Map.{Map, lookup, insert, delete, map_values}
use exasol_local_vm.Std.Strings.{is_space, trim_space, split, join}
use exasol_local_vm.Std.Strconv.{atoi, itoa}
use exasol_local_vm.Std.Net.{
  canonical_loopback, parse_ip, is_loopback, loopback_string, quad_string, to4, parse_field,
}
use exasol_local_vm.Std.Flag.{parse_flags, value_of}
use exasol_local_vm.Forward.Spec.{is_name_char, port_from, parse_forward_spec, encode_forward_spec}
use exasol_local_vm.Forward.StateFile.{
  ForwardState, write_vm_state, update_content, save_forward_state, fill_temp,
}
use exasol_local_vm.Forward.Registry.{
  start_forwarder, close_forwarder, forward_states, save, register_forwarder, unregister,
  finish_add, commit_add, add_new, same_settings, add_checked, add_forward, finish_remove,
  commit_remove, remove_forward, update_forward, handle_forward_request,
}
use exasol_local_vm.Forward.Lifecycle.{started, Reach, publish, write_healthy}
use exasol_local_vm.Socket.{to_daemon, serve}
use exasol_local_vm.Cli.ForwardCommand.{
  forward_cmd, receive, parse_forward_command, parse_add, add_flags, add_request, is_loopback_text,
}
use exasol_local_vm.Cli.ForwardCommand.Reached.{IsGranted, forward_cmd-IsGranted}
use exasol_local_vm.Tests.Requests.{system, system_binds}
use exasol_local_vm.Tests.Sockets.{dial}
use exasol_local_vm.Tests.Commands.{add_line, add_database, parses}
use exasol_local_vm.Tests.Lifecycles.{guest_ip, spec, no_files, ready_system, parsed, reaches}

abbrev both : Map ForwardState
both =
    (codes "sql", record { host_ip = codes "127.0.0.1"; guest_port = pos 8563; host_port = 50000 })
    ∷ (
      codes "database",
      record { host_ip = codes "127.0.0.2"; guest_port = pos 8563; host_port = 18563 },
    )
    ∷ []

granted : forward_cmd add_line (to_daemon system dial ready_system.daemon) ≡ ok both
unfolding forward_cmd receive serve handle_forward_request update_forward text_eq add_forward
    parse_forward_spec split trim_space is_space atoi itoa is_name_char port_from
    encode_forward_spec canonical_loopback parse_ip is_loopback loopback_string quad_string to4
    parse_field join add_checked lookup add_new start_forwarder commit_add finish_add save
    save_forward_state update_content write_vm_state fill_temp insert delete register_forwarder
    unregister close_forwarder forward_states map_values same_settings remove_forward commit_remove
    finish_remove publish write_healthy parse_forward_command parse_add parse_flags add_flags
    add_request is_loopback_text value_of
granted = refl

forward_cmd-IsGranted_example :
    IsGranted add_database ready_system.daemon
      (serve system dial (some add_database) ready_system.daemon).1
      both
    × Reach guest_ip (started no_files (spec ∷ [])) (record ready_system {
      daemon = (serve system dial (some add_database) ready_system.daemon).1;
    })
forward_cmd-IsGranted_example =
    forward_cmd-IsGranted guest_ip (codes "sql:8563:0") (spec ∷ []) no_files ready_system parsed
      reaches system dial system_binds add_line add_database both parses granted
