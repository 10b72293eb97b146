-- ===== src/Tests/Requests.antt =====
-- launcher/mac/forward_commands.go: live requests on a ready daemon.
use exasol_local_vm.Prelude.{
  ℕ, zero, suc, codes, text_eq, ◌≡◌, refl, [], ◌∷◌, Text, ok, err, ℤ, pos, negsuc, Option, none,
  some, true, false, is_ok, arith, if◌then◌else◌, ◌⊎◌,
}
use exasol_local_vm.Prelude.Map.{Map, lookup, insert, delete, map_values}
use exasol_local_vm.Std.Strings.{is_space, trim_space, split, join}
use exasol_local_vm.Std.Strconv.{atoi, itoa}
use exasol_local_vm.Std.Net.{
  canonical_loopback, parse_ip, is_loopback, loopback_string, quad_string, to4, parse_field,
}
use exasol_local_vm.Forward.Spec.{is_name_char, port_from, parse_forward_spec, encode_forward_spec}
use exasol_local_vm.Forward.StateFile.{
  ForwardState, raw, forwards, object, FileCalls, rename_failed, write_vm_state, update_content,
  save_forward_state,
}
use exasol_local_vm.Forward.StateFile.Atomic.{entry, save_atomic}
use exasol_local_vm.Forward.Registry.{
  Daemon, Os, not_saved, ForwardRequest, ForwardResponse, start_forwarder, close_forwarder,
  forward_states, save, register_forwarder, unregister, finish_add, commit_add, add_new,
  same_settings, add_checked, add_forward, finish_remove, commit_remove, remove_forward,
  update_forward, handle_forward_request,
}
use exasol_local_vm.Forward.Registry.WellFormed.{WellFormed, has_id}
use exasol_local_vm.Forward.Registry.Requests.{BindsExactly, handle_forward_request-WellFormed}
use exasol_local_vm.Forward.Registry.Failures.{Same, handle_forward_request_failed}
use exasol_local_vm.Forward.Registry.Published.{view, IsPublished}
use exasol_local_vm.Forward.Registry.Effects.{handle_forward_request_again}
use exasol_local_vm.Forward.Registry.Refinement.{Refines, handle_forward_request-Refines}

abbrev pub all_well : FileCalls
all_well = record {
  read = true;
  create_temp = true;
  write = true;
  chmod = true;
  close = true;
  rename = true;
  remove = true;
}

-- Host port 0 gets port 50000; every other port is free.
abbrev pub bind : Text → ℤ → Option ℕ
bind ip (pos zero) = some 50000
bind ip (pos (suc n)) = some (suc n)
bind ip (negsuc n) = none

abbrev pub system : Os
system = record { listen = bind; close_listener = true; file_calls = all_well }

abbrev full_disk : Os
full_disk = record {
  listen = bind;
  close_listener = true;
  file_calls = record all_well { rename = false };
}

pub system_binds : BindsExactly system
system_binds ip p q h = ground arith

full_disk_binds : BindsExactly full_disk
full_disk_binds ip p q h = ground arith

abbrev pub started : Daemon
started = record {
  registry = [];
  guest_host = codes "192.168.64.2";
  ready = true;
  stopping = false;
  files = record { state_file = object ((codes "cpu_count", raw (codes "2")) ∷ []); temp = none };
  listening = λ i. false;
  next_id = 0;
}

pub started-WellFormed : WellFormed started
unfolding has_id
started-WellFormed = record { distinct = tt; entries = tt; listeners = λ i. refl }

pub started-IsPublished : IsPublished started
unfolding lookup text_eq
started-IsPublished k = refl

abbrev pub add_database : ForwardRequest
add_database = record {
  request = codes "forward-add";
  name = codes "database";
  guest_port = pos 8563;
  host_port = pos 18563;
  host_ip = codes "::ffff:127.0.0.1";
}

abbrev remove_database : ForwardRequest
remove_database = record {
  request = codes "forward-remove";
  name = codes "database";
  guest_port = pos 0;
  host_port = pos 0;
  host_ip = [];
}

abbrev published_database : Map ForwardState
published_database =
    (
      codes "database",
      record { host_ip = codes "127.0.0.1"; guest_port = pos 8563; host_port = 18563 },
    )
    ∷ []

pub run : Os → ForwardRequest → Daemon → ForwardResponse × Daemon
unfolding handle_forward_request update_forward text_eq add_forward parse_forward_spec split
    trim_space is_space atoi itoa is_name_char port_from encode_forward_spec canonical_loopback
    parse_ip is_loopback loopback_string quad_string to4 parse_field join add_checked lookup add_new
    start_forwarder commit_add finish_add save save_forward_state update_content write_vm_state
    insert delete register_forwarder unregister close_forwarder forward_states map_values
    same_settings remove_forward commit_remove finish_remove
run = handle_forward_request

abbrev pub with_database : Daemon
with_database = (handle_forward_request system add_database started).1

added_answer : (handle_forward_request system add_database started).0 ≡ ok published_database
unfolding run
added_answer = refl

published_file :
    (run system add_database started).1.files.state_file
    ≡ object (
        (codes "cpu_count", raw (codes "2")) ∷ (codes "forwards", forwards published_database) ∷ [])
unfolding run
published_file = refl

rolled_back :
    (handle_forward_request full_disk add_database started).0 ≡ err (not_saved rename_failed)
unfolding run
rolled_back = refl

removed_answer : (handle_forward_request system remove_database with_database).0 ≡ ok []
unfolding run
removed_answer = refl

save_atomic_example :
    let o = save_forward_state all_well published_database started.files in
    (is_ok o.0 ≡ true)
      × (entry (codes "cpu_count") o.1.state_file ≡ (
          if text_eq (codes "cpu_count") (codes "forwards")
          then some (forwards published_database)
          else entry (codes "cpu_count") started.files.state_file))
    ⊎ (is_ok o.0 ≡ false) × (o.1.state_file ≡ started.files.state_file)
save_atomic_example = save_atomic all_well published_database started.files (codes "cpu_count")

pub with_database-WellFormed : WellFormed with_database
with_database-WellFormed =
    handle_forward_request-WellFormed system add_database started system_binds started-WellFormed

handle_forward_request_failed_example :
    Same started (handle_forward_request full_disk add_database started).1
handle_forward_request_failed_example =
    handle_forward_request_failed full_disk add_database started started-WellFormed rolled_back (cc)

handle_forward_request_again_example :
    handle_forward_request full_disk add_database with_database
    ≡ (ok published_database, with_database)
handle_forward_request_again_example =
    handle_forward_request_again system full_disk add_database started added_answer

handle_forward_request-Refines_example :
    Refines remove_database with_database
      (handle_forward_request system remove_database with_database).1
    × ((k : Text)
        → lookup {V = ForwardState} k []
          ≡ view (handle_forward_request system remove_database with_database).1 k)
handle_forward_request-Refines_example =
    handle_forward_request-Refines system remove_database with_database system_binds
      with_database-WellFormed removed_answer
