-- ===== src/Forward/Registry.antt =====
-- launcher/mac/forwarding.go and forward_commands.go: the daemon's registry of forwarders and the
-- live requests on it. A forwarder is a value with an identity; whether its listener is open is a
-- fact of the daemon, so that a leaked listener can be seen. The registry's mutex makes each
-- function here one step.
pub mod WellFormed
pub mod Cases
pub mod Requests
pub mod Failures
pub mod Published
pub mod Effects
pub mod Refinement
pub mod Close
use exasol_local_vm.Prelude.{
  ℕ, zero, suc, ◌+◌, Text, codes, text_eq, Bool, true, false, not, ◌&&◌, List, [], ◌∷◌, Option,
  none, some, ◌==◌, if◌then◌else◌, ℤ, eqb_ℤ, Result, ok, err, is_nil,
}
use exasol_local_vm.Prelude.Map.{Map, lookup, insert, delete, map_values}
use exasol_local_vm.Std.Net.{canonical_loopback}
use exasol_local_vm.Forward.Spec.{ForwardSpec, SpecError, parse_forward_spec, encode_forward_spec}
use exasol_local_vm.Forward.StateFile.{
  ForwardState, Content, Files, FileCalls, FileError, save_forward_state,
}

-- `LoopbackForwarder`. `id` stands for the pointer, `port` for the port that the listener has.
pub record Forwarder : Type 0 where
  pub id : ℕ
  pub name : Text
  pub host_ip : Text
  pub requested_port : ℤ
  pub guest_host : Text
  pub guest_port : ℤ
  pub port : ℕ

-- The package's variables, the files, and the listeners that are open.
pub record Daemon : Type 0 where
  pub registry : Map Forwarder
  pub guest_host : Text
  pub ready : Bool
  pub stopping : Bool
  pub files : Files
  pub listening : ℕ → Bool
  pub next_id : ℕ

-- What the system answers: the port that is bound, or none, and the calls on files and listeners.
pub record Os : Type 0 where
  pub listen : Text → ℤ → Option ℕ
  pub close_listener : Bool
  pub file_calls : FileCalls

pub record ForwardRequest : Type 0 where
  pub request : Text
  pub name : Text
  pub guest_port : ℤ
  pub host_port : ℤ
  pub host_ip : Text

pub data ForwardError : Type 0 where
  not_ready not_loopback unknown_request close_failed : ForwardError
  invalid : SpecError → ForwardError
  different_settings : Text → ForwardError
  listen_failed : Text → ℤ → ForwardError
  not_saved : FileError → ForwardError

abbrev pub update : (ℕ → Bool) → ℕ → Bool → ℕ → Bool
update f i b j = if j == i then b else f j

abbrev pub opened : Daemon → Daemon
opened d = record d { listening = update d.listening d.next_id true; next_id = suc d.next_id }

-- `startForwarder`: the listener is open as soon as it is bound.
unfoldable pub start_forwarder :
    Os → Text → Text → ℤ → Text → ℤ → Daemon → Option (Forwarder × Daemon)
start_forwarder os name host_ip host_port guest_host guest_port d =
    elim (os.listen host_ip host_port) [
      | none ↦ none
      | some port ↦ some (
        record {
          id = d.next_id;
          name = name;
          host_ip = host_ip;
          requested_port = host_port;
          guest_host = guest_host;
          guest_port = guest_port;
          port = port;
        },
        opened d,
      )
    ]

-- `LoopbackForwarder.Close`: the listener is shut, whatever error its closing reports.
unfoldable pub close_forwarder : Forwarder → Daemon → Daemon
close_forwarder f d = record d { listening = update d.listening f.id false }

abbrev pub state_of : Forwarder → ForwardState
state_of f = record { host_ip = f.host_ip; guest_port = f.guest_port; host_port = f.port }

-- `forwardStatesLocked`
unfoldable pub forward_states : Daemon → Map ForwardState
forward_states d = map_values state_of d.registry

-- `saveForwardState` on the daemon's registry and files
unfoldable pub save : Os → Daemon → Result FileError (Unit {0}) × Daemon
save os d =
    let (r, f) = save_forward_state os.file_calls (forward_states d) d.files in
    (r, record d { files = f })

-- `registerForwarder`
unfoldable pub register_forwarder : Text → Forwarder → Daemon → Daemon
register_forwarder name f d = record d { registry = insert name f d.registry }

unfoldable pub unregister : Text → Daemon → Daemon
unregister name d = record d { registry = delete name d.registry }

abbrev pub Reply : Type 0
Reply = Option ForwardError × Daemon

-- The new forwarder stays if it was published, and is removed and closed again if not.
unfoldable pub finish_add : Forwarder → Result FileError (Unit {0}) × Daemon → Reply
finish_add f (ok _, d) = (none, d)
finish_add f (err e, d) = (some (not_saved e), close_forwarder f (unregister f.name d))

unfoldable pub commit_add : Os → Forwarder → Daemon → Reply
commit_add os f d = finish_add f (save os (register_forwarder f.name f d))

unfoldable pub add_new : Os → ForwardSpec → Text → Daemon → Reply
add_new os spec host_ip d =
    elim (start_forwarder os spec.name host_ip spec.host_port d.guest_host spec.guest_port d) [
      | none ↦ (some (listen_failed host_ip spec.host_port), d)
      | some (f, d') ↦ commit_add os f d'
    ]

unfoldable pub same_settings : Forwarder → ForwardSpec → Text → Bool
same_settings f spec host_ip =
    eqb_ℤ f.guest_port spec.guest_port
    && eqb_ℤ f.requested_port spec.host_port
    && text_eq f.host_ip host_ip

unfoldable pub add_checked : Os → ForwardSpec → Text → Daemon → Reply
add_checked os spec host_ip d = elim (lookup spec.name d.registry) [
  | some f ↦
      if same_settings f spec host_ip then (none, d) else (some (different_settings spec.name), d)
  | none ↦ add_new os spec host_ip d
]

abbrev pub or_default : Text → Text
or_default host_ip = if is_nil host_ip then codes "127.0.0.1" else host_ip

-- The request's settings in the form of the command line.
abbrev pub text_of : ForwardRequest → Text
text_of req =
    encode_forward_spec
      (record { name = req.name; guest_port = req.guest_port; host_port = req.host_port })

-- The case "forward-add" of `updateForward`.
unfoldable pub add_forward : Os → ForwardRequest → Daemon → Reply
add_forward os req d = elim (parse_forward_spec (text_of req)) [
  | err e ↦ (some (invalid e), d)
  | ok spec ↦ elim (canonical_loopback (or_default req.host_ip)) [
    | none ↦ (some not_loopback, d)
    | some host_ip ↦ add_checked os spec host_ip d
  ]
]

-- The forwarder is closed if its removal was published, and registered again if not.
unfoldable pub finish_remove : Os → Text → Forwarder → Result FileError (Unit {0}) × Daemon → Reply
finish_remove os name f (err e, d) = (some (not_saved e), register_forwarder name f d)
finish_remove os name f (ok _, d) =
    (if os.close_listener then none else some close_failed, close_forwarder f d)

unfoldable pub commit_remove : Os → Text → Forwarder → Daemon → Reply
commit_remove os name f d = finish_remove os name f (save os (unregister name d))

-- The case "forward-remove"; the name is used as it came.
unfoldable pub remove_forward : Os → Text → Daemon → Reply
remove_forward os name d = elim (lookup name d.registry) [
  | none ↦ (none, d)
  | some f ↦ commit_remove os name f d
]

-- `updateForward`
unfoldable pub update_forward : Os → ForwardRequest → Daemon → Reply
update_forward os req d =
    if text_eq req.request (codes "forward-list")
    then (none, d)
    else if text_eq req.request (codes "forward-add")
    then add_forward os req d
    else if text_eq req.request (codes "forward-remove")
    then remove_forward os req.name d
    else (some unknown_request, d)

-- `forwardResponse`: the forwards, or an error.
abbrev pub ForwardResponse : Type 0
ForwardResponse = Result ForwardError (Map ForwardState)

abbrev pub respond : Reply → ForwardResponse × Daemon
respond (none, d) = (ok (forward_states d), d)
respond (some e, d) = (err e, d)

unfoldable pub handle_if : Bool → Os → ForwardRequest → Daemon → ForwardResponse × Daemon
handle_if false os req d = (err not_ready, d)
handle_if true os req d = respond (update_forward os req d)

-- `handleForwardRequest`
unfoldable pub handle_forward_request : Os → ForwardRequest → Daemon → ForwardResponse × Daemon
unfolding handle_if
handle_forward_request os req d = handle_if d.ready os req d

-- `closeForwarders`
unfoldable pub close_all : Map Forwarder → Daemon → Daemon
unfolding close_forwarder
close_all [] d = d
close_all ((name, f) ∷ rest) d =
    close_all rest (record (close_forwarder f d) { registry = delete name d.registry })

unfoldable pub close_forwarders : Daemon → Daemon
unfolding close_all
close_forwarders d = close_all d.registry (record d { ready = false; stopping = true })
