-- ===== src/Cli/ForwardCommand.antt =====
-- launcher/mac/forward_commands.go: `parseForwardCommand` and `forwardCmd`, the client of live requests.
pub mod Requests
pub mod Served
pub mod Reached
use exasol_local_vm.Prelude.{
  Text, codes, text_eq, Bool, true, false, List, [], ◌∷◌, ◌++◌, Option, none, some, if◌then◌else◌,
  pos, Result, ok, err, guard, ◌>>=◌, ◌>>◌,
}
use exasol_local_vm.Prelude.Map.{Map}
use exasol_local_vm.Std.Flag.{Flags, Kind, valued, Parsed, parse_flags, value_of}
use exasol_local_vm.Std.Net.{parse_ip, is_loopback}
use exasol_local_vm.Forward.Spec.{ForwardSpec, SpecError, parse_forward_spec}
use exasol_local_vm.Forward.StateFile.{ForwardState}
use exasol_local_vm.Forward.Registry.{ForwardRequest, ForwardError, ForwardResponse}
use exasol_local_vm.Socket.{Answer, forward_answer, status_answer, health_answer, Connection, bare}

pub data CliError : Type 0 where
  usage bad_flags not_loopback : CliError
  bad_spec : SpecError → CliError

abbrev pub spec_or_error : Result SpecError ForwardSpec → Result CliError ForwardSpec
spec_or_error (ok spec) = ok spec
spec_or_error (err e) = err (bad_spec e)

-- The one flag of `forward add`.
unfoldable pub add_flags : Flags
add_flags name = if text_eq name (codes "host-ip") then some valued else none

-- `ip == nil || !ip.IsLoopback()` is an error.
unfoldable pub is_loopback_text : Text → Bool
is_loopback_text s = elim (parse_ip s) [ none ↦ false | some ip ↦ is_loopback ip ]

unfoldable pub add_request : List Text → Text → Result CliError ForwardRequest
add_request (value ∷ []) host_ip = do
  spec ← spec_or_error (parse_forward_spec value)
  guard (is_loopback_text host_ip) not_loopback
  ok (record {
    request = codes "forward-add";
    name = spec.name;
    guest_port = spec.guest_port;
    host_port = spec.host_port;
    host_ip = host_ip;
  })
add_request _ host_ip = err usage

-- The case "add" of `parseForwardCommand`.
unfoldable pub parse_add : List Text → Result CliError ForwardRequest
parse_add args = elim (parse_flags add_flags args) [
  | none ↦ err bad_flags
  | some p ↦ add_request p.rest (value_of (codes "host-ip") (codes "127.0.0.1") p.settings)
]

-- The case "remove": the name is checked as part of a spec.
unfoldable pub parse_remove : List Text → Result CliError ForwardRequest
parse_remove (name ∷ []) = do
  spec ← spec_or_error (parse_forward_spec (name ++ codes ":1:0"))
  ok (record (bare (codes "forward-remove")) { name = spec.name })
parse_remove _ = err usage

unfoldable pub parse_list : List Text → Result CliError ForwardRequest
parse_list [] = ok (bare (codes "forward-list"))
parse_list _ = err usage

-- `parseForwardCommand`
unfoldable pub parse_forward_command : List Text → Result CliError ForwardRequest
unfolding parse_list
parse_forward_command [] = err usage
parse_forward_command (command ∷ args) =
    if text_eq command (codes "add")
    then parse_add args
    else if text_eq command (codes "remove")
    then parse_remove args
    else if text_eq command (codes "list")
    then parse_list args
    else err usage

pub data ClientError : Type 0 where
  bad_command : CliError → ClientError
  not_connected not_sent not_decoded : ClientError
  refused : ForwardError → ClientError

-- An answer decoded as a `forwardResponse`: the fields of the other answers are not its fields.
abbrev pub decoded : Answer → ForwardResponse
decoded (forward_answer r) = r
decoded (status_answer s) = ok []
decoded (health_answer ports) = ok []

abbrev pub printed : ForwardResponse → Result ClientError (Map ForwardState)
printed (ok forwards) = ok forwards
printed (err e) = err (refused e)

unfoldable pub receive : Option Answer → Result ClientError (Map ForwardState)
receive none = err not_decoded
receive (some a) = printed (decoded a)

abbrev pub parsed : Result CliError ForwardRequest → Result ClientError ForwardRequest
parsed (ok req) = ok req
parsed (err e) = err (bad_command e)

-- `forwardCmd`, given the connection; it ends with the forwards that it prints.
unfoldable pub forward_cmd : List Text → Connection → Result ClientError (Map ForwardState)
unfolding receive
forward_cmd args c = do
  req ← parsed (parse_forward_command args)
  guard c.connects not_connected
  guard c.sends not_sent
  receive (c.received req)
