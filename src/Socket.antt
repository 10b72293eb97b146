-- ===== src/Socket.antt =====
-- launcher/mac/main.go: the status socket, `startStatusListener`, `isVMRunning` and
-- `queryHealthCheck`; launcher/mac/forwarding.go: the health of the forwards. A message is its decoded
-- JSON; deadlines show as calls that fail.
pub mod Health
pub mod Reported
pub mod Probing
use mathlib.Core.Option
use exasol_local_vm.Prelude.{
  Text, text_eq, codes, Bool, true, false, ◌&&◌, ◌||◌, [], Option, none, some, if◌then◌else◌, ℤ,
  pos, Result, ok, err,
}
use exasol_local_vm.Prelude.Map.{Map, map_values}
use exasol_local_vm.Forward.Registry.{
  Forwarder, Daemon, Os, ForwardRequest, ForwardResponse, handle_forward_request,
}

-- What `errors.As` and `errors.Is` say of a failed dial.
pub record DialFailure : Type 0 where
  pub net_timeout : Bool
  pub deadline_exceeded : Bool
  pub refused : Bool
  pub not_permitted : Bool
  pub access_denied : Bool
  pub host_unreachable : Bool
  pub network_unreachable : Bool

-- `classifyDialErr`
unfoldable pub classify_dial_err : Option DialFailure → Text
classify_dial_err none = codes "reachable"
classify_dial_err (some e) =
    if e.net_timeout
    then codes "timeout"
    else if e.deadline_exceeded
    then codes "timeout"
    else if e.refused
    then codes "refused"
    else if e.not_permitted || e.access_denied || e.host_unreachable || e.network_unreachable
    then codes "blocked"
    else codes "blocked"

-- The outcome of dialing an address of the guest.
abbrev pub Dial : Type 0
Dial = Text → ℤ → Option DialFailure

-- `LoopbackForwarder.Probe`
unfoldable pub probe : Dial → Forwarder → Text
probe dial f = classify_dial_err (dial f.guest_host f.guest_port)

-- `portHealthResponse`
pub record PortHealthResponse : Type 0 where
  pub state : Text

-- `probeForwarders`: a fresh probe of each forwarder of the snapshot.
unfoldable pub probe_forwarders : Dial → Daemon → Map PortHealthResponse
probe_forwarders dial d = map_values (λ f. record { state = probe dial f }) d.registry

pub data Answer : Type 0 where
  forward_answer : ForwardResponse → Answer
  status_answer : Text → Answer
  health_answer : Map PortHealthResponse → Answer

-- One connection to the daemon's socket: the request, if it can be decoded, and the answer, if any.
unfoldable pub serve : Os → Dial → Option ForwardRequest → Daemon → Option Answer × Daemon
serve os dial none d = (none, d)
serve os dial (some req) d =
    if text_eq req.request (codes "forward-add")
      || text_eq req.request (codes "forward-remove")
      || text_eq req.request (codes "forward-list")
    then (
      some (forward_answer (handle_forward_request os req d).0),
      (handle_forward_request os req d).1,
    )
    else if text_eq req.request (codes "status")
    then (some (status_answer (codes "running")), d)
    else if text_eq req.request (codes "health-check")
    then (some (health_answer (probe_forwarders dial d)), d)
    else (none, d)

-- A client's request that has no settings.
abbrev pub bare : Text → ForwardRequest
bare request = record {
  request = request;
  name = [];
  guest_port = pos 0;
  host_port = pos 0;
  host_ip = [];
}

-- The client's side of a connection: what fails, and what is received for the request that it sends.
pub record Connection : Type 0 where
  pub connects : Bool
  pub sends : Bool
  pub received : ForwardRequest → Option Answer

-- A working connection to a daemon.
abbrev pub to_daemon : Os → Dial → Daemon → Connection
to_daemon os dial d = record {
  connects = true;
  sends = true;
  received = λ req. (serve os dial (some req) d).0;
}

-- The field `status` of an answer, empty where it is missing.
abbrev status_field : Answer → Text
status_field (status_answer s) = s
status_field _ = []

unfoldable pub is_running_answer : Option Answer → Bool
is_running_answer none = false
is_running_answer (some a) = text_eq (status_field a) (codes "running")

-- `isVMRunning`
unfoldable pub is_vm_running : Connection → Bool
unfolding is_running_answer
is_vm_running c =
    if c.connects
    then (if c.sends then is_running_answer (c.received (bare (codes "status"))) else false)
    else false

pub data SocketError : Type 0 where
  not_connected not_sent not_decoded : SocketError

-- The field `ports` of an answer, empty where it is missing.
abbrev ports_field : Answer → Map PortHealthResponse
ports_field (health_answer ports) = ports
ports_field _ = []

unfoldable pub ports_answer : Option Answer → Result SocketError (Map PortHealthResponse)
ports_answer none = err not_decoded
ports_answer (some a) = ok (ports_field a)

-- `queryHealthCheck`
unfoldable pub query_health_check : Connection → Result SocketError (Map PortHealthResponse)
unfolding ports_answer
query_health_check c =
    if c.connects
    then (if c.sends then ports_answer (c.received (bare (codes "health-check"))) else err not_sent)
    else err not_connected
