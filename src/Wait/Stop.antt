-- ===== src/Wait/Stop.antt =====
-- launcher/mac/main.go: `stopCmd` waits for the daemon to end, `shutdownVM` and the signal handler for
-- the virtual machine.
pub mod Outcome
use exasol_local_vm.Prelude.{
  ℕ, suc, ◌+◌, ◌*◌, ◌≤◌, ◌<◌, Text, codes, Bool, true, false, List, [], ◌∷◌, ◌++◌, Option, none,
  some, ◌≡◌, refl, ◌⊎◌, inl, inr, arith, ℤ, Result, ok, err, is_ok, if◌then◌else◌, min, is_nil,
}
use exasol_local_vm.Std.Strings.{trim_space, split_two}
use exasol_local_vm.Std.Strconv.{atoi}
use exasol_local_vm.Wait.{Check, Sleep, second, millisecond, poll_until}

-- What calls on a process answer: whether it is found, whether it takes SIGTERM, and when it is gone;
-- and whether the PID file can be removed.
pub record Processes : Type 0 where
  pub find : ℤ → Bool
  pub terminate : ℤ → Bool
  pub gone : ℤ → Check
  pub remove : Bool

pub data StopError : Type 0 where
  not_running bad_pid no_process signal_failed not_stopped : StopError

-- How `stop` ends, and the PID file that it leaves. `none`: the fuel ran out.
abbrev pub Stopping : Type 0
Stopping = Option (Result StopError (Unit {0}) × Option Text)

unfoldable pub finish_stop : Processes → Text → Option (Bool × ℕ) → Stopping
finish_stop os file none = none
finish_stop os file (some (true, t)) = some (ok tt, if os.remove then none else some file)
finish_stop os file (some (false, t)) = some (err not_stopped, some file)

-- 65 s, in rounds of half a second
abbrev pub stop_rounds : ℕ
stop_rounds = 130

unfoldable pub stop_pid : Processes → Sleep → Text → Option ℤ → ℕ → Stopping
unfolding finish_stop
stop_pid os sleep file none now = some (err bad_pid, some file)
stop_pid os sleep file (some pid) now =
    if os.find pid
    then (if os.terminate pid
        then finish_stop os file (
            poll_until (os.gone pid) sleep (now + 65 * second) (500 * millisecond) (suc stop_rounds)
              now)
        else some (err signal_failed, some file))
    else some (err no_process, some file)

-- `stopCmd`, given the PID file.
unfoldable pub stop_cmd : Processes → Sleep → Option Text → ℕ → Stopping
unfolding stop_pid
stop_cmd os sleep none now = some (err not_running, none)
stop_cmd os sleep (some file) now = stop_pid os sleep file (atoi (trim_space file)) now

-- What calls on the virtual machine answer: when the request to stop returns, if it ever does, and
-- when the machine has stopped.
pub record Machine : Type 0 where
  pub requested : ℕ → Option ℕ
  pub stopped : Check

-- The time at which `shutdownVM` goes on: the request has returned, or 5 s are over.
unfoldable pub request_stop : Machine → ℕ → ℕ
request_stop m now = elim (m.requested now) [
  | none ↦ now + 5 * second
  | some t ↦ min t (now + 5 * second)
]

-- 30 s, in rounds of a fifth of a second
abbrev pub shutdown_rounds : ℕ
shutdown_rounds = 150

-- `shutdownVM`: whether the machine has stopped, and when the wait ended.
unfoldable pub shutdown_vm : Machine → Sleep → ℕ → Option (Bool × ℕ)
unfolding request_stop
shutdown_vm m sleep now =
    let t = request_stop m now in
    poll_until m.stopped sleep (t + 30 * second) (200 * millisecond) (suc shutdown_rounds) t

-- 60 s, in rounds of a fifth of a second
abbrev pub handler_rounds : ℕ
handler_rounds = 300

-- The signal handler's wait for the machine, before it exits.
unfoldable pub await_stopped : Machine → Sleep → ℕ → Option (Bool × ℕ)
await_stopped m sleep now =
    poll_until m.stopped sleep (now + 60 * second) (200 * millisecond) (suc handler_rounds) now

-- What the signal handler does to stop the machine: a command over ssh, to a host and a port, or calls
-- of vz.
pub data StopCall : Type 0 where
  ssh_poweroff : Text → Text → StopCall
  vz_request_stop vz_stop : StopCall

pub record StopAnswers : Type 0 where
  pub poweroff : Bool
  pub can_request_stop : Bool
  pub request_stop : Bool
  pub can_stop : Bool

unfoldable pub vz_calls : StopAnswers → List StopCall
vz_calls a =
    if a.can_request_stop
    then vz_request_stop ∷ (if a.request_stop then [] else if a.can_stop then vz_stop ∷ [] else [])
    else if a.can_stop
    then vz_stop ∷ []
    else []

abbrev pub host_and_port : List Text → Text × Text
host_and_port [] = ([], codes "22")
host_and_port (host ∷ []) = (host, codes "22")
host_and_port (host ∷ port ∷ _) = (host, port)

-- The signal handler's calls, given the target that the main goroutine has stored.
unfoldable pub stop_calls : StopAnswers → Option Text → List StopCall
unfolding vz_calls
stop_calls a none = vz_calls a
stop_calls a (some target) =
    let (host, port) = host_and_port (split_two target b':') in
    if is_nil target
    then vz_calls a
    else ssh_poweroff host port ∷ (if a.poweroff then [] else vz_calls a)

-- The target that the daemon stores.
unfoldable pub ssh_target : Text → Text
ssh_target vm_ip = vm_ip ++ codes ":22"
