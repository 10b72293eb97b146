-- ===== src/Tests/Waits.antt =====
-- launcher/mac/main.go: waits on concrete clocks.
use exasol_local_vm.Prelude.{
  false, ℕ, ◌+◌, ◌*◌, Text, codes, true, [], ◌∷◌, Option, none, some, ◌≡◌, refl, arith, pos, ok,
  ltb, leb, if◌then◌else◌,
}
use exasol_local_vm.Std.Strings.{is_space, trim_space, has_prefix, index}
use exasol_local_vm.Std.Strconv.{atoi}
use exasol_local_vm.Wait.{Check, Sleep, second, millisecond}
use exasol_local_vm.Wait.Poll.{IsTimely}
use exasol_local_vm.Std.Strings.{split_two}
use exasol_local_vm.Wait.Stop.{
  ssh_poweroff, vz_request_stop, vz_calls, stop_calls, ssh_target, Processes, stop_cmd,
}
use exasol_local_vm.Wait.Stop.Outcome.{Settled, stop_cmd-Settled, stop_cmd_stops}
use exasol_local_vm.Wait.Ssh.{Network, wait_for_ssh_service}
use exasol_local_vm.Wait.Ssh.Ends.{KeepsTime, EndsBy, wait_for_ssh_service-EndsBy}
use exasol_local_vm.Wait.InitOutput.{
  InitOutput, overlapping, slice, find_end, find_start, find_output, Console, check_output,
  wait_for_init_output,
}
use exasol_local_vm.Wait.InitOutput.Reads.{output_log, Prints, wait_for_init_output-reads}

-- A sleep takes a millisecond more than asked for.
abbrev pub sleep : Sleep
sleep t d = t + d + millisecond

-- From a time on the answer is yes; a check takes two milliseconds.
abbrev pub from : ℕ → Check
from since t = (leb since t, t + 2 * millisecond)

pub from-IsTimely : (since : ℕ) → IsTimely (from since) sleep
from-IsTimely since = record { checked = λ t. omega arith; slept = λ t d. omega arith }

-- Process 4711 ends after 20 s.
abbrev processes : Processes
processes = record {
  find = λ pid. true;
  terminate = λ pid. true;
  gone = λ pid. from (20 * second);
  remove = true;
}

pid_file : atoi (trim_space (codes "4711\n")) ≡ some (pos 4711)
unfolding atoi trim_space is_space
pid_file = refl

stop_cmd-Settled_example :
    Settled processes (codes "4711\n") 0 (stop_cmd processes sleep (some (codes "4711\n")) 0)
stop_cmd-Settled_example =
    stop_cmd-Settled processes sleep (λ pid. from-IsTimely (20 * second)) (codes "4711\n") 0

stop_cmd_stops_example : stop_cmd processes sleep (some (codes "4711\n")) 0 ≡ some (ok tt, none)
stop_cmd_stops_example =
    stop_cmd_stops processes sleep (λ pid. from-IsTimely (20 * second)) (codes "4711\n") (pos 4711)
      0 (20 * second) (503 * millisecond) pid_file refl refl refl (λ t. omega arith)
      (λ t le. ground arith) (omega arith) (omega arith)

-- A guest that listens after 7 s, and then answers at once.
abbrev guest : Network
guest = record {
  dial = λ t d. (leb (7 * second) t, t);
  set_deadline = λ t. true;
  read = λ t d. (some (codes "SSH-2.0-OpenSSH_9.7"), t);
}

guest-KeepsTime : KeepsTime guest sleep millisecond
guest-KeepsTime = record {
  dialled = λ t d. omega arith;
  dialled_by = λ t d. omega arith;
  read = λ t d. omega arith;
  read_by = λ t d. omega arith;
  slept = λ t d. omega arith;
  slept_by = λ t d. omega arith;
}

wait_for_ssh_service-EndsBy_example :
    EndsBy guest 0 (0 + 120 * second) millisecond (wait_for_ssh_service guest sleep 120 0)
wait_for_ssh_service-EndsBy_example =
    wait_for_ssh_service-EndsBy guest sleep 120 0 millisecond guest-KeepsTime

abbrev body : Text
body = codes "{\"ip\": \"192.168.64.2\"}\n"

-- The boot messages take 3 s.
abbrev console : Console
console t =
    if ltb t (3 * second)
    then some (codes "booting\n")
    else some (output_log (codes "booting\n") body [])

-- This decoder stands for JSON on the one text of the example.
abbrev decode : Text → Option InitOutput
decode s = some (record { ip = codes "192.168.64.2" })

console-Prints : Prints console (3 * second) body
unfolding find_output find_start index has_prefix
console-Prints = record {
  quiet = λ t l. ground arith;
  before = λ t. codes "booting\n";
  after = λ t. [];
  lacks = ground arith;
  first = λ t. refl;
  shown = λ t le. ground arith;
}

wait_for_init_output-reads_example :
    wait_for_init_output decode console sleep 300 0
    ≡ some (check_output (decode (trim_space (b'\n' ∷ body))))
wait_for_init_output-reads_example =
    wait_for_init_output-reads decode console sleep 300 0 (3 * second) (501 * millisecond) body
      console-Prints (λ t d. omega arith) (λ t. omega arith) (omega arith) (omega arith)

-- Markers that share their `===`: the end is before the start.
markers_overlap :
    find_output (codes "=== INIT OUTPUT START === INIT OUTPUT END ===\n") ≡ overlapping
unfolding find_output find_start find_end slice index has_prefix
markers_overlap = refl

-- An IPv6 address of the guest is taken apart at its first colon.
ipv6_target :
    stop_calls
      (record { poweroff = false; can_request_stop = true; request_stop = true; can_stop = true })
      (some (ssh_target (codes "fd00::2")))
    ≡ ssh_poweroff (codes "fd00") (codes ":2:22") ∷ vz_request_stop ∷ []
unfolding stop_calls ssh_target vz_calls split_two
ipv6_target = refl
