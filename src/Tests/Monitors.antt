-- ===== src/Tests/Monitors.antt =====
-- launcher/mac/main.go: a start whose daemon writes the state file after 2 s.
use exasol_local_vm.Prelude.{◌*◌, codes, ◌≡◌, refl, none, true, pos, is_ok, arith}
use exasol_local_vm.Wait.{poll_until, second, millisecond}
use exasol_local_vm.Start.{state_file, start_cmd, marker_error}
use exasol_local_vm.Start.Monitors.{Watched, Delivered, start_cmd_succeeds, state_seen}
use exasol_local_vm.Tests.Waits.{sleep, from, from-IsTimely}
use exasol_local_vm.Tests.Starts.{host_calls, nobody, crashed, launches, database}

abbrev watched : Watched
watched = record { there = from (2 * second); marker = λ t. (none, t); daemon_end = none }

sent : Delivered watched sleep 0 state_file
unfolding poll_until
sent = state_seen (2032 * millisecond) refl

start_cmd_succeeds_example :
    Delivered watched sleep 0 state_file
    × (is_ok
          (start_cmd host_calls nobody
            (codes "4")
            (codes "8192")
            (pos 50)
            database
            state_file
            none
            crashed).0
        ≡ true)
unfolding marker_error
start_cmd_succeeds_example =
    start_cmd_succeeds watched sleep 0 (from-IsTimely (2 * second)) (2 * second) (203 * millisecond)
      (λ t. omega arith) (λ t le. ground arith) (omega arith) (omega arith) (λ t. refl) refl
      host_calls nobody (codes "4") (codes "8192") (pos 50) database crashed state_file none
      (launches database) sent
