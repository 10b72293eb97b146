-- ===== src/Wait.antt =====
-- launcher/mac/main.go: the loops that wait, `pollUntil` and the loops written like it. Times are
-- nanoseconds on the monotonic clock. What a check finds, and how long calls take, are arguments.
pub mod Poll
pub mod Stop
pub mod Ssh
pub mod InitOutput
use exasol_local_vm.Prelude.{
  ℕ, zero, suc, ◌+◌, ◌-◌, ◌*◌, ◌≤◌, Bool, true, false, Option, none, some, ltb, if◌then◌else◌, min,
}

abbrev pub second : ℕ
second = 1000 * 1000 * 1000

abbrev pub millisecond : ℕ
millisecond = 1000 * 1000

-- What a check finds when it is made at a time, and when it is done.
abbrev pub Check : Type 0
Check = ℕ → Bool × ℕ

-- `time.Sleep`: from a time on, for a duration, until when.
abbrev pub Sleep : Type 0
Sleep = ℕ → ℕ → ℕ

-- A loop that checks until a deadline, and sleeps between the checks: whether the check found what it
-- waits for, and when the loop ended. `none`: the fuel ran out.
unfoldable pub poll_until : Check → Sleep → ℕ → ℕ → ℕ → ℕ → Option (Bool × ℕ)
poll_until check sleep deadline interval zero now = none
poll_until check sleep deadline interval (suc fuel) now =
    let later = poll_until check sleep deadline interval fuel (sleep (check now).1 interval) in
    if ltb now deadline
    then (if (check now).0 then some (true, (check now).1) else later)
    else some (false, now)

-- `sleepUntil`
unfoldable pub sleep_until : Sleep → ℕ → ℕ → ℕ → ℕ
sleep_until sleep deadline duration now =
    if ltb now deadline then sleep now (min duration (deadline - now)) else now
