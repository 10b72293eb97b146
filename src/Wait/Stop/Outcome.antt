-- ===== src/Wait/Stop/Outcome.antt =====
-- Every wait for the daemon or the virtual machine ends in time, and says what it has seen.
use exasol_local_vm.Prelude.{
  ℕ, suc, ◌+◌, ◌*◌, ◌≤◌, ◌<◌, Text, codes, Bool, true, false, [], ◌∷◌, none, some, ◌≡◌, refl, ◌⊎◌,
  inl, inr, arith, ℤ, ok, is_ok, if◌then◌else◌, Option-cases, Lacks, if_cases,
}
use exasol_local_vm.Std.Strings.{trim_space}
use exasol_local_vm.Std.Strings.Laws.{split_two-append, is_nil-append}
use exasol_local_vm.Std.Strconv.{atoi}
use exasol_local_vm.Wait.{Sleep, second, millisecond, poll_until}
use exasol_local_vm.Wait.Poll.{
  IsTimely, RoundsWithin, Ended, found, expired, poll_until-Ended, poll_until_finds,
  poll_until-ends_by,
}
use exasol_local_vm.Wait.Stop.{
  Processes, Stopping, finish_stop, stop_rounds, stop_pid, stop_cmd, Machine, request_stop,
  shutdown_rounds, shutdown_vm, ssh_poweroff, vz_calls, StopAnswers, stop_calls, ssh_target,
}

-- The daemon was seen to be gone within 65 s.
pub record Gone (os : Processes) (file : Text) (now : ℕ) : Type 0 where
  pub pid : ℤ
  pub named : atoi (trim_space file) ≡ some pid
  pub at : ℕ
  pub after : now ≤ at
  pub in_time : at < now + 65 * second
  pub seen : (os.gone pid at).0 ≡ true

-- A stop that has ended: it has seen the daemon gone, and tried to remove the PID file,
-- or it has failed.
abbrev pub Settled : Processes → Text → ℕ → Stopping → Type 0
Settled os file now none = ⊥
Settled os file now (some r) =
    ((r ≡ (ok tt, if os.remove then none else some file)) × Gone os file now)
    ⊎ ((is_ok r.0 ≡ false) × (r.1 ≡ some file))

finish_stop-Settled :
    (os : Processes) (file : Text) (pid : ℤ) (now : ℕ) (o : Bool × ℕ)
    → atoi (trim_space file) ≡ some pid
    → Ended (os.gone pid) (now + 65 * second) now o
    → Settled os file now (finish_stop os file (some o))
unfolding finish_stop
finish_stop-Settled os file pid now (false, u) named ended = inr (refl, refl)
finish_stop-Settled os file pid now (true, u) named (expired e b c) = cc
finish_stop-Settled os file pid now (true, u) named (found t a b c e) =
    inl (refl, record { pid = pid; named = named; at = t; after = a; in_time = b; seen = c })

module _ (os : Processes) (sleep : Sleep) (timely : (pid : ℤ) → IsTimely (os.gone pid) sleep) where
  wait-Settled :
      (file : Text) (pid : ℤ) (now : ℕ)
      → atoi (trim_space file) ≡ some pid
      → Settled os file now (
          finish_stop os file (
            poll_until
              (os.gone pid)
              sleep
              (now + 65 * second)
              (500 * millisecond)
              (suc stop_rounds)
              now))
  wait-Settled file pid now named =
      let (o, e, x) =
        poll_until-Ended (os.gone pid) sleep (timely pid) (now + 65 * second) (500 * millisecond)
          stop_rounds now (omega arith) in
      rw e (finish_stop-Settled os file pid now o named x)

  -- `stop` with a PID file ends, if a check of the process does not go back in time and sleeps last at
  -- least as long as asked for. Either it has seen the process that the file names gone within 65 s, and
  -- then it succeeds and the file is removed, if that call works; or it fails, and the file is as it was.
  pub stop_cmd-Settled :
      (file : Text) (now : ℕ) → Settled os file now (stop_cmd os sleep (some file) now)
  unfolding stop_cmd
  stop_cmd-Settled file now = elim (Option-cases (atoi (trim_space file))) [
    | inl e ↦ rw (e, stop_pid) (inr (refl, refl))
    | inr (pid, e) ↦
        rw (e, stop_pid)
          (if_cases (Settled os file now) (os.find pid)
            (λ _.
              if_cases (Settled os file now) (os.terminate pid) (λ _. wait-Settled file pid now e)
                (λ _. inr (refl, refl)))
            (λ _. inr (refl, refl)))
  ]

  -- If the process named by the PID file is found and takes the signal, and is gone from some time on
  -- that lies at least a round before 65 s are over, and the PID file can be removed, then `stop`
  -- succeeds and the file is removed. Checks do not go back in time, sleeps last at least as long as
  -- asked for, and a round is the most that a check and a sleep take.
  pub stop_cmd_stops :
      (file : Text) (pid : ℤ) (now since round : ℕ)
      → atoi (trim_space file) ≡ some pid
      → os.find pid ≡ true
      → os.terminate pid ≡ true
      → os.remove ≡ true
      → RoundsWithin (os.gone pid) sleep (500 * millisecond) round
      → ((t : ℕ) → since ≤ t → (os.gone pid t).0 ≡ true)
      → now < since + round
      → since + round ≤ now + 65 * second
      → stop_cmd os sleep (some file) now ≡ some (ok tt, none)
  unfolding stop_cmd finish_stop
  stop_cmd_stops file pid now since round named f k clears within lasts start fits =
      let (t, e) =
        poll_until_finds (os.gone pid) sleep (timely pid) (now + 65 * second) (500 * millisecond)
          round since stop_rounds now within lasts fits start (omega arith) in
      rw (named, stop_pid) (rw (f, k, e, clears) refl)

request_stop-le : (m : Machine) (now : ℕ) → request_stop m now ≤ now + 5 * second
unfolding request_stop
request_stop-le m now = elim (Option-cases (m.requested now)) [
  | inl e ↦ rw (e, request_stop) (omega arith)
  | inr (t, e) ↦ rw (e, request_stop) (omega arith)
]

-- `shutdownVM` always ends, also if the request to stop never returns: within 35 s and a round. If it
-- says that the machine has stopped, it has seen that.
pub shutdown_vm-Ended :
    (m : Machine) (sleep : Sleep) (now round : ℕ)
    → IsTimely m.stopped sleep
    → RoundsWithin m.stopped sleep (200 * millisecond) round
    → (o : Bool × ℕ) × (shutdown_vm m sleep now ≡ some o)
      × (o.1 ≤ now + 35 * second + round)
      × Ended m.stopped (request_stop m now + 30 * second) (request_stop m now) o
unfolding shutdown_vm
shutdown_vm-Ended m sleep now round timely within =
    let t = request_stop m now in
    let (o, e, x) =
      poll_until-Ended m.stopped sleep timely (t + 30 * second) (200 * millisecond) shutdown_rounds
        t (omega arith) in
    let by =
      poll_until-ends_by m.stopped sleep timely (t + 30 * second) (200 * millisecond) round
        (suc shutdown_rounds) t {o = o} within (omega arith) e in
    let soon = request_stop-le m now in (o, e, omega arith, x)

-- For a VM address without `:`, the signal handler first asks that address, at port 22, to power off,
-- and calls vz only if that fails.
pub stop_calls-ssh_target :
    (a : StopAnswers) (vm_ip : Text)
    → Lacks b':' vm_ip
    → stop_calls a (some (ssh_target vm_ip))
      ≡ ssh_poweroff vm_ip (codes "22") ∷ (if a.poweroff then [] else vz_calls a)
unfolding stop_calls ssh_target
stop_calls-ssh_target a vm_ip h =
    rw (split_two-append vm_ip (codes "22") b':' h, is_nil-append vm_ip b':' (codes "22")) refl
