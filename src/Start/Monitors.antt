-- ===== src/Start/Monitors.antt =====
-- launcher/mac/main.go, `startCmd`: the monitors of the state file, of the degraded marker and of the daemon
-- process, whose first event the `select` receives. Which of several events comes first is left open.
use exasol_local_vm.Prelude.{
  ℕ, zero, suc, ◌+◌, ◌*◌, ◌≤◌, ◌<◌, Text, Bool, true, false, List, Option, none, some, ltb,
  if◌then◌else◌, ◌≡◌, ◌≢◌, refl, ap, arith, ℤ, Result, ok, err, is_ok, sym, ◌∙◌,
}
use exasol_local_vm.Prelude.Effects.{continue}
use exasol_local_vm.Forward.Spec.{ForwardSpec}
use exasol_local_vm.Socket.{Connection}
use exasol_local_vm.Wait.{Check, Sleep, second, millisecond, poll_until}
use exasol_local_vm.Wait.Poll.{
  IsTimely, RoundsWithin, Ended, found, expired, poll_until-Ended, poll_until_finds,
}
use exasol_local_vm.Start.{
  Host, StartCalls, StartError, Event, state_file, timeout, marker, exit, Exit, marker_error,
  launch, verdict, start_cmd,
}

-- What `os.Stat` of the state file finds at a time; what `os.ReadFile` and `json.Unmarshal` read of the
-- marker at a time, and when they are done; and how the daemon ends, if it does.
pub record Watched : Type 0 where
  pub there : Check
  pub marker : ℕ → Option Text × ℕ
  pub daemon_end : Option Exit

-- `pollUntil` with the closure that sends the marker's error. `none`: the fuel ran out.
unfoldable pub poll_marker : (ℕ → Option Text × ℕ) → Sleep → ℕ → ℕ → ℕ → ℕ → Option (Option Text)
poll_marker read sleep deadline interval zero now = none
poll_marker read sleep deadline interval (suc fuel) now =
    let later = poll_marker read sleep deadline interval fuel (sleep (read now).1 interval) in
    if ltb now deadline
    then elim (marker_error (read now).0) [ none ↦ later | some error ↦ some (some error) ]
    else some none

-- 4 minutes, in rounds of a fifth of a second
abbrev pub monitor_rounds : ℕ
monitor_rounds = 1200

abbrev pub interval : ℕ
interval = 200 * millisecond

-- The events that the monitors send, from a start of the wait on.
pub data Delivered (w : Watched) (sleep : Sleep) (now : ℕ) : Event → Type 0 where
  state_seen :
      (t : ℕ)
      → poll_until w.there sleep (now + 240 * second) interval (suc monitor_rounds) now
        ≡ some (true, t)
      → Delivered w sleep now state_file
  state_timeout :
      (t : ℕ)
      → poll_until w.there sleep (now + 240 * second) interval (suc monitor_rounds) now
        ≡ some (false, t)
      → Delivered w sleep now timeout
  marker_seen :
      (error : Text)
      → poll_marker w.marker sleep (now + 240 * second) interval (suc monitor_rounds) now
        ≡ some (some error)
      → Delivered w sleep now (marker error)
  daemon_ended : (x : Exit) → w.daemon_end ≡ some x → Delivered w sleep now (exit x)

-- A marker that never holds an error is never sent.
poll_marker-none :
    (read : ℕ → Option Text × ℕ) (sleep : Sleep) (deadline interval fuel now : ℕ) (error : Text)
    → ((t : ℕ) → marker_error (read t).0 ≡ none)
    → poll_marker read sleep deadline interval fuel now ≢ some (some error)
unfolding poll_marker
poll_marker-none read sleep deadline interval zero now error quiet e = cc
poll_marker-none read sleep deadline interval (suc fuel) now error quiet e =
    let h =
      poll_marker-none read sleep deadline interval fuel (sleep (read now).1 interval) error
        quiet in
    let nothing = quiet now in ground (arith, h)

succeeds_after :
    (o : Result StartError (Unit {0}) × Host) (event : Event) (log : Option Text)
    → is_ok o.0 ≡ true
    → event ≡ state_file
    → is_ok (continue (λ _ h. (verdict event log, record h { log = log })) o).0 ≡ true
unfolding verdict
succeeds_after (ok _, h) event log good e = ap (λ x. is_ok (verdict x log)) e
succeeds_after (err x, h) event log good e = cc

module _ (w : Watched) (sleep : Sleep) (now : ℕ) (timely : IsTimely w.there sleep) where
  -- The `select` does not wait for ever: the monitor of the state file sends one of its two events.
  pub Delivered-exists : (event : Event) × Delivered w sleep now event
  Delivered-exists =
      let (o, e, x) =
        poll_until-Ended w.there sleep timely (now + 240 * second) interval monitor_rounds now
          (omega arith) in
      sent o e
    where
      sent :
          (o : Bool × ℕ)
          → poll_until w.there sleep (now + 240 * second) interval (suc monitor_rounds) now ≡ some o
          → (event : Event) × Delivered w sleep now event
      sent (true, t) e = (state_file, state_seen t e)
      sent (false, t) e = (timeout, state_timeout t e)

  -- The state file is reported only if it was there at a time of the wait.
  pub seen_there :
      (event : Event)
      → Delivered w sleep now event
      → event ≡ state_file
      → (t : ℕ) × (now ≤ t) × (t < now + 240 * second) × ((w.there t).0 ≡ true)
  seen_there state_file (state_seen t e) s =
      let (o, k, x) =
        poll_until-Ended w.there sleep timely (now + 240 * second) interval monitor_rounds now
          (omega arith) in
      there_before t o (sym e ∙ k) x
    where
      there_before :
          (t : ℕ) (o : Bool × ℕ)
          → some (true, t) ≡ some o
          → Ended w.there (now + 240 * second) now o
          → (t : ℕ) × (now ≤ t) × (t < now + 240 * second) × ((w.there t).0 ≡ true)
      there_before t o e (found u a b c d) = (u, a, b, c)
      there_before t o e (expired a b c) = absurd (cc)
  seen_there timeout (state_timeout t e) s = absurd (cc)
  seen_there (marker error) (marker_seen x e) s = absurd (cc)
  seen_there (exit x) (daemon_ended y e) s = absurd (cc)

  module _ (since round : ℕ) (within : RoundsWithin w.there sleep interval round)
      (lasts : (t : ℕ) → since ≤ t → (w.there t).0 ≡ true) (start : now < since + round)
      (fits : since + round ≤ now + 240 * second)
      (quiet : (t : ℕ) → marker_error (w.marker t).0 ≡ none) (lives : w.daemon_end ≡ none) where
    only_state_file : (event : Event) → Delivered w sleep now event → event ≡ state_file
    only_state_file state_file (state_seen t e) = refl
    only_state_file timeout (state_timeout t e) =
        let (u, k) =
          poll_until_finds w.there sleep timely (now + 240 * second) interval round since
            monitor_rounds now within lasts fits start (omega arith) in
        absurd (cc)
    only_state_file (marker error) (marker_seen x e) = absurd (
        poll_marker-none w.marker sleep (now + 240 * second) interval (suc monitor_rounds) now error
          quiet e)
    only_state_file (exit x) (daemon_ended y e) = absurd (cc)

    -- If the state file is there from some time on that lies at least a round before 4 minutes are over, and
    -- the daemon neither ends nor reports a degraded start meanwhile, then a `start` that has launched it
    -- is sent the event of the state file, and whichever event it receives, it succeeds. Checks do not go back in time, sleeps last at
    -- least as long as asked for, and a round is the most that a check and a sleep take.
    pub start_cmd_succeeds :
        (os : StartCalls) (status : Connection) (cpu_count ram_size : Text) (size_gb : ℤ)
        (forwards : List ForwardSpec) (h : Host) (event : Event) (log : Option Text)
        → is_ok (launch os status cpu_count ram_size size_gb forwards h).0 ≡ true
        → Delivered w sleep now event
        → Delivered w sleep now state_file
          × (is_ok (start_cmd os status cpu_count ram_size size_gb forwards event log h).0 ≡ true)
    unfolding start_cmd
    start_cmd_succeeds os status cpu_count ram_size size_gb forwards h event log launched sent =
        let (u, k) =
          poll_until_finds w.there sleep timely (now + 240 * second) interval round since
            monitor_rounds now within lasts fits start (omega arith) in
        (
          state_seen u k,
          succeeds_after (launch os status cpu_count ram_size size_gb forwards h) event log launched
              (only_state_file event sent),
        )
