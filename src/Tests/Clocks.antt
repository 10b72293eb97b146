-- ===== src/Tests/Clocks.antt =====
-- launcher/mac/main.go: a guest clock whose context is cancelled while a tick waits.
use exasol_local_vm.Prelude.{◌≤◌, ◌⊎◌, inl, ◌≡◌, refl, true}
use exasol_local_vm.Guest.Clock.{
  Clock, stopped, sync_clock, Move, first_synced, woken, synced, done, Moves, here, next, ticked,
  cancel, Reachable, start, then_moved, then_outside, Reachable-stops,
}

cancelled : (c : Clock) × Reachable c × (c.cancelled ≡ true)
unfolding sync_clock
cancelled = (
  _,
  then_outside (then_outside (then_moved start (first_synced true refl)) (ticked (inl refl)))
      cancel,
  refl,
)

-- The tick that waits is taken, its synchronization fails without a warning, and then `done` is closed.
ended : (c : Clock) × Moves cancelled.0 3 c
unfolding cancelled sync_clock
ended = (_, next (next (next here (woken refl refl)) (synced true refl)) (done refl refl))

Reachable-stops_example :
    (3 ≤ 4)
    × (ended.0.warnings ≡ cancelled.0.warnings)
    × (((ended.0.stage ≡ stopped) × (1 ≤ ended.0.attempts)) ⊎ ((e : Clock) × Move ended.0 e))
Reachable-stops_example = Reachable-stops cancelled.0 ended.0 3 cancelled.1 cancelled.2 ended.1
