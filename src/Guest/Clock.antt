-- ===== src/Guest/Clock.antt =====
-- launcher/mac/main.go, `startGuestClockSynchronization`: the goroutine that sets the guest's clock at
-- every tick, until its context is cancelled. Where both are ready, its `select` may take either.
use exasol_local_vm.Prelude.{
  ℕ, suc, ◌+◌, ◌≤◌, Bool, true, false, not, ◌&&◌, if◌then◌else◌, ◌≡◌, refl, sym, ◌∙◌, ◌≢◌, ◌<◌, ◌⊎◌,
  inl, inr, arith,
}

-- The first synchronization, by the caller; the `select`; one at a tick; `done` is closed.
pub data Stage : Type 0 where
  first waiting syncing stopped : Stage

-- A ticker keeps one tick for a receiver that is busy. The attempts and the warnings are counted.
pub record Clock : Type 0 where
  pub stage : Stage
  pub tick : Bool
  pub cancelled : Bool
  pub attempts : ℕ
  pub warnings : ℕ

-- `syncClock`, which is silent about a failure once the context is cancelled.
unfoldable pub sync_clock : Bool → Clock → Clock
sync_clock failed c = record c {
  stage = waiting;
  attempts = suc c.attempts;
  warnings = if failed && not c.cancelled then suc c.warnings else c.warnings;
}

pub data Move (c : Clock) : Clock → Type 0 where
  first_synced : (failed : Bool) → c.stage ≡ first → Move c (sync_clock failed c)
  woken : c.stage ≡ waiting → c.tick ≡ true → Move c (record c { stage = syncing; tick = false })
  synced : (failed : Bool) → c.stage ≡ syncing → Move c (sync_clock failed c)
  done : c.stage ≡ waiting → c.cancelled ≡ true → Move c (record c { stage = stopped })

-- Moves of the code alone, without a further tick.
pub data Moves (c : Clock) : ℕ → Clock → Type 0 where
  here : Moves c 0 c
  next : {d e : Clock} {n : ℕ} → Moves c n d → Move d e → Moves c (suc n) e

-- The ticker, and `stopClockSync` of the daemon.
pub data Outside (c : Clock) : Clock → Type 0 where
  ticked : (c.stage ≡ waiting) ⊎ (c.stage ≡ syncing) → Outside c (record c { tick = true })
  cancel : Outside c (record c { cancelled = true })

abbrev pub begun : Clock
begun = record { stage = first; tick = false; cancelled = false; attempts = 0; warnings = 0 }

pub data Reachable : Clock → Type 0 where
  start : Reachable begun
  then_moved : {c d : Clock} → Reachable c → Move c d → Reachable d
  then_outside : {c d : Clock} → Reachable c → Outside c d → Reachable d

-- The moves that are left, at most, when the context is cancelled and the ticker is silent.
stages_left : Stage → ℕ
stages_left first = 2
stages_left waiting = 1
stages_left syncing = 2
stages_left stopped = 0

abbrev moves_left : Clock → ℕ
unfolding stages_left
moves_left c = (if c.tick then 2 else 0) + stages_left c.stage

-- Past its first synchronization, the clock has been set, or at least tried.
abbrev WasTried : Clock → Type 0
WasTried c = (c.stage ≡ first) ⊎ (1 ≤ c.attempts)

past_first : (c : Clock) {s : Stage} → c.stage ≡ s → s ≢ first → WasTried c → 1 ≤ c.attempts
past_first c e other (inl h) = absurd (other (sym e ∙ h))
past_first c e other (inr h) = h

suc_le : (n : ℕ) → 1 ≤ suc n
suc_le n = omega arith

Move-WasTried : (c : Clock) {d : Clock} → WasTried c → Move c d → WasTried d
unfolding sync_clock
Move-WasTried c h (first_synced failed e) = inr (suc_le c.attempts)
Move-WasTried c h (woken e t) = inr (past_first c e (λ x. cc) h)
Move-WasTried c h (synced failed e) = inr (suc_le c.attempts)
Move-WasTried c h (done e s) = inr (past_first c e (λ x. cc) h)

Reachable-WasTried : {c : Clock} → Reachable c → WasTried c
Reachable-WasTried start = inl refl
Reachable-WasTried (then_moved r m) = Move-WasTried _ (Reachable-WasTried r) m
Reachable-WasTried (then_outside r (ticked s)) = Reachable-WasTried r
Reachable-WasTried (then_outside r cancel) = Reachable-WasTried r

Moves-Reachable : {c d : Clock} {n : ℕ} → Reachable c → Moves c n d → Reachable d
Moves-Reachable r here = r
Moves-Reachable r (next l m) = then_moved (Moves-Reachable r l) m

-- A move after the cancellation: it warns of nothing, and brings the end nearer.
record Ends (c d : Clock) : Type 0 where
  still : d.cancelled ≡ true
  silent : d.warnings ≡ c.warnings

Move-Ends : {c d : Clock} → c.cancelled ≡ true → Move c d → Ends c d
unfolding sync_clock
Move-Ends h (first_synced failed e) = record { still = h; silent = ground arith }
Move-Ends h (woken e t) = record { still = h; silent = refl }
Move-Ends h (synced failed e) = record { still = h; silent = ground arith }
Move-Ends h (done e s) = record { still = h; silent = refl }

Move-moves_left : {c d : Clock} → Move c d → moves_left d < moves_left c
unfolding sync_clock stages_left
Move-moves_left {c} (first_synced failed e) = rw (e) (omega arith)
Move-moves_left {c} (woken e t) = rw (e, t) (omega arith)
Move-moves_left {c} (synced failed e) = rw (e) (omega arith)
Move-moves_left {c} (done e s) = rw (e) (omega arith)

Moves-Ends : {c d : Clock} {n : ℕ} → c.cancelled ≡ true → Moves c n d → Ends c d
Moves-Ends h here = record { still = h; silent = refl }
Moves-Ends h (next r m) =
    let a = Moves-Ends h r in
    let b = Move-Ends a.still m in record { still = b.still; silent = b.silent ∙ a.silent }

Moves-moves_left : {c d : Clock} {n : ℕ} → Moves c n d → n + moves_left d ≤ moves_left c
Moves-moves_left here = omega arith
Moves-moves_left (next r m) = let a = Moves-moves_left r in let b = Move-moves_left m in omega arith

few_left : (tick : Bool) (s : Stage) → (if tick then 2 else 0) + stages_left s ≤ 4
unfolding stages_left
few_left true first = omega arith
few_left true waiting = omega arith
few_left true syncing = omega arith
few_left true stopped = omega arith
few_left false first = omega arith
few_left false waiting = omega arith
few_left false syncing = omega arith
few_left false stopped = omega arith

moves_left_le : (c : Clock) → moves_left c ≤ 4
unfolding moves_left
moves_left_le c = few_left c.tick c.stage

goes_on :
    (c : Clock) (s : Stage)
    → c.stage ≡ s
    → c.cancelled ≡ true
    → (c.stage ≡ stopped) ⊎ ((d : Clock) × Move c d)
goes_on c first e h = inr (_, first_synced true e)
goes_on c waiting e h = inr (_, done e h)
goes_on c syncing e h = inr (_, synced true e)
goes_on c stopped e h = inl e

-- Once its context is cancelled, and if no further tick comes, the goroutine closes `done` within four
-- moves, prints no further warning, and has tried to set the clock at least once.
pub Reachable-stops :
    (c d : Clock) (n : ℕ)
    → Reachable c
    → c.cancelled ≡ true
    → Moves c n d
    → (n ≤ 4)
      × (d.warnings ≡ c.warnings)
      × (((d.stage ≡ stopped) × (1 ≤ d.attempts)) ⊎ ((e : Clock) × Move d e))
Reachable-stops c d n r h m =
    let a = Moves-moves_left m in
    let b = moves_left_le c in
    let e = Moves-Ends h m in
    (
      omega arith,
      e.silent,
      elim (goes_on d d.stage refl e.still) [
        | inl s ↦ inl (s, past_first d s (λ x. cc) (Reachable-WasTried (Moves-Reachable r m)))
        | inr f ↦ inr f
      ],
    )
