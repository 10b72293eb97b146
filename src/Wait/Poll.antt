-- ===== src/Wait/Poll.antt =====
-- Polling ends, says the truth, and does not miss what lasts for a round.
use exasol_local_vm.Prelude.{
  ℕ, zero, suc, ◌+◌, ◌*◌, ◌≤◌, ◌<◌, Bool, true, false, some, ◌≡◌, refl, inl, inr, arith, ltb,
  Bool-cases,
}
use exasol_local_vm.Wait.{Check, Sleep, poll_until}

-- A check takes time, and `time.Sleep` pauses for at least the duration.
pub record IsTimely (check : Check) (sleep : Sleep) : Type 0 where
  pub checked : (t : ℕ) → t ≤ (check t).1
  pub slept : (t d : ℕ) → t + d ≤ sleep t d

-- A round, from one check to the next, takes at most so long.
abbrev pub RoundsWithin : Check → Sleep → ℕ → ℕ → Type 0
RoundsWithin check sleep interval round = (t : ℕ) → sleep (check t).1 interval ≤ t + round

-- What the end of the loop means: the check succeeded at a time before the deadline, or the deadline
-- has passed.
pub data Ended (check : Check) (deadline now : ℕ) (o : Bool × ℕ) : Type 0 where
  found :
      (t : ℕ)
      → now ≤ t
      → t < deadline
      → (check t).0 ≡ true
      → o ≡ (true, (check t).1)
      → Ended check deadline now o
  expired : o.0 ≡ false → deadline ≤ o.1 → now ≤ o.1 → Ended check deadline now o

module _ (check : Check) (sleep : Sleep) (timely : IsTimely check sleep)
    (deadline interval : ℕ) where
  Ended-earlier :
      (s t : ℕ) (o : Bool × ℕ) → s ≤ t → Ended check deadline t o → Ended check deadline s o
  Ended-earlier s t o le (found u a b c d) = found u (omega arith) b c d
  Ended-earlier s t o le (expired a b c) = expired a b (omega arith)

  pub poll_until-Ended :
      (rounds now : ℕ)
      → deadline ≤ now + rounds * interval
      → (o : Bool × ℕ) × (poll_until check sleep deadline interval (suc rounds) now ≡ some o)
        × Ended check deadline now o
  unfolding poll_until
  poll_until-Ended zero now enough = elim (Bool-cases (ltb now deadline)) [
    | inl before ↦ absurd (ground arith)
    | inr after ↦ rw after ((false, now), refl, expired refl (ground arith) (omega arith))
  ]
  poll_until-Ended (suc r) now enough =
      let next = sleep (check now).1 interval in
      let h = timely.checked now in
      let k = timely.slept (check now).1 interval in
      let (o, e, x) = poll_until-Ended r next (grind arith) in
      elim (Bool-cases (ltb now deadline)) [
        | inl before ↦ elim (Bool-cases (check now).0) [
          | inl good ↦ (
            (true, (check now).1),
            rw (before, good) refl,
            found now (omega arith) (ground arith) good refl,
          )
          | inr bad ↦ (o, rw (before, bad) e, Ended-earlier now next o (omega arith) x)
        ]
        | inr after ↦ ((false, now), rw after refl, expired refl (ground arith) (omega arith))
      ]

  -- If the check succeeds from some time on, at least a round before the deadline, it is found.
  pub poll_until_finds :
      (round since rounds now : ℕ)
      → RoundsWithin check sleep interval round
      → ((t : ℕ) → since ≤ t → (check t).0 ≡ true)
      → since + round ≤ deadline
      → now < since + round
      → deadline ≤ now + rounds * interval
      → (t : ℕ) × (poll_until check sleep deadline interval (suc rounds) now ≡ some (true, t))
  unfolding poll_until
  poll_until_finds round since zero now within lasts fits start enough = absurd (omega arith)
  poll_until_finds round since (suc r) now within lasts fits start enough =
      let next = sleep (check now).1 interval in
      let h = timely.checked now in
      let k = timely.slept (check now).1 interval in
      let w = within now in
      let before : ltb now deadline ≡ true = ground arith in
      elim (Bool-cases (check now).0) [
        | inl good ↦ ((check now).1, rw (before, good) refl)
        | inr bad ↦
            let early : now < since = ground (arith, lasts now) in
            let (t, e) =
              poll_until_finds round since r next within lasts fits (omega arith) (grind arith) in
            (t, rw (before, bad) e)
      ]

  -- The loop ends within a round of its deadline.
  pub poll_until-ends_by :
      (round fuel now : ℕ) {o : Bool × ℕ}
      → RoundsWithin check sleep interval round
      → now ≤ deadline + round
      → poll_until check sleep deadline interval fuel now ≡ some o
      → o.1 ≤ deadline + round
  unfolding poll_until
  poll_until-ends_by round zero now {o} within early h = cc
  poll_until-ends_by round (suc fuel) now {o} within early h =
      let next = sleep (check now).1 interval in
      let k = timely.slept (check now).1 interval in
      let w = within now in
      elim (Bool-cases (ltb now deadline)) [
        | inl before ↦
            let late : next ≤ deadline + round = ground arith in
            let rest = poll_until-ends_by round fuel next {o = o} within late in
            ground (arith, rest)
        | inr after ↦ ground arith
      ]
