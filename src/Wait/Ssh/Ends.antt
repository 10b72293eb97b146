-- ===== src/Wait/Ssh/Ends.antt =====
-- The wait for SSH ends by its deadline, and succeeds only if a banner was read.
use exasol_local_vm.Prelude.{
  ℕ, zero, suc, ◌+◌, ◌-◌, ◌*◌, ◌≤◌, ◌<◌, Text, true, false, Option, none, some, ◌≡◌, arith, ltb,
  min, Bool-cases, Option-cases, if_cases, inl, inr, ok, err,
}
use exasol_local_vm.Wait.{Sleep, second, sleep_until}
use exasol_local_vm.Wait.Ssh.{
  Network, LastError, dial_failed, Waited, is_ready, is_banner, read_banner, ssh_loop,
  wait_for_ssh_service,
}

-- Calls keep their timeouts, and sleeping takes the duration and at most `slack` more.
pub record KeepsTime (net : Network) (sleep : Sleep) (slack : ℕ) : Type 0 where
  pub dialled : (t d : ℕ) → t ≤ (net.dial t d).1
  pub dialled_by : (t d : ℕ) → (net.dial t d).1 ≤ t + d
  pub read : (t d : ℕ) → t ≤ (net.read t d).1
  pub read_by : (t d : ℕ) → (net.read t d).1 ≤ t + d
  pub slept : (t d : ℕ) → t + d ≤ sleep t d
  pub slept_by : (t d : ℕ) → sleep t d ≤ t + d + slack

-- A banner of SSH was read before the deadline.
pub record Answered (net : Network) (from deadline : ℕ) : Type 0 where
  pub at : ℕ
  pub timeout : ℕ
  pub after : from ≤ at
  pub in_time : at < deadline
  pub banner : Text
  pub read : (net.read at timeout).0 ≡ some banner
  pub is_ssh : is_banner banner ≡ true

-- A wait that has ended by a time; if it succeeded, SSH has answered.
abbrev pub EndsBy : Network → ℕ → ℕ → ℕ → Waited → Type 0
EndsBy net from deadline slack none = ⊥
EndsBy net from deadline slack (some (ok _, t)) =
    (t ≤ deadline + slack) × Answered net from deadline
EndsBy net from deadline slack (some (err e, t)) = t ≤ deadline + slack

module _ (net : Network) (sleep : Sleep) (deadline slack : ℕ)
    (keeps : KeepsTime net sleep slack) where
  EndsBy-earlier :
      (s t : ℕ) (w : Waited) → s ≤ t → EndsBy net t deadline slack w → EndsBy net s deadline slack w
  EndsBy-earlier s t none le x = x
  EndsBy-earlier s t (some (err e, u)) le x = x
  EndsBy-earlier s t (some (ok _, u)) le (x, a) = (
    x,
    record {
      at = a.at;
      timeout = a.timeout;
      after = (let h = a.after in omega arith);
      in_time = a.in_time;
      banner = a.banner;
      read = a.read;
      is_ssh = a.is_ssh;
    },
  )

  answered :
      (t timeout : ℕ)
      → t < deadline
      → is_ready (net.read t timeout).0 ≡ true
      → Answered net t deadline
  answered t timeout l ready = elim (Option-cases (net.read t timeout).0) [
    | inl e ↦ let k : false ≡ true = rw (e, is_ready) at ready in cc
    | inr (banner, e) ↦ record {
      at = t;
      timeout = timeout;
      after = omega arith;
      in_time = l;
      banner = banner;
      read = e;
      is_ssh = (rw (e, is_ready) at ready);
    }
  ]

  -- One sleep between rounds.
  slept_until :
      (t rounds : ℕ)
      → t ≤ deadline
      → deadline ≤ t + suc rounds * second
      → (t ≤ sleep_until sleep deadline second t)
        × (sleep_until sleep deadline second t ≤ deadline + slack)
        × (deadline ≤ sleep_until sleep deadline second t + rounds * second)
  unfolding sleep_until
  slept_until t rounds le h =
      let d = min second (deadline - t) in
      let a = keeps.slept t d in
      let b = keeps.slept_by t d in
      elim (Bool-cases (ltb t deadline)) [
        | inl before ↦
            let l : t < deadline = ground arith in rw before (omega arith, omega arith, omega arith)
        | inr after ↦
            let l : deadline ≤ t = ground arith in rw after (omega arith, omega arith, omega arith)
      ]

  read_banner-EndsBy :
      (t : ℕ) (last : Option LastError) (next : ℕ → Option LastError → Waited)
      → t ≤ deadline
      → ((u : ℕ) (e : Option LastError)
          → t ≤ u
          → u ≤ deadline
          → EndsBy net t deadline slack (next u e))
      → EndsBy net t deadline slack (read_banner net deadline t last next)
  unfolding read_banner
  read_banner-EndsBy t last next le go =
      let timeout = min (3 * second) (deadline - t) in
      let a = keeps.read t timeout in
      let b = keeps.read_by t timeout in
      if_cases P (ltb t deadline)
        (λ before.
          let l : t < deadline = ground arith in
          if_cases P (net.set_deadline t)
            (λ _.
              if_cases P (is_ready (net.read t timeout).0)
                (λ ready. (omega arith, answered t timeout l ready))
                (λ _. go (net.read t timeout).1 _ a (omega arith)))
            (λ _. omega arith))
        (λ _. omega arith)
    where
      P : Waited → Type 0
      P = EndsBy net t deadline slack

  ssh_loop-EndsBy :
      (rounds now : ℕ) (last : Option LastError)
      → now ≤ deadline + slack
      → deadline ≤ now + rounds * second
      → EndsBy net now deadline slack (ssh_loop net sleep deadline (suc rounds) now last)
  unfolding ssh_loop
  ssh_loop-EndsBy zero now last early enough =
      if_cases (EndsBy net now deadline slack) (ltb now deadline) (λ before. absurd (ground arith))
        (λ _. early)
  ssh_loop-EndsBy (suc r) now last early enough =
      let timeout = min (3 * second) (deadline - now) in
      let t = (net.dial now timeout).1 in
      let a = keeps.dialled now timeout in
      let b = keeps.dialled_by now timeout in
      let next = λ (u : ℕ) (e : Option LastError) (g : t ≤ u) (k : u ≤ deadline).
        let (p, q, s) = slept_until u r k (omega arith) in
        EndsBy-earlier t (sleep_until sleep deadline second u) _ (omega arith)
          (ssh_loop-EndsBy r (sleep_until sleep deadline second u) e q s) in
      if_cases (EndsBy net now deadline slack) (ltb now deadline)
        (λ before.
          let l : now < deadline = ground arith in
          if_cases (EndsBy net now deadline slack) (net.dial now timeout).0
            (λ _. EndsBy-earlier now t _ a (read_banner-EndsBy t last _ (omega arith) next))
            (λ _. EndsBy-earlier now t _ a (next t (some dial_failed) (omega arith) (omega arith))))
        (λ _. early)

-- If calls keep their timeouts, the wait for SSH ends within a sleep's slack of its timeout; and it
-- succeeds only after a banner of SSH was read before the deadline.
pub wait_for_ssh_service-EndsBy :
    (net : Network) (sleep : Sleep) (seconds now slack : ℕ)
    → KeepsTime net sleep slack
    → EndsBy net now (now + seconds * second) slack (wait_for_ssh_service net sleep seconds now)
unfolding wait_for_ssh_service
wait_for_ssh_service-EndsBy net sleep seconds now slack keeps =
    ssh_loop-EndsBy net sleep (now + seconds * second) slack keeps seconds now none (omega arith)
      (omega arith)
