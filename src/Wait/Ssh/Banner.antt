-- ===== src/Wait/Ssh/Banner.antt =====
-- What a wait for SSH that succeeds has seen, whatever the clock does.
use exasol_local_vm.Prelude.{
  ℕ, zero, suc, ◌-◌, ◌*◌, Text, true, false, Option, none, some, ◌≡◌, ltb, min, Option-cases,
  if_cases, inl, inr, ok, err,
}
use mathlib.Core.Path.{subst}
use exasol_local_vm.Wait.{Sleep, second, sleep_until}
use exasol_local_vm.Wait.Ssh.{
  Network, LastError, dial_failed, Waited, is_ready, is_banner, read_banner, ssh_loop,
  wait_for_ssh_service,
}

-- A dial succeeded, and a read behind it got a banner of SSH.
pub record HasGreeted (net : Network) : Type 0 where
  pub dialled : ℕ
  pub dial_timeout : ℕ
  pub connects : (net.dial dialled dial_timeout).0 ≡ true
  pub read_timeout : ℕ
  pub banner : Text
  pub read : (net.read (net.dial dialled dial_timeout).1 read_timeout).0 ≡ some banner
  pub is_ssh : is_banner banner ≡ true

abbrev IfGreeted : Network → Waited → Type 0
IfGreeted net none = Unit
IfGreeted net (some (ok _, t)) = HasGreeted net
IfGreeted net (some (err e, t)) = Unit

module _ (net : Network) (sleep : Sleep) (deadline : ℕ) where
  greeted :
      (t dial_timeout timeout : ℕ)
      → (net.dial t dial_timeout).0 ≡ true
      → is_ready (net.read (net.dial t dial_timeout).1 timeout).0 ≡ true
      → HasGreeted net
  greeted t dial_timeout timeout up ready =
      elim (Option-cases (net.read (net.dial t dial_timeout).1 timeout).0) [
        | inl e ↦ let k : false ≡ true = rw (e, is_ready) at ready in cc
        | inr (banner, e) ↦ record {
          dialled = t;
          dial_timeout = dial_timeout;
          connects = up;
          read_timeout = timeout;
          banner = banner;
          read = e;
          is_ssh = (rw (e, is_ready) at ready);
        }
      ]

  read_banner-IfGreeted :
      (t dial_timeout : ℕ) (last : Option LastError) (next : ℕ → Option LastError → Waited)
      → (net.dial t dial_timeout).0 ≡ true
      → ((u : ℕ) (e : Option LastError) → IfGreeted net (next u e))
      → IfGreeted net (read_banner net deadline (net.dial t dial_timeout).1 last next)
  unfolding read_banner
  read_banner-IfGreeted t dial_timeout last next up go =
      let u = (net.dial t dial_timeout).1 in
      let timeout = min (3 * second) (deadline - u) in
      if_cases (IfGreeted net) (ltb u deadline)
        (λ _.
          if_cases (IfGreeted net) (net.set_deadline u)
            (λ _.
              if_cases (IfGreeted net) (is_ready (net.read u timeout).0)
                (λ ready. greeted t dial_timeout timeout up ready)
                (λ _. go (net.read u timeout).1 _))
            (λ _. tt))
        (λ _. tt)

  ssh_loop-IfGreeted :
      (fuel now : ℕ) (last : Option LastError)
      → IfGreeted net (ssh_loop net sleep deadline fuel now last)
  unfolding ssh_loop
  ssh_loop-IfGreeted zero now last = tt
  ssh_loop-IfGreeted (suc fuel) now last =
      let timeout = min (3 * second) (deadline - now) in
      let next = λ (t : ℕ) (e : Option LastError).
        ssh_loop-IfGreeted fuel (sleep_until sleep deadline second t) e in
      if_cases (IfGreeted net) (ltb now deadline)
        (λ _.
          if_cases (IfGreeted net) (net.dial now timeout).0
            (λ up. read_banner-IfGreeted now timeout last _ up next)
            (λ _. next (net.dial now timeout).1 (some dial_failed)))
        (λ _. tt)

-- A wait for SSH that succeeds has dialled the guest and read a banner of SSH.
pub wait_for_ssh_service-HasGreeted :
    (net : Network) (sleep : Sleep) (seconds now t : ℕ)
    → wait_for_ssh_service net sleep seconds now ≡ some (ok tt, t)
    → HasGreeted net
unfolding wait_for_ssh_service
wait_for_ssh_service-HasGreeted net sleep seconds now t e =
    subst (IfGreeted net) e (ssh_loop-IfGreeted net sleep _ _ now none)
