-- ===== src/Wait/Ssh.antt =====
-- launcher/mac/main.go: `waitForSSHService` dials the guest until it answers with a banner of SSH.
pub mod Ends
pub mod Banner
use exasol_local_vm.Prelude.{
  ℕ, zero, suc, ◌+◌, ◌-◌, ◌*◌, Text, codes, Bool, true, false, Option, none, some, ltb,
  if◌then◌else◌, min, Result, ok, err,
}
use exasol_local_vm.Std.Strings.{has_prefix}
use exasol_local_vm.Wait.{Sleep, second, sleep_until}

-- What the network answers, and when: a dial and a read, each with its timeout, and whether a deadline
-- can be set.
pub record Network : Type 0 where
  pub dial : ℕ → ℕ → Bool × ℕ
  pub set_deadline : ℕ → Bool
  pub read : ℕ → ℕ → Option Text × ℕ

-- The error kept from the last round.
pub data LastError : Type 0 where
  dial_failed read_failed : LastError
  unexpected_banner : Text → LastError

pub data SshError : Type 0 where
  timed_out : Option LastError → SshError
  no_read_deadline : SshError

-- How the wait ends, and when. `none`: the fuel ran out.
abbrev pub Waited : Type 0
Waited = Option (Result SshError (Unit {0}) × ℕ)

abbrev pub is_banner : Text → Bool
is_banner s = has_prefix s (codes "SSH-")

abbrev pub error_of : Option Text → LastError
error_of none = read_failed
error_of (some s) = unexpected_banner s

abbrev pub is_ready : Option Text → Bool
is_ready none = false
is_ready (some s) = is_banner s

-- A round whose dial has succeeded at a time; it reads for at most 3 s, and goes on with `next`.
unfoldable pub read_banner :
    Network → ℕ → ℕ → Option LastError → (ℕ → Option LastError → Waited) → Waited
read_banner net deadline t last next =
    let timeout = min (3 * second) (deadline - t) in
    let (banner, t') = net.read t timeout in
    if ltb t deadline
    then (if net.set_deadline t
        then (if is_ready banner then some (ok tt, t') else next t' (some (error_of banner)))
        else some (err no_read_deadline, t))
    else some (err (timed_out last), t)

unfoldable pub ssh_loop : Network → Sleep → ℕ → ℕ → ℕ → Option LastError → Waited
ssh_loop net sleep deadline zero now last = none
ssh_loop net sleep deadline (suc fuel) now last =
    let next = λ (t : ℕ) (e : Option LastError).
      ssh_loop net sleep deadline fuel (sleep_until sleep deadline second t) e in
    let (up, t) = net.dial now (min (3 * second) (deadline - now)) in
    if ltb now deadline
    then (if up then read_banner net deadline t last next else next t (some dial_failed))
    else some (err (timed_out last), now)

-- `waitForSSHService` with a timeout of so many seconds; each round but the last takes one at least.
unfoldable pub wait_for_ssh_service : Network → Sleep → ℕ → ℕ → Waited
wait_for_ssh_service net sleep seconds now =
    ssh_loop net sleep (now + seconds * second) (suc seconds) now none
