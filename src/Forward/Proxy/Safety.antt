-- ===== src/Forward/Proxy/Safety.antt =====
-- What a forwarder promises: it relays bytes as they were sent, and leaves nothing behind.
use exasol_local_vm.Prelude.{Bool, false, ◌&&◌, ℕ, ◌+◌, List, [], ◌∷◌, ◌≡◌, refl, arith, All}
use exasol_local_vm.Forward.Proxy.{
  Move, is_live, shut, Stage, dialing, copying, returned, Proxied, Loop, accepting, holding, ended,
  closed, Forwarding, loop_count, goroutine_count, Reachable,
}
use exasol_local_vm.Forward.Proxy.Flows.{IsFaithful}
use exasol_local_vm.Forward.Proxy.Invariant.{IsSound, Reachable-Inv}
use exasol_local_vm.Forward.Proxy.Closes.{ShutsInTime}

-- A goroutine of `proxyConnection` that is over, with both sockets shut.
pub record HasReturned (c : Proxied) : Type 0 where
  pub stage : c.stage ≡ returned
  pub client : c.client ≡ shut
  pub guest : c.guest ≡ shut

shut_ends :
    (stage : Stage) (c : Proxied) (l : List Proxied)
    → c.stage ≡ stage
    → IsSound c
    → goroutine_count (c ∷ l) ≡ 0
    → HasReturned c × (goroutine_count l ≡ 0)
shut_ends dialing c l e h n = absurd (ground arith)
shut_ends copying c l e h n = absurd (ground arith)
shut_ends returned c l e h n = (
  record { stage = e; client = ground (arith, h.fits); guest = ground (arith, h.fits) },
  ground arith,
)

none_left : (l : List Proxied) → All IsSound l → goroutine_count l ≡ 0 → All HasReturned l
none_left [] h n = tt
none_left (c ∷ l) (h, hs) n = let (a, b) = shut_ends c.stage c l refl h n in (a, none_left l hs b)

loop_over : (loop : Loop) (n : ℕ) → loop_count loop + n ≡ 0 → (loop ≡ ended) × (n ≡ 0)
loop_over accepting n e = absurd (omega arith)
loop_over holding n e = absurd (omega arith)
loop_over ended n e = (refl, omega arith)

-- When `Close` is back, whatever has happened before and since, `acceptLoop` is over, and so is every
-- goroutine that it has started, with the sockets to its client and to the guest shut.
pub Reachable-HasReturned :
    (s : Forwarding)
    → Reachable s
    → s.closing ≡ closed
    → (s.loop ≡ ended) × All HasReturned s.goroutines
Reachable-HasReturned s r e =
    let i = Reachable-Inv r in
    let (a, b) = loop_over s.loop (goroutine_count s.goroutines) (i.done e) in
    (a, none_left s.goroutines i.sound b)

-- A connection of a forwarder whose context may be cancelled: its two directions, when its sockets are
-- shut, and that nothing is written from then on.
pub record IsRelayed (cancelled : Bool) (c : Proxied) : Type 0 where
  pub up : IsFaithful c.up
  pub down : IsFaithful c.down
  pub shuts : ShutsInTime cancelled c
  pub quiet :
      {d : Proxied}
      → Move cancelled c d
      → (is_live c.client && is_live c.guest) ≡ false
      → (d.up.written ≡ c.up.written) × (d.down.written ≡ c.down.written)
