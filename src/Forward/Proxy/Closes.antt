-- ===== src/Forward/Proxy/Closes.antt =====
-- When `proxyConnection` shuts the two sockets of a connection.
use mathlib.Core.Path.{subst}
use exasol_local_vm.Prelude.{Bool, true, false, not, ◌&&◌, ◌||◌, ◌≡◌, refl, arith, All, All-map}
use exasol_local_vm.Forward.Proxy.{
  End, Copy, is_live, is_shut, is_over, Stage, dialing, copying, returned, Proxied, Outside,
  client_sends, guest_sends, client_lost, guest_lost, at_end, Move, dialled, dial_failed,
  client_cancelled, guest_cancelled, upload, uploaded, upload_failed, download, downloaded,
  download_failed, both_copied, is_cancelled, Forwarding, Others, accepted, accept_failed, cancel,
  close_listener, outside, Code, spawn, accept_closed, move, waited, Reachable, start, then_others,
  then_code,
}
use exasol_local_vm.Forward.Proxy.Invariant.{Sends-copy, Chunk-copy, AtEnd-copy, Somewhere-All}

-- A socket is shut once the copy to it is over, and not before that unless the context is cancelled.
abbrev pub shuts : Bool → End → Copy → Bool
shuts cancelled to copy =
    (not (is_over copy) || is_shut to) && (not (is_shut to) || is_over copy || cancelled)

-- While it dials the guest only the cancellation shuts the client; while it copies, the upload is to the
-- guest and the download to the client; in the end both are shut.
abbrev pub shuts_in_time : Bool → Stage → End → End → Copy → Copy → Bool
shuts_in_time cancelled dialing client guest up down = not (is_shut client) || cancelled
shuts_in_time cancelled copying client guest up down =
    shuts cancelled guest up && shuts cancelled client down
shuts_in_time cancelled returned client guest up down = is_shut client && is_shut guest

abbrev pub ShutsInTime : Bool → Proxied → Type 0
ShutsInTime cancelled c =
    shuts_in_time cancelled c.stage c.client c.guest c.up.copy c.down.copy ≡ true

Outside-ShutsInTime :
    (cancelled : Bool) {c d : Proxied}
    → Outside c d
    → ShutsInTime cancelled c
    → ShutsInTime cancelled d
Outside-ShutsInTime cancelled (client_sends s) h = ground (arith, Sends-copy s, h)
Outside-ShutsInTime cancelled (guest_sends e s) h = ground (arith, Sends-copy s, h)
Outside-ShutsInTime cancelled (client_lost e) h = ground (arith, h)
Outside-ShutsInTime cancelled (guest_lost e) h = ground (arith, h)

Move-ShutsInTime :
    {cancelled : Bool} {c d : Proxied}
    → Move cancelled c d
    → ShutsInTime cancelled c
    → ShutsInTime cancelled d
Move-ShutsInTime (dialled e) h = ground (arith, h)
Move-ShutsInTime (dial_failed e) h = refl
Move-ShutsInTime (client_cancelled x n e) h = ground (arith, h)
Move-ShutsInTime (guest_cancelled x e n) h = ground (arith, h)
Move-ShutsInTime (upload e l x) h = ground (arith, Chunk-copy x, h)
Move-ShutsInTime (uploaded e l x) h = ground (arith, AtEnd-copy x, h)
Move-ShutsInTime (upload_failed e l x) h = ground (arith, h)
Move-ShutsInTime (download e l x) h = ground (arith, Chunk-copy x, h)
Move-ShutsInTime (downloaded e l x) h = ground (arith, AtEnd-copy x, h)
Move-ShutsInTime (download_failed e l x) h = ground (arith, h)
Move-ShutsInTime (both_copied e a b) h = refl

-- What every reachable state says of its goroutines.
abbrev pub AllShutInTime : Forwarding → Type 0
AllShutInTime s = All (ShutsInTime (is_cancelled s.closing)) s.goroutines

-- The cancellation allows more.
cancelled-shuts :
    (stage : Stage) (client guest : End) (up down : Copy)
    → shuts_in_time false stage client guest up down ≡ true
    → shuts_in_time true stage client guest up down ≡ true
cancelled-shuts dialing client guest up down h = ground arith
cancelled-shuts copying client guest up down h = ground (arith, h)
cancelled-shuts returned client guest up down h = h

cancelled-ShutsInTime : (c : Proxied) → ShutsInTime false c → ShutsInTime true c
cancelled-ShutsInTime c h = cancelled-shuts c.stage c.client c.guest c.up.copy c.down.copy h

Others-ShutsInTime : {s t : Forwarding} → Others s t → AllShutInTime s → AllShutInTime t
Others-ShutsInTime (accepted e l) h = h
Others-ShutsInTime (accept_failed e l) h = h
Others-ShutsInTime {s} (cancel e) h =
    All-map (ShutsInTime false) (ShutsInTime true) cancelled-ShutsInTime s.goroutines
      (subst (λ x. All (ShutsInTime (is_cancelled x)) s.goroutines) e h)
Others-ShutsInTime {s} (close_listener e) h =
    subst (λ x. All (ShutsInTime (is_cancelled x)) s.goroutines) e h
Others-ShutsInTime {s} (outside x) h =
    Somewhere-All (ShutsInTime (is_cancelled s.closing))
      (λ c d. Outside-ShutsInTime (is_cancelled s.closing)) x h

Code-ShutsInTime : {s t : Forwarding} → Code s t → AllShutInTime s → AllShutInTime t
Code-ShutsInTime (spawn e) h = (refl, h)
Code-ShutsInTime (accept_closed e l) h = h
Code-ShutsInTime {s} (move x) h =
    Somewhere-All (ShutsInTime (is_cancelled s.closing)) (λ c d. Move-ShutsInTime) x h
Code-ShutsInTime {s} (waited e n) h =
    subst (λ x. All (ShutsInTime (is_cancelled x)) s.goroutines) e h

pub Reachable-ShutsInTime : {s : Forwarding} → Reachable s → AllShutInTime s
Reachable-ShutsInTime start = tt
Reachable-ShutsInTime (then_others r x) = Others-ShutsInTime x (Reachable-ShutsInTime r)
Reachable-ShutsInTime (then_code r x) = Code-ShutsInTime x (Reachable-ShutsInTime r)

-- Nothing is written once one of the sockets is lost or shut.
pub Move-quiet :
    {cancelled : Bool} {c d : Proxied}
    → Move cancelled c d
    → (is_live c.client && is_live c.guest) ≡ false
    → (d.up.written ≡ c.up.written) × (d.down.written ≡ c.down.written)
Move-quiet (dialled e) n = (refl, refl)
Move-quiet (dial_failed e) n = (refl, refl)
Move-quiet (client_cancelled x m e) n = (refl, refl)
Move-quiet (guest_cancelled x e m) n = (refl, refl)
Move-quiet (upload e l x) n = absurd (ground (arith, l, n))
Move-quiet (uploaded e l (at_end a b u)) n = (refl, refl)
Move-quiet (upload_failed e l x) n = (refl, refl)
Move-quiet (download e l x) n = absurd (ground (arith, l, n))
Move-quiet (downloaded e l (at_end a b u)) n = (refl, refl)
Move-quiet (download_failed e l x) n = (refl, refl)
Move-quiet (both_copied e a b) n = (refl, refl)
