-- ===== src/Forward/Proxy/Invariant.antt =====
-- What holds of every goroutine of a forwarder, whatever the clients, the guest, the network and the
-- other goroutines do.
use exasol_local_vm.Prelude.{◌≤◌, Bool, true, false, not, ◌&&◌, List, ◌≡◌, ◌≢◌, refl, arith, All}
use exasol_local_vm.Forward.Proxy.{
  End, Copy, idle, running, finished, broken, is_shut, Flow, Stage, dialing, copying, returned,
  Proxied, accepted_client, Sends, sends, ends, Outside, client_sends, guest_sends, client_lost,
  guest_lost, Chunk, chunk, AtEnd, at_end, Move, dialled, dial_failed, client_cancelled,
  guest_cancelled, upload, uploaded, upload_failed, download, downloaded, download_failed,
  both_copied, ended, closed, is_listening, Forwarding, Somewhere, head, tail, goroutine_count,
  wait_count, running_count, Others, accepted, accept_failed, cancel, close_listener, outside, Code,
  spawn, accept_closed, move, waited, Reachable, start, then_others, then_code,
}
use exasol_local_vm.Forward.Proxy.Flows.{
  IsFaithful, no_bytes-IsFaithful, Sends-IsFaithful, Chunk-IsFaithful, AtEnd-IsFaithful,
  started_copy-IsFaithful, failed_copy-IsFaithful,
}

abbrev pub is_idle : Copy → Bool
is_idle idle = true
is_idle running = false
is_idle finished = false
is_idle broken = false

-- A goroutine that has not dialled has no socket to the guest and copies nothing; one that copies has
-- started both copies; one that has returned has shut both sockets.
abbrev pub stage_fits : Stage → End → End → Copy → Copy → Bool
stage_fits dialing client guest up down = is_shut guest && is_idle up && is_idle down
stage_fits copying client guest up down = not (is_idle up) && not (is_idle down)
stage_fits returned client guest up down = is_shut client && is_shut guest

pub record IsSound (c : Proxied) : Type 0 where
  pub up : IsFaithful c.up
  pub down : IsFaithful c.down
  pub fits : stage_fits c.stage c.client c.guest c.up.copy c.down.copy ≡ true

pub accepted_client-IsSound : IsSound accepted_client
accepted_client-IsSound = record {
  up = no_bytes-IsFaithful;
  down = no_bytes-IsFaithful;
  fits = refl;
}

pub Sends-copy : {f g : Flow} → Sends f g → g.copy ≡ f.copy
Sends-copy (sends bytes going) = refl
Sends-copy ends = refl

pub Chunk-copy : {f g : Flow} → Chunk f g → g.copy ≡ f.copy
Chunk-copy (chunk bytes rest going u n) = refl

pub AtEnd-copy : {f g : Flow} → AtEnd f g → g.copy ≡ finished
AtEnd-copy (at_end going e u) = refl

Outside-IsSound : {c d : Proxied} → Outside c d → IsSound c → IsSound d
Outside-IsSound (client_sends s) h = record {
  up = Sends-IsFaithful s h.up;
  down = h.down;
  fits = ground (arith, Sends-copy s, h.fits);
}
Outside-IsSound (guest_sends e s) h = record {
  up = h.up;
  down = Sends-IsFaithful s h.down;
  fits = ground (arith, Sends-copy s, h.fits);
}
Outside-IsSound (client_lost e) h = record {
  up = h.up;
  down = h.down;
  fits = ground (arith, h.fits);
}
Outside-IsSound (guest_lost e) h = record {
  up = h.up;
  down = h.down;
  fits = ground (arith, h.fits);
}

Move-IsSound : {cancelled : Bool} {c d : Proxied} → Move cancelled c d → IsSound c → IsSound d
Move-IsSound (dialled e) h = record {
  up = started_copy-IsFaithful (ground (arith, h.fits)) h.up;
  down = started_copy-IsFaithful (ground (arith, h.fits)) h.down;
  fits = refl;
}
Move-IsSound (dial_failed e) h = record { up = h.up; down = h.down; fits = refl }
Move-IsSound (client_cancelled x n e) h = record {
  up = h.up;
  down = h.down;
  fits = ground (arith, h.fits);
}
Move-IsSound (guest_cancelled x e n) h = record {
  up = h.up;
  down = h.down;
  fits = ground (arith, h.fits);
}
Move-IsSound (upload e l x) h = record {
  up = Chunk-IsFaithful x h.up;
  down = h.down;
  fits = ground (arith, Chunk-copy x, h.fits);
}
Move-IsSound (uploaded e l x) h = record {
  up = AtEnd-IsFaithful x h.up;
  down = h.down;
  fits = ground (arith, AtEnd-copy x, h.fits);
}
Move-IsSound (upload_failed e l x) h = record {
  up = failed_copy-IsFaithful h.up;
  down = h.down;
  fits = ground (arith, h.fits);
}
Move-IsSound (download e l x) h = record {
  up = h.up;
  down = Chunk-IsFaithful x h.down;
  fits = ground (arith, Chunk-copy x, h.fits);
}
Move-IsSound (downloaded e l x) h = record {
  up = h.up;
  down = AtEnd-IsFaithful x h.down;
  fits = ground (arith, AtEnd-copy x, h.fits);
}
Move-IsSound (download_failed e l x) h = record {
  up = h.up;
  down = failed_copy-IsFaithful h.down;
  fits = ground (arith, h.fits);
}
Move-IsSound (both_copied e a b) h = record { up = h.up; down = h.down; fits = refl }

-- A step of one member keeps what each step keeps.
module _ {A : Type 0} {R : A → A → Type 0} (P : A → Type 0)
    (keep : (x y : A) → R x y → P x → P y) where
  pub Somewhere-All : {l m : List A} → Somewhere R l m → All P l → All P m
  Somewhere-All (head r) (p, ps) = (keep _ _ r p, ps)
  Somewhere-All (tail s) (p, ps) = (p, Somewhere-All s ps)

-- After `Close` is back nothing is left.
pub record Inv (s : Forwarding) : Type 0 where
  pub sound : All IsSound s.goroutines
  pub loop : s.loop ≡ ended → is_listening s.closing ≡ false
  pub done : s.closing ≡ closed → wait_count s ≡ 0

Move-running : {cancelled : Bool} {c d : Proxied} → Move cancelled c d → running_count c.stage ≡ 1
Move-running (dialled e) = ground arith
Move-running (dial_failed e) = ground arith
Move-running {c} (client_cancelled x n e) = not_returned c.stage n
  where
    not_returned : (stage : Stage) → stage ≢ returned → running_count stage ≡ 1
    not_returned dialing n = refl
    not_returned copying n = refl
    not_returned returned n = absurd (n refl)
Move-running (guest_cancelled x e n) = ground arith
Move-running (upload e l x) = ground arith
Move-running (uploaded e l x) = ground arith
Move-running (upload_failed e l x) = ground arith
Move-running (download e l x) = ground arith
Move-running (downloaded e l x) = ground arith
Move-running (download_failed e l x) = ground arith
Move-running (both_copied e a b) = ground arith

Outside-stage : {c d : Proxied} → Outside c d → d.stage ≡ c.stage
Outside-stage (client_sends s) = refl
Outside-stage (guest_sends e s) = refl
Outside-stage (client_lost e) = refl
Outside-stage (guest_lost e) = refl

-- With no goroutine left, none can move.
Move-count :
    {cancelled : Bool} {l m : List Proxied} → Somewhere (Move cancelled) l m → 1 ≤ goroutine_count l
Move-count (head x) = omega (arith, Move-running x)
Move-count (tail s) = omega (arith, Move-count s)

Outside-count : {l m : List Proxied} → Somewhere Outside l m → goroutine_count m ≡ goroutine_count l
Outside-count (head x) = ground (arith, Outside-stage x)
Outside-count (tail s) = omega (arith, Outside-count s)

Others-Inv : {s t : Forwarding} → Others s t → Inv s → Inv t
Others-Inv (accepted e l) h = record {
  sound = h.sound;
  loop = λ x. cc;
  done = λ x. absurd (ground arith);
}
Others-Inv (accept_failed e l) h = h
Others-Inv (cancel e) h = record {
  sound = h.sound;
  loop = λ x. absurd (let k = h.loop x in ground arith);
  done = λ x. cc;
}
Others-Inv (close_listener e) h = record { sound = h.sound; loop = λ x. refl; done = λ x. cc }
Others-Inv (outside x) h = record {
  sound = Somewhere-All IsSound (λ c d. Outside-IsSound) x h.sound;
  loop = h.loop;
  done = λ e. (let k = h.done e in omega (arith, Outside-count x));
}

Code-Inv : {s t : Forwarding} → Code s t → Inv s → Inv t
Code-Inv (spawn e) h = record {
  sound = (accepted_client-IsSound, h.sound);
  loop = λ x. cc;
  done = λ x. absurd (let k = h.done x in ground arith);
}
Code-Inv (accept_closed e l) h = record {
  sound = h.sound;
  loop = λ x. l;
  done = λ x. absurd (let k = h.done x in ground arith);
}
Code-Inv (move x) h = record {
  sound = Somewhere-All IsSound (λ c d. Move-IsSound) x h.sound;
  loop = h.loop;
  done = λ e. absurd (let k = h.done e in omega (arith, Move-count x));
}
Code-Inv (waited e n) h = record { sound = h.sound; loop = λ x. refl; done = λ x. n }

pub Reachable-Inv : {s : Forwarding} → Reachable s → Inv s
Reachable-Inv start = record { sound = tt; loop = λ x. cc; done = λ x. cc }
Reachable-Inv (then_others r x) = Others-Inv x (Reachable-Inv r)
Reachable-Inv (then_code r x) = Code-Inv x (Reachable-Inv r)
