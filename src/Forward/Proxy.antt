-- ===== src/Forward/Proxy.antt =====
-- launcher/mac/forwarding.go: the goroutines of a forwarder, `acceptLoop` and `proxyConnection`, and
-- `Close`, which waits for them. An `io.Copy` and the `Close` behind it are one step: nothing of that
-- goroutine lies between them.
pub mod Flows
pub mod Invariant
pub mod Safety
pub mod Closes
pub mod Drain
use exasol_local_vm.Prelude.{
  ℕ, ◌+◌, Text, Bool, true, false, ◌&&◌, List, [], ◌∷◌, ◌++◌, ◌≡◌, ◌≢◌, is_nil,
}

-- A socket of the forwarder: live, failed by the network, or shut by the forwarder.
pub data End : Type 0 where
  live lost shut : End

abbrev pub is_live : End → Bool
is_live live = true
is_live lost = false
is_live shut = false

abbrev pub is_shut : End → Bool
is_shut live = false
is_shut lost = false
is_shut shut = true

-- An `io.Copy`: not called yet, running, back at the end of its source, or back with an error.
pub data Copy : Type 0 where
  idle running finished broken : Copy

abbrev pub is_over : Copy → Bool
is_over idle = false
is_over running = false
is_over finished = true
is_over broken = true

-- One direction of a connection: what the source has sent, what of it is not read yet, what was
-- written to the other side, and whether the source has sent its end.
pub record Flow : Type 0 where
  pub sent : Text
  pub unread : Text
  pub written : Text
  pub ended : Bool
  pub copy : Copy

pub data Stage : Type 0 where
  dialing copying returned : Stage

-- A goroutine of `proxyConnection`, with its two sockets.
pub record Proxied : Type 0 where
  pub stage : Stage
  pub client : End
  pub guest : End
  pub up : Flow
  pub down : Flow

abbrev pub no_bytes : Flow
no_bytes = record { sent = []; unread = []; written = []; ended = false; copy = idle }

-- The goroutine as it is started, for an accepted connection.
abbrev pub accepted_client : Proxied
accepted_client = record {
  stage = dialing;
  client = live;
  guest = shut;
  up = no_bytes;
  down = no_bytes;
}

-- The other ends send bytes, and their end.
pub data Sends (f : Flow) : Flow → Type 0 where
  sends :
      (bytes : Text)
      → f.ended ≡ false
      → Sends f (record f { sent = f.sent ++ bytes; unread = f.unread ++ bytes })
  ends : Sends f (record f { ended = true })

-- What the clients, the guest and the network do to a connection.
pub data Outside (c : Proxied) : Proxied → Type 0 where
  client_sends : {f : Flow} → Sends c.up f → Outside c (record c { up = f })
  guest_sends : {f : Flow} → c.stage ≡ copying → Sends c.down f → Outside c (record c { down = f })
  client_lost : is_live c.client ≡ true → Outside c (record c { client = lost })
  guest_lost : is_live c.guest ≡ true → Outside c (record c { guest = lost })

-- A part of what is unread is copied.
pub data Chunk (f : Flow) : Flow → Type 0 where
  chunk :
      (bytes rest : Text)
      → f.copy ≡ running
      → f.unread ≡ bytes ++ rest
      → is_nil bytes ≡ false
      → Chunk f (record f { unread = rest; written = f.written ++ bytes })

-- The copy is back, at the end of the source.
pub data AtEnd (f : Flow) : Flow → Type 0 where
  at_end :
      f.copy ≡ running → f.ended ≡ true → f.unread ≡ [] → AtEnd f (record f { copy = finished })

abbrev pub started_copy : Flow → Flow
started_copy f = record f { copy = running }

abbrev pub failed_copy : Flow → Flow
failed_copy f = record f { copy = broken }

-- `proxyConnection`, with the functions that run when the context is cancelled.
pub data Move (cancelled : Bool) (c : Proxied) : Proxied → Type 0 where
  dialled :
      c.stage ≡ dialing
      → Move cancelled c (record c {
        stage = copying;
        guest = live;
        up = started_copy c.up;
        down = started_copy c.down;
      })
  dial_failed :
      c.stage ≡ dialing
      → Move cancelled c (record c { stage = returned; client = shut; guest = shut })
  client_cancelled :
      cancelled ≡ true
      → c.stage ≢ returned
      → is_shut c.client ≡ false
      → Move cancelled c (record c { client = shut })
  guest_cancelled :
      cancelled ≡ true
      → c.stage ≡ copying
      → is_shut c.guest ≡ false
      → Move cancelled c (record c { guest = shut })
  upload :
      {f : Flow}
      → c.stage ≡ copying
      → (is_live c.client && is_live c.guest) ≡ true
      → Chunk c.up f
      → Move cancelled c (record c { up = f })
  uploaded :
      {f : Flow}
      → c.stage ≡ copying
      → is_live c.client ≡ true
      → AtEnd c.up f
      → Move cancelled c (record c { up = f; guest = shut })
  upload_failed :
      c.stage ≡ copying
      → (is_live c.client && is_live c.guest) ≡ false
      → c.up.copy ≡ running
      → Move cancelled c (record c { up = failed_copy c.up; guest = shut })
  download :
      {f : Flow}
      → c.stage ≡ copying
      → (is_live c.client && is_live c.guest) ≡ true
      → Chunk c.down f
      → Move cancelled c (record c { down = f })
  downloaded :
      {f : Flow}
      → c.stage ≡ copying
      → is_live c.guest ≡ true
      → AtEnd c.down f
      → Move cancelled c (record c { down = f; client = shut })
  download_failed :
      c.stage ≡ copying
      → (is_live c.client && is_live c.guest) ≡ false
      → c.down.copy ≡ running
      → Move cancelled c (record c { down = failed_copy c.down; client = shut })
  both_copied :
      c.stage ≡ copying
      → is_over c.up.copy ≡ true
      → is_over c.down.copy ≡ true
      → Move cancelled c (record c { stage = returned; client = shut; guest = shut })

-- Where `acceptLoop` is: in `Accept`, between it and the start of a goroutine, or back.
pub data Loop : Type 0 where
  accepting holding ended : Loop

-- How far `Close` is: not called, past the cancellation of the context, past the close of the
-- listener, or back from the wait for the goroutines.
pub data Closing : Type 0 where
  unclosed cancelling draining closed : Closing

abbrev pub is_cancelled : Closing → Bool
is_cancelled unclosed = false
is_cancelled cancelling = true
is_cancelled draining = true
is_cancelled closed = true

abbrev pub is_listening : Closing → Bool
is_listening unclosed = true
is_listening cancelling = true
is_listening draining = false
is_listening closed = false

pub record Forwarding : Type 0 where
  pub loop : Loop
  pub closing : Closing
  pub goroutines : List Proxied

-- A step of one member of a list.
pub data Somewhere {A : Type 0} (R : A → A → Type 0) : List A → List A → Type 0 where
  head : {x y : A} {l : List A} → R x y → Somewhere R (x ∷ l) (y ∷ l)
  tail : {x : A} {l m : List A} → Somewhere R l m → Somewhere R (x ∷ l) (x ∷ m)

abbrev pub loop_count : Loop → ℕ
loop_count accepting = 1
loop_count holding = 1
loop_count ended = 0

abbrev pub running_count : Stage → ℕ
running_count dialing = 1
running_count copying = 1
running_count returned = 0

abbrev pub goroutine_count : List Proxied → ℕ
goroutine_count [] = 0
goroutine_count (c ∷ l) = running_count c.stage + goroutine_count l

-- The counter of the `WaitGroup`.
abbrev pub wait_count : Forwarding → ℕ
wait_count s = loop_count s.loop + goroutine_count s.goroutines

-- Steps of others: connections arrive, `Accept` fails, `Close` is called and reaches its wait.
pub data Others (s : Forwarding) : Forwarding → Type 0 where
  accepted :
      s.loop ≡ accepting → is_listening s.closing ≡ true → Others s (record s { loop = holding })
  accept_failed : s.loop ≡ accepting → is_listening s.closing ≡ true → Others s s
  cancel : s.closing ≡ unclosed → Others s (record s { closing = cancelling })
  close_listener : s.closing ≡ cancelling → Others s (record s { closing = draining })
  outside :
      {l : List Proxied} → Somewhere Outside s.goroutines l → Others s (record s { goroutines = l })

-- Steps of the forwarder's goroutines, and the end of the wait in `Close`.
pub data Code (s : Forwarding) : Forwarding → Type 0 where
  spawn :
      s.loop ≡ holding
      → Code s (record s { loop = accepting; goroutines = accepted_client ∷ s.goroutines })
  accept_closed :
      s.loop ≡ accepting → is_listening s.closing ≡ false → Code s (record s { loop = ended })
  move :
      {l : List Proxied}
      → Somewhere (Move (is_cancelled s.closing)) s.goroutines l
      → Code s (record s { goroutines = l })
  waited : s.closing ≡ draining → wait_count s ≡ 0 → Code s (record s { closing = closed })

-- A forwarder as `startForwarder` leaves it.
abbrev pub opened_forwarding : Forwarding
opened_forwarding = record { loop = accepting; closing = unclosed; goroutines = [] }

pub data Reachable : Forwarding → Type 0 where
  start : Reachable opened_forwarding
  then_others : {s t : Forwarding} → Reachable s → Others s t → Reachable t
  then_code : {s t : Forwarding} → Reachable s → Code s t → Reachable t
