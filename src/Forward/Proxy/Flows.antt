-- ===== src/Forward/Proxy/Flows.antt =====
-- One direction of a connection: what was written, and is still to be read, is what was sent.
use exasol_local_vm.Prelude.{
  ◌≢◌, ℕ, ◌+◌, ◌<◌, Text, true, [], ◌++◌, ◌≡◌, refl, sym, ◌∙◌, ap, arith, length, length-append,
  append_assoc,
}
use exasol_local_vm.Forward.Proxy.{
  Copy, idle, running, finished, broken, Flow, no_bytes, Sends, sends, ends, Chunk, chunk, AtEnd,
  at_end, started_copy, failed_copy,
}

-- The bytes written are the first of the bytes sent; the rest is unread, unless the copy has failed;
-- and a copy that is back at the end has written everything.
pub record IsFaithful (f : Flow) : Type 0 where
  pub rest : Text
  pub prefix : (f.written ++ rest) ≡ f.sent
  pub unread : f.copy ≢ broken → rest ≡ f.unread
  pub whole : f.copy ≡ finished → (f.ended ≡ true) × (rest ≡ [])

pub no_bytes-IsFaithful : IsFaithful no_bytes
no_bytes-IsFaithful = record { rest = []; prefix = refl; unread = λ _. refl; whole = λ e. cc }

pub Sends-IsFaithful : {f g : Flow} → Sends f g → IsFaithful f → IsFaithful g
Sends-IsFaithful {f} (sends bytes going) h = record {
  rest = h.rest ++ bytes;
  prefix = sym (append_assoc f.written h.rest bytes) ∙ ap (λ t. t ++ bytes) h.prefix;
  unread = λ n. ap (λ t. t ++ bytes) (h.unread n);
  whole = λ e. (let x = (h.whole e).0 in absurd (ground arith));
}
Sends-IsFaithful ends h = record {
  rest = h.rest;
  prefix = h.prefix;
  unread = h.unread;
  whole = λ e. (refl, (h.whole e).1);
}

pub Chunk-IsFaithful : {f g : Flow} → Chunk f g → IsFaithful f → IsFaithful g
Chunk-IsFaithful {f} (chunk bytes rest going u n) h = record {
  rest = rest;
  prefix =
      append_assoc f.written bytes rest
      ∙ ap (λ t. f.written ++ t) (sym (h.unread (λ b. cc) ∙ u))
      ∙ h.prefix;
  unread = λ _. refl;
  whole = λ e. absurd (cc);
}

pub AtEnd-IsFaithful : {f g : Flow} → AtEnd f g → IsFaithful f → IsFaithful g
AtEnd-IsFaithful {f} (at_end going e u) h = record {
  rest = h.rest;
  prefix = h.prefix;
  unread = λ n. h.unread (λ b. cc);
  whole = λ _. (e, h.unread (λ b. cc) ∙ u);
}

pub started_copy-IsFaithful :
    {f : Flow} → f.copy ≡ idle → IsFaithful f → IsFaithful (started_copy f)
started_copy-IsFaithful e h = record {
  rest = h.rest;
  prefix = h.prefix;
  unread = λ n. h.unread (λ b. cc);
  whole = λ x. absurd (cc);
}

pub failed_copy-IsFaithful : {f : Flow} → IsFaithful f → IsFaithful (failed_copy f)
failed_copy-IsFaithful h = record {
  rest = h.rest;
  prefix = h.prefix;
  unread = λ n. absurd (n refl);
  whole = λ x. absurd (cc);
}

-- What the copy has left to do.
abbrev pub copy_weight : Copy → ℕ
copy_weight idle = 1
copy_weight running = 1
copy_weight finished = 0
copy_weight broken = 0

abbrev pub flow_weight : Flow → ℕ
flow_weight f = copy_weight f.copy + length f.unread

pub Chunk-weight : {f g : Flow} → Chunk f g → flow_weight g < flow_weight f
Chunk-weight {f} (chunk bytes rest going u n) =
    ground (arith, ap length u, length-append bytes rest)

pub AtEnd-weight : {f g : Flow} → AtEnd f g → flow_weight g < flow_weight f
AtEnd-weight {f} (at_end going e u) = ground arith

pub failed_copy-weight : (f : Flow) → f.copy ≡ running → flow_weight (failed_copy f) < flow_weight f
failed_copy-weight f e = ground arith

pub started_copy-weight : (f : Flow) → f.copy ≡ idle → flow_weight (started_copy f) ≡ flow_weight f
started_copy-weight f e = ground arith
