-- ===== src/Start/Tail.antt =====
-- launcher/mac/main.go, `startCmd`: the goroutine that copies `vm.log` to the terminal while the daemon
-- writes it, a tenth of a second at a time.
use mathlib.Core.Path.{subst}
use exasol_local_vm.Prelude.{
  take-all, length-take_le, take-append_le, take-take-drop, ℕ, ◌+◌, ◌-◌, ◌≤◌, Text, Bool, true, [],
  ◌++◌, if◌then◌else◌, ◌&&◌, ltb, length, take, drop, ◌≡◌, refl, sym, ◌∙◌, ap, arith, length-append,
  append-nil, Bool-cases, inl, inr,
}

-- `lastSize`, and what is on the terminal.
pub record Tail : Type 0 where
  pub last_size : ℕ
  pub shown : Text

-- One tick, given whether the log can be opened, its text at the time of `os.Stat` and at that of
-- `file.Read`, and how many bytes that reads.
unfoldable pub tick : Bool → Text → Text → ℕ → Tail → Tail
tick opens seen there read t =
    if ltb t.last_size (length seen) && opens
    then record {
      last_size = length seen;
      shown = t.shown ++ take read (take (length seen - t.last_size) (drop t.last_size there));
    }
    else t

-- The log and the terminal. The daemon only appends to the log, and may do so between the two calls of a
-- tick, of which the second fills its buffer where the log holds enough.
pub record Logging : Type 0 where
  pub log : Text
  pub tail : Tail

pub data LogStep (s : Logging) : Logging → Type 0 where
  logged : (more : Text) → LogStep s (record s { log = s.log ++ more })
  ticked :
      (opens : Bool) (more : Text) (read : ℕ)
      → length s.log - s.tail.last_size ≤ read
      → LogStep s
          (record s { log = s.log ++ more; tail = tick opens s.log (s.log ++ more) read s.tail })

-- A tailer that has just been started, at a log that may hold some text.
abbrev pub opened_log : Text → Logging
opened_log log = record { log = log; tail = record { last_size = 0; shown = [] } }

pub data Logs (s : Logging) : Logging → Type 0 where
  here : Logs s s
  next : {t u : Logging} → Logs s t → LogStep t u → Logs s u

-- What is on the terminal is the start of the log.
abbrev pub IsCopied : Text → Tail → Type 0
IsCopied log t = (t.shown ≡ take t.last_size log) × (t.last_size ≤ length log)

tick-IsCopied :
    (opens : Bool) (log more : Text) (read : ℕ) (t : Tail)
    → length log - t.last_size ≤ read
    → IsCopied log t
    → IsCopied (log ++ more) (tick opens log (log ++ more) read t)
unfolding tick
tick-IsCopied opens log more read t enough (shown, within) =
    elim (Bool-cases (ltb t.last_size (length log) && opens)) [
      | inr e ↦ rw e (
        shown ∙ sym (take-append_le t.last_size log more within),
        omega (arith, length-append log more),
      )
      | inl e ↦
          let size = length log - t.last_size in
          let rest = take size (drop t.last_size (log ++ more)) in
          let whole =
            take-all read rest
              (omega (arith, length-take_le size (drop t.last_size (log ++ more)))) in
          let before = shown ∙ sym (take-append_le t.last_size log more within) in
          let sum : t.last_size + (length log - t.last_size) ≡ length log = omega arith in
          rw e (
            ap (λ x. t.shown ++ x) whole
                ∙ ap (λ x. x ++ rest) before
                ∙ take-take-drop t.last_size size (log ++ more)
                ∙ ap (λ n. take n (log ++ more)) sum,
            omega (arith, length-append log more),
          )
    ]

run-IsCopied : (log : Text) {s : Logging} → Logs (opened_log log) s → IsCopied s.log s.tail
run-IsCopied log here = (refl, omega arith)
run-IsCopied log (next {t} r (logged more)) =
    let (shown, within) = run-IsCopied log r in
    (
      shown ∙ sym (take-append_le t.tail.last_size t.log more within),
      omega (arith, length-append t.log more),
    )
run-IsCopied log (next {t} r (ticked opens more read enough)) =
    tick-IsCopied opens t.log more read t.tail enough (run-IsCopied log r)

-- A tick at a log that does not grow meanwhile.
abbrev last_tick : Text → Tail → Tail
last_tick log t = tick true log log (length log) t

last_tick-last_size :
    (log : Text) (t : Tail) → t.last_size ≤ length log → (last_tick log t).last_size ≡ length log
unfolding tick
last_tick-last_size log t within = ground arith

last_tick-shown : (log : Text) (t : Tail) → IsCopied log t → (last_tick log t).shown ≡ log
last_tick-shown log t h =
    let same = append-nil log in
    let copied =
      subst (λ x. IsCopied x (tick true log x (length log) t)) same
        (tick-IsCopied true log [] (length log) t (omega arith) h) in
    copied.0
    ∙ ap (λ n. take n log) (last_tick-last_size log t h.1)
    ∙ take-all (length log) log (omega arith)

-- While the daemon appends to `vm.log` and reads return all that is asked for, the terminal shows the start
-- of the log, without loss, repetition or change of order; and one more tick at which the log can be
-- opened and does not grow shows the whole log.
pub Logs-IsCopied :
    (log : Text) (s : Logging)
    → Logs (opened_log log) s
    → IsCopied s.log s.tail × ((tick true s.log s.log (length s.log) s.tail).shown ≡ s.log)
Logs-IsCopied log s r = let h = run-IsCopied log r in (h, last_tick-shown s.log s.tail h)
