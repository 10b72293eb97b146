-- ===== src/VmDaemon/Stops.antt =====
-- A signal ends the process, whatever the main goroutine does.
use exasol_local_vm.Prelude.{ℕ, ◌+◌, ◌*◌, Bool, ◌≡◌}
use exasol_local_vm.Wait.{second}
use exasol_local_vm.Wait.Poll.{Ended}
use exasol_local_vm.VmDaemon.{exited, Process, HandlerCalls, HandlerSteps}

-- What the exit is after: a look at the machine that says that it has stopped, or 60 s.
abbrev pub HasExited : HandlerCalls → Process → Type 0
HasExited c q =
    (o : Bool × ℕ) × (q.life ≡ exited o) × Ended c.machine.stopped (c.now + 60 * second) c.now o

-- The handler's own steps lead to the exit.
abbrev pub Stops : HandlerCalls → Process → Type 0
Stops c p = (q : Process) × HandlerSteps c p q × HasExited c q
