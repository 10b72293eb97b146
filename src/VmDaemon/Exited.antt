-- ===== src/VmDaemon/Exited.antt =====
-- What the signal handler has asked for before it ends the process.
use exasol_local_vm.Prelude.{Text, some, ◌≡◌}
use exasol_local_vm.Boot.{Boot}
use exasol_local_vm.Wait.Stop.{StopAnswers, stop_calls, ssh_target}
use exasol_local_vm.VmDaemon.{forwarding, Handler, listening, closed, asked, Process}

-- The handler has not asked for anything.
abbrev pub IsUnasked : Handler → Type 0
IsUnasked listening = Unit
IsUnasked closed = Unit
IsUnasked (asked calls) = ⊥

-- What it asks for, it asks for at this address.
abbrev InHandler : Text → Handler → Type 0
InHandler vm_ip listening = Unit
InHandler vm_ip closed = Unit
InHandler vm_ip (asked calls) =
    (answers : StopAnswers) × (calls ≡ stop_calls answers (some (ssh_target vm_ip)))

record HasAddress (vm_ip : Text) (p : Process) : Type 0 where
  main : p.main ≡ forwarding vm_ip
  target : p.target ≡ some (ssh_target vm_ip)
  handler : InHandler vm_ip p.handler
