-- ===== src/VmDaemon.antt =====
-- launcher/mac/main.go, `runVMDaemon` as a whole: the start of the machine (Boot), the wait for its
-- address (Wait.InitOutput), the forwards and their requests (Forward.Lifecycle), the signal handler
-- beside them (Wait.Stop), and the two ways to end: the return of the function, with its deferred
-- functions, and the handler's `os.Exit`, without them. The start of the machine is one step: the
-- requests on the socket during it change nothing, and the handler is not there until its end.
pub mod Invariant
pub mod Returned
pub mod Exited
pub mod Stops
use exasol_local_vm.Prelude.{
  ℕ, Text, codes, Bool, true, false, List, [], Option, none, some, ◌≡◌, ◌≢◌, Result, ok, err,
}
use exasol_local_vm.Forward.Spec.{ForwardSpec}
use exasol_local_vm.Forward.StateFile.{Files}
use exasol_local_vm.Forward.Registry.Requests.{BindsExactly}
use exasol_local_vm.Forward.Registry.{Os, ForwardRequest, handle_forward_request, close_forwarders}
use exasol_local_vm.Forward.Lifecycle.{
  System, starting, ended, started, Step, bind, bind_failed, ssh_ready, write_failed,
  runtime_not_written, ssh_not_ready, request, signal, vm_stopped, degraded_vm_stopped,
}
use exasol_local_vm.Boot.Devices.{VzCalls, VmConfig}
use exasol_local_vm.Boot.{Boot, BootCalls, BootError, boot, without_pid, without_runtime}
use exasol_local_vm.Wait.{Sleep}
use exasol_local_vm.Wait.InitOutput.{InitOutput, InitError, Console, wait_for_init_output}
use exasol_local_vm.Wait.Stop.{
  StopCall, StopAnswers, Machine, await_stopped, stop_calls, ssh_target,
}

-- Where the main goroutine is: before the start of the machine, waiting for its address, or past that,
-- with the address.
pub data Main : Type 0 where
  unbooted waiting : Main
  forwarding : Text → Main

-- The goroutine of the signal handler: no signal yet; the forwarders are closed; the machine was asked
-- to stop by these calls.
pub data Handler : Type 0 where
  listening closed : Handler
  asked : List StopCall → Handler

-- Ended by the handler: whether it saw the machine stopped at its last look, and when.
pub data Life : Type 0 where
  alive returned : Life
  exited : Bool × ℕ → Life

pub record Process : Type 0 where
  pub files : Boot
  pub system : System
  pub machine : Option VmConfig
  pub target : Option Text
  pub main : Main
  pub handler : Handler
  pub life : Life

-- The steps of the signal handler are apart.
abbrev pub is_signal : {vm_ip : Text} {s t : System} → Step vm_ip s t → Bool
is_signal (bind d d' os spec rest states f x h) = false
is_signal (bind_failed d os spec rest states h) = false
is_signal (ssh_ready d wait up os facts states f h) = false
is_signal (write_failed d wait up os facts states e f h) = false
is_signal (runtime_not_written d wait up states) = false
is_signal (ssh_not_ready d wait down states) = false
is_signal (request d p os req x) = false
is_signal (signal d p) = true
is_signal (vm_stopped d wait) = false
is_signal (degraded_vm_stopped d) = false

-- `vm-runtime.json` after a step: `writeHealthyStartArtifacts` writes the address to it.
abbrev pub runtime_after :
    {vm_ip : Text} {s t : System} → Step vm_ip s t → Option Text → Option Text
runtime_after (bind d d' os spec rest states f x h) old = old
runtime_after (bind_failed d os spec rest states h) old = old
runtime_after {vm_ip = vm_ip} (ssh_ready d wait up os facts states f h) old = some vm_ip
runtime_after {vm_ip = vm_ip} (write_failed d wait up os facts states e f h) old = some vm_ip
runtime_after (runtime_not_written d wait up states) old = old
runtime_after (ssh_not_ready d wait down states) old = old
runtime_after (request d p os req x) old = old
runtime_after (signal d p) old = old
runtime_after (vm_stopped d wait) old = old
runtime_after (degraded_vm_stopped d) old = old

-- The deferred `os.Remove` of `vm.pid` and then of `vm-runtime.json`.
abbrev pub after_return : BootCalls → Boot → Boot
after_return os files = without_runtime os (without_pid os files)

-- What the signal handler's calls answer, when the machine stops, and the handler's clock when it
-- begins to wait for that.
pub record HandlerCalls : Type 0 where
  pub answers : StopAnswers
  pub machine : Machine
  pub sleep : Sleep
  pub now : ℕ

-- The signal handler, from the signal on: it closes the forwarders, asks the machine to stop, waits for
-- that, and ends the process.
pub data HandlerStep (c : HandlerCalls) (p : Process) : Process → Type 0 where
  signalled :
      p.life ≡ alive
      → p.main ≢ unbooted
      → p.handler ≡ listening
      → HandlerStep c p (record p {
        handler = closed;
        system = record p.system { daemon = close_forwarders p.system.daemon };
      })
  asks :
      p.life ≡ alive
      → p.handler ≡ closed
      → HandlerStep c p (record p { handler = asked (stop_calls c.answers p.target) })
  exits :
      (calls : List StopCall) (o : Bool × ℕ)
      → p.life ≡ alive
      → p.handler ≡ asked calls
      → await_stopped c.machine c.sleep c.now ≡ some o
      → HandlerStep c p (record p { life = exited o })

-- Steps of the handler alone.
pub data HandlerSteps (c : HandlerCalls) (p : Process) : Process → Type 0 where
  none_yet : HandlerSteps c p p
  then_handler : {q r : Process} → HandlerSteps c p q → HandlerStep c q r → HandlerSteps c p r

-- One step of a daemon with these arguments.
module _ (os : BootCalls) (vz : VzCalls) (cpu_count ram_size encoded : Text) where
  pub data ProcessStep (p : Process) : Process → Type 0 where
    booted :
        (specs : List ForwardSpec) (config : VmConfig) (files : Boot)
        → p.life ≡ alive
        → p.main ≡ unbooted
        → boot os vz cpu_count ram_size encoded p.files ≡ (ok (specs, config), files)
        → ProcessStep p (record p {
          files = files;
          machine = some config;
          main = waiting;
          system = record p.system { phase = starting specs [] };
        })
    not_booted :
        (e : BootError) (files : Boot)
        → p.life ≡ alive
        → p.main ≡ unbooted
        → boot os vz cpu_count ram_size encoded p.files ≡ (err e, files)
        → ProcessStep p (record p { files = files; life = returned })
    initialised :
        (decode : Text → Option InitOutput) (console : Console) (sleep : Sleep) (now : ℕ)
        (o : InitOutput)
        → p.life ≡ alive
        → p.main ≡ waiting
        → wait_for_init_output decode console sleep 300 now ≡ some (ok o)
        → ProcessStep p (record p { main = forwarding o.ip; target = some (ssh_target o.ip) })
    not_initialised :
        (decode : Text → Option InitOutput) (console : Console) (sleep : Sleep) (now : ℕ)
        (e : InitError)
        → p.life ≡ alive
        → p.main ≡ waiting
        → wait_for_init_output decode console sleep 300 now ≡ some (err e)
        → ProcessStep p (record p { files = after_return os p.files; life = returned })
    early_request :
        (calls : Os) (req : ForwardRequest)
        → p.life ≡ alive
        → p.main ≡ waiting
        → BindsExactly calls
        → ProcessStep p (record p {
          system = record p.system {
            daemon = (handle_forward_request calls req p.system.daemon).1;
          };
        })
    ran :
        (vm_ip : Text) (t : System) (step : Step vm_ip p.system t)
        → p.life ≡ alive
        → p.main ≡ forwarding vm_ip
        → is_signal step ≡ false
        → ProcessStep p (record p {
          system = t;
          files = record p.files { runtime = runtime_after step p.files.runtime };
        })
    returns :
        (vm_ip : Text)
        → p.life ≡ alive
        → p.main ≡ forwarding vm_ip
        → p.system.phase ≡ ended
        → ProcessStep p (record p { files = after_return os p.files; life = returned })
    handled : (c : HandlerCalls) {q : Process} → HandlerStep c p q → ProcessStep p q

  -- The states that a daemon can be in, from a first one on.
  pub data Runs (p : Process) : Process → Type 0 where
    here : Runs p p
    next : {q r : Process} → Runs p q → ProcessStep q r → Runs p r

-- A daemon that has just been launched.
abbrev pub launched_process : Boot → Files → Process
launched_process files state_files = record {
  files = files;
  system = started state_files [];
  machine = none;
  target = none;
  main = unbooted;
  handler = listening;
  life = alive;
}
