-- ===== src/Forward/Lifecycle.antt =====
-- launcher/mac/main.go, `runVMDaemon` from the VM's address on, with the signal handler and the
-- socket's handlers beside it: every interleaving of the startup loop over the forwards, the
-- publication after `waitForSSHService`, live requests, and `closeForwarders`. Each step holds the
-- registry's mutex in the code.
pub mod Invariant
pub mod Preservation
pub mod Safety
pub mod Collect
pub mod Publication
pub mod Degraded
pub mod Ended
use exasol_local_vm.Prelude.{
  ℕ, suc, Text, codes, Bool, true, false, not, List, [], ◌∷◌, Option, none, some, ◌≡◌, ℤ, pos,
  Result, ok, err,
}
use exasol_local_vm.Prelude.Map.{Map, lookup, insert}
use exasol_local_vm.Wait.{Sleep}
use exasol_local_vm.Wait.Ssh.{Network, SshError, wait_for_ssh_service}
use exasol_local_vm.Wait.Stop.{ssh_target}
use exasol_local_vm.Forward.Spec.{ForwardSpec}
use exasol_local_vm.Forward.StateFile.{
  ForwardState, Field, raw, forwards, Content, object, Files, FileCalls, FileError, write_vm_state,
}
use exasol_local_vm.Forward.Registry.Requests.{BindsExactly}
use exasol_local_vm.Forward.Registry.{
  Forwarder, Daemon, Os, ForwardRequest, state_of, start_forwarder, register_forwarder,
  handle_forward_request, close_forwarders,
}

-- The one call of `waitForSSHService`: when it is made, and what each target answers to it.
pub record SshWait : Type 0 where
  pub net : Text → Network
  pub sleep : Sleep
  pub now : ℕ

-- The call, for the guest's address and two minutes, ends without an error.
abbrev pub HasAnswered : Text → SshWait → Type 0
HasAnswered vm_ip wait =
    (t : ℕ) × (wait_for_ssh_service (wait.net (ssh_target vm_ip)) wait.sleep 120 wait.now
      ≡ some (ok tt, t))

-- It ends with an error.
abbrev pub HasFailed : Text → SshWait → Type 0
HasFailed vm_ip wait =
    (e : SshError) × (t : ℕ) × (wait_for_ssh_service (wait.net (ssh_target vm_ip)) wait.sleep 120
        wait.now
      ≡ some (err e, t))

-- Where the daemon's main goroutine is: in the startup loop, with the specs left and the states
-- collected so far; past it, serving after its wait for SSH, or degraded; or gone.
pub data Phase : Type 0 where
  starting : List ForwardSpec → Map ForwardState → Phase
  serving : SshWait → Phase
  degraded ended : Phase

pub record System : Type 0 where
  pub daemon : Daemon
  pub phase : Phase

abbrev pub loopback_ip : Text
loopback_ip = codes "127.0.0.1"

-- One round of the startup loop, after the bind: the forwarder is registered and its state kept.
abbrev pub registered : Forwarder → Daemon → Daemon
registered f d = register_forwarder f.name f d

-- The fields of `vm-state.json` besides the forwards.
abbrev pub Facts : Type 0
Facts = Map Field

-- `writeHealthyStartArtifacts`, the part on `vm-state.json`.
unfoldable pub write_healthy :
    FileCalls → Facts → Map ForwardState → Files → Result FileError (Unit {0}) × Files
write_healthy os facts states f =
    write_vm_state os (object (insert (codes "forwards") (forwards states) facts)) f

-- After the artifacts are written the daemon is ready, unless it is already stopping.
unfoldable pub publish : Text → Files → Daemon → Daemon
publish vm_ip f d = record d { files = f; guest_host = vm_ip; ready = not d.stopping }

-- The steps, given the address of the VM.
pub data Step (vm_ip : Text) : System → System → Type 0 where
  bind :
      (d d' : Daemon) (os : Os) (spec : ForwardSpec) (rest : List ForwardSpec)
      (states : Map ForwardState) (f : Forwarder)
      → BindsExactly os
      → start_forwarder os spec.name loopback_ip spec.host_port vm_ip spec.guest_port d
        ≡ some (f, d')
      → Step vm_ip
          (record { daemon = d; phase = starting (spec ∷ rest) states })
          (record {
            daemon = registered f d';
            phase = starting rest (insert spec.name (state_of f) states);
          })
  bind_failed :
      (d : Daemon) (os : Os) (spec : ForwardSpec) (rest : List ForwardSpec)
      (states : Map ForwardState)
      → start_forwarder os spec.name loopback_ip spec.host_port vm_ip spec.guest_port d ≡ none
      → Step vm_ip
          (record { daemon = d; phase = starting (spec ∷ rest) states })
          (record { daemon = close_forwarders d; phase = ended })
  ssh_ready :
      (d : Daemon) (wait : SshWait) (up : HasAnswered vm_ip wait) (os : FileCalls) (facts : Facts)
      (states : Map ForwardState) (f : Files)
      → write_healthy os facts states d.files ≡ (ok tt, f)
      → Step vm_ip
          (record { daemon = d; phase = starting [] states })
          (record { daemon = publish vm_ip f d; phase = serving wait })
  write_failed :
      (d : Daemon) (wait : SshWait) (up : HasAnswered vm_ip wait) (os : FileCalls) (facts : Facts)
      (states : Map ForwardState) (e : FileError) (f : Files)
      → write_healthy os facts states d.files ≡ (err e, f)
      → Step vm_ip
          (record { daemon = d; phase = starting [] states })
          (record { daemon = close_forwarders (record d { files = f }); phase = ended })
  runtime_not_written :
      (d : Daemon) (wait : SshWait) (up : HasAnswered vm_ip wait) (states : Map ForwardState)
      → Step vm_ip
          (record { daemon = d; phase = starting [] states })
          (record { daemon = close_forwarders d; phase = ended })
  ssh_not_ready :
      (d : Daemon) (wait : SshWait) (down : HasFailed vm_ip wait) (states : Map ForwardState)
      → Step vm_ip
          (record { daemon = d; phase = starting [] states })
          (record { daemon = d; phase = degraded })
  request :
      (d : Daemon) (p : Phase) (os : Os) (req : ForwardRequest)
      → BindsExactly os
      → Step vm_ip
          (record { daemon = d; phase = p })
          (record { daemon = (handle_forward_request os req d).1; phase = p })
  signal :
      (d : Daemon) (p : Phase)
      → Step vm_ip
          (record { daemon = d; phase = p })
          (record { daemon = close_forwarders d; phase = p })
  vm_stopped :
      (d : Daemon) (wait : SshWait)
      → Step vm_ip
          (record { daemon = d; phase = serving wait })
          (record { daemon = close_forwarders d; phase = ended })
  degraded_vm_stopped :
      (d : Daemon)
      → Step vm_ip
          (record { daemon = d; phase = degraded })
          (record { daemon = close_forwarders d; phase = ended })

pub data Reach (vm_ip : Text) (s : System) : System → Type 0 where
  here : Reach vm_ip s s
  next : {t u : System} → Reach vm_ip s t → Step vm_ip t u → Reach vm_ip s u

-- A daemon that starts: nothing is registered and nothing is ready.
abbrev pub started : Files → List ForwardSpec → System
started f specs = record {
  daemon = record {
    registry = [];
    guest_host = [];
    ready = false;
    stopping = false;
    files = f;
    listening = λ _. false;
    next_id = 0;
  };
  phase = starting specs [];
}
