-- ===== src/VmDaemon/Invariant.antt =====
-- What holds of a daemon wherever its main goroutine is.
use mathlib.Core.Path.{subst}
use exasol_local_vm.Prelude.{
  Text, true, false, List, [], none, some, ◌≡◌, ◌≢◌, refl, sym, ◌∙◌, ap, ok,
}
use exasol_local_vm.Std.Net.{Ip, parse_ip}
use exasol_local_vm.Forward.Spec.{ForwardSpec}
use exasol_local_vm.Forward.StateFile.{Files}
use exasol_local_vm.Forward.Registry.{
  Daemon, Os, ForwardRequest, handle_forward_request, close_forwarders, close_all,
}
use exasol_local_vm.Forward.Lifecycle.Invariant.{idle_request}
use exasol_local_vm.Forward.Lifecycle.{starting, started, request, signal, Reach, here, next}
use exasol_local_vm.Boot.Devices.{VzCalls, VmConfig}
use exasol_local_vm.Boot.{Boot, BootCalls, boot}
use exasol_local_vm.Wait.InitOutput.Address.{wait_for_init_output-HasIp}
use exasol_local_vm.Wait.Stop.{ssh_target}
use exasol_local_vm.VmDaemon.{
  Main, unbooted, waiting, forwarding, listening, closed, alive, Process, launched_process,
  HandlerCalls, HandlerStep, ProcessStep, booted, not_booted, initialised, not_initialised,
  early_request, ran, Runs, returns, handled, signalled, asks, exits,
}

-- A daemon before its forwards: a signal may have been handled, nothing else has happened.
abbrev pub IsIdle : Files → Daemon → Type 0
IsIdle f d = d ≡ record (started f []).daemon { stopping = d.stopping }

request-IsIdle :
    (os : Os) (req : ForwardRequest) (f : Files) (d : Daemon)
    → IsIdle f d
    → IsIdle f (handle_forward_request os req d).1
request-IsIdle os req f d h = subst (IsIdle f) (sym (idle_request os req d (ap (λ x. x.ready) h))) h

stopped_daemon : (f : Files) → IsIdle f (record (started f []).daemon { stopping = true })
stopped_daemon f = refl

close_forwarders-IsIdle : (f : Files) (d : Daemon) → IsIdle f d → IsIdle f (close_forwarders d)
unfolding close_forwarders close_all
close_forwarders-IsIdle f d h =
    subst (IsIdle f)
      (sym
        (ap (λ (x : Daemon). close_all x.registry (record x { ready = false; stopping = true })) h))
      (stopped_daemon f)

module _ (os : BootCalls) (vz : VzCalls) (cpu_count ram_size encoded : Text) (first : Boot)
    (f : Files) where
  -- The machine that runs was started by `boot`, for these forwards.
  pub record IsUp (specs : List ForwardSpec) (p : Process) : Type 0 where
    pub config : VmConfig
    pub files : Boot
    pub booted : boot os vz cpu_count ram_size encoded first ≡ (ok (specs, config), files)
    pub machine : p.machine ≡ some config

  -- The main goroutine before the start of the machine, in the wait for its address, and past it: the
  -- forwards have then run as Forward.Lifecycle says, from the parsed list and the given files.
  pub record IsUnbooted (p : Process) : Type 0 where
    pub files : p.life ≡ alive → p.files ≡ first
    pub system : p.system ≡ started f []
    pub quiet : p.handler ≡ listening
    pub target : p.target ≡ none

  pub record IsWaiting (p : Process) : Type 0 where
    pub specs : List ForwardSpec
    pub up : IsUp specs p
    pub run : (vm_ip : Text) → Reach vm_ip (started f specs) p.system
    pub target : p.target ≡ none
    pub idle : IsIdle f p.system.daemon
    pub phase : p.system.phase ≡ starting specs []

  pub record IsForwarding (vm_ip : Text) (p : Process) : Type 0 where
    pub specs : List ForwardSpec
    pub up : IsUp specs p
    pub run : Reach vm_ip (started f specs) p.system
    pub address : Ip
    pub valid : parse_ip vm_ip ≡ some address
    pub target : p.target ≡ some (ssh_target vm_ip)

  abbrev pub InMain : Process → Main → Type 0
  InMain p unbooted = IsUnbooted p
  InMain p waiting = IsWaiting p
  InMain p (forwarding vm_ip) = IsForwarding vm_ip p

  -- What the invariant reads is the same in both.
  record Same (p q : Process) : Type 0 where
    system : q.system ≡ p.system
    machine : q.machine ≡ p.machine
    target : q.target ≡ p.target

  Same-IsUp :
      (specs : List ForwardSpec) (p q : Process)
      → q.machine ≡ p.machine
      → IsUp specs p
      → IsUp specs q
  Same-IsUp specs p q e u = record {
    config = u.config;
    files = u.files;
    booted = u.booted;
    machine = e ∙ u.machine;
  }

  Same-IsWaiting : (p q : Process) → Same p q → IsWaiting p → IsWaiting q
  Same-IsWaiting p q s w = record {
    specs = w.specs;
    up = Same-IsUp w.specs p q s.machine w.up;
    run = λ vm_ip. subst (Reach vm_ip (started f w.specs)) (sym s.system) (w.run vm_ip);
    target = s.target ∙ w.target;
    idle = subst (λ x. IsIdle f x.daemon) (sym s.system) w.idle;
    phase = ap (λ x. x.phase) s.system ∙ w.phase;
  }

  Same-IsForwarding :
      (vm_ip : Text) (p q : Process) → Same p q → IsForwarding vm_ip p → IsForwarding vm_ip q
  Same-IsForwarding vm_ip p q s w = record {
    specs = w.specs;
    up = Same-IsUp w.specs p q s.machine w.up;
    run = subst (Reach vm_ip (started f w.specs)) (sym s.system) w.run;
    address = w.address;
    valid = w.valid;
    target = s.target ∙ w.target;
  }

  Same-InMain :
      (p q : Process) (m : Main) → p.handler ≢ listening → Same p q → InMain p m → InMain q m
  Same-InMain p q unbooted n s h = absurd (n h.quiet)
  Same-InMain p q waiting n s h = Same-IsWaiting p q s h
  Same-InMain p q (forwarding vm_ip) n s h = Same-IsForwarding vm_ip p q s h

  -- The signal handler closes the forwarders, which is a step of Forward.Lifecycle.
  signalled-InMain :
      (p : Process) (m : Main)
      → m ≢ unbooted
      → InMain p m
      → InMain
          (record p {
            handler = closed;
            system = record p.system { daemon = close_forwarders p.system.daemon };
          })
          m
  signalled-InMain p unbooted n h = absurd (n refl)
  signalled-InMain p waiting n h = record {
    specs = h.specs;
    up = Same-IsUp h.specs p _ refl h.up;
    run = λ vm_ip. next (h.run vm_ip) (signal p.system.daemon p.system.phase);
    target = h.target;
    idle = close_forwarders-IsIdle f p.system.daemon h.idle;
    phase = h.phase;
  }
  signalled-InMain p (forwarding vm_ip) n h = record {
    specs = h.specs;
    up = Same-IsUp h.specs p _ refl h.up;
    run = next h.run (signal p.system.daemon p.system.phase);
    address = h.address;
    valid = h.valid;
    target = h.target;
  }

  HandlerStep-InMain :
      {c : HandlerCalls} {p q : Process} → HandlerStep c p q → InMain p p.main → InMain q q.main
  HandlerStep-InMain {p = p} (signalled a n s) h = signalled-InMain p p.main n h
  HandlerStep-InMain {p = p} (asks a e) h =
      Same-InMain p _ p.main (λ x. cc) (record { system = refl; machine = refl; target = refl }) h
  HandlerStep-InMain {p = p} (exits calls o a e w) h =
      Same-InMain p _ p.main (λ x. cc) (record { system = refl; machine = refl; target = refl }) h

  pub ProcessStep-InMain :
      {p q : Process}
      → ProcessStep os vz cpu_count ram_size encoded p q
      → InMain p p.main
      → InMain q q.main
  ProcessStep-InMain {p} (booted specs config files a e b) h =
      let u = subst (InMain p) e h in
      record {
        specs = specs;
        up = record {
          config = config;
          files = files;
          booted = ap (λ s. boot os vz cpu_count ram_size encoded s) (sym (u.files a)) ∙ b;
          machine = refl;
        };
        run = λ vm_ip.
            subst (λ s. Reach vm_ip (started f specs) (record s { phase = starting specs [] }))
              (sym u.system) here;
        target = u.target;
        idle = subst (λ s. IsIdle f s.daemon) (sym u.system) refl;
        phase = refl;
      }
  ProcessStep-InMain {p} (not_booted x files a e b) h =
      let u = subst (InMain p) e h in
      subst (InMain _) (sym e)
        (record { files = λ r. cc; system = u.system; quiet = u.quiet; target = u.target })
  ProcessStep-InMain {p} (initialised decode console sleep now o a e w) h =
      let u = subst (InMain p) e h in
      let (address, valid) = wait_for_init_output-HasIp decode console sleep 300 now o w in
      record {
        specs = u.specs;
        up = Same-IsUp u.specs p _ refl u.up;
        run = u.run o.ip;
        address = address;
        valid = valid;
        target = refl;
      }
  ProcessStep-InMain {p} (not_initialised decode console sleep now x a e w) h =
      subst (InMain _) (sym e) (
        Same-IsWaiting p _ (record { system = refl; machine = refl; target = refl })
          (subst (InMain p) e h))
  ProcessStep-InMain {p} (early_request calls req a e b) h =
      let u = subst (InMain p) e h in
      subst (InMain _) (sym e) (record {
        specs = u.specs;
        up = Same-IsUp u.specs p _ refl u.up;
        run = λ vm_ip. next (u.run vm_ip) (request p.system.daemon p.system.phase calls req b);
        target = u.target;
        idle = request-IsIdle calls req f p.system.daemon u.idle;
        phase = u.phase;
      })
  ProcessStep-InMain {p} (ran vm_ip t step a e s) h =
      let u = subst (InMain p) e h in
      subst (InMain _) (sym e) (record {
        specs = u.specs;
        up = Same-IsUp u.specs p _ refl u.up;
        run = next u.run step;
        address = u.address;
        valid = u.valid;
        target = u.target;
      })
  ProcessStep-InMain {p} (returns vm_ip a e s) h = subst (InMain _) (sym e) (
      Same-IsForwarding vm_ip p _ (record { system = refl; machine = refl; target = refl })
        (subst (InMain p) e h))
  ProcessStep-InMain (handled c x) h = HandlerStep-InMain x h

  launched-IsUnbooted : IsUnbooted (launched_process first f)
  launched-IsUnbooted = record { files = λ a. refl; system = refl; quiet = refl; target = refl }

  pub Runs-InMain :
      {p : Process}
      → Runs os vz cpu_count ram_size encoded (launched_process first f) p
      → InMain p p.main
  Runs-InMain Runs.here = launched-IsUnbooted
  Runs-InMain (Runs.next r x) = ProcessStep-InMain x (Runs-InMain r)
