-- ===== src/VmDaemon/Returned.antt =====
-- What a daemon leaves that has returned from `runVMDaemon`.
use mathlib.Core.Path.{subst}
use exasol_local_vm.Prelude.{
  ℕ, Text, true, false, [], none, if◌then◌else◌, ◌≡◌, ◌≢◌, refl, ◌∙◌, ap, ◌⊎◌, inl, inr,
}
use exasol_local_vm.Forward.StateFile.{Files}
use exasol_local_vm.Forward.Registry.WellFormed.{has_id}
use exasol_local_vm.Forward.Lifecycle.{ended}
use exasol_local_vm.Forward.Lifecycle.Safety.{Reach-WellFormed}
use exasol_local_vm.Forward.Lifecycle.Ended.{Reach-closed}
use exasol_local_vm.Boot.Devices.{VzCalls}
use exasol_local_vm.Boot.{Boot, BootCalls}
use exasol_local_vm.Boot.Booted.{boot-parsed}
use exasol_local_vm.Boot.Outcome.{LeftBehind, boot-LeftBehind}
use exasol_local_vm.VmDaemon.{
  alive, returned, Process, launched_process, after_return, HandlerCalls, HandlerStep, ProcessStep,
  booted, not_booted, initialised, not_initialised, early_request, ran, Runs, returns, handled,
  signalled, asks, exits,
}
use exasol_local_vm.VmDaemon.Invariant.{IsUnbooted, IsWaiting, IsForwarding, InMain, Runs-InMain}

-- Neither the runtime file nor a PID file of its own, no forward and no listener.
pub record IsGone (first : Boot) (p : Process) : Type 0 where
  pub runtime : p.files.runtime ≡ none
  pub pid_file : (p.files.pid_file ≡ none) ⊎ (p.files.pid_file ≡ first.pid_file)
  pub registry : p.system.daemon.registry ≡ []
  pub listeners : (i : ℕ) → p.system.daemon.listening i ≡ false

module _ (os : BootCalls) (vz : VzCalls) (cpu_count ram_size encoded : Text) (first : Boot)
    (f : Files) (removes : os.remove ≡ true) where
  after_return-runtime : (files : Boot) → (after_return os files).runtime ≡ none
  after_return-runtime files = rw removes refl

  after_return-pid_file : (files : Boot) → (after_return os files).pid_file ≡ none
  after_return-pid_file files = rw removes refl

  own_pid_file :
      (p : Process) (files : Boot)
      → p.files ≡ first
      → LeftBehind os p.files files
      → (files.pid_file ≡ none) ⊎ (files.pid_file ≡ first.pid_file)
  own_pid_file p files e l = elim l.pid_file [
    | inl same ↦ inr (same ∙ ap (λ x. x.pid_file) e)
    | inr (inl gone) ↦ inl gone
    | inr (inr bad) ↦ absurd (cc)
  ]

  not_booted-IsGone :
      (p : Process) (files : Boot)
      → IsUnbooted os vz cpu_count ram_size encoded first f p
      → p.life ≡ alive
      → LeftBehind os p.files files
      → IsGone first (record p { files = files; life = returned })
  not_booted-IsGone p files u a l = record {
    runtime = l.runtime ∙ ap (λ b. if b then none else p.files.runtime) removes;
    pid_file = own_pid_file p files (u.files a) l;
    registry = ap (λ s. s.daemon.registry) u.system;
    listeners = λ i. ap (λ s. s.daemon.listening i) u.system;
  }

  waiting-IsGone :
      (p : Process)
      → IsWaiting os vz cpu_count ram_size encoded first f p
      → IsGone first (record p { files = after_return os p.files; life = returned })
  waiting-IsGone p u = record {
    runtime = after_return-runtime p.files;
    pid_file = inl (after_return-pid_file p.files);
    registry = ap (λ d. d.registry) u.idle;
    listeners = λ i. ap (λ d. d.listening i) u.idle;
  }

  forwarding-IsGone :
      (vm_ip : Text) (p : Process)
      → IsForwarding os vz cpu_count ram_size encoded first f vm_ip p
      → p.system.phase ≡ ended
      → IsGone first (record p { files = after_return os p.files; life = returned })
  unfolding has_id
  forwarding-IsGone vm_ip p u e =
      let parsed =
        boot-parsed os vz cpu_count ram_size encoded first u.up.files u.specs u.up.config
          u.up.booted in
      let empty = Reach-closed vm_ip encoded u.specs f p.system parsed u.run e in
      record {
        runtime = after_return-runtime p.files;
        pid_file = inl (after_return-pid_file p.files);
        registry = empty;
        listeners = λ i.
            (Reach-WellFormed vm_ip encoded u.specs f p.system parsed u.run).listeners i
            ∙ ap (has_id i) empty;
      }

  -- The handler never returns from `runVMDaemon`.
  HandlerStep-life : {c : HandlerCalls} {p q : Process} → HandlerStep c p q → q.life ≢ returned
  HandlerStep-life (signalled a n s) r = cc
  HandlerStep-life (asks a e) r = cc
  HandlerStep-life (exits calls o a e w) r = cc

  Step-IsGone :
      {p q : Process}
      → InMain os vz cpu_count ram_size encoded first f p p.main
      → ProcessStep os vz cpu_count ram_size encoded p q
      → q.life ≡ returned
      → IsGone first q
  Step-IsGone h (booted specs config files a e b) r = absurd (cc)
  Step-IsGone {p = p} h (not_booted x files a e b) r =
      not_booted-IsGone p files (subst (InMain os vz cpu_count ram_size encoded first f p) e h) a
        (boot-LeftBehind os vz cpu_count ram_size encoded p.files files x b)
  Step-IsGone h (initialised decode console sleep now o a e w) r = absurd (cc)
  Step-IsGone {p = p} h (not_initialised decode console sleep now x a e w) r =
      waiting-IsGone p (subst (InMain os vz cpu_count ram_size encoded first f p) e h)
  Step-IsGone h (early_request calls req a e b) r = absurd (cc)
  Step-IsGone h (ran vm_ip t step a e s) r = absurd (cc)
  Step-IsGone {p = p} h (returns vm_ip a e s) r =
      forwarding-IsGone vm_ip p (subst (InMain os vz cpu_count ram_size encoded first f p) e h) s
  Step-IsGone h (handled c x) r = absurd (HandlerStep-life x r)

  -- When `runVMDaemon` has returned, with an error or after the machine has stopped, whatever requests and
  -- signals came meanwhile, and if files can be removed: there is no runtime file and no PID file of this
  -- daemon, no forward is registered, and no listener is open.
  pub Runs-IsGone :
      (p : Process)
      → Runs os vz cpu_count ram_size encoded (launched_process first f) p
      → p.life ≡ returned
      → IsGone first p
  Runs-IsGone p Runs.here r = absurd (cc)
  Runs-IsGone p (Runs.next x step) r =
      Step-IsGone (Runs-InMain os vz cpu_count ram_size encoded first f x) step r
