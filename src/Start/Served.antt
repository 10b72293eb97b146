-- ===== src/Start/Served.antt =====
-- From the command line of `start` to the daemon that serves it: the parent, the daemon that it launches
-- with its arguments, and what that daemon has done when the parent reports success.
use mathlib.Core.Path.{subst}
use exasol_local_vm.Prelude.{
  ℕ, ◌*◌, ◌^◌, ◌<◌, Text, Bool, true, List, Option, some, ◌≡◌, ◌≢◌, refl, ◌∙◌, ap, ℤ, pos, Result,
  ok, is_ok,
}
use exasol_local_vm.Std.Strconv.{atoi, parse_uint}
use exasol_local_vm.Std.Net.{Ip, parse_ip}
use exasol_local_vm.Forward.Spec.{ForwardSpec, SpecError, parse_forward_specs}
use exasol_local_vm.Forward.StateFile.{Files, missing}
use exasol_local_vm.Forward.Lifecycle.{started, Reach}
use exasol_local_vm.Forward.Lifecycle.Publication.{WasPublished, Reach-WasPublished}
use exasol_local_vm.Socket.{Connection}
use exasol_local_vm.Cli.Main.{dispatch, command, start, daemon, Dispatch}
use exasol_local_vm.Cli.Main.Daemon.{dispatch-daemon_args}
use exasol_local_vm.Boot.Devices.{VzCalls, VmConfig}
use exasol_local_vm.Boot.{Boot, BootCalls}
use exasol_local_vm.Boot.Booted.{boot-Booted}
use exasol_local_vm.VmDaemon.{Main, unbooted, waiting, forwarding, Process, launched_process, Runs}
use exasol_local_vm.VmDaemon.Invariant.{InMain, Runs-InMain}
use exasol_local_vm.Start.{Host, StartCalls, Event, start_cmd}
use exasol_local_vm.Start.Launch.{start_cmd-IsLaunched}
use exasol_local_vm.Start.Parent.{Seen}

-- A daemon that has started a machine with so many processors and megabytes, that has got an IP address
-- from the guest, and that has published these forwards after its wait for SSH read a banner there.
pub record IsServing (f : Files) (forwards : List ForwardSpec) (cpus ram : ℕ) (p : Process)
    : Type 0 where
  pub vm_ip : Text
  pub main : p.main ≡ forwarding vm_ip
  pub address : Ip
  pub valid : parse_ip vm_ip ≡ some address
  pub config : VmConfig
  pub machine : p.machine ≡ some config
  pub cpu_count : config.cpu_count ≡ cpus
  pub memory : config.memory ≡ ram * 1048576
  pub published : WasPublished vm_ip (started f forwards) forwards p.system

same_specs :
    (r : Result SpecError (List ForwardSpec)) {a b : List ForwardSpec} → r ≡ ok a → r ≡ ok b → a ≡ b
same_specs r h k = cc

module _ (os : BootCalls) (vz : VzCalls) (cpu_count ram_size encoded : Text) (first : Boot)
    (f : Files) (forwards : List ForwardSpec) (cpus ram : ℕ)
    (parsed : parse_forward_specs encoded ≡ ok forwards) (clear : f.state_file ≡ missing)
    (cpus_read : atoi cpu_count ≡ some (pos cpus)) (fits : cpus < 2 ^ 63)
    (ram_read : parse_uint ram_size ≡ some ram) (small : ram < 2 ^ 44) where
  written-IsServing :
      (p : Process) (m : Main)
      → p.main ≡ m
      → p.system.daemon.files.state_file ≢ missing
      → InMain os vz cpu_count ram_size encoded first f p m
      → IsServing f forwards cpus ram p
  written-IsServing p unbooted e there h =
      absurd (there (ap (λ s. s.daemon.files.state_file) h.system ∙ clear))
  written-IsServing p waiting e there h =
      absurd (there (ap (λ d. d.files.state_file) h.idle ∙ clear))
  written-IsServing p (forwarding vm_ip) e there h =
      let b =
        boot-Booted os vz cpu_count ram_size encoded cpus ram cpus_read fits ram_read small first
          h.up.files h.specs h.up.config h.up.booted in
      record {
        vm_ip = vm_ip;
        main = e;
        address = h.address;
        valid = h.valid;
        config = h.up.config;
        machine = h.up.machine;
        cpu_count = b.cpu_count;
        memory = b.memory;
        published =
            Reach-WasPublished vm_ip encoded forwards f p.system parsed clear
              (subst (λ specs. Reach vm_ip (started f specs) p.system)
                (same_specs _ b.forwards parsed) h.run)
              there;
      }

same_launched : {o : Option (List Text)} {a b : List Text} → o ≡ some a → o ≡ some b → a ≡ b
same_launched h k = cc

same_command :
    {x : Dispatch} {a b c a' b' c' : Text}
    → x ≡ command (daemon a b c)
    → x ≡ command (daemon a' b' c')
    → (a ≡ a') × (b ≡ b') × (c ≡ c')
same_command h k = (cc, cc, cc)

module _ (os : StartCalls) (status : Connection) (terminal : Bool) (args : List Text)
    (cpu_count ram_size : Text) (size_gb : ℤ) (forwards : List ForwardSpec) (h : Host)
    (event : Event) (log : Option Text)
    (accepted : dispatch terminal args ≡ command (start cpu_count ram_size size_gb forwards))
    (cpus ram : ℕ) (cpus_read : atoi cpu_count ≡ some (pos cpus)) (fits : cpus < 2 ^ 63)
    (ram_read : parse_uint ram_size ≡ some ram) (small : ram < 2 ^ 44) (daemon_os : BootCalls)
    (vz : VzCalls) (first : Boot) where
  abbrev after : Host
  after = (start_cmd os status cpu_count ram_size size_gb forwards event log h).1

  -- If `start`, with a command line that `main` accepts and with processors and megabytes below 2^63 and
  -- 2^44, reports success from what its monitors have seen of the daemon that runs with the arguments it
  -- launched, then the daemon has started a machine with that many processors and megabytes, the guest
  -- has reported an IP address, and the daemon has published every forward of the command line, at the
  -- guest's port and the host's port asked for, after its wait for SSH had dialled port 22 of that address
  -- and read a banner of SSH.
  pub start_cmd-IsServing :
      (daemon_terminal : Bool) (launched_args : List Text) (daemon_cpus daemon_ram encoded : Text)
      (p : Process)
      → after.launched ≡ some launched_args
      → dispatch daemon_terminal launched_args ≡ command (daemon daemon_cpus daemon_ram encoded)
      → Runs daemon_os vz daemon_cpus daemon_ram encoded (launched_process first after.files) p
      → Seen p.system event
      → is_ok (start_cmd os status cpu_count ram_size size_gb forwards event log h).0 ≡ true
      → IsServing after.files forwards cpus ram p
  start_cmd-IsServing daemon_terminal launched_args daemon_cpus daemon_ram encoded p l d r seen
        good =
      let (e, launched) =
        start_cmd-IsLaunched os status cpu_count ram_size size_gb forwards h event log good in
      let (size, printed, again, parsed) =
        dispatch-daemon_args terminal daemon_terminal args launched.executable cpu_count ram_size
          size_gb forwards accepted in
      let same_args =
        same_command d (ap (dispatch daemon_terminal) (same_launched l launched.args) ∙ again) in
      written-IsServing daemon_os vz daemon_cpus daemon_ram encoded first after.files forwards cpus
        ram (ap parse_forward_specs same_args.2 ∙ parsed) launched.clear.no_state
        (ap atoi same_args.0 ∙ cpus_read) fits (ap parse_uint same_args.1 ∙ ram_read) small p p.main
        refl (seen e) (Runs-InMain daemon_os vz daemon_cpus daemon_ram encoded first after.files r)
