-- ===== src/Start/Parent.antt =====
-- The parent process and its daemon together: what a success of `start` says of the daemon.
use exasol_local_vm.Prelude.{
  Text, Bool, true, false, List, Option, some, ◌≡◌, ◌≢◌, arith, ℤ, is_ok, is_nil, none, ◌&&◌,
  if◌then◌else◌, Bool-cases, inl, inr,
}
use exasol_local_vm.Forward.Spec.{ForwardSpec}
use exasol_local_vm.Forward.StateFile.{missing}
use exasol_local_vm.Forward.Lifecycle.{System, degraded, started, Reach}
use exasol_local_vm.Forward.Lifecycle.Publication.{WasPublished, Reach-WasPublished}
use exasol_local_vm.Forward.Lifecycle.Degraded.{Reach-degraded}
use exasol_local_vm.Socket.{Connection}
use exasol_local_vm.Cli.Main.{dispatch, command, start}
use exasol_local_vm.Cli.Main.Daemon.{dispatch-daemon_args}
use exasol_local_vm.Start.{
  Host, StartCalls, Event, state_file, start_cmd, write_degraded_marker, marker_error,
}
use exasol_local_vm.Start.Launch.{start_cmd-IsLaunched}

-- An event of the parent's monitors, in a state of the daemon: the state file is only seen if it is
-- there.
abbrev pub Seen : System → Event → Type 0
Seen s event = event ≡ state_file → s.daemon.files.state_file ≢ missing

module _ (os : StartCalls) (status : Connection) (terminal : Bool) (args : List Text)
    (cpu_count ram_size : Text) (size_gb : ℤ) (forwards : List ForwardSpec) (h : Host)
    (event : Event) (log : Option Text)
    (accepted : dispatch terminal args ≡ command (start cpu_count ram_size size_gb forwards))
    (vm_ip : Text) where
  -- If `start` with a command line that `main` accepts reports success, from what its monitors have
  -- seen of the daemon that it launched, then that daemon has found SSH ready, and has published every
  -- forward of the command line, at the guest's port and the host's port asked for.
  pub start_cmd-WasPublished :
      (s : System)
      → Reach vm_ip
          (started
            (start_cmd os status cpu_count ram_size size_gb forwards event log h).1.files
            forwards)
          s
      → Seen s event
      → is_ok (start_cmd os status cpu_count ram_size size_gb forwards event log h).0 ≡ true
      → WasPublished vm_ip
          (started
            (start_cmd os status cpu_count ram_size size_gb forwards event log h).1.files
            forwards)
          forwards
          s
  start_cmd-WasPublished s r seen good =
      let (e, launched) =
        start_cmd-IsLaunched os status cpu_count ram_size size_gb forwards h event log good in
      let (size, encoded, d, parsed) =
        dispatch-daemon_args terminal terminal args launched.executable cpu_count ram_size size_gb
          forwards accepted in
      Reach-WasPublished vm_ip encoded forwards _ s parsed launched.clear.no_state r (seen e)

  -- `start` never reports success for a daemon that has found SSH not ready, at whatever time its
  -- monitors looked after that.
  pub start_cmd-degraded :
      (s t : System)
      → Reach vm_ip
          (started
            (start_cmd os status cpu_count ram_size size_gb forwards event log h).1.files
            forwards)
          s
      → s.phase ≡ degraded
      → Reach vm_ip s t
      → Seen t event
      → is_ok (start_cmd os status cpu_count ram_size size_gb forwards event log h).0 ≡ false
  start_cmd-degraded s t r e x seen =
      let o = start_cmd os status cpu_count ram_size size_gb forwards event log h in
      elim (Bool-cases (is_ok o.0)) [
        | inr bad ↦ bad
        | inl good ↦
            let (k, launched) =
              start_cmd-IsLaunched os status cpu_count ram_size size_gb forwards h event log good in
            let (size, encoded, d, parsed) =
              dispatch-daemon_args terminal terminal args launched.executable cpu_count ram_size
                size_gb forwards accepted in
            absurd (
              seen k
                (Reach-degraded vm_ip encoded forwards _ s t parsed launched.clear.no_state r e x))
      ]

-- What the parent reads of the marker that the daemon has written is the daemon's error; if the write
-- failed, it reads none.
pub marker_error-write_degraded_marker :
    (opens writes : Bool) (error : Text)
    → is_nil error ≡ false
    → marker_error (write_degraded_marker opens writes error none)
      ≡ (if opens && writes then some error else none)
unfolding marker_error write_degraded_marker
marker_error-write_degraded_marker opens writes error n = ground arith
