-- ===== src/Start/Launch.antt =====
-- When a daemon is launched, the ground is clear for it.
use mathlib.Core.Path.{subst}
use exasol_local_vm.Prelude.{
  Text, true, not, List, [], Option, some, ◌≡◌, refl, sym, ◌∙◌, ap, arith, ℤ, Result, ok, err,
  is_ok,
}
use exasol_local_vm.Prelude.Effects.{◌>>◌, return, ensure_cases, some_or_cases, run_cases}
use exasol_local_vm.Forward.Spec.{ForwardSpec}
use exasol_local_vm.Disk.{ensure_data_disk}
use exasol_local_vm.Socket.{Connection, is_vm_running}
use exasol_local_vm.Start.Clear.{IsClear, unmoved, put_tree-ok, put_disk-ok, remove_stale-Removed}
use exasol_local_vm.Start.{
  Host, StartCalls, StartError, already_running, refresh_assets, ensure_disk, remove_stale, prepare,
  daemon_args, launch, Event, state_file, marker, exit, verdict, start_cmd,
}

module _ (os : StartCalls) (status : Connection) (size_gb : ℤ) (h : Host) where
  abbrev IsReady : Result StartError Text × Host → Type 0
  IsReady (ok executable, h') = IsClear os status size_gb h h' × (os.executable ≡ some executable)
  IsReady (err e, h') = Unit

  cleared :
      (b a : Host) (executable : Text)
      → h.initialized ≡ true
      → not (is_vm_running status) ≡ true
      → refresh_assets os h ≡ (ok tt, b)
      → ensure_disk os size_gb b ≡ (ok tt, a)
      → os.executable ≡ some executable
      → IsReady ((remove_stale os >> return executable) (record a { log = some [] }))
  unfolding ensure_disk refresh_assets
  cleared b a executable i n f e x =
      let (done, kept) = put_tree-ok h b _ f in
      let (grown, same) = put_disk-ok b a _ e in
      run_cases IsReady (record a { log = some [] }) (remove_stale os) _
        (λ _ c k.
          let r = remove_stale-Removed os (record a { log = some [] }) c k in
          (
            record {
              was_initialized = i;
              was_stopped = ground arith;
              no_state = r.no_state;
              no_runtime = r.no_runtime;
              no_marker = r.no_marker;
              refreshed = done ∙ ap (λ d. (ok tt, d)) (sym (r.tree ∙ same));
              ensured =
                  ap (ensure_data_disk os.disk size_gb) (sym kept)
                  ∙ grown
                  ∙ ap (λ d. (ok tt, d)) (sym r.disk);
            },
            x,
          ))
        (λ _ b k. tt)

  prepare-IsReady : IsReady (prepare os status size_gb h)
  unfolding prepare
  prepare-IsReady =
      ensure_cases IsReady h h.initialized _ _
        (λ i.
          ensure_cases IsReady h (not (is_vm_running status)) _ _
            (λ n.
              run_cases IsReady h (refresh_assets os) _
                (λ _ b f.
                  run_cases IsReady b (ensure_disk os size_gb) _
                    (λ _ a e.
                      some_or_cases IsReady a os.executable _ _
                        (λ executable x.
                          ensure_cases IsReady a os.open_log _ _
                            (λ _. cleared b a executable i n f e x) (λ _. tt))
                        (λ _. tt))
                    (λ _ a e. tt))
                (λ _ b f. tt))
            (λ _. tt))
        (λ _. tt)

-- A daemon was launched on clear ground, with its command line.
pub record IsLaunched (os : StartCalls) (status : Connection) (cpu_count ram_size : Text)
    (size_gb : ℤ) (forwards : List ForwardSpec) (h h' : Host) : Type 0 where
  pub clear : IsClear os status size_gb h h'
  pub executable : Text
  pub found : os.executable ≡ some executable
  pub args : h'.launched ≡ some (daemon_args executable cpu_count ram_size forwards)

module _ (os : StartCalls) (status : Connection) (cpu_count ram_size : Text) (size_gb : ℤ)
    (forwards : List ForwardSpec) (h : Host) where
  abbrev IfLaunched : Result StartError (Unit {0}) × Host → Type 0
  IfLaunched (ok _, h') = IsLaunched os status cpu_count ram_size size_gb forwards h h'
  IfLaunched (err e, h') = Unit

  launch-IsLaunched : IfLaunched (launch os status cpu_count ram_size size_gb forwards h)
  unfolding launch
  launch-IsLaunched =
      run_cases IfLaunched h (prepare os status size_gb) _
        (λ executable a e.
          ensure_cases IfLaunched a os.start_process _ _
            (λ _.
              let (c, x) =
                subst (IsReady os status size_gb h) e (prepare-IsReady os status size_gb h) in
              record {
                clear = unmoved a _ c refl refl refl refl refl;
                executable = executable;
                found = x;
                args = refl;
              })
            (λ _. tt))
        (λ x a e. tt)

  -- `start` reports success only if it has launched the daemon, with the given forwards on its command
  -- line, and then has seen the state file. When it launched the daemon, no daemon was seen running, the
  -- assets were refreshed, the data disk was ensured, and every stale file of an earlier daemon was gone.
  pub start_cmd-IsLaunched :
      (event : Event) (log : Option Text)
      → is_ok (start_cmd os status cpu_count ram_size size_gb forwards event log h).0 ≡ true
      → (event ≡ state_file)
        × IsLaunched os status cpu_count ram_size size_gb forwards h
            (start_cmd os status cpu_count ram_size size_gb forwards event log h).1
  unfolding start_cmd verdict
  start_cmd-IsLaunched event log =
      run_cases
        (λ r.
          is_ok r.0 ≡ true
          → (event ≡ state_file) × IsLaunched os status cpu_count ram_size size_gb forwards h r.1)
        h (launch os status cpu_count ram_size size_gb forwards) _
        (λ _ a e k.
          let l = subst IfLaunched e launch-IsLaunched in
          let c = l.clear in
          (
            seen event log k,
            record {
              clear = unmoved a _ c refl refl refl refl refl;
              executable = l.executable;
              found = l.found;
              args = l.args;
            },
          ))
        (λ x a e k. cc)
    where
      seen :
          (event : Event) (log : Option Text)
          → is_ok (verdict event log) ≡ true
          → event ≡ state_file
      seen state_file log k = refl
      seen Event.timeout log k = cc
      seen (marker x) log k = cc
      seen (exit x) log k = cc

  -- If a daemon is running, nothing is changed.
  pub start_cmd_running :
      (event : Event) (log : Option Text)
      → h.initialized ≡ true
      → is_vm_running status ≡ true
      → start_cmd os status cpu_count ram_size size_gb forwards event log h
        ≡ (err already_running, h)
  unfolding start_cmd launch prepare
  start_cmd_running event log i r = rw (i, r) refl
