-- ===== src/Boot/Configured.antt =====
-- What the machine is started with.
use mathlib.Core.Path.{subst}
use exasol_local_vm.Prelude.{
  ℕ, Text, codes, true, List, [], ◌∷◌, Option, none, some, ◌≡◌, refl, sym, ◌∙◌, ap, ◌⊎◌, inl, inr,
  arith, ℤ, Result, ok, err, Option-cases,
}
use exasol_local_vm.Prelude.Effects.{run_cases}
use exasol_local_vm.Std.Strconv.{atoi, parse_uint}
use exasol_local_vm.Forward.Spec.{ForwardSpec, parse_forward_specs}
use exasol_local_vm.Init.{shared_dir}
use exasol_local_vm.Boot.Devices.{
  boot_loader, serial_port, network, VzCalls, Store, block_device, storage, share, VmConfig,
  to_uint64, megabytes, validated, configure,
}
use exasol_local_vm.Boot.{
  device_failed, store_path, Boot, BootCalls, BootError, lift, start_status_listener,
  parse_arguments, absolute, disk_path, find_data_disk, verify_disk, clear_console,
  ensure_shared_dir, configure_machine,
}

-- The arguments of the daemon, and a socket that only its owner may use.
pub record Arguments (cpu_count ram_size encoded : Text) (specs : List ForwardSpec) (cpus : ℤ)
    (ram : ℕ) (t : Boot) : Type 0 where
  pub cpus_read : atoi cpu_count ≡ some cpus
  pub ram_read : parse_uint ram_size ≡ some ram
  pub forwards_read : parse_forward_specs encoded ≡ ok specs
  pub socket : t.socket ≡ some true

pub parse_arguments-ok :
    (os : BootCalls) (cpu_count ram_size encoded : Text) (s t : Boot) (specs : List ForwardSpec)
    (cpus : ℤ) (ram : ℕ)
    → parse_arguments os cpu_count ram_size encoded s ≡ (ok (specs, cpus, ram), t)
    → Arguments cpu_count ram_size encoded specs cpus ram t
unfolding parse_arguments lift start_status_listener
parse_arguments-ok os cpu_count ram_size encoded s t specs cpus ram h = ground arith

-- The machine's configuration: the processors and memory asked for, the data disk before the boot disk.
pub record Configured (os : BootCalls) (cpus : ℤ) (ram : ℕ) (s t : Boot) (config : VmConfig)
    : Type 0 where
  pub cpu_count : config.cpu_count ≡ to_uint64 cpus
  pub memory : config.memory ≡ megabytes ram
  pub disk : Text
  pub found : absolute os disk_path ≡ some disk
  pub there : os.is_file disk ≡ true
  pub disks :
      config.disks
      ≡ (elim (find_data_disk os) [ none ↦ disk ∷ [] | some first ↦ first ∷ disk ∷ [] ])
  pub tag : config.share.0 ≡ codes "hostshare"
  pub directory : absolute os shared_dir ≡ some config.share.1
  pub console : (t.console ≡ none) ⊎ (t.console ≡ some [])
  pub shared : t.shared ≡ true
  pub socket : t.socket ≡ s.socket

verify_disk-ok :
    (os : BootCalls) (s t : Boot) (disk : Text)
    → verify_disk os s ≡ (ok disk, t)
    → (absolute os disk_path ≡ some disk) × (os.is_file disk ≡ true) × (t ≡ s)
unfolding verify_disk
verify_disk-ok os s t disk h = ground arith

lift-ok :
    {A : Type 0} {E : Type 0} (f : E → BootError) (r : Result E A) (s t : Boot) (a : A)
    → lift f r s ≡ (ok a, t)
    → (r ≡ ok a) × (t ≡ s)
unfolding lift
lift-ok f (ok b) s t a h = (cc, sym (ap (λ x. x.1) h))
lift-ok f (err e) s t a h = cc

clear_console-ok :
    (os : BootCalls) (s t : Boot)
    → clear_console os s ≡ (ok tt, t)
    → ((t.console ≡ none) ⊎ (t.console ≡ some [])) × (t.socket ≡ s.socket)
unfolding clear_console
clear_console-ok os s t h = elim (Option-cases s.console) [
  | inl e ↦ (inl (ground arith), ground arith)
  | inr (log, e) ↦ (inr (ground arith), ground arith)
]

ensure_shared_dir-ok :
    (os : BootCalls) (s t : Boot) (dir : Text)
    → ensure_shared_dir os s ≡ (ok dir, t)
    → (t ≡ record s { shared = true }) × (absolute os shared_dir ≡ some dir)
unfolding ensure_shared_dir
ensure_shared_dir-ok os s t dir h = ground arith

storage-ok :
    (vz : VzCalls) (first : Option Text) (disk : Text) (disks : List Text)
    → storage vz first disk ≡ ok disks
    → disks ≡ (elim first [ none ↦ disk ∷ [] | some data_disk ↦ data_disk ∷ disk ∷ [] ])
unfolding storage block_device
storage-ok vz none disk disks h = ground arith
storage-ok vz (some data_disk) disk disks h = ground arith

configure-ok :
    (vz : VzCalls) (store : Store) (cpus : ℤ) (ram : ℕ) (disks : List Text) (shared : Text × Text)
    (config : VmConfig)
    → configure vz store cpus ram disks shared ≡ ok config
    → config ≡ record {
      store = store;
      cpu_count = to_uint64 cpus;
      memory = megabytes ram;
      disks = disks;
      share = shared;
    }
unfolding configure validated
configure-ok vz store cpus ram disks shared config h = ground arith

share-ok :
    (vz : VzCalls) (path : Text) (shared : Text × Text)
    → share vz path ≡ ok shared
    → shared ≡ (codes "hostshare", path)
unfolding share
share-ok vz path shared h = ground arith

module _ (os : BootCalls) (vz : VzCalls) (cpus : ℤ) (ram : ℕ) (s : Boot) where
  abbrev pub IfConfigured : Result BootError VmConfig × Boot → Type 0
  IfConfigured (ok config, t) = Configured os cpus ram s t config
  IfConfigured (err e, t) = Unit

  abbrev IsReady : Boot → Type 0
  IsReady t =
      ((t.console ≡ none) ⊎ (t.console ≡ some [])) × (t.shared ≡ true) × (t.socket ≡ s.socket)

  finished_step :
      (disk : Text) (store : Store) (disks : List Text) (dir : Text) (shared : Text × Text)
      (a b c d x y z u : Boot)
      → verify_disk os s ≡ (ok disk, a)
      → lift device_failed (boot_loader vz (os.is_file store_path)) a ≡ (ok store, b)
      → clear_console os b ≡ (ok tt, c)
      → lift device_failed (serial_port vz) c ≡ (ok tt, d)
      → lift device_failed (storage vz (find_data_disk os) disk) d ≡ (ok disks, x)
      → lift device_failed (network vz) x ≡ (ok tt, y)
      → ensure_shared_dir os y ≡ (ok dir, z)
      → lift device_failed (share vz dir) z ≡ (ok shared, u)
      → IsReady u
  finished_step disk store disks dir shared a b c d x y z u e f g h i j k l =
      let from_a = (lift-ok device_failed _ a b store f).1 ∙ (verify_disk-ok os s a disk e).2 in
      let from_c =
        (lift-ok device_failed _ x y tt j).1
        ∙ (lift-ok device_failed _ d x disks i).1
        ∙ (lift-ok device_failed _ c d tt h).1 in
      let from_y =
        (lift-ok device_failed _ z u shared l).1 ∙ (ensure_shared_dir-ok os y z dir k).0 in
      let (cleared, kept) = clear_console-ok os b c g in
      let console = ap (λ w. w.console) from_y ∙ ap (λ w. w.console) from_c in
      (
        subst (λ log. (log ≡ none) ⊎ (log ≡ some [])) (sym console) cleared,
        ap (λ w. w.shared) from_y,
        ap (λ w. w.socket) from_y ∙ ap (λ w. w.socket) from_c ∙ kept ∙ ap (λ w. w.socket) from_a,
      )

  -- The last step, from a state that differs from the first by the console and the shared directory.
  last_step :
      (store : Store) (disks : List Text) (shared : Text × Text) (disk : Text) (t : Boot)
      → absolute os disk_path ≡ some disk
      → os.is_file disk ≡ true
      → disks ≡ (elim (find_data_disk os) [ none ↦ disk ∷ [] | some first ↦ first ∷ disk ∷ [] ])
      → shared.0 ≡ codes "hostshare"
      → absolute os shared_dir ≡ some shared.1
      → IsReady t
      → (o : Result BootError VmConfig × Boot)
      → lift device_failed (configure vz store cpus ram disks shared) t ≡ o
      → IfConfigured o
  last_step store disks shared disk t a b c d dir ready (err x, u) h = tt
  last_step store disks shared disk t a b c d dir ready (ok config, u) h =
      let (r, same) = lift-ok device_failed _ t u config h in
      let k = configure-ok vz store cpus ram disks shared config r in
      record {
        cpu_count = ap (λ x. x.cpu_count) k;
        memory = ap (λ x. x.memory) k;
        disk = disk;
        found = a;
        there = b;
        disks = ap (λ x. x.disks) k ∙ c;
        tag = ap (λ x. x.share.0) k ∙ d;
        directory = dir ∙ ap (λ x. some x.share.1) (sym k);
        console = subst (λ x. (x.console ≡ none) ⊎ (x.console ≡ some [])) (sym same) ready.0;
        shared = ap (λ x. x.shared) same ∙ ready.1;
        socket = ap (λ x. x.socket) same ∙ ready.2;
      }

  pub configure_machine-Configured : IfConfigured (configure_machine os vz cpus ram s)
  unfolding configure_machine
  configure_machine-Configured =
      run_cases IfConfigured s (verify_disk os) _
        (λ disk a e.
          run_cases IfConfigured a (lift device_failed (boot_loader vz (os.is_file store_path))) _
            (λ store b f.
              run_cases IfConfigured b (clear_console os) _
                (λ _ c g.
                  run_cases IfConfigured c (lift device_failed (serial_port vz)) _
                    (λ _ d h.
                      run_cases IfConfigured d
                        (lift device_failed (storage vz (find_data_disk os) disk)) _
                        (λ disks x i.
                          run_cases IfConfigured x (lift device_failed (network vz)) _
                            (λ _ y j.
                              run_cases IfConfigured y (ensure_shared_dir os) _
                                (λ dir z k.
                                  run_cases IfConfigured z (lift device_failed (share vz dir)) _
                                    (λ shared u l.
                                      last_step store disks shared disk u
                                        (verify_disk-ok os s a disk e).0
                                        (verify_disk-ok os s a disk e).1
                                        (storage-ok vz (find_data_disk os) disk disks
                                          (lift-ok device_failed _ d x disks i).0)
                                        (ap (λ x. x.0)
                                          (share-ok vz dir shared
                                            (lift-ok device_failed _ z u shared l).0))
                                        ((ensure_shared_dir-ok os y z dir k).1
                                          ∙ ap (λ x. some x.1)
                                              (sym (
                                                share-ok vz dir shared
                                                  (lift-ok device_failed _ z u shared l).0)))
                                        (finished_step disk store disks dir shared a b c d x y z u e
                                          f g h i j k l)
                                        _ refl)
                                    (λ _ _ _. tt))
                                (λ _ _ _. tt))
                            (λ _ _ _. tt))
                        (λ _ _ _. tt))
                    (λ _ _ _. tt))
                (λ _ _ _. tt))
            (λ _ _ _. tt))
        (λ _ _ _. tt)
