-- ===== src/Boot/Outcome.antt =====
-- `runVMDaemon` up to the start of the machine: what either end of it leaves behind.
use exasol_local_vm.Prelude.{
  ℕ, ◌<◌, ◌^◌, Text, false, Option, none, some, Bool-cases, if◌then◌else◌, ◌≡◌, refl, sym, ◌∙◌, ap,
  ◌⊎◌, inl, inr, arith, ℤ, pos, List, Result, ok, err,
}
use mathlib.Core.Path.{subst}
use exasol_local_vm.Prelude.Effects.{ensure_cases, run_cases, continue, ◌>>=◌, ◌>>◌, return, ensure}
use exasol_local_vm.Std.Strconv.{atoi, parse_uint}
use exasol_local_vm.Assets.{Tree}
use exasol_local_vm.Forward.Spec.{ForwardSpec}
use exasol_local_vm.Boot.Devices.{
  VzCalls, VmConfig, boot_loader, serial_port, storage, network, share, configure,
}
use exasol_local_vm.Boot.{
  Boot, BootCalls, BootError, Booting, lift, device_failed, no_machine, start_status_listener,
  parse_arguments, store_path, find_data_disk, verify_disk, clear_console, ensure_shared_dir,
  configure_machine, write_pid_file, cleaned, or_clean, start_machine, without_runtime, boot,
}
use exasol_local_vm.Boot.Booted.{Booted, boot-Booted}

-- The files that only the first and the last steps change.
abbrev own_files : Boot → Tree × Option Text × Option Text
own_files s = (s.tree, s.pid_file, s.runtime)

abbrev Keeps : {A : Type 0} → Booting A → Type 0
Keeps m = (s : Boot) → own_files (m s).1 ≡ own_files s

continue-Keeps :
    {A : Type 0} {B : Type 0} (k : A → Booting B) (s : Boot) (o : Result BootError A × Boot)
    → own_files o.1 ≡ own_files s
    → ((a : A) → Keeps (k a))
    → own_files (continue k o).1 ≡ own_files s
continue-Keeps k s (ok a, t) h keep = keep a t ∙ h
continue-Keeps k s (err e, t) h keep = h

bind-Keeps :
    {A : Type 0} {B : Type 0} (m : Booting A) (k : A → Booting B)
    → Keeps m
    → ((a : A) → Keeps (k a))
    → Keeps (m >>= k)
bind-Keeps m k h keep s = continue-Keeps k s (m s) (h s) keep

lift-Keeps : {A : Type 0} {E : Type 0} (f : E → BootError) (r : Result E A) → Keeps (lift f r)
unfolding lift
lift-Keeps f (ok a) s = refl
lift-Keeps f (err e) s = refl

module _ (os : BootCalls) where
  parse_arguments-Keeps :
      (cpu_count ram_size encoded : Text) → Keeps (parse_arguments os cpu_count ram_size encoded)
  unfolding parse_arguments start_status_listener lift
  parse_arguments-Keeps cpu_count ram_size encoded s = ground arith

  verify_disk-Keeps : Keeps (verify_disk os)
  unfolding verify_disk
  verify_disk-Keeps s = ground arith

  clear_console-Keeps : Keeps (clear_console os)
  unfolding clear_console
  clear_console-Keeps s = ground arith

  ensure_shared_dir-Keeps : Keeps (ensure_shared_dir os)
  unfolding ensure_shared_dir
  ensure_shared_dir-Keeps s = ground arith

  configure_machine-Keeps :
      (vz : VzCalls) (cpus : ℤ) (ram : ℕ) → Keeps (configure_machine os vz cpus ram)
  unfolding configure_machine
  configure_machine-Keeps vz cpus ram = bind-Keeps (verify_disk os) _ verify_disk-Keeps (λ disk.
      bind-Keeps (lift device_failed (boot_loader vz (os.is_file store_path))) _ (lift-Keeps _ _)
        (λ store. bind-Keeps (clear_console os) _ clear_console-Keeps (λ _.
          bind-Keeps (lift device_failed (serial_port vz)) _ (lift-Keeps _ _) (λ _.
            bind-Keeps (lift device_failed (storage vz (find_data_disk os) disk)) _ (lift-Keeps _ _)
              (λ disks. bind-Keeps (lift device_failed (network vz)) _ (lift-Keeps _ _) (λ _.
                bind-Keeps (ensure_shared_dir os) _ ensure_shared_dir-Keeps (λ dir.
                  bind-Keeps (lift device_failed (share vz dir)) _ (lift-Keeps _ _)
                    (λ shared. lift-Keeps _ (configure vz store cpus ram disks shared)))))))))

-- What a daemon that could not start its machine leaves: its caller's files but for the runtime file, and
-- no PID file of its own, if files can be removed.
pub record LeftBehind (os : BootCalls) (s t : Boot) : Type 0 where
  pub tree : t.tree ≡ s.tree
  pub runtime : t.runtime ≡ (if os.remove then none else s.runtime)
  pub pid_file : (t.pid_file ≡ s.pid_file) ⊎ (t.pid_file ≡ none) ⊎ (os.remove ≡ false)

-- A state of the daemon before its deferred functions run.
record Unfinished (os : BootCalls) (s t : Boot) : Type 0 where
  tree : t.tree ≡ s.tree
  runtime : t.runtime ≡ s.runtime
  pid_file : (t.pid_file ≡ s.pid_file) ⊎ (t.pid_file ≡ none) ⊎ (os.remove ≡ false)

module _ (os : BootCalls) (vz : VzCalls) where
  abbrev IfFailed : {A : Type 0} → Boot → Result BootError A × Boot → Type 0
  IfFailed s (ok a, t) = Unit
  IfFailed s (err e, t) = Unfinished os s t

  start_machine-IfFailed :
      {A : Type 0} (a : A) (b : Boot) → IfFailed b ((start_machine os vz >> return a) b)
  unfolding start_machine write_pid_file or_clean cleaned
  start_machine-IfFailed a b = elim (Bool-cases vz.start) [
    | inl e ↦ rw e tt
    | inr e ↦ rw e (record { tree = ground arith; runtime = ground arith; pid_file = ground arith })
  ]

  machine-IfFailed :
      {A : Type 0} (a : A) (b : Boot)
      → IfFailed b ((ensure vz.machine no_machine >> (start_machine os vz >> return a)) b)
  machine-IfFailed a b =
      ensure_cases (IfFailed b) b vz.machine no_machine _ (λ _. start_machine-IfFailed a b)
        (λ _. record { tree = refl; runtime = refl; pid_file = inl refl })

  kept_since :
      {A : Type 0} (s b : Boot)
      → own_files b ≡ own_files s
      → (o : Result BootError A × Boot) → IfFailed b o
      → IfFailed s o
  kept_since s b e (ok a, t) h = tt
  kept_since s b e (err x, t) h = record {
    tree = h.tree ∙ ap (λ f. f.0) e;
    runtime = h.runtime ∙ ap (λ f. f.2) e;
    pid_file = elim h.pid_file [ inl same ↦ inl (same ∙ ap (λ f. f.1) e) | inr other ↦ inr other ];
  }

  kept_files :
      {A : Type 0} {s t : Boot} {x : BootError} (m : Booting A)
      → Keeps m
      → m s ≡ (err x, t)
      → Unfinished os s t
  kept_files {s} {t} m keep e =
      let f = ap (λ o. own_files o.1) (sym e) ∙ keep s in
      record { tree = ap (λ f. f.0) f; runtime = ap (λ f. f.2) f; pid_file = inl (ap (λ f. f.1) f) }

  reached_files :
      {A : Type 0} {s t : Boot} {a : A} (m : Booting A)
      → Keeps m
      → m s ≡ (ok a, t)
      → own_files t ≡ own_files s
  reached_files {s} m keep e = ap (λ o. own_files o.1) (sym e) ∙ keep s

  steps-IfFailed :
      (cpu_count ram_size encoded : Text) (s : Boot)
      → IfFailed {A = List ForwardSpec × VmConfig} s (
          (parse_arguments os cpu_count ram_size encoded >>= λ (specs, cpus, ram).
          configure_machine os vz cpus ram >>= λ config.
          ensure vz.machine no_machine >> (start_machine os vz >> return (specs, config)))
            s)
  steps-IfFailed cpu_count ram_size encoded s =
      run_cases (IfFailed {A = List ForwardSpec × VmConfig} s) s
        (parse_arguments os cpu_count ram_size encoded) _
        (λ (specs, cpus, ram) a e.
          run_cases (IfFailed {A = List ForwardSpec × VmConfig} s) a
            (configure_machine os vz cpus ram) _
            (λ config b f.
              kept_since s b
                (reached_files (configure_machine os vz cpus ram)
                    (configure_machine-Keeps os vz cpus ram) f
                  ∙ reached_files (parse_arguments os cpu_count ram_size encoded)
                      (parse_arguments-Keeps os cpu_count ram_size encoded) e)
                _ (machine-IfFailed {A = List ForwardSpec × VmConfig} (specs, config) b))
            (λ x b f.
              kept_since {A = List ForwardSpec × VmConfig} s a
                (reached_files (parse_arguments os cpu_count ram_size encoded)
                  (parse_arguments-Keeps os cpu_count ram_size encoded) e)
                (err x, b)
                (kept_files (configure_machine os vz cpus ram)
                  (configure_machine-Keeps os vz cpus ram) f)))
        (λ x a e.
          kept_files (parse_arguments os cpu_count ram_size encoded)
            (parse_arguments-Keeps os cpu_count ram_size encoded) e)

  cleaned-LeftBehind :
      {A : Type 0} (s : Boot) (o : Result BootError A × Boot) {x : BootError} {t : Boot}
      → IfFailed s o
      → cleaned (without_runtime os) o ≡ (err x, t)
      → LeftBehind os s t
  unfolding cleaned
  cleaned-LeftBehind s (ok a, b) h e = cc
  cleaned-LeftBehind s (err x, b) {t = t} h e =
      let f = sym (ap (λ o. o.1) e) in
      record {
        tree = ap (λ c. c.tree) f ∙ h.tree;
        runtime = ap (λ c. c.runtime) f ∙ ap (λ r. if os.remove then none else r) h.runtime;
        pid_file =
            subst (λ c. (c.pid_file ≡ s.pid_file) ⊎ (c.pid_file ≡ none) ⊎ (os.remove ≡ false))
              (sym f) h.pid_file;
      }

pub boot-LeftBehind :
    (os : BootCalls) (vz : VzCalls) (cpu_count ram_size encoded : Text) (s t : Boot) (e : BootError)
    → boot os vz cpu_count ram_size encoded s ≡ (err e, t)
    → LeftBehind os s t
unfolding boot or_clean
boot-LeftBehind os vz cpu_count ram_size encoded s t e h =
    cleaned-LeftBehind os vz s _ (steps-IfFailed os vz cpu_count ram_size encoded s) h

-- The two ends of `runVMDaemon` before the wait for the guest's address.
pub Outcome :
    BootCalls → ℕ → ℕ → Text → Boot → Result BootError (List ForwardSpec × VmConfig) × Boot → Type 0
Outcome os cpus ram encoded s (ok (specs, config), t) = Booted os cpus ram encoded t specs config
Outcome os cpus ram encoded s (err e, t) = LeftBehind os s t

module _ (os : BootCalls) (vz : VzCalls) (cpu_count ram_size encoded : Text) (cpus ram : ℕ)
    (cpus_read : atoi cpu_count ≡ some (pos cpus)) (fits : cpus < 2 ^ 63)
    (ram_read : parse_uint ram_size ≡ some ram) (small : ram < 2 ^ 44) (s : Boot) where
  either_end :
      (o : Result BootError (List ForwardSpec × VmConfig) × Boot)
      → boot os vz cpu_count ram_size encoded s ≡ o
      → Outcome os cpus ram encoded s o
  unfolding Outcome
  either_end (ok (specs, config), t) e =
      boot-Booted os vz cpu_count ram_size encoded cpus ram cpus_read fits ram_read small s t specs
        config e
  either_end (err x, t) e = boot-LeftBehind os vz cpu_count ram_size encoded s t x e

  -- With processors and megabytes below 2^63 and 2^44, a daemon either starts its machine as its command
  -- line asks (with that many processors and megabytes, the forwards of the command line, the boot disk
  -- behind the data disk if there is one, an empty console log, the directory `vm-shared` shared under its absolute path, and a
  -- socket only its owner may use), or ends with an error and leaves neither the runtime file nor a PID file of its own
  -- behind, if files can be removed.
  pub boot-Outcome : Outcome os cpus ram encoded s (boot os vz cpu_count ram_size encoded s)
  boot-Outcome = either_end _ refl
