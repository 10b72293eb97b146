-- ===== src/Boot/Booted.antt =====
-- `runVMDaemon` that starts a machine: what it is started with.
use mathlib.Core.Path.{subst}
use exasol_local_vm.Prelude.{
  ℕ, ◌*◌, ◌^◌, ◌<◌, Text, codes, true, List, [], ◌∷◌, Option, none, some, ◌≡◌, sym, ◌∙◌, ap, ◌⊎◌,
  arith, ℤ, pos, Result, ok, err,
}
use exasol_local_vm.Prelude.Effects.{continue, ensure, ◌>>◌, return, ensure_cases, run_cases}
use exasol_local_vm.Std.Strconv.{atoi, parse_uint}
use exasol_local_vm.Forward.Spec.{ForwardSpec, parse_forward_specs}
use exasol_local_vm.Init.{shared_dir}
use exasol_local_vm.Boot.Devices.{VzCalls, VmConfig, to_uint64, megabytes}
use exasol_local_vm.Boot.{
  no_machine, Boot, BootCalls, BootError, parse_arguments, absolute, disk_path, find_data_disk,
  configure_machine, write_pid_file, start_machine, cleaned, or_clean, boot,
}
use exasol_local_vm.Boot.Configured.{
  parse_arguments-ok, configure_machine-Configured, IfConfigured, Configured, Arguments,
}

megabytes-exact : (ram : ℕ) → ram < 2 ^ 44 → megabytes ram ≡ ram * 1048576
unfolding megabytes
megabytes-exact ram small = omega arith

to_uint64-exact : (n : ℕ) → n < 2 ^ 63 → to_uint64 (pos n) ≡ n
unfolding to_uint64
to_uint64-exact n small = omega arith

-- What a machine that was started is: as asked for on the command line, from a console log without
-- lines of an earlier start.
pub record Booted (os : BootCalls) (cpus ram : ℕ) (encoded : Text) (t : Boot)
    (specs : List ForwardSpec) (config : VmConfig) : Type 0 where
  pub forwards : parse_forward_specs encoded ≡ ok specs
  pub cpu_count : config.cpu_count ≡ cpus
  pub memory : config.memory ≡ ram * 1048576
  pub disk : Text
  pub found : absolute os disk_path ≡ some disk
  pub there : os.is_file disk ≡ true
  pub disks :
      config.disks
      ≡ (elim (find_data_disk os) [ none ↦ disk ∷ [] | some first ↦ first ∷ disk ∷ [] ])
  pub tag : config.share.0 ≡ codes "hostshare"
  pub directory : absolute os shared_dir ≡ some config.share.1
  pub console : (t.console ≡ none) ⊎ (t.console ≡ some [])
  pub shared : t.shared ≡ true
  pub socket : t.socket ≡ some true

read_once : {A : Type 0} (o : Option A) (a b : A) → o ≡ some a → o ≡ some b → a ≡ b
read_once o a b h i = cc

cleaned-ok :
    {A : Type 0} (f : Boot → Boot) (o : Result BootError A × Boot) (a : A) (t : Boot)
    → cleaned f o ≡ (ok a, t)
    → o ≡ (ok a, t)
unfolding cleaned
cleaned-ok f (ok b, s) a t h = h
cleaned-ok f (err e, s) a t h = cc

start_machine-ok :
    (os : BootCalls) (vz : VzCalls) (s t : Boot)
    → start_machine os vz s ≡ (ok tt, t)
    → (t.console ≡ s.console) × (t.shared ≡ s.shared) × (t.socket ≡ s.socket)
unfolding start_machine write_pid_file or_clean cleaned
start_machine-ok os vz s t h = ground arith

-- A machine that was started was started for the forwards of the command line.
abbrev IfParsed : Text → Result BootError (List ForwardSpec × VmConfig) × Boot → Type 0
IfParsed encoded ((ok (specs, config)), t) = parse_forward_specs encoded ≡ ok specs
IfParsed encoded (err e, t) = Unit

pub boot-parsed :
    (os : BootCalls) (vz : VzCalls) (cpu_count ram_size encoded : Text) (s t : Boot)
    (specs : List ForwardSpec) (config : VmConfig)
    → boot os vz cpu_count ram_size encoded s ≡ (ok (specs, config), t)
    → parse_forward_specs encoded ≡ ok specs
unfolding boot or_clean
boot-parsed os vz cpu_count ram_size encoded s t specs config h =
    subst (IfParsed encoded) (cleaned-ok _ _ (specs, config) t h) (
      run_cases (IfParsed encoded) s (parse_arguments os cpu_count ram_size encoded) _
        (λ (read, cpus, ram) a e.
          run_cases (IfParsed encoded) a (configure_machine os vz cpus ram) _
            (λ made b _.
              ensure_cases (IfParsed encoded) b vz.machine no_machine _
                (λ _.
                  run_cases (IfParsed encoded) b (start_machine os vz) _
                    (λ _ c _.
                      (parse_arguments-ok os cpu_count ram_size encoded s a read cpus ram
                        e).forwards_read)
                    (λ _ _ _. tt))
                (λ _. tt))
            (λ _ _ _. tt))
        (λ _ _ _. tt))

module _ (os : BootCalls) (vz : VzCalls) (cpu_count ram_size encoded : Text) (cpus ram : ℕ)
    (cpus_read : atoi cpu_count ≡ some (pos cpus)) (fits : cpus < 2 ^ 63)
    (ram_read : parse_uint ram_size ≡ some ram) (small : ram < 2 ^ 44) where
  abbrev IfBooted : Result BootError (List ForwardSpec × VmConfig) × Boot → Type 0
  IfBooted ((ok (specs, config)), t) = Booted os cpus ram encoded t specs config
  IfBooted (err e, t) = Unit

  finished :
      (specs : List ForwardSpec) (read : ℤ) (megs : ℕ) (s a b t : Boot) (config : VmConfig)
      → Arguments cpu_count ram_size encoded specs read megs a
      → Configured os read megs a b config
      → (t.console ≡ b.console) × (t.shared ≡ b.shared) × (t.socket ≡ b.socket)
      → Booted os cpus ram encoded t specs config
  finished specs read megs s a b t config args conf kept =
      let same_cpus = read_once _ read (pos cpus) args.cpus_read cpus_read in
      let same_ram = read_once _ megs ram args.ram_read ram_read in
      record {
        forwards = args.forwards_read;
        cpu_count = conf.cpu_count ∙ ap to_uint64 same_cpus ∙ to_uint64-exact cpus fits;
        memory = conf.memory ∙ ap megabytes same_ram ∙ megabytes-exact ram small;
        disk = conf.disk;
        found = conf.found;
        there = conf.there;
        disks = conf.disks;
        tag = conf.tag;
        directory = conf.directory;
        console = subst (λ log. (log ≡ none) ⊎ (log ≡ some [])) (sym kept.0) conf.console;
        shared = kept.1 ∙ conf.shared;
        socket = kept.2 ∙ conf.socket ∙ args.socket;
      }

  started_machine :
      (specs : List ForwardSpec) (read : ℤ) (megs : ℕ) (s a : Boot)
      → Arguments cpu_count ram_size encoded specs read megs a
      → (o : Result BootError VmConfig × Boot) → IfConfigured os vz read megs a o
      → IfBooted (
          continue
            (λ config.
              ensure vz.machine no_machine >> (start_machine os vz >> return (specs, config)))
            o)
  started_machine specs read megs s a args (err e, b) made = tt
  started_machine specs read megs s a args (ok config, b) made =
      ensure_cases IfBooted b vz.machine no_machine _
        (λ _.
          run_cases IfBooted b (start_machine os vz) _
            (λ _ t e.
              finished specs read megs s a b t config args made (start_machine-ok os vz b t e))
            (λ _ _ _. tt))
        (λ _. tt)

  -- A daemon that starts its machine has started it as its command line asks: with that many processors
  -- and megabytes, the forwards of the command line, the boot disk behind the data disk if there is one,
  -- an empty console log, the directory `vm-shared` shared under its absolute path, and a socket only its
  -- owner may use.
  pub boot-Booted :
      (s t : Boot) (specs : List ForwardSpec) (config : VmConfig)
      → boot os vz cpu_count ram_size encoded s ≡ (ok (specs, config), t)
      → Booted os cpus ram encoded t specs config
  unfolding boot or_clean
  boot-Booted s t specs config h = subst IfBooted (cleaned-ok _ _ (specs, config) t h) (
      run_cases IfBooted s (parse_arguments os cpu_count ram_size encoded) _
        (λ (read_specs, read, megs) a e.
          started_machine read_specs read megs s a
            (parse_arguments-ok os cpu_count ram_size encoded s a read_specs read megs e)
            (configure_machine os vz read megs a) (configure_machine-Configured os vz read megs a))
        (λ _ _ _. tt))
