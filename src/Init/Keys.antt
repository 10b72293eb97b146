-- ===== src/Init/Keys.antt =====
-- `init` leaves keys that fit together: what the configuration names is the private key of the public
-- key that the guest lets in.
use mathlib.Core.Path.{subst}
use exasol_local_vm.Prelude.{
  Text, codes, text_eq, true, false, Option, none, some, ◌≡◌, Bool-cases, Option-cases, refl, ◌∙◌,
  ◌⊎◌, inl, inr, arith, Result, ok, err, is_ok, is_nil,
}
use exasol_local_vm.Prelude.Map.{lookup}
use exasol_local_vm.Prelude.Effects.{run_cases}
use exasol_local_vm.Assets.{file, config, Tree, Archive, InitCalls, InitError, extract_tar_xz}
use exasol_local_vm.Init.Files.{
  lookup-written, load-config, IfGenerated, generate_key_pair-Generated, key_stored,
}
use exasol_local_vm.Init.{
  SshLibrary, default_key_path, config_path, public_key_path, shared_dir, write_file, make_dir,
  choose_key, normalize_path, authorized_key, install_key, init_cmd, load_runtime_config,
  or_default_key, strip_first,
}

-- A generated key pair fits together.
abbrev pub GeneratesPairs : SshLibrary → Type 0
GeneratesPairs keys =
    (private_key public_key : Text)
    → keys.generate ≡ some (private_key, some public_key)
    → keys.public_of private_key ≡ some public_key

-- Where the private key comes from: it was given, and read at its path, or it was generated.
abbrev pub PrivateKey : InitCalls → Text → Text → Tree → Text → Type 0
PrivateKey os given path tree private_key =
    ((is_nil given ≡ true)
      × (path ≡ default_key_path)
      × (lookup path tree ≡ some (file private_key false)))
    ⊎ ((is_nil given ≡ false) × (os.read path ≡ some private_key))

pub record HasKeys (os : InitCalls) (keys : SshLibrary) (given : Text) (tree : Tree) : Type 0 where
  pub path : Text
  pub configured :
      load_runtime_config tree ≡ ok (or_default_key (record { ssh_private_key = path }))
  pub private_key : Text
  pub public_key : Text
  pub fits : keys.public_of private_key ≡ some public_key
  pub authorized : lookup public_key_path tree ≡ some (file public_key false)
  pub from : PrivateKey os given path tree private_key

authorized_key-ok :
    (os : InitCalls) (keys : SshLibrary) (path public_key : Text) (t t' : Tree)
    → authorized_key os keys path t ≡ (ok public_key, t')
    → (private_key : Text) × (os.read path ≡ some private_key)
      × (keys.public_of private_key ≡ some public_key)
unfolding authorized_key
authorized_key-ok os keys path public_key t t' e = elim (Option-cases (os.read path)) [
  | inl n ↦ absurd (ground arith)
  | inr (private_key, r) ↦ elim (Option-cases (keys.public_of private_key)) [
    | inl n ↦ absurd (ground arith)
    | inr (k, q) ↦ (private_key, r, ground arith)
  ]
]

-- What has been chosen: a key to generate, or a given one with its public key.
abbrev Chosen : InitCalls → SshLibrary → Text → Text × Option Text → Type 0
Chosen os keys given (path, none) = (is_nil given ≡ true) × (path ≡ default_key_path)
Chosen os keys given (path, some public_key) =
    (is_nil given ≡ false)
    × (private_key : Text) × (os.read path ≡ some private_key)
    × (keys.public_of private_key ≡ some public_key)

abbrev ChosenOk :
    InitCalls → SshLibrary → Text → Result InitError (Text × Option Text) × Tree → Type 0
ChosenOk os keys given (ok key, t) = Chosen os keys given key
ChosenOk os keys given (err e, t) = Unit

module _ (os : InitCalls) (keys : SshLibrary) (given : Text) where
  choose_key-Chosen : (t : Tree) → ChosenOk os keys given (choose_key os keys given t)
  unfolding choose_key
  choose_key-Chosen t = elim (Bool-cases (is_nil given)) [
    | inl absent ↦ rw absent (absent, refl)
    | inr present ↦ rw present (
        run_cases (ChosenOk os keys given) t (normalize_path os given) _
          (λ path a _.
            run_cases (ChosenOk os keys given) a (authorized_key os keys path) _
              (λ public_key b e.
                let (private_key, r, p) = authorized_key-ok os keys path public_key a b e in
                (present, private_key, r, p))
              (λ _ b _. tt))
          (λ _ a _. tt))
  ]

  -- The last two steps.
  finished :
      (key : Text × Option Text) (t t₁ t₂ : Tree)
      → GeneratesPairs keys
      → Chosen os keys given key
      → install_key os keys key t ≡ (ok tt, t₁)
      → write_file os config_path (config (record { ssh_private_key = key.0 })) t₁ ≡ (ok tt, t₂)
      → HasKeys os keys given t₂
  unfolding install_key text_eq
  finished (path, some public_key) t t₁ t₂ pairs (present, private_key, r, p) i w =
      let stored = lookup-written os config_path config_path _ t₁ t₂ w in
      let kept = lookup-written os config_path public_key_path _ t₁ t₂ w in
      let put = lookup-written os public_key_path public_key_path _ t t₁ i in
      record {
        path = path;
        configured = load-config t₂ _ stored;
        private_key = private_key;
        public_key = public_key;
        fits = p;
        authorized = kept ∙ put;
        from = inr (present, r);
      }
  finished (path, none) t t₁ t₂ pairs (absent, e) i w =
      let g = subst (IfGenerated os keys path t) i (generate_key_pair-Generated os keys path t) in
      let stored = lookup-written os config_path config_path _ t₁ t₂ w in
      let kept = lookup-written os config_path public_key_path _ t₁ t₂ w in
      let put = lookup-written os public_key_path public_key_path _ g.between t₁ g.second in
      record {
        path = path;
        configured = load-config t₂ _ stored;
        private_key = g.private_key;
        public_key = g.public_key;
        fits = pairs _ _ g.pair;
        authorized = kept ∙ put;
        from = inl (absent, e, key_stored os keys _ g w e);
      }

  abbrev IfKeys : Result InitError (Unit {0}) × Tree → Type 0
  IfKeys (ok _, t) = HasKeys os keys given t
  IfKeys (err e, t) = Unit

  init_cmd-IfKeys :
      (vm_package assets : Option Archive) (t : Tree)
      → GeneratesPairs keys
      → IfKeys (init_cmd os keys vm_package assets given t)
  unfolding init_cmd
  init_cmd-IfKeys vm_package assets t pairs =
      run_cases IfKeys t (choose_key os keys given) _
        (λ key a e.
          run_cases IfKeys a (make_dir os (codes "vm")) _
            (λ _ b _.
              run_cases IfKeys b (extract_tar_xz os vm_package (some strip_first) (codes "vm")) _
                (λ _ c _.
                  run_cases IfKeys c (make_dir os shared_dir) _
                    (λ _ d _.
                      run_cases IfKeys d (extract_tar_xz os assets none shared_dir) _
                        (λ _ f _.
                          run_cases IfKeys f (install_key os keys key) _
                            (λ _ g i.
                              last key f g (subst (ChosenOk os keys given) e (choose_key-Chosen t))
                                i _ refl)
                            (λ _ g _. tt))
                        (λ _ f _. tt))
                    (λ _ d _. tt))
                (λ _ c _. tt))
            (λ _ b _. tt))
        (λ _ a _. tt)
    where
      last :
          (key : Text × Option Text) (f g : Tree)
          → Chosen os keys given key
          → install_key os keys key f ≡ (ok tt, g)
          → (o : Result InitError (Unit {0}) × Tree)
          → write_file os config_path (config (record { ssh_private_key = key.0 })) g ≡ o
          → IfKeys (write_file os config_path (config (record { ssh_private_key = key.0 })) g)
      last key f g chosen i (ok _, t') w = rw w (finished key f g t' pairs chosen i w)
      last key f g chosen i (err x, t') w = rw w tt

-- When `init` succeeds, the configuration that the later commands load names a private key, and the
-- file of authorized keys in the guest's shared directory holds exactly the public key of it. The
-- private key is the given one, as it was read, or the generated one in the file at its default path.
-- That the pairs which the ssh library generates fit together is assumed.
pub init_cmd-HasKeys :
    (os : InitCalls) (keys : SshLibrary)
    → GeneratesPairs keys
    → (vm_package assets : Option Archive) (given : Text) (t : Tree)
    → is_ok (init_cmd os keys vm_package assets given t).0 ≡ true
    → HasKeys os keys given (init_cmd os keys vm_package assets given t).1
init_cmd-HasKeys os keys pairs vm_package assets given t e =
    succeeded (init_cmd os keys vm_package assets given t)
      (init_cmd-IfKeys os keys given vm_package assets t pairs) e
  where
    succeeded :
        (o : Result InitError (Unit {0}) × Tree)
        → IfKeys os keys given o
        → is_ok o.0 ≡ true
        → HasKeys os keys given o.1
    succeeded (ok _, t') h _ = h
    succeeded (err _, t') h p = absurd (ground arith)
