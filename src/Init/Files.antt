-- ===== src/Init/Files.antt =====
-- The files that `init` writes: keys and the configuration.
use exasol_local_vm.Prelude.{
  Text, text_eq, false, some, ◌≡◌, [], refl, ◌∙◌, ap, arith, Result, ok, err, if◌then◌else◌,
}
use exasol_local_vm.Prelude.Map.{lookup, insert, lookup-insert}
use exasol_local_vm.Prelude.Effects.{some_or_cases, run_cases}
use exasol_local_vm.Shell.{RuntimeConfig}
use exasol_local_vm.Assets.{Node, file, config, Tree, InitCalls, InitError, put_file}
use exasol_local_vm.Init.{
  SshLibrary, default_key_path, config_path, public_key_path, write_file, generate_key_pair,
  load_runtime_config, or_default_key,
}

written :
    (os : InitCalls) (path : Text) (node : Node) (t t' : Tree)
    → write_file os path node t ≡ (ok tt, t')
    → t' ≡ insert path node (insert path (file [] false) t)
unfolding write_file put_file
written os path node t t' e = ground arith

pub lookup-written :
    (os : InitCalls) (path k : Text) (node : Node) (t t' : Tree)
    → write_file os path node t ≡ (ok tt, t')
    → lookup k t' ≡ (if text_eq k path then some node else lookup k t)
lookup-written os path k node t t' e = rw (written os path node t t' e) (
    ground (
      arith,
      lookup-insert k path node (insert path (file [] false) t),
      lookup-insert k path (file [] false) t,
    ))

pub load-config :
    (t : Tree) (c : RuntimeConfig)
    → lookup config_path t ≡ some (config c)
    → load_runtime_config t ≡ ok (or_default_key c)
unfolding load_runtime_config
load-config t c e = rw (e, load_runtime_config) refl

module _ (os : InitCalls) (keys : SshLibrary) where
  -- The files that a generated pair of keys leaves.
  pub record Generated (path : Text) (t t' : Tree) : Type 0 where
    pub private_key : Text
    pub public_key : Text
    pub pair : keys.generate ≡ some (private_key, some public_key)
    pub between : Tree
    pub first : write_file os path (file private_key false) t ≡ (ok tt, between)
    pub second : write_file os public_key_path (file public_key false) between ≡ (ok tt, t')

  abbrev pub IfGenerated : Text → Tree → Result InitError (Unit {0}) × Tree → Type 0
  IfGenerated path t (ok _, t') = Generated path t t'
  IfGenerated path t (err _, t') = Unit

  pub generate_key_pair-Generated :
      (path : Text) (t : Tree)
      → IfGenerated path t (generate_key_pair os keys path public_key_path t)
  unfolding generate_key_pair
  generate_key_pair-Generated path t =
      some_or_cases (IfGenerated path t) t keys.generate _ _
        (λ pair e.
          run_cases (IfGenerated path t) t (write_file os path (file pair.0 false)) _
            (λ _ a i.
              some_or_cases (IfGenerated path t) a pair.1 _ _
                (λ public_key c.
                  last pair.0 public_key (e ∙ ap (λ x. some (pair.0, x)) c) a i _ refl)
                (λ _. tt))
            (λ _ a _. tt))
        (λ _. tt)
    where
      last :
          (private_key public_key : Text)
          → keys.generate ≡ some (private_key, some public_key)
          → (a : Tree) → write_file os path (file private_key false) t ≡ (ok tt, a)
          → (o : Result InitError (Unit {0}) × Tree)
          → write_file os public_key_path (file public_key false) a ≡ o
          → IfGenerated path t o
      last private_key public_key e a i (ok _, t') w = record {
        private_key = private_key;
        public_key = public_key;
        pair = e;
        between = a;
        first = i;
        second = w;
      }
      last private_key public_key e a i (err x, t') w = tt

  -- The other files leave the generated private key alone.
  pub key_stored :
      {path : Text} {t t₁ t₂ : Tree} (c : Node) (g : Generated path t t₁)
      → write_file os config_path c t₁ ≡ (ok tt, t₂)
      → path ≡ default_key_path
      → lookup path t₂ ≡ some (file g.private_key false)
  unfolding text_eq
  key_stored {path} {t} {t₁} {t₂} c g w e =
      ap (λ p. lookup p t₂) e
      ∙ lookup-written os config_path default_key_path c t₁ t₂ w
      ∙ lookup-written os public_key_path default_key_path _ g.between t₁ g.second
      ∙ lookup-written os path default_key_path _ t g.between g.first
      ∙ ap
          (λ p.
            if text_eq default_key_path p
            then some (file g.private_key false)
            else lookup default_key_path t)
          e
