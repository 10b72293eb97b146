-- ===== src/Init.antt =====
-- launcher/mac/main.go: `initCmd`, the runtime configuration and the path of the ssh key. What the ssh
-- library makes of keys is an argument.
pub mod Files
pub mod Keys
use exasol_local_vm.Prelude.{
  ℕ, Text, codes, text_eq, Bool, true, false, not, ◌||◌, List, [], ◌∷◌, ◌++◌, Option, none, some,
  if◌then◌else◌, is_nil, drop, Result, ok, err,
}
use exasol_local_vm.Prelude.Map.{Map, lookup, insert, delete}
use exasol_local_vm.Prelude.Effects.{Run, ◌>>=◌, ◌>>◌, return, ensure, modify, gets, some_or}
use exasol_local_vm.Std.Strings.{trim_space, has_prefix, split_two}
use exasol_local_vm.Std.Path.{join_path, abs, dir}
use exasol_local_vm.Shell.{RuntimeConfig}
use exasol_local_vm.Assets.{
  Node, directory, file, config, Tree, Archive, InitCalls, InitError, empty_path, no_home, no_stat,
  is_directory, no_abs, no_read, bad_key, no_key, not_made, not_created, not_written, Init,
  put_file, extract_tar_xz,
}

-- The ssh library: a new private key with its public key, where that can be converted, and the public key of a private key.
pub record SshLibrary : Type 0 where
  pub generate : Option (Text × Option Text)
  pub public_of : Text → Option Text

-- `expandHome`
unfoldable pub expand_home : InitCalls → Text → Init Text
expand_home os path =
    if text_eq path (codes "~")
    then some_or os.home no_home
    else if has_prefix path (codes "~/")
    then (do home ← some_or os.home no_home; return (join_path home (drop 2 path)))
    else return path

-- `filepath.Abs` asks for the working directory only where it is needed.
unfoldable pub abs_path : InitCalls → Text → Init Text
abs_path os path =
    if has_prefix path (codes "/")
    then return (abs [] path)
    else (do work_dir ← some_or os.work_dir no_abs; return (abs work_dir path))

-- `normalizeSSHPrivateKeyPath`
unfoldable pub normalize_path : InitCalls → Text → Init Text
normalize_path os path = do
  ensure (not (is_nil (trim_space path))) empty_path
  expanded ← expand_home os path
  is_directory_there ← some_or (os.is_dir expanded) no_stat
  ensure (not is_directory_there) is_directory
  abs_path os expanded

-- `authorizedKeyFromPrivateKey`
unfoldable pub authorized_key : InitCalls → SshLibrary → Text → Init Text
authorized_key os keys path = do
  private_key ← some_or (os.read path) no_read
  some_or (keys.public_of private_key) bad_key

-- The entries of the VM's package without their first directory.
unfoldable pub strip_first : Text → Text
strip_first path = elim (split_two path b'/') [ _ ∷ rest ∷ _ ↦ rest | _ ↦ [] ]

abbrev pub default_key_path : Text
default_key_path = codes "vm-ssh-key"

abbrev pub config_path : Text
config_path = codes "vm-config.json"

abbrev pub shared_dir : Text
shared_dir = codes "vm-shared"

abbrev pub public_key_path : Text
public_key_path = codes "vm-shared/authorized_keys"

-- `os.WriteFile`: a write that fails leaves an empty file, unless the file cannot be opened.
unfoldable pub write_file : InitCalls → Text → Node → Init (Unit {0})
write_file os path node = do
  ensure (os.create path) (not_created path)
  put_file path [] false
  ensure (os.write path) (not_written path)
  modify (insert path node)

-- `generateSSHKeyPair`
unfoldable pub generate_key_pair : InitCalls → SshLibrary → Text → Text → Init (Unit {0})
unfolding write_file
generate_key_pair os keys private_path public_path = do
  (private_key, converted) ← some_or keys.generate no_key
  write_file os private_path (file private_key false)
  public_key ← some_or converted no_key
  write_file os public_path (file public_key false)

unfoldable pub make_dir : InitCalls → Text → Init (Unit {0})
make_dir os path = do ensure (os.make_dir path) (not_made path); modify (insert path directory)

-- The private key's path and, for a key that was given, its public key.
unfoldable pub choose_key : InitCalls → SshLibrary → Text → Init (Text × Option Text)
choose_key os keys given = if is_nil given then return (default_key_path, none) else (do
  path ← normalize_path os given
  public_key ← authorized_key os keys path
  return (path, some public_key))

unfoldable pub install_key : InitCalls → SshLibrary → Text × Option Text → Init (Unit {0})
unfolding generate_key_pair
install_key os keys (path, none) = generate_key_pair os keys path public_key_path
install_key os keys (path, some public_key) = write_file os public_key_path (file public_key false)

-- `writeRuntimeConfig`
abbrev pub write_runtime_config : InitCalls → RuntimeConfig → Init (Unit {0})
write_runtime_config os c = write_file os config_path (config c)

-- `initCmd`
unfoldable pub init_cmd :
    InitCalls → SshLibrary → Option Archive → Option Archive → Text → Init (Unit {0})
unfolding make_dir
init_cmd os keys vm_package assets given = do
  key ← choose_key os keys given
  make_dir os (codes "vm")
  extract_tar_xz os vm_package (some strip_first) (codes "vm")
  make_dir os shared_dir
  extract_tar_xz os assets none shared_dir
  install_key os keys key
  write_runtime_config os (record { ssh_private_key = key.0 })

pub data ConfigError : Type 0 where
  bad_config : ConfigError

abbrev pub or_default_key : RuntimeConfig → RuntimeConfig
or_default_key c =
    if is_nil c.ssh_private_key then record { ssh_private_key = default_key_path } else c

-- `loadRuntimeConfig`: a missing file or path stands for the default.
unfoldable pub load_runtime_config : Tree → Result ConfigError RuntimeConfig
load_runtime_config tree = elim (lookup config_path tree) [
  | none ↦ ok (record { ssh_private_key = default_key_path })
  | some (config c) ↦ ok (or_default_key c)
  | some _ ↦ err bad_config
]
