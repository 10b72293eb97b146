-- ===== src/Tests/Inits.antt =====
-- launcher/mac/main.go: `init` with a key of the user's.
use exasol_local_vm.Prelude.{
  none, is_nil, if◌then◌else◌, codes, text_eq, ◌≡◌, refl, [], ◌∷◌, some, true, false, is_ok,
}
use exasol_local_vm.Prelude.Map.{insert}
use exasol_local_vm.Std.Strings.{is_space, trim_space, has_prefix, split_two}
use exasol_local_vm.Std.Path.{join_path, abs, dir, clean}
use exasol_local_vm.Assets.{
  Archive, end, entry, regular_entry, dir_entry, InitCalls, put_file, place, entry_path, place_at,
  extract, extract_tar_xz,
}
use exasol_local_vm.Init.{
  SshLibrary, expand_home, abs_path, normalize_path, authorized_key, strip_first, write_file,
  generate_key_pair, make_dir, choose_key, install_key, init_cmd,
}
use exasol_local_vm.Init.Keys.{GeneratesPairs, HasKeys, init_cmd-HasKeys}

-- All calls succeed; `~/key` is a private key.
abbrev pub init_calls : InitCalls
init_calls = record {
  make_dir = λ p. true;
  create = λ p. true;
  copy = λ p. true;
  chmod = λ p. true;
  write = λ p. true;
  remove = λ p. true;
  is_dir = λ p. some false;
  read = λ p. if is_nil p then none else some (codes "mine");
  home = some (codes "/Users/me");
  work_dir = some (codes "/opt");
}

-- In this library a public key is the private key behind `p`.
abbrev pub keys : SshLibrary
keys = record {
  generate = some (codes "new", some (codes "pnew"));
  public_of = λ k. some (b'p' ∷ k);
}

pub keys-GeneratesPairs : GeneratesPairs keys
keys-GeneratesPairs private_key public_key e = cc

abbrev pub vm_package : Archive
vm_package =
    entry
      (record {
        name = codes "vm-1.0/kernel";
        kind = regular_entry;
        executable = false;
        content = codes "k";
      })
      end

abbrev pub assets : Archive
assets =
    entry (record { name = codes "init"; kind = dir_entry; executable = false; content = [] })
      (entry
        (record {
          name = codes "init/run.sh";
          kind = regular_entry;
          executable = true;
          content = codes "#!";
        })
        end)

pub initialises :
    is_ok (init_cmd init_calls keys (some vm_package) (some assets) (codes "~/key") []).0 ≡ true
unfolding init_cmd choose_key normalize_path expand_home abs_path authorized_key make_dir
    extract_tar_xz extract place_at place entry_path put_file install_key generate_key_pair
    write_file strip_first has_prefix trim_space is_space split_two join_path abs dir clean text_eq
    insert
initialises = refl

init_cmd-HasKeys_example :
    HasKeys init_calls keys
      (codes "~/key")
      (init_cmd init_calls keys (some vm_package) (some assets) (codes "~/key") []).1
init_cmd-HasKeys_example =
    init_cmd-HasKeys init_calls keys keys-GeneratesPairs (some vm_package) (some assets)
      (codes "~/key") [] initialises
