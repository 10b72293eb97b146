-- ===== src/Guest/Access.antt =====
-- After `init`, a command in the guest is run with a key that the guest lets in.
use exasol_local_vm.Prelude.{
  Text, codes, Bool, true, false, List, [], ◌∷◌, ◌++◌, Option, none, some, ◌≡◌, refl, ◌∙◌, ap, inl,
  inr, ok, is_ok, is_nil, if◌then◌else◌,
}
use exasol_local_vm.Prelude.Map.{lookup}
use exasol_local_vm.Std.Net.{Ip, parse_ip}
use exasol_local_vm.Shell.{VmRuntimeState, RuntimeConfig, ssh_args, remote_command}
use exasol_local_vm.Shell.Ssh.{SshCall, ssh_call, no_arguments, ssh_call-ssh_args}
use exasol_local_vm.Assets.{file, Tree, Archive, InitCalls}
use exasol_local_vm.Init.{
  SshLibrary, public_key_path, init_cmd, load_runtime_config, or_default_key,
}
use exasol_local_vm.Init.Keys.{GeneratesPairs, PrivateKey, init_cmd-HasKeys}
use exasol_local_vm.Guest.{
  decoded, SshEnd, run_ended, checked_state, load_vm_runtime_state, run_cmd,
}

-- How `ssh` is called: with a key, as root of the guest, for a command.
abbrev pub guest_call : Text → VmRuntimeState → List Text → Bool → SshCall
guest_call path state command allocate_tty = record {
  identity = some path;
  options =
      codes "StrictHostKeyChecking=no"
      ∷ codes "UserKnownHostsFile=/dev/null"
      ∷ codes "BatchMode=yes"
      ∷ codes "LogLevel=ERROR"
      ∷ [];
  tty = allocate_tty;
  destination = codes "root@" ++ state.ip;
  command = if is_nil command then [] else remote_command command ∷ [];
}

-- The run of a command, with a key that the guest lets in.
pub record Runs (os : InitCalls) (keys : SshLibrary) (given : Text) (tree : Tree)
    (ssh : List Text → SshEnd) (state : VmRuntimeState) (command : List Text) (allocate_tty : Bool)
    : Type 0 where
  pub path : Text
  pub private_key : Text
  pub public_key : Text
  pub from : PrivateKey os given path tree private_key
  pub fits : keys.public_of private_key ≡ some public_key
  pub authorized : lookup public_key_path tree ≡ some (file public_key false)
  pub args : List Text
  pub call : ssh_call args no_arguments ≡ some (guest_call path state command allocate_tty)
  pub run : run_cmd ssh (decoded state) tree command allocate_tty ≡ run_ended (ssh args)

path-not_nil :
    (os : InitCalls) (given path private_key : Text) (tree : Tree)
    → os.read [] ≡ none
    → PrivateKey os given path tree private_key
    → is_nil path ≡ false
path-not_nil os given path private_key tree none_there (inl (a, e, b)) = ap is_nil e
path-not_nil os given [] private_key tree none_there (inr (a, r)) = absurd (cc)
path-not_nil os given (c ∷ s) private_key tree none_there (inr (a, r)) = refl

load-config :
    (path : Text)
    → is_nil path ≡ false
    → or_default_key (record { ssh_private_key = path }) ≡ record { ssh_private_key = path }
load-config path h = rw h refl

run_cmd-ssh_args :
    (ssh : List Text → SshEnd) (state : VmRuntimeState) (config : RuntimeConfig) (tree : Tree)
    (command : List Text) (allocate_tty : Bool) (ip : Ip)
    → parse_ip state.ip ≡ some ip
    → load_runtime_config tree ≡ ok config
    → run_cmd ssh (decoded state) tree command allocate_tty
      ≡ run_ended (ssh (ssh_args state config command allocate_tty))
unfolding run_cmd load_vm_runtime_state checked_state
run_cmd-ssh_args ssh state config tree command allocate_tty ip e c = rw (e, c) refl

-- After an `init` that succeeded, `run` with a runtime state that holds an IP address calls `ssh` and
-- ends as it ends. `ssh` is called as root of that address, with the quoted command, and with a private
-- key whose public key is the one in the guest's file of authorized keys: the given key or the
-- generated one. That generated pairs fit together, and that no file has an empty path, is assumed.
pub run_cmd-init_cmd :
    (os : InitCalls) (keys : SshLibrary)
    → GeneratesPairs keys
    → os.read [] ≡ none
    → (vm_package assets : Option Archive) (given : Text) (t : Tree)
    → is_ok (init_cmd os keys vm_package assets given t).0 ≡ true
    → (ssh : List Text → SshEnd) (state : VmRuntimeState) (command : List Text)
      (allocate_tty : Bool) (ip : Ip)
    → parse_ip state.ip ≡ some ip
    → Runs os keys given
        (init_cmd os keys vm_package assets given t).1
        ssh
        state
        command
        allocate_tty
run_cmd-init_cmd os keys pairs none_there vm_package assets given t good ssh state command
      allocate_tty ip e =
    let h = init_cmd-HasKeys os keys pairs vm_package assets given t good in
    let tree = (init_cmd os keys vm_package assets given t).1 in
    let config : RuntimeConfig = record { ssh_private_key = h.path } in
    let c =
      h.configured
      ∙ ap ok (
          load-config h.path (path-not_nil os given h.path h.private_key tree none_there h.from)) in
    record {
      path = h.path;
      private_key = h.private_key;
      public_key = h.public_key;
      from = h.from;
      fits = h.fits;
      authorized = h.authorized;
      args = ssh_args state config command allocate_tty;
      call = ssh_call-ssh_args state config command allocate_tty;
      run = run_cmd-ssh_args ssh state config tree command allocate_tty ip e c;
    }
