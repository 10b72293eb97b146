-- ===== src/Shell/Ssh.antt =====
-- What `ssh` makes of the launcher's arguments, by its documented use: `-i` and `-o` take a value,
-- `-t` is a flag, the first other argument is the destination, and what follows is the command.
use exasol_local_vm.Prelude.{
  Text, codes, text_eq, Bool, true, false, List, [], ◌∷◌, ◌++◌, Option, none, some, ◌≡◌, refl, ◌==◌,
  if◌then◌else◌, is_nil,
}
use exasol_local_vm.Shell.{VmRuntimeState, RuntimeConfig, ssh_args, remote_command}

pub record SshCall : Type 0 where
  pub identity : Option Text
  pub options : List Text
  pub tty : Bool
  pub destination : Text
  pub command : List Text

abbrev dashed : Text → Bool
dashed [] = false
dashed (c ∷ s) = c == b'-'

unfoldable pub ssh_call : List Text → SshCall → Option SshCall
ssh_call [] call = none
ssh_call (a ∷ []) call =
    if dashed a then none else some (record call { destination = a; command = [] })
ssh_call (a ∷ b ∷ rest) call =
    let identity = ssh_call rest (record call { identity = some b }) in
    let option = ssh_call rest (record call { options = call.options ++ b ∷ [] }) in
    let flag = ssh_call (b ∷ rest) (record call { tty = true }) in
    if text_eq a (codes "-i")
    then identity
    else if text_eq a (codes "-o")
    then option
    else if text_eq a (codes "-t")
    then flag
    else if dashed a
    then none
    else some (record call { destination = a; command = b ∷ rest })

abbrev pub no_arguments : SshCall
no_arguments = record { identity = none; options = []; tty = false; destination = []; command = [] }

-- Whatever the command and the key path are, `ssh` connects as root to the VM's address with that key,
-- asks for a terminal exactly when one is wanted, and runs the quoted command, or a shell if there
-- is none.
pub ssh_call-ssh_args :
    (state : VmRuntimeState) (config : RuntimeConfig) (command : List Text) (allocate_tty : Bool)
    → ssh_call (ssh_args state config command allocate_tty) no_arguments
      ≡ some (record {
        identity = some config.ssh_private_key;
        options =
            codes "StrictHostKeyChecking=no"
            ∷ codes "UserKnownHostsFile=/dev/null"
            ∷ codes "BatchMode=yes"
            ∷ codes "LogLevel=ERROR"
            ∷ [];
        tty = allocate_tty;
        destination = codes "root@" ++ state.ip;
        command = if is_nil command then [] else remote_command command ∷ [];
      })
unfolding ssh_call ssh_args text_eq
ssh_call-ssh_args state config [] true = refl
ssh_call-ssh_args state config (a ∷ more) true = refl
ssh_call-ssh_args state config [] false = refl
ssh_call-ssh_args state config (a ∷ more) false = refl
