-- ===== src/Shell.antt =====
-- launcher/mac/main.go: how a guest command becomes the arguments of `ssh`.
pub mod Ssh
pub mod Words
use exasol_local_vm.Prelude.{
  ℕ, Text, codes, Bool, true, false, List, [], ◌∷◌, ◌++◌, map, if◌then◌else◌, is_nil,
}
use exasol_local_vm.Std.Strings.{replace_all, join}

-- `VMRuntimeState`
pub record VmRuntimeState : Type 0 where
  pub ip : Text

-- `RuntimeConfig`
pub record RuntimeConfig : Type 0 where
  pub ssh_private_key : Text

-- A single quote inside single quotes: close, a quote in double quotes, open.
abbrev pub quoted_quote : Text
quoted_quote = b'\'' ∷ b'"' ∷ b'\'' ∷ b'"' ∷ b'\'' ∷ []

-- `quoteShellArgument`
unfoldable pub quote_shell_argument : Text → Text
quote_shell_argument value = b'\'' ∷ (replace_all value b'\'' quoted_quote ++ b'\'' ∷ [])

-- `remoteCommand`
unfoldable pub remote_command : List Text → Text
remote_command command = join (map quote_shell_argument command) (b' ' ∷ [])

-- `sshArgs`
unfoldable pub ssh_args : VmRuntimeState → RuntimeConfig → List Text → Bool → List Text
ssh_args state config command allocate_tty =
    (codes "-i"
      ∷ config.ssh_private_key
      ∷ codes "-o"
      ∷ codes "StrictHostKeyChecking=no"
      ∷ codes "-o"
      ∷ codes "UserKnownHostsFile=/dev/null"
      ∷ codes "-o"
      ∷ codes "BatchMode=yes"
      ∷ codes "-o"
      ∷ codes "LogLevel=ERROR"
      ∷ [])
    ++ ((if allocate_tty then codes "-t" ∷ [] else [])
        ++ ((codes "root@" ++ state.ip)
            ∷ (if is_nil command then [] else remote_command command ∷ [])))
