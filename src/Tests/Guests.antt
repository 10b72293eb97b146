-- ===== src/Tests/Guests.antt =====
-- launcher/mac/main.go: a command in the guest, with a key of the user's.
use exasol_local_vm.Prelude.{Text, codes, ◌≡◌, refl, [], ◌∷◌, List, some, false, err}
use exasol_local_vm.Std.Strings.{split}
use exasol_local_vm.Std.Net.{parse_ip, parse_field, mapped}
use exasol_local_vm.Shell.{VmRuntimeState}
use exasol_local_vm.Init.{init_cmd}
use exasol_local_vm.Guest.{SshEnd}
use exasol_local_vm.Guest.Access.{Runs, run_cmd-init_cmd}
use exasol_local_vm.Tests.Inits.{
  init_calls, keys, keys-GeneratesPairs, vm_package, assets, initialises,
}

-- Every command fails with code 3.
abbrev ssh : List Text → SshEnd
ssh args = err (some 3)

abbrev state : VmRuntimeState
state = record { ip = codes "192.168.64.2" }

address : parse_ip (codes "192.168.64.2") ≡ some (mapped 192 168 64 2)
unfolding parse_ip parse_field split
address = refl

run_cmd-init_cmd_example :
    Runs init_calls keys
      (codes "~/key")
      (init_cmd init_calls keys (some vm_package) (some assets) (codes "~/key") []).1
      ssh
      state
      (codes "ls" ∷ codes "/mnt host" ∷ [])
      false
run_cmd-init_cmd_example =
    run_cmd-init_cmd init_calls keys keys-GeneratesPairs refl (some vm_package) (some assets)
      (codes "~/key") [] initialises ssh state (codes "ls" ∷ codes "/mnt host" ∷ []) false
      (mapped 192 168 64 2) address
