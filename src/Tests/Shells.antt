-- ===== src/Tests/Shells.antt =====
-- launcher/mac/main.go: a command with quotes in it.
use exasol_local_vm.Prelude.{codes, ◌≡◌, [], ◌∷◌, Text, List, some}
use exasol_local_vm.Shell.{remote_command}
use exasol_local_vm.Shell.Words.{shell_words, shell_words-remote_command}

abbrev say : List Text
say = codes "echo" ∷ codes "it's  $HOME" ∷ [] ∷ []

shell_words-remote_command_example : shell_words (remote_command say) ≡ some say
shell_words-remote_command_example = shell_words-remote_command say
