-- ===== src/Tests/Logs.antt =====
-- launcher/mac/main.go: the last lines of a log.
use exasol_local_vm.Prelude.{codes, ◌≡◌, List, Text, some}
use exasol_local_vm.Std.Strings.{split, trim_space}
use exasol_local_vm.Log.{read_last_lines, IsEnd, read_last_lines-IsEnd}

abbrev log : Text
log = codes " boot\nmount\nready\n"

read_last_lines-IsEnd_example :
    (last : List Text) × (read_last_lines (some log) 2 ≡ some last)
    × IsEnd 2 (split (trim_space log) b'\n') last
read_last_lines-IsEnd_example = read_last_lines-IsEnd log 2
