-- ===== src/Wait/InitOutput.antt =====
-- launcher/mac/main.go: `waitForInitOutput` reads what the guest's init scripts print on the console.
-- `decode` is `json.Unmarshal` into an `InitOutput`.
pub mod Reads
pub mod Address
use exasol_local_vm.Prelude.{
  ℕ, zero, suc, ◌+◌, ◌-◌, ◌*◌, Text, codes, Bool, true, false, [], ◌∷◌, Option, none, some, ltb,
  leb, if◌then◌else◌, length, take, drop, is_nil, Result, ok, err,
}
use exasol_local_vm.Std.Strings.{trim_space, index}
use exasol_local_vm.Std.Net.{parse_ip}
use exasol_local_vm.Wait.{Sleep, second, millisecond}

pub record InitOutput : Type 0 where
  pub ip : Text

abbrev pub start_marker : Text
start_marker = codes "=== INIT OUTPUT START ==="

abbrev pub end_marker : Text
end_marker = codes "=== INIT OUTPUT END ==="

-- What a console log holds: no whole output yet, the text between the markers, or markers that
-- overlap, at which the slice expression panics.
pub data Found : Type 0 where
  absent overlapping : Found
  between : Text → Found

unfoldable pub slice : Text → ℕ → ℕ → Found
slice s low high = if leb low high then between (take (high - low) (drop low s)) else overlapping

unfoldable pub find_end : Text → ℕ → Option ℕ → Found
unfolding slice
find_end content start none = absent
find_end content start (some j) = slice content (start + length start_marker) (start + j)

unfoldable pub find_start : Text → Option ℕ → Found
find_start content none = absent
find_start content (some i) = find_end content i (index (drop i content) end_marker)

unfoldable pub find_output : Text → Found
find_output content = find_start content (index content start_marker)

pub data InitError : Type 0 where
  bad_json missing_ip timed_out panicked : InitError
  invalid_ip : Text → InitError

unfoldable pub check_output : Option InitOutput → Result InitError InitOutput
check_output none = err bad_json
check_output (some o) =
    if is_nil o.ip
    then err missing_ip
    else elim (parse_ip o.ip) [ none ↦ err (invalid_ip o.ip) | some _ ↦ ok o ]

-- The end of the wait. `none`: the fuel ran out.
abbrev pub Initialised : Type 0
Initialised = Option (Result InitError InitOutput)

unfoldable pub settle : (Text → Option InitOutput) → Found → Initialised → Initialised
settle decode absent later = later
settle decode overlapping later = some (err panicked)
settle decode (between s) later = some (check_output (decode (trim_space s)))

unfoldable pub read_console : (Text → Option InitOutput) → Option Text → Initialised → Initialised
unfolding settle
read_console decode none later = later
read_console decode (some content) later = settle decode (find_output content) later

-- The console log at a time, if it can be read.
abbrev pub Console : Type 0
Console = ℕ → Option Text

abbrev pub half_second : ℕ
half_second = 500 * millisecond

unfoldable pub init_loop : (Text → Option InitOutput) → Console → Sleep → ℕ → ℕ → ℕ → Initialised
init_loop decode console sleep deadline zero now = none
init_loop decode console sleep deadline (suc fuel) now =
    let later = init_loop decode console sleep deadline fuel (sleep now half_second) in
    if ltb now deadline then read_console decode (console now) later else some (err timed_out)

-- `waitForInitOutput` with a timeout of so many seconds, two rounds in each.
unfoldable pub wait_for_init_output :
    (Text → Option InitOutput) → Console → Sleep → ℕ → ℕ → Initialised
wait_for_init_output decode console sleep seconds now =
    init_loop decode console sleep (now + seconds * second) (suc (2 * seconds)) now
