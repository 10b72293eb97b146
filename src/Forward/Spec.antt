-- ===== src/Forward/Spec.antt =====
-- launcher/mac/forwarding.go: `ForwardSpec`, its text form `<name>:<guest-port>:<host-port>`, and
-- comma-separated lists of specs, in which `start` hands the forwards to the daemon process.
pub mod RoundTrip
pub mod Lists
use exasol_local_vm.Prelude.{
  ℕ, ◌+◌, Text, codes, text_eq, Bool, true, false, not, ◌&&◌, ◌||◌, ◌≢◌, List, [], ◌∷◌, ◌++◌, map,
  Option, none, some, leb, ◌==◌, if◌then◌else◌, ℤ, pos, pos_part, neg_part, leb_ℤ, ◌≤ℤ◌, is_nil,
  all, All, ◌≡◌, Result, ok, err, guard, ◌>>=◌, ◌>>◌,
}
use exasol_local_vm.Std.Strings.{trim_space, split, join}
use exasol_local_vm.Std.Strconv.{atoi, itoa}

pub record ForwardSpec : Type 0 where
  pub name : Text
  pub guest_port : ℤ
  pub host_port : ℤ

-- The error messages; each of the first five quotes the refused value.
pub data SpecError : Type 0 where
  bad_shape empty_name bad_name bad_guest_port bad_host_port duplicate : Text → SpecError

-- The characters that a name may hold.
unfoldable pub is_name_char : ℕ → Bool
is_name_char c =
    leb b'a' c && leb c b'z'
    || leb b'A' c && leb c b'Z'
    || leb b'0' c && leb c b'9'
    || c == b'-'
    || c == b'_'
    || c == b'.'

-- A port number from `low` to 65535, or the error.
unfoldable pub port_from : ℤ → SpecError → Option ℤ → Result SpecError ℤ
port_from low e none = err e
port_from low e (some p) = if leb_ℤ low p && leb_ℤ p (pos 65535) then ok p else err e

-- The checks on the three parts, in the order of the code.
unfoldable pub parse_parts : Text → List Text → Result SpecError ForwardSpec
parse_parts value (n ∷ g ∷ h ∷ []) = do
  let name = trim_space n
  guard (not (is_nil name)) (empty_name value)
  guard (all is_name_char name) (bad_name value)
  guest_port ← port_from (pos 1) (bad_guest_port value) (atoi (trim_space g))
  host_port ← port_from (pos 0) (bad_host_port value) (atoi (trim_space h))
  ok (record { name = name; guest_port = guest_port; host_port = host_port })
parse_parts value _ = err (bad_shape value)

-- `parseForwardSpec`
unfoldable pub parse_forward_spec : Text → Result SpecError ForwardSpec
unfolding parse_parts
parse_forward_spec value = parse_parts value (split value b':')

-- `encodeForwardSpec`
unfoldable pub encode_forward_spec : ForwardSpec → Text
encode_forward_spec spec = spec.name ++ b':' ∷ (itoa spec.guest_port ++ b':' ∷ itoa spec.host_port)

-- `forwardSpecList.String`
unfoldable pub string : List ForwardSpec → Text
unfolding encode_forward_spec
string list = join (map encode_forward_spec list) (b',' ∷ [])

unfoldable pub has_name : Text → List ForwardSpec → Bool
has_name n [] = false
has_name n (spec ∷ list) = text_eq spec.name n || has_name n list

-- `forwardSpecList.Set`: the list grows by the parsed spec.
unfoldable pub set : List ForwardSpec → Text → Result SpecError (List ForwardSpec)
set list value = do
  spec ← parse_forward_spec value
  guard (not (has_name spec.name list)) (duplicate spec.name)
  ok (list ++ spec ∷ [])

unfoldable pub set_all : List ForwardSpec → List Text → Result SpecError (List ForwardSpec)
set_all specs [] = ok specs
set_all specs (entry ∷ entries) = do specs' ← set specs entry; set_all specs' entries

-- `parseForwardSpecs`
unfoldable pub parse_forward_specs : Text → Result SpecError (List ForwardSpec)
parse_forward_specs value =
    if is_nil (trim_space value) then ok [] else set_all [] (split value b',')

-- What a spec from the command line satisfies.
pub record IsValid (spec : ForwardSpec) : Type 0 where
  pub named : is_nil spec.name ≡ false
  pub name_chars : All (λ c. is_name_char c ≡ true) spec.name
  pub guest_low : pos 1 ≤ℤ spec.guest_port
  pub guest_high : spec.guest_port ≤ℤ pos 65535
  pub host_low : pos 0 ≤ℤ spec.host_port
  pub host_high : spec.host_port ≤ℤ pos 65535

-- Names are pairwise different.
abbrev pub DistinctNames : List ForwardSpec → Type 0
DistinctNames [] = Unit
DistinctNames (spec ∷ list) = (has_name spec.name list ≡ false) × DistinctNames list
