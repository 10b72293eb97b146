-- ===== src/Tests/Specs.antt =====
-- launcher/mac/forwarding.go: specs and lists of specs.
use exasol_local_vm.Prelude.{
  codes, text_eq, ◌≡◌, refl, [], ◌∷◌, List, Text, ok, err, pos, All, ◌↔◌, arith, Result,
}
use exasol_local_vm.Std.Strings.{is_space, trim_space, split}
use exasol_local_vm.Std.Strconv.{atoi}
use exasol_local_vm.Forward.Spec.{
  ForwardSpec, SpecError, bad_name, bad_guest_port, bad_shape, duplicate, is_name_char, port_from,
  has_name, set, set_all, parse_forward_spec, parse_forward_specs, string, IsValid, DistinctNames,
}
use exasol_local_vm.Forward.Spec.RoundTrip.{Reads, parse_forward_spec_iff}
use exasol_local_vm.Forward.Spec.Lists.{parse-string, parse_forward_specs_sound}

abbrev database : ForwardSpec
database = record { name = codes "database"; guest_port = pos 8563; host_port = pos 0 }

abbrev metrics : ForwardSpec
metrics = record { name = codes "metrics"; guest_port = pos 9090; host_port = pos 19090 }

parse : Text → Result SpecError ForwardSpec
unfolding parse_forward_spec split trim_space is_space atoi is_name_char port_from
parse = parse_forward_spec

parse_list : Text → Result SpecError (List ForwardSpec)
unfolding parse parse_forward_specs set_all set has_name text_eq
parse_list = parse_forward_specs

spaces_around : parse (codes " database : +8563:0 ") ≡ ok database
unfolding parse
spaces_around = refl

bad_names : parse (codes "data base:1:2") ≡ err (bad_name (codes "data base:1:2"))
unfolding parse
bad_names = refl

port_zero : parse (codes "a:0:0") ≡ err (bad_guest_port (codes "a:0:0"))
unfolding parse
port_zero = refl

huge_port :
    parse (codes "a:9223372036854775808:0") ≡ err (bad_guest_port (codes "a:9223372036854775808:0"))
unfolding parse
huge_port = refl

two_parts : parse (codes "a:1") ≡ err (bad_shape (codes "a:1"))
unfolding parse
two_parts = refl

list_of_two :
    parse_forward_specs (codes "database:8563:0,metrics:9090:19090") ≡ ok (database ∷ metrics ∷ [])
unfolding parse_list
list_of_two = refl

same_name : parse_list (codes "a:1:0,a:2:0") ≡ err (duplicate (codes "a"))
unfolding parse_list
same_name = refl

database-IsValid : IsValid database
unfolding is_name_char
database-IsValid = ground arith

metrics-IsValid : IsValid metrics
unfolding is_name_char
metrics-IsValid = ground arith

distinct : DistinctNames (database ∷ metrics ∷ [])
unfolding has_name text_eq
distinct = (refl, (refl, tt))

parse_forward_spec_iff_example :
    (parse_forward_spec (codes " database :8563:0") ≡ ok database)
    ↔ (IsValid database × Reads (codes " database :8563:0") database)
parse_forward_spec_iff_example = parse_forward_spec_iff (codes " database :8563:0") database

parse-string_example :
    parse_forward_specs (string (database ∷ metrics ∷ [])) ≡ ok (database ∷ metrics ∷ [])
parse-string_example =
    parse-string (database ∷ metrics ∷ []) (database-IsValid, (metrics-IsValid, tt)) distinct

parse_forward_specs_sound_example :
    All IsValid (database ∷ metrics ∷ []) × DistinctNames (database ∷ metrics ∷ [])
parse_forward_specs_sound_example =
    parse_forward_specs_sound (codes "database:8563:0,metrics:9090:19090") list_of_two
