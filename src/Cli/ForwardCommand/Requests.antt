-- ===== src/Cli/ForwardCommand/Requests.antt =====
-- What `parseForwardCommand` lets through.
use mathlib.Core.Path.{subst}
use exasol_local_vm.Prelude.{
  Text, codes, text_eq, Bool, true, false, List, [], ◌∷◌, ◌≡◌, refl, inl, inr, arith, Result, ok,
  err, Option-cases, if_cases, pos, ◌++◌, chain_parts, guard, ◌>>◌,
}
use exasol_local_vm.Std.Flag.{parse_flags, value_of}
use exasol_local_vm.Std.Strconv.{itoa}
use exasol_local_vm.Forward.Spec.{
  ForwardSpec, SpecError, IsValid, parse_forward_spec, encode_forward_spec,
}
use exasol_local_vm.Forward.Spec.RoundTrip.{parse-encode, parse_forward_spec_iff}
use exasol_local_vm.Forward.Registry.{ForwardRequest}
use exasol_local_vm.Socket.{bare}
use exasol_local_vm.Cli.ForwardCommand.{
  CliError, bad_flags, add_flags, spec_or_error, is_loopback_text, add_request, parse_add,
  parse_remove, parse_list, parse_forward_command,
}

-- What the client lets through.
pub data IsRequest (req : ForwardRequest) : Type 0 where
  add :
      IsValid (record { name = req.name; guest_port = req.guest_port; host_port = req.host_port })
      → is_loopback_text req.host_ip ≡ true
      → req.request ≡ codes "forward-add"
      → IsRequest req
  remove : req.request ≡ codes "forward-remove" → IsRequest req
  list : req.request ≡ codes "forward-list" → IsRequest req

spec_or_error-ok :
    (r : Result SpecError ForwardSpec) {spec : ForwardSpec}
    → spec_or_error r ≡ ok spec
    → r ≡ ok spec
spec_or_error-ok (ok s) h = cc
spec_or_error-ok (err e) h = cc

-- The request of `forward add`.
abbrev request_of : ForwardSpec → Text → ForwardRequest
request_of spec ip = record {
  request = codes "forward-add";
  name = spec.name;
  guest_port = spec.guest_port;
  host_port = spec.host_port;
  host_ip = ip;
}

checked-IsRequest :
    (spec : ForwardSpec) (ip : Text) (req : ForwardRequest) (b : Bool)
    → is_loopback_text ip ≡ b
    → (guard b CliError.not_loopback >> ok (request_of spec ip)) ≡ ok req
    → IsValid spec
    → IsRequest req
checked-IsRequest spec ip req false l h v = cc
checked-IsRequest spec ip req true l h v =
    let e : request_of spec ip ≡ req = cc in subst IsRequest e (add v l refl)

add_request-IsRequest :
    (args : List Text) (ip : Text) (req : ForwardRequest)
    → add_request args ip ≡ ok req
    → IsRequest req
unfolding add_request
add_request-IsRequest [] ip req h = cc
add_request-IsRequest (value ∷ w ∷ args) ip req h = cc
add_request-IsRequest (value ∷ []) ip req h =
    let (spec, rest, first) = chain_parts (spec_or_error (parse_forward_spec value)) _ h in
    checked-IsRequest spec ip req (is_loopback_text ip) refl rest
      ((parse_forward_spec_iff value spec).0 (spec_or_error-ok _ first)).0

parse_add-IsRequest :
    (args : List Text) (req : ForwardRequest) → parse_add args ≡ ok req → IsRequest req
unfolding parse_add
parse_add-IsRequest args req h = elim (Option-cases (parse_flags add_flags args)) [
  | inl e ↦ let k : err bad_flags ≡ ok req = rw (e, parse_add) at h in cc
  | inr (p, e) ↦ add_request-IsRequest p.rest _ req (rw (e, parse_add) at h)
]

parse_remove-IsRequest :
    (args : List Text) (req : ForwardRequest) → parse_remove args ≡ ok req → IsRequest req
unfolding parse_remove
parse_remove-IsRequest [] req h = cc
parse_remove-IsRequest (name ∷ w ∷ args) req h = cc
parse_remove-IsRequest (name ∷ []) req h =
    let (spec, e, first) =
      chain_parts (spec_or_error (parse_forward_spec (name ++ codes ":1:0"))) _ h in
    remove (cc)

parse_list-IsRequest :
    (args : List Text) (req : ForwardRequest) → parse_list args ≡ ok req → IsRequest req
unfolding parse_list
parse_list-IsRequest [] req h = list (cc)
parse_list-IsRequest (a ∷ args) req h = cc

pub parse_forward_command-IsRequest :
    (args : List Text) (req : ForwardRequest) → parse_forward_command args ≡ ok req → IsRequest req
unfolding parse_forward_command
parse_forward_command-IsRequest [] req = λ h. cc
parse_forward_command-IsRequest (command ∷ args) req =
    if_cases (λ r. r ≡ ok req → IsRequest req) (text_eq command (codes "add"))
      (λ _. parse_add-IsRequest args req)
      (λ _.
        if_cases (λ r. r ≡ ok req → IsRequest req) (text_eq command (codes "remove"))
          (λ _. parse_remove-IsRequest args req)
          (λ _.
            if_cases (λ r. r ≡ ok req → IsRequest req) (text_eq command (codes "list"))
              (λ _. parse_list-IsRequest args req) (λ _ (h : err CliError.usage ≡ ok req). cc)))

-- Every valid spec and every loopback address can be given on the command line: behind `--` the
-- client reads back exactly them.
pub parse_forward_command-add :
    (spec : ForwardSpec) (ip : Text)
    → IsValid spec
    → is_loopback_text ip ≡ true
    → parse_forward_command
        (codes "add" ∷ codes "--host-ip" ∷ ip ∷ codes "--" ∷ encode_forward_spec spec ∷ [])
      ≡ ok (request_of spec ip)
unfolding parse_forward_command parse_add add_request parse_flags add_flags text_eq value_of
parse_forward_command-add spec ip v l = rw (parse-encode spec v, l) refl

-- The spec whose parsing checks the name of `forward remove`.
abbrev name_spec : Text → ForwardSpec
name_spec name = record { name = name; guest_port = pos 1; host_port = pos 0 }

remove_text : (name : Text) → encode_forward_spec (name_spec name) ≡ name ++ codes ":1:0"
unfolding encode_forward_spec itoa
remove_text name = refl

-- Every valid name can be removed from the command line.
pub parse_forward_command-remove :
    (spec : ForwardSpec)
    → IsValid spec
    → parse_forward_command (codes "remove" ∷ spec.name ∷ [])
      ≡ ok (record (bare (codes "forward-remove")) { name = spec.name })
unfolding parse_forward_command parse_remove text_eq
parse_forward_command-remove spec v =
    let w : IsValid (name_spec spec.name) = record {
      named = v.named;
      name_chars = v.name_chars;
      guest_low = omega arith;
      guest_high = omega arith;
      host_low = omega arith;
      host_high = omega arith;
    } in
    rw (← remove_text spec.name, parse-encode (name_spec spec.name) w) refl
