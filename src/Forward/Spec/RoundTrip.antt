-- ===== src/Forward/Spec/RoundTrip.antt =====
-- A spec's text form is read back, and what is read is valid.
use exasol_local_vm.Prelude.{
  ℕ, Text, true, false, ◌≡◌, refl, List, [], ◌∷◌, Option, none, some, arith, ℤ, pos, negsuc, ◌≤ℤ◌,
  all_sound, all_complete, All, All-map, Lacks, ok, ◌↔◌,
}
use exasol_local_vm.Std.Strings.{is_space, trim_space, split}
use exasol_local_vm.Std.Strings.Laws.{IsPrintable, trim_space_id, split-append, split_none}
use exasol_local_vm.Std.Strconv.{is_digit, atoi, itoa}
use exasol_local_vm.Std.Strconv.RoundTrip.{IsInt64, atoi-itoa, itoa-Lacks, itoa-IsPrintable}
use exasol_local_vm.Forward.Spec.{
  ForwardSpec, SpecError, bad_guest_port, bad_host_port, is_name_char, port_from, parse_parts,
  parse_forward_spec, encode_forward_spec, IsValid,
}

abbrev pub IsName : Text → Type 0
IsName = All (λ c. is_name_char c ≡ true)

pub name-IsPrintable : (s : Text) → IsName s → All IsPrintable s
unfolding is_name_char is_space
name-IsPrintable = All-map _ _ (λ c h. ground arith)

pub name-Lacks : (b : ℕ) (s : Text) → is_name_char b ≡ false → IsName s → Lacks b s
name-Lacks b [] h _ = tt
name-Lacks b (c ∷ s) h (hc, hs) = (ground arith, name-Lacks b s h hs)

port-IsInt64 : (p : ℤ) → pos 0 ≤ℤ p → p ≤ℤ pos 65535 → IsInt64 p
port-IsInt64 (pos n) l h = omega arith
port-IsInt64 (negsuc n) l h = omega arith

itoa-no_colon : (i : ℤ) → Lacks b':' (itoa i)
unfolding is_digit
itoa-no_colon i = itoa-Lacks b':' i refl (omega arith)

split-encode :
    (spec : ForwardSpec)
    → IsName spec.name
    → split (encode_forward_spec spec) b':'
      ≡ spec.name ∷ itoa spec.guest_port ∷ itoa spec.host_port ∷ []
unfolding encode_forward_spec
split-encode spec h = rw (
  split-append spec.name _ b':' (unfold is_name_char in name-Lacks b':' spec.name refl h),
  split-append (itoa spec.guest_port) _ b':' (itoa-no_colon spec.guest_port),
  split_none (itoa spec.host_port) b':' (itoa-no_colon spec.host_port),
)

port_from_ok :
    (low p : ℤ) (e : SpecError) → low ≤ℤ p → p ≤ℤ pos 65535 → port_from low e (some p) ≡ ok p
unfolding port_from
port_from_ok low p e l h = ground arith

read_port :
    (p low : ℤ) (e : SpecError)
    → pos 0 ≤ℤ low
    → low ≤ℤ p
    → p ≤ℤ pos 65535
    → port_from low e (atoi (trim_space (itoa p))) ≡ ok p
read_port p low e z l h = rw (
  trim_space_id (itoa p) (itoa-IsPrintable p),
  atoi-itoa p (port-IsInt64 p (omega arith) h),
  port_from_ok low p e l h,
)

-- Every valid spec is read back from its text form.
pub parse-encode :
    (spec : ForwardSpec) → IsValid spec → parse_forward_spec (encode_forward_spec spec) ≡ ok spec
unfolding parse_forward_spec
parse-encode spec v = rw (
  split-encode spec v.name_chars,
  trim_space_id spec.name (name-IsPrintable _ v.name_chars),
  v.named,
  all_complete _ _ v.name_chars,
  read_port spec.guest_port (pos 1) _ (omega arith) v.guest_low v.guest_high,
  read_port spec.host_port (pos 0) _ (omega arith) v.host_low v.host_high,
)

port_from_sound :
    (low p : ℤ) (e : SpecError) (o : Option ℤ)
    → port_from low e o ≡ ok p
    → (o ≡ some p) × (low ≤ℤ p) × (p ≤ℤ pos 65535)
unfolding port_from
port_from_sound low p e none h = cc
port_from_sound low p e (some q) h = ground arith

-- What `parseForwardSpec` reads, part by part.
pub record Reads (value : Text) (spec : ForwardSpec) : Type 0 where
  pub name_part : Text
  pub guest_part : Text
  pub host_part : Text
  pub parts : split value b':' ≡ name_part ∷ guest_part ∷ host_part ∷ []
  pub name_read : trim_space name_part ≡ spec.name
  pub guest_read : atoi (trim_space guest_part) ≡ some spec.guest_port
  pub host_read : atoi (trim_space host_part) ≡ some spec.host_port

parse_fields_sound :
    (value n g h : Text) {spec : ForwardSpec}
    → parse_parts value (n ∷ g ∷ h ∷ []) ≡ ok spec
    → IsValid spec
      × (trim_space n ≡ spec.name)
      × (atoi (trim_space g) ≡ some spec.guest_port)
      × (atoi (trim_space h) ≡ some spec.host_port)
unfolding parse_parts
parse_fields_sound value n g h {spec} e = ground (
  arith,
  all_sound is_name_char (trim_space n),
  port_from_sound (pos 1) spec.guest_port (bad_guest_port value) (atoi (trim_space g)),
  port_from_sound (pos 0) spec.host_port (bad_host_port value) (atoi (trim_space h)),
)

parse_parts_sound :
    (value : Text) (parts : List Text) (spec : ForwardSpec)
    → split value b':' ≡ parts
    → parse_parts value parts ≡ ok spec
    → IsValid spec × Reads value spec
parse_parts_sound value (n ∷ g ∷ h ∷ []) spec p e =
    let (valid, name, guest, host) = parse_fields_sound value n g h e in
    (
      valid,
      record {
        name_part = n;
        guest_part = g;
        host_part = h;
        parts = p;
        name_read = name;
        guest_read = guest;
        host_read = host;
      },
    )
parse_parts_sound value _ spec p e = unfold parse_parts in cc

parse_parts_complete :
    (value : Text) (spec : ForwardSpec) (r : Reads value spec)
    → IsValid spec
    → parse_forward_spec value ≡ ok spec
unfolding parse_forward_spec
parse_parts_complete value spec r v = rw (
  r.parts,
  r.name_read,
  v.named,
  all_complete _ _ v.name_chars,
  r.guest_read,
  r.host_read,
  port_from_ok (pos 1) spec.guest_port _ v.guest_low v.guest_high,
  port_from_ok (pos 0) spec.host_port _ v.host_low v.host_high,
)

-- A text is accepted with a spec exactly when its three parts read as the spec's fields and the spec
-- is valid.
pub parse_forward_spec_iff :
    (value : Text) (spec : ForwardSpec)
    → (parse_forward_spec value ≡ ok spec) ↔ (IsValid spec × Reads value spec)
parse_forward_spec_iff value spec = (
  λ e. parse_parts_sound value _ spec refl (unfold parse_forward_spec in e),
  λ (v, r). parse_parts_complete value spec r v,
)
