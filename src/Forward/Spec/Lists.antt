-- ===== src/Forward/Spec/Lists.antt =====
-- Lists of specs: what `start` writes for the daemon is what the daemon reads.
use exasol_local_vm.Prelude.{
  Text, text_eq_iff, false, ◌||◌, ◌≡◌, refl, ◌∙◌, List, [], ◌∷◌, ◌++◌, map, arith, ℤ, is_nil, All,
  All-append, Lacks, ok, chain_parts, Bool-cases, inl, inr, append_assoc, append-nil,
}
use exasol_local_vm.Std.Strings.{trim_space, split, join}
use exasol_local_vm.Std.Strings.Laws.{IsPrintable, trim_space-cons, split-join}
use exasol_local_vm.Std.Strconv.{is_digit, itoa}
use exasol_local_vm.Std.Strconv.RoundTrip.{itoa-Lacks}
use exasol_local_vm.Forward.Spec.{
  ForwardSpec, is_name_char, parse_forward_spec, parse_forward_specs, set, set_all, string,
  encode_forward_spec, IsValid, has_name, DistinctNames,
}
use exasol_local_vm.Forward.Spec.RoundTrip.{
  parse-encode, parse_forward_spec_iff, name-Lacks, name-IsPrintable,
}

has_name-append :
    (n : Text) (xs ys : List ForwardSpec) → has_name n (xs ++ ys) ≡ (has_name n xs || has_name n ys)
unfolding has_name
has_name-append n [] ys = refl
has_name-append n (x ∷ xs) ys = ground (arith, has_name-append n xs ys)

fresh_in_middle :
    (xs : List ForwardSpec) (spec : ForwardSpec) (ys : List ForwardSpec)
    → DistinctNames (xs ++ spec ∷ ys)
    → has_name spec.name xs ≡ false
unfolding has_name
fresh_in_middle [] spec ys h = refl
fresh_in_middle (x ∷ xs) spec ys (hx, h) = ground (
  arith,
  fresh_in_middle xs spec ys h,
  has_name-append x.name xs (spec ∷ ys),
  text_eq_iff x.name spec.name,
  text_eq_iff spec.name x.name,
)

set_fresh :
    (done : List ForwardSpec) (spec : ForwardSpec)
    → IsValid spec
    → has_name spec.name done ≡ false
    → set done (encode_forward_spec spec) ≡ ok (done ++ spec ∷ [])
unfolding set
set_fresh done spec v h = rw (parse-encode spec v, h)

set_all-encode :
    (list done : List ForwardSpec)
    → All IsValid list
    → DistinctNames (done ++ list)
    → set_all done (map encode_forward_spec list) ≡ ok (done ++ list)
unfolding set_all
set_all-encode [] done v d = rw append-nil
set_all-encode (spec ∷ list) done (hv, v) d =
    rw (set_fresh done spec hv (fresh_in_middle done spec list d))
      (set_all-encode list (done ++ spec ∷ []) v (rw append_assoc d) ∙ rw append_assoc)

snoc-DistinctNames :
    (done : List ForwardSpec) (spec : ForwardSpec)
    → DistinctNames done
    → has_name spec.name done ≡ false
    → DistinctNames (done ++ spec ∷ [])
unfolding has_name
snoc-DistinctNames [] spec d h = (refl, tt)
snoc-DistinctNames (x ∷ done) spec (hx, d) h = (
  ground (
    arith,
    has_name-append x.name done (spec ∷ []),
    text_eq_iff x.name spec.name,
    text_eq_iff spec.name x.name,
  ),
  snoc-DistinctNames done spec d (ground arith),
)

itoa-no_comma : (i : ℤ) → Lacks b',' (itoa i)
unfolding is_digit
itoa-no_comma i = itoa-Lacks b',' i refl (omega arith)

encode-Lacks : (spec : ForwardSpec) → IsValid spec → Lacks b',' (encode_forward_spec spec)
unfolding encode_forward_spec
encode-Lacks spec v =
    All-append _ spec.name _ (unfold is_name_char in name-Lacks b',' spec.name refl v.name_chars) (
      omega arith,
      All-append _ (itoa spec.guest_port) _ (itoa-no_comma spec.guest_port)
          (omega arith, itoa-no_comma spec.host_port),
    )

map_encode-Lacks :
    (list : List ForwardSpec) → All IsValid list → All (Lacks b',') (map encode_forward_spec list)
map_encode-Lacks [] v = tt
map_encode-Lacks (spec ∷ list) (hv, v) = (encode-Lacks spec hv, map_encode-Lacks list v)

trim_space-append :
    (s rest : Text) → is_nil s ≡ false → All IsPrintable s → is_nil (trim_space (s ++ rest)) ≡ false
trim_space-append [] rest h p = cc
trim_space-append (c ∷ s) rest h (hc, _) = trim_space-cons c (s ++ rest) hc

string_not_blank :
    (spec : ForwardSpec) (list : List ForwardSpec)
    → IsValid spec
    → is_nil (trim_space (string (spec ∷ list))) ≡ false
unfolding string join encode_forward_spec
string_not_blank spec [] v = trim_space-append spec.name _ v.named (name-IsPrintable _ v.name_chars)
string_not_blank spec (next ∷ list) v =
    rw append_assoc (trim_space-append spec.name _ v.named (name-IsPrintable _ v.name_chars))

-- The daemon reads back exactly the forwards that `start` was given.
pub parse-string :
    (list : List ForwardSpec)
    → All IsValid list
    → DistinctNames list
    → parse_forward_specs (string list) ≡ ok list
unfolding parse_forward_specs
parse-string [] v d = unfold string join trim_space in refl
parse-string (spec ∷ list) v d = rw (string_not_blank spec list v.0) (
    unfold string in
    rw
      (split-join (map encode_forward_spec (spec ∷ list)) b',' (cc)
        (map_encode-Lacks (spec ∷ list) v))
      (set_all-encode (spec ∷ list) [] v d))

set_sound :
    (done : List ForwardSpec) (entry : Text) {list : List ForwardSpec}
    → set done entry ≡ ok list
    → (spec : ForwardSpec) × (parse_forward_spec entry ≡ ok spec)
      × (has_name spec.name done ≡ false)
      × (list ≡ done ++ spec ∷ [])
unfolding set
set_sound done entry h =
    let (spec, q, p) = chain_parts (parse_forward_spec entry) _ h in
    (spec, p, ground arith, ground arith)

pub set-IsValid :
    (done : List ForwardSpec) (entry : Text) {list : List ForwardSpec}
    → set done entry ≡ ok list
    → All IsValid done × DistinctNames done
    → All IsValid list × DistinctNames list
set-IsValid done entry h (v, d) =
    let (spec, parsed, fresh, grown) = set_sound done entry h in
    let valid = ((parse_forward_spec_iff entry spec).0 parsed).0 in
    rw grown (All-append _ done (spec ∷ []) v (valid, tt), snoc-DistinctNames done spec d fresh)

set_all_sound :
    (entries : List Text) (done : List ForwardSpec) {list : List ForwardSpec}
    → set_all done entries ≡ ok list
    → All IsValid done
    → DistinctNames done
    → All IsValid list × DistinctNames list
unfolding set_all
set_all_sound [] done h v d = ground arith
set_all_sound (entry ∷ entries) done h v d =
    let (next, q, p) = chain_parts (set done entry) _ h in
    let (v', d') = set-IsValid done entry p (v, d) in set_all_sound entries next q v' d'

-- Whatever list text the daemon accepts, its specs are valid and their names pairwise different.
pub parse_forward_specs_sound :
    (value : Text) {list : List ForwardSpec}
    → parse_forward_specs value ≡ ok list
    → All IsValid list × DistinctNames list
unfolding parse_forward_specs
parse_forward_specs_sound value {list} h = elim (Bool-cases (is_nil (trim_space value))) [
  | inl blank ↦ let e : ok [] ≡ ok list = rw blank at h in ground arith
  | inr more ↦ set_all_sound (split value b',') [] (rw more at h) tt tt
]
