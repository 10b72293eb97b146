-- ===== src/Std/Net/Canonical.antt =====
-- The canonical text of a loopback address is read back as the same address.
use exasol_local_vm.Prelude.{
  if◌then◌else◌, Option, ℕ, zero, suc, ◌<◌, Text, Bool, true, false, ◌≡◌, refl, [], ◌∷◌, ◌++◌, none,
  some, arith, ◌==◌, All, Lacks, codes, Option-cases, inl, inr,
}
use exasol_local_vm.Std.Strings.{split, join}
use exasol_local_vm.Std.Strings.Laws.{split-join}
use exasol_local_vm.Std.Strconv.{is_digit, format_nat}
use exasol_local_vm.Std.Strconv.RoundTrip.{format_nat-IsDigit, digits-Lacks, IsDigit}
use exasol_local_vm.Std.Net.{
  Ip, Quad, parse_field, parse_quad, parse_ipv4, parse_by, parse_ip, mapped, to4, is_loopback,
  quad_string, loopback_string, canonical_loopback,
}

abbrev reads_back : ℕ → Bool
reads_back n = elim (parse_field (format_nat n)) [ none ↦ false | some m ↦ m == n ]

-- A number below the bound whose print is not read back, if there is one.
misread : ℕ → Option ℕ
misread zero = none
misread (suc n) = let earlier = misread n in if reads_back n then earlier else some n

misread-none : (bound n : ℕ) → misread bound ≡ none → n < bound → reads_back n ≡ true
unfolding misread
misread-none zero n none_found below = absurd (omega arith)
misread-none (suc bound) n none_found below = ground (arith, misread-none bound n)

no_byte_misread : misread 256 ≡ none
unfolding misread parse_field format_nat
no_byte_misread = refl

parse_field-format_nat : (n : ℕ) → n < 256 → parse_field (format_nat n) ≡ some n
parse_field-format_nat n below = ground (arith, misread-none 256 n no_byte_misread)

abbrev IsByte : ℕ → Type 0
IsByte n = n < 256

digits_first : (p rest s : Text) → All IsDigit p → parse_by (p ++ b'.' ∷ rest) s ≡ parse_ipv4 s
unfolding parse_by is_digit
digits_first [] rest s h = refl
digits_first (c ∷ p) rest s (hc, h) = ground (arith, digits_first p rest s h)

field-Lacks : (n : ℕ) → Lacks b'.' (format_nat n)
field-Lacks n = digits-Lacks b'.' (format_nat n) (unfold is_digit in refl) (format_nat-IsDigit n)

parse_quad-split :
    (q : Quad)
    → IsByte q.a
    → IsByte q.b
    → IsByte q.c
    → IsByte q.d
    → parse_quad (split (quad_string q) b'.') ≡ some q
unfolding parse_quad quad_string
parse_quad-split q a b c d = rw (
  split-join (format_nat q.a ∷ format_nat q.b ∷ format_nat q.c ∷ format_nat q.d ∷ []) b'.' (cc)
      (field-Lacks q.a, (field-Lacks q.b, (field-Lacks q.c, (field-Lacks q.d, tt)))),
  parse_field-format_nat q.a a,
  parse_field-format_nat q.b b,
  parse_field-format_nat q.c c,
  parse_field-format_nat q.d d,
)

parse_ipv4-quad_string :
    (q : Quad)
    → IsByte q.a
    → IsByte q.b
    → IsByte q.c
    → IsByte q.d
    → parse_ipv4 (quad_string q) ≡ some (mapped q.a q.b q.c q.d)
unfolding parse_ipv4
parse_ipv4-quad_string q a b c d = rw (parse_quad-split q a b c d, parse_ipv4)

parse_ip-quad_string :
    (q : Quad)
    → IsByte q.a
    → IsByte q.b
    → IsByte q.c
    → IsByte q.d
    → parse_ip (quad_string q) ≡ some (mapped q.a q.b q.c q.d)
unfolding parse_ip quad_string join
parse_ip-quad_string q a b c d =
    rw (digits_first (format_nat q.a) _ _ (format_nat-IsDigit q.a))
      (parse_ipv4-quad_string q a b c d)

to4-mapped :
    (q : Quad)
    → IsByte q.a
    → IsByte q.b
    → IsByte q.c
    → IsByte q.d
    → to4 (mapped q.a q.b q.c q.d) ≡ some q
unfolding to4
to4-mapped q a b c d = ground arith

canonical-quad_string :
    (q : Quad)
    → q.a ≡ 127
    → IsByte q.b
    → IsByte q.c
    → IsByte q.d
    → canonical_loopback (quad_string q) ≡ some (quad_string q)
unfolding canonical_loopback is_loopback loopback_string
canonical-quad_string q a b c d =
    let a' : IsByte q.a = omega arith in
    ground (arith, parse_ip-quad_string q a' b c d, to4-mapped q a' b c d)

to4_bytes : (ip : Ip) {q : Quad} → to4 ip ≡ some q → IsByte q.b × IsByte q.c × IsByte q.d
unfolding to4
to4_bytes (g0 ∷ g1 ∷ g2 ∷ g3 ∷ g4 ∷ g5 ∷ hi ∷ lo ∷ []) h = ground arith
to4_bytes _ h = cc

ipv6_canonical : canonical_loopback (codes "::1") ≡ some (codes "::1")
unfolding canonical_loopback parse_ip is_loopback loopback_string to4
ipv6_canonical = refl

loopback_string_canonical :
    (ip : Ip)
    → is_loopback ip ≡ true
    → canonical_loopback (loopback_string ip) ≡ some (loopback_string ip)
unfolding is_loopback loopback_string
loopback_string_canonical ip h = elim (Option-cases (to4 ip)) [
  | inl e ↦ rw (e, loopback_string) ipv6_canonical
  | inr (q, e) ↦
      let (b, c, d) = to4_bytes ip e in
      rw (e, loopback_string) (canonical-quad_string q (ground arith) b c d)
]

-- Writing a loopback address in canonical form once more changes nothing.
pub canonical_loopback_idem :
    (s : Text) {t : Text} → canonical_loopback s ≡ some t → canonical_loopback t ≡ some t
canonical_loopback_idem s {t} h = elim (Option-cases (parse_ip s)) [
  | inl e ↦ absurd (unfold canonical_loopback in ground arith)
  | inr (ip, e) ↦
      let (same, loop) : (loopback_string ip ≡ t) × (is_loopback ip ≡ true) =
        unfold canonical_loopback in ground arith in
      rw (← same) (loopback_string_canonical ip loop)
]

pub canonical_loopback-localhost : canonical_loopback (codes "127.0.0.1") ≡ some (codes "127.0.0.1")
unfolding canonical_loopback parse_ip split parse_field is_loopback to4 loopback_string quad_string
    join format_nat
canonical_loopback-localhost = refl
