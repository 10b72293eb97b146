-- ===== src/Std/Net.antt =====
-- `net.ParseIP`, `IP.IsLoopback`, and `IP.String` of a loopback address. An address is the list of
-- its eight 16-bit groups; an IPv4 address is mapped into `::ffff:0:0/96`, as `net.IP` keeps it.
pub mod Canonical
use exasol_local_vm.Prelude.{
  ℕ, zero, suc, ◌+◌, ◌-◌, ◌*◌, ◌/◌, ◌%◌, Text, codes, Bool, true, false, not, ◌&&◌, ◌||◌, List, [],
  ◌∷◌, ◌++◌, Option, none, some, ltb, leb, ◌==◌, if◌then◌else◌, is_nil, length, text_eq,
}
use exasol_local_vm.Std.Strings.{split, join}
use exasol_local_vm.Std.Strconv.{is_digit, scan, parse_digits, format_nat}

abbrev pub Ip : Type 0
Ip = List ℕ

-- A decimal field of an IPv4 address: digits, no leading zero, at most 255.
unfoldable pub small : Option ℕ → Option ℕ
small none = none
small (some n) = if leb n 255 then some n else none

unfoldable pub parse_field : Text → Option ℕ
unfolding small parse_digits
parse_field [] = none
parse_field (c ∷ []) = small (parse_digits (c ∷ []))
parse_field (c ∷ d ∷ s) = if c == b'0' then none else small (parse_digits (c ∷ d ∷ s))

abbrev pub mapped : ℕ → ℕ → ℕ → ℕ → Ip
mapped a b c d = 0 ∷ 0 ∷ 0 ∷ 0 ∷ 0 ∷ 0xffff ∷ (a * 256 + b) ∷ (c * 256 + d) ∷ []

pub record Quad : Type 0 where
  pub a : ℕ
  pub b : ℕ
  pub c : ℕ
  pub d : ℕ

unfoldable pub quad : Option ℕ → Option ℕ → Option ℕ → Option ℕ → Option Quad
quad (some a) (some b) (some c) (some d) = some (record { a = a; b = b; c = c; d = d })
quad _ _ _ _ = none

unfoldable pub parse_quad : List Text → Option Quad
unfolding quad
parse_quad (a ∷ b ∷ c ∷ d ∷ []) =
    quad (parse_field a) (parse_field b) (parse_field c) (parse_field d)
parse_quad _ = none

-- `parseIPv4`
unfoldable pub parse_ipv4 : Text → Option Ip
unfolding parse_quad
parse_ipv4 s = elim (parse_quad (split s b'.')) [
  | none ↦ none
  | some q ↦ some (mapped q.a q.b q.c q.d)
]

abbrev pub hex_value : ℕ → Option ℕ
hex_value c =
    if is_digit c
    then some (c - b'0')
    else if leb b'a' c && leb c b'f'
    then some (c - b'a' + 10)
    else if leb b'A' c && leb c b'F'
    then some (c - b'A' + 10)
    else none

-- The hexadecimal digits in front of a text: how many, their value, and what follows.
pub record Hex : Type 0 where
  pub count : ℕ
  pub value : ℕ
  pub rest : Text

unfoldable pub read_hex : Text → ℕ → ℕ → Hex
unfolding is_digit
read_hex [] count value = record { count = count; value = value; rest = [] }
read_hex (c ∷ s) count value = elim (hex_value c) [
  | none ↦ record { count = count; value = value; rest = c ∷ s }
  | some h ↦ read_hex s (count + 1) (value * 16 + h)
]

abbrev pub zeros : ℕ → List ℕ
zeros zero = []
zeros (suc n) = 0 ∷ zeros n

-- The groups before the ellipsis, if there was one, and those read since.
pub record Groups : Type 0 where
  pub before : Option (List ℕ)
  pub read : List ℕ

abbrev pub total : Groups → ℕ
total g = elim g.before [ none ↦ length g.read | some b ↦ length b + length g.read ]

-- The end of `parseIPv6`: the whole text is used, and an ellipsis stands for one group or more.
unfoldable pub expand : Groups → Option Ip
expand g = elim g.before [
  | none ↦ if total g == 8 then some g.read else none
  | some b ↦ if ltb (total g) 8 then some (b ++ (zeros (8 - total g) ++ g.read)) else none
]

abbrev pub has_ellipsis : Groups → Bool
has_ellipsis g = elim g.before [ none ↦ false | some _ ↦ true ]

abbrev pub add_group : ℕ → Groups → Groups
add_group n g = record g { read = g.read ++ n ∷ [] }

-- A trailing IPv4 address takes the last two groups.
unfoldable pub trailing_ipv4 : Text → Groups → Option Ip
unfolding expand parse_quad
trailing_ipv4 s g =
    if not (has_ellipsis g) && not (total g == 6) || ltb 6 (total g)
    then none
    else elim (parse_quad (split s b'.')) [
      | none ↦ none
      | some q ↦ expand (add_group (q.c * 256 + q.d) (add_group (q.a * 256 + q.b) g))
    ]

abbrev pub starts : ℕ → Text → Bool
starts c [] = false
starts c (d ∷ s) = d == c

-- The loop of `parseIPv6`, at most eight rounds: a group of one to four digits, then the end, a
-- colon, or an ellipsis, of which there is one at most.
unfoldable pub groups_loop : ℕ → Text → Groups → Option Ip
unfolding read_hex expand trailing_ipv4
groups_loop zero s g = if is_nil s then expand g else none
groups_loop (suc left) s g =
    let h = read_hex s 0 0 in
    let g' = add_group h.value g in
    let next = λ (t : Text). groups_loop left t g' in
    let jump = λ (t : Text). groups_loop left t (record { before = some g'.read; read = [] }) in
    if h.count == 0 || ltb 4 h.count
    then none
    else if starts b'.' h.rest
    then trailing_ipv4 s g
    else elim h.rest [
      | [] ↦ expand g'
      | c ∷ [] ↦ none
      | c ∷ d ∷ t ↦
          if not (c == b':')
          then none
          else if not (d == b':')
          then next (d ∷ t)
          else if has_ellipsis g
          then none
          else if is_nil t
          then expand (record { before = some g'.read; read = [] })
          else jump t
    ]

unfoldable pub parse_ipv6 : Text → Option Ip
unfolding groups_loop
parse_ipv6 (c ∷ d ∷ []) =
    if c == b':' && d == b':'
    then some (zeros 8)
    else groups_loop 8 (c ∷ d ∷ []) (record { before = none; read = [] })
parse_ipv6 (c ∷ d ∷ s) =
    if c == b':' && d == b':'
    then groups_loop 8 s (record { before = some []; read = [] })
    else groups_loop 8 (c ∷ d ∷ s) (record { before = none; read = [] })
parse_ipv6 s = groups_loop 8 s (record { before = none; read = [] })

-- The first of `.`, `:` and `%` decides how `netip.ParseAddr` reads a text.
unfoldable pub parse_by : Text → Text → Option Ip
unfolding parse_ipv4 parse_ipv6
parse_by [] s = none
parse_by (c ∷ rest) s =
    let later = parse_by rest s in
    if c == b'.'
    then parse_ipv4 s
    else if c == b':'
    then parse_ipv6 s
    else if c == b'%'
    then none
    else later

-- `net.ParseIP`; `none` is `nil`. A text with a zone, behind `%`, is refused by every branch.
unfoldable pub parse_ip : Text → Option Ip
unfolding parse_by
parse_ip s = parse_by s s

abbrev pub nums_eq : List ℕ → List ℕ → Bool
nums_eq = text_eq

-- The four bytes of an address that maps an IPv4 address (`IP.To4`).
unfoldable pub to4 : Ip → Option Quad
unfolding text_eq
to4 (g0 ∷ g1 ∷ g2 ∷ g3 ∷ g4 ∷ g5 ∷ hi ∷ lo ∷ []) =
    if nums_eq (g0 ∷ g1 ∷ g2 ∷ g3 ∷ g4 ∷ g5 ∷ []) (0 ∷ 0 ∷ 0 ∷ 0 ∷ 0 ∷ 0xffff ∷ [])
    then some (record { a = hi / 256 % 256; b = hi % 256; c = lo / 256 % 256; d = lo % 256 })
    else none
to4 _ = none

abbrev pub ipv6_loopback : Ip
ipv6_loopback = 0 ∷ 0 ∷ 0 ∷ 0 ∷ 0 ∷ 0 ∷ 0 ∷ 1 ∷ []

-- `IP.IsLoopback`
unfoldable pub is_loopback : Ip → Bool
is_loopback ip = elim (to4 ip) [ none ↦ nums_eq ip ipv6_loopback | some q ↦ q.a == 127 ]

unfoldable pub quad_string : Quad → Text
quad_string q =
    join (format_nat q.a ∷ format_nat q.b ∷ format_nat q.c ∷ format_nat q.d ∷ []) (b'.' ∷ [])

-- `IP.String` of a loopback address: `::1` is the one that is no IPv4 address.
unfoldable pub loopback_string : Ip → Text
loopback_string ip = elim (to4 ip) [ none ↦ codes "::1" | some q ↦ quad_string q ]

-- The checks of the callers in one: the canonical text of a loopback address, or `none`.
unfoldable pub canonical_loopback : Text → Option Text
canonical_loopback s = elim (parse_ip s) [
  | none ↦ none
  | some ip ↦ if is_loopback ip then some (loopback_string ip) else none
]
