-- ===== src/Std/Strconv.antt =====
-- `strconv.Atoi`, and the verb `%d` of `fmt` and `strconv.Itoa`, on 64-bit integers.
pub mod RoundTrip
use exasol_local_vm.Prelude.{
  ℕ, zero, suc, ◌+◌, ◌-◌, ◌*◌, ◌/◌, ◌%◌, ◌^◌, Text, Bool, true, false, ◌&&◌, [], ◌∷◌, Option, none,
  some, ltb, leb, ◌==◌, if◌then◌else◌, ℤ, pos, negsuc,
}

unfoldable pub is_digit : ℕ → Bool
is_digit c = leb b'0' c && leb c b'9'

-- The number that decimal digits spell behind `n`; `none` at another character.
unfoldable pub scan : Text → ℕ → Option ℕ
unfolding is_digit
scan [] n = some n
scan (c ∷ s) n = let rest = scan s (n * 10 + (c - b'0')) in if is_digit c then rest else none

unfoldable pub parse_digits : Text → Option ℕ
unfolding scan
parse_digits [] = none
parse_digits (c ∷ s) = scan (c ∷ s) 0

-- An int64 from its sign and magnitude; `none` is `strconv.ErrRange`.
unfoldable pub signed : Bool → ℕ → Option ℤ
signed false n = if ltb n (2 ^ 63) then some (pos n) else none
signed true zero = some (pos 0)
signed true (suc n) = if ltb n (2 ^ 63) then some (negsuc n) else none

unfoldable pub with_sign : Bool → Option ℕ → Option ℤ
unfolding signed
with_sign minus none = none
with_sign minus (some n) = signed minus n

-- `strconv.Atoi`: an optional sign, one or more digits, and a value in range.
unfoldable pub atoi : Text → Option ℤ
unfolding with_sign parse_digits
atoi [] = none
atoi (c ∷ s) =
    if c == b'-'
    then with_sign true (parse_digits s)
    else if c == b'+'
    then with_sign false (parse_digits s)
    else with_sign false (parse_digits (c ∷ s))

-- The digits of a number in front of `out`, the last one first. The fuel is above the number.
unfoldable pub emit : ℕ → ℕ → Text → Text
emit zero n out = out
emit (suc fuel) n out =
    let longer = (b'0' + n % 10) ∷ out in
    let rest = emit fuel (n / 10) longer in if ltb n 10 then longer else rest

unfoldable pub format_nat : ℕ → Text
unfolding emit
format_nat n = emit (suc n) n []

-- `%d`
unfoldable pub itoa : ℤ → Text
unfolding format_nat
itoa (pos n) = format_nat n
itoa (negsuc n) = b'-' ∷ format_nat (suc n)

unfoldable pub in_uint64 : Option ℕ → Option ℕ
in_uint64 none = none
in_uint64 (some n) = if ltb n (2 ^ 64) then some n else none

-- `strconv.ParseUint` in base 10 with 64 bits: digits without a sign, and a value in range.
unfoldable pub parse_uint : Text → Option ℕ
unfolding parse_digits in_uint64
parse_uint s = in_uint64 (parse_digits s)
