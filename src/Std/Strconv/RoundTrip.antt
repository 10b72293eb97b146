-- ===== src/Std/Strconv/RoundTrip.antt =====
-- Every int64 is read back from its decimal print, and a print holds digits and at most a sign.
use exasol_local_vm.Prelude.{
  ℕ, zero, suc, ◌+◌, ◌/◌, ◌%◌, ◌^◌, ◌<◌, Text, true, false, ◌≡◌, ◌≢◌, refl, [], ◌∷◌, some, arith, ℤ,
  pos, negsuc, All, All-map, Lacks, ◌∙◌, sym, is_nil,
}
use exasol_local_vm.Std.Strings.{is_space}
use exasol_local_vm.Std.Strings.Laws.{IsPrintable}
use exasol_local_vm.Std.Strconv.{
  is_digit, scan, parse_digits, signed, with_sign, atoi, emit, format_nat, itoa,
}

-- The integers that an int64 holds.
abbrev pub IsInt64 : ℤ → Type 0
IsInt64 (pos n) = n < 2 ^ 63
IsInt64 (negsuc n) = n < 2 ^ 63

abbrev pub IsDigit : ℕ → Type 0
IsDigit c = is_digit c ≡ true

scan_last : (n : ℕ) (out : Text) → scan ((b'0' + n % 10) ∷ out) (n / 10) ≡ scan out n
unfolding scan
scan_last n out = ground arith

scan_only : (n : ℕ) (out : Text) → n < 10 → scan ((b'0' + n % 10) ∷ out) 0 ≡ scan out n
unfolding scan
scan_only n out h = ground arith

scan-emit : (f n : ℕ) (out : Text) → n < f → scan (emit f n out) 0 ≡ scan out n
unfolding emit
scan-emit zero n out h = absurd (omega arith)
scan-emit (suc f) n out h =
    let longer = (b'0' + n % 10) ∷ out in
    ground (arith, scan_last n out, scan_only n out, scan-emit f (n / 10) longer)

IsDigit-of : (n : ℕ) → IsDigit (b'0' + n % 10)
unfolding is_digit
IsDigit-of n = ground arith

emit-IsDigit : (f n : ℕ) (out : Text) → All IsDigit out → All IsDigit (emit f n out)
unfolding emit
emit-IsDigit zero n out h = h
emit-IsDigit (suc f) n out h =
    ground (arith, IsDigit-of n, emit-IsDigit f (n / 10) ((b'0' + n % 10) ∷ out) (IsDigit-of n, h))

pub format_nat-IsDigit : (n : ℕ) → All IsDigit (format_nat n)
unfolding format_nat
format_nat-IsDigit n = emit-IsDigit (suc n) n [] tt

emit-is_nil : (f n : ℕ) (out : Text) → is_nil out ≡ false → is_nil (emit f n out) ≡ false
unfolding emit
emit-is_nil zero n out h = h
emit-is_nil (suc f) n out h = ground (arith, emit-is_nil f (n / 10) ((b'0' + n % 10) ∷ out))

format_nat-is_nil : (n : ℕ) → is_nil (format_nat n) ≡ false
unfolding format_nat emit
format_nat-is_nil n = ground (arith, emit-is_nil n (n / 10) ((b'0' + n % 10) ∷ []))

parse_digits-scan : (s : Text) → is_nil s ≡ false → parse_digits s ≡ scan s 0
unfolding parse_digits
parse_digits-scan [] h = cc
parse_digits-scan (c ∷ s) h = refl

scan-format_nat : (n : ℕ) → scan (format_nat n) 0 ≡ some n
unfolding format_nat scan
scan-format_nat n = scan-emit (suc n) n [] (omega arith)

parse_digits-format_nat : (n : ℕ) → parse_digits (format_nat n) ≡ some n
parse_digits-format_nat n = parse_digits-scan _ (format_nat-is_nil n) ∙ scan-format_nat n

atoi_digits : (s : Text) → All IsDigit s → atoi s ≡ with_sign false (parse_digits s)
unfolding atoi is_digit
atoi_digits [] h = refl
atoi_digits (c ∷ s) (hc, hs) = ground arith

pub digits-Lacks : (b : ℕ) (s : Text) → is_digit b ≡ false → All IsDigit s → Lacks b s
digits-Lacks b [] h _ = tt
digits-Lacks b (c ∷ s) h (hc, hs) = (ground arith, digits-Lacks b s h hs)

digits-IsPrintable : (s : Text) → All IsDigit s → All IsPrintable s
unfolding is_digit is_space
digits-IsPrintable = All-map _ _ (λ c h. ground arith)

-- Every int64 is read back from its decimal print.
pub atoi-itoa : (i : ℤ) → IsInt64 i → atoi (itoa i) ≡ some i
unfolding itoa with_sign signed
atoi-itoa (pos n) h =
    rw (atoi_digits _ (format_nat-IsDigit n), parse_digits-format_nat) (ground arith)
atoi-itoa (negsuc n) h = unfold atoi in rw (parse_digits-format_nat (suc n)) (ground arith)

-- The characters of a print: none of them is a separator.
pub itoa-Lacks : (b : ℕ) (i : ℤ) → is_digit b ≡ false → b ≢ b'-' → Lacks b (itoa i)
unfolding itoa
itoa-Lacks b (pos n) h k = digits-Lacks b (format_nat n) h (format_nat-IsDigit n)
itoa-Lacks b (negsuc n) h k =
    (λ e. k (sym e), digits-Lacks b (format_nat (suc n)) h (format_nat-IsDigit (suc n)))

-- A print holds no white space.
pub itoa-IsPrintable : (i : ℤ) → All IsPrintable (itoa i)
unfolding itoa
itoa-IsPrintable (pos n) = digits-IsPrintable _ (format_nat-IsDigit n)
itoa-IsPrintable (negsuc n) =
    (unfold is_space in refl, digits-IsPrintable _ (format_nat-IsDigit (suc n)))
