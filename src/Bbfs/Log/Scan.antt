-- ===== src/Bbfs/Log/Scan.antt =====
-- The way back from what a conversion printed.
use native.Mathlib.Omega.{div_any}
use native.Mathlib.Nat.{mod-lt, div-lt_self}
use safs.Base.{
  ℕ, zero, suc, ◌+◌, ◌-◌, ◌*◌, ◌/◌, ◌%◌, ◌^◌, ◌≤◌, ◌<◌, ◌≡◌, refl, arith, false, ◌∙◌, [], ◌∷◌, ◌++◌,
  ltb, ◌==◌, Name, has_byte, length, if◌then◌else◌,
}
use safs.Bbfs.Log.Printf.{
  Size, int_size, long_size, modulus, Conversion, signed, hexadecimal, octal, size_of, digit,
  digits_loop, digits, zero_digits, padded, convert,
}

abbrev value_of : ℕ → ℕ
value_of c = if ltb c b'a' then c - b'0' else c - b'a' + 10

-- The value of a numeral after digits of the value `acc`.
unfoldable pub scan : ℕ → ℕ → Name → ℕ
scan base acc [] = acc
scan base acc (c ∷ cs) = scan base (acc * base + value_of c) cs

unfoldable pub scan_back : Conversion → Name → ℕ
scan_back (signed size) [] = 0
scan_back (signed size) (c ∷ cs) =
    if c == b'-' then modulus size - scan 10 0 cs else scan 10 0 (c ∷ cs)
scan_back (hexadecimal size width) text = scan 16 0 text
scan_back (octal size width) text = scan 8 0 text

value_of-digit : (d : ℕ) → d < 16 → value_of (digit d) ≡ d
value_of-digit d small = ground arith

scan-append :
    (base acc c : ℕ) (cs : Name)
    → scan base acc (cs ++ c ∷ []) ≡ scan base acc cs * base + value_of c
unfolding scan
scan-append base acc c [] = refl
scan-append base acc c (d ∷ cs) = scan-append base (acc * base + value_of d) c cs

div_lt : (base n : ℕ) → 2 ≤ base → base ≤ n → n / base < n
div_lt base n low le = div-lt_self (omega arith) (omega arith)

scan-digits_loop :
    (base fuel n : ℕ) → 2 ≤ base → base ≤ 16 → n < fuel → scan base 0 (digits_loop base fuel n) ≡ n
unfolding digits_loop scan
scan-digits_loop base zero n low high enough = ground arith
scan-digits_loop base (suc fuel) n low high enough =
    let last : n % base < base = mod-lt n (omega arith) in
    ground (
      arith,
      value_of-digit n,
      div_lt base n low,
      scan-append base 0 (digit (n % base)) (digits_loop base fuel (n / base)),
      scan-digits_loop base fuel (n / base) low high,
      value_of-digit (n % base),
      div_any n base,
    )

scan-digits : (base n : ℕ) → 2 ≤ base → base ≤ 16 → scan base 0 (digits base n) ≡ n
unfolding digits
scan-digits base n low high = scan-digits_loop base (n + 1) n low high (omega arith)

scan-zero_digits :
    (base n : ℕ) (text : Name) → scan base 0 (zero_digits n ++ text) ≡ scan base 0 text
unfolding scan
scan-zero_digits base zero text = refl
scan-zero_digits base (suc n) text = ground (arith, scan-zero_digits base n text)

scan-padded : (base width : ℕ) (text : Name) → scan base 0 (padded width text) ≡ scan base 0 text
unfolding padded
scan-padded base width text = scan-zero_digits base (width - length text) text

-- A text without the character `c`.
abbrev pub Lacks : ℕ → Name → Type 0
Lacks c text = has_byte c text ≡ false

pub append-Lacks : (c : ℕ) (a b : Name) → Lacks c a → Lacks c b → Lacks c (a ++ b)
append-Lacks c [] b p q = q
append-Lacks c (d ∷ a) b p q = ground (arith, append-Lacks c a b)

-- Neither "-" nor a new line is a digit.
digits_loop-Lacks :
    (c base fuel n : ℕ) → c < b'0' → base ≤ 16 → 2 ≤ base → Lacks c (digits_loop base fuel n)
unfolding digits_loop
digits_loop-Lacks c base zero n below high low = refl
digits_loop-Lacks c base (suc fuel) n below high low =
    let last : n % base < base = mod-lt n (omega arith) in
    ground (
      arith,
      digits_loop-Lacks c base fuel (n / base) below high,
      append-Lacks c (digits_loop base fuel (n / base)) (digit (n % base) ∷ []),
    )

pub digits-Lacks : (c base n : ℕ) → c < b'0' → 2 ≤ base → base ≤ 16 → Lacks c (digits base n)
unfolding digits
digits-Lacks c base n below low high = digits_loop-Lacks c base (n + 1) n below high low

zero_digits-Lacks : (c n : ℕ) → c < b'0' → Lacks c (zero_digits n)
zero_digits-Lacks c zero below = refl
zero_digits-Lacks c (suc n) below = ground (arith, zero_digits-Lacks c n below)

padded-Lacks : (c width : ℕ) (text : Name) → c < b'0' → Lacks c text → Lacks c (padded width text)
unfolding padded
padded-Lacks c width text below lacks =
    append-Lacks c (zero_digits (width - length text)) text
      (zero_digits-Lacks c (width - length text) below) lacks

pub convert-Lacks : (c : Conversion) (n : ℕ) → Lacks b'\n' (convert c n)
unfolding convert
convert-Lacks (signed int_size) n =
    ground (arith, digits-Lacks b'\n' 10 (n % 2 ^ 32), digits-Lacks b'\n' 10 (2 ^ 32 - n % 2 ^ 32))
convert-Lacks (signed long_size) n =
    ground (arith, digits-Lacks b'\n' 10 (n % 2 ^ 64), digits-Lacks b'\n' 10 (2 ^ 64 - n % 2 ^ 64))
convert-Lacks (hexadecimal size width) n =
    padded-Lacks b'\n' width (digits 16 (n % modulus size)) (omega arith)
      (digits-Lacks b'\n' 16 (n % modulus size) (omega arith) (omega arith) (omega arith))
convert-Lacks (octal size width) n =
    padded-Lacks b'\n' width (digits 8 (n % modulus size)) (omega arith)
      (digits-Lacks b'\n' 8 (n % modulus size) (omega arith) (omega arith) (omega arith))

scan_signed :
    (size : Size) (text : Name) → Lacks b'-' text → scan_back (signed size) text ≡ scan 10 0 text
unfolding scan_back scan
scan_signed size [] lacks = refl
scan_signed size (c ∷ text) lacks = ground (arith, lacks)

-- The bits that a conversion takes can be read from what it prints.
pub scan_back-convert :
    (c : Conversion) (n : ℕ) → scan_back c (convert c n) ≡ n % modulus (size_of c)
unfolding convert scan_back
scan_back-convert (hexadecimal size width) n =
    let m = n % modulus size in
    scan-padded 16 width (digits 16 m) ∙ scan-digits 16 m (omega arith) (omega arith)
scan_back-convert (octal size width) n =
    let m = n % modulus size in
    scan-padded 8 width (digits 8 m) ∙ scan-digits 8 m (omega arith) (omega arith)
scan_back-convert (signed int_size) n =
    let m = n % 2 ^ 32 in
    ground (
      arith,
      scan_signed int_size (digits 10 m)
          (digits-Lacks b'-' 10 m (omega arith) (omega arith) (omega arith)),
      scan-digits 10 m (omega arith) (omega arith),
      scan-digits 10 (2 ^ 32 - m) (omega arith) (omega arith),
    )
scan_back-convert (signed long_size) n =
    let m = n % 2 ^ 64 in
    ground (
      arith,
      scan_signed long_size (digits 10 m)
          (digits-Lacks b'-' 10 m (omega arith) (omega arith) (omega arith)),
      scan-digits 10 m (omega arith) (omega arith),
      scan-digits 10 (2 ^ 64 - m) (omega arith) (omega arith),
    )
