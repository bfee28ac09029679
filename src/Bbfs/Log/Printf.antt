-- ===== src/Bbfs/Log/Printf.antt =====
-- The conversions of printf that fuse-examples/bbfs/src/log.c uses, on the 32 or 64 bits of an
-- argument. A conversion for an `int` takes the low 32 bits of what it gets.
use safs.Base.{
  ℕ, zero, suc, ◌+◌, ◌-◌, ◌/◌, ◌%◌, ◌^◌, true, false, [], ◌∷◌, ◌++◌, ltb, Name, length,
  if◌then◌else◌,
}

pub data Size : Type 0 where
  int_size : Size
  long_size : Size

abbrev pub modulus : Size → ℕ
modulus int_size = 2 ^ 32
modulus long_size = 2 ^ 64

-- %d, %ld and %lld; %08x and %08lx; %o and %05o. The number beside the size is the least width,
-- which zeros fill.
pub data Conversion : Type 0 where
  signed : Size → Conversion
  hexadecimal : Size → ℕ → Conversion
  octal : Size → ℕ → Conversion

abbrev pub size_of : Conversion → Size
size_of (signed size) = size
size_of (hexadecimal size width) = size
size_of (octal size width) = size

abbrev pub digit : ℕ → ℕ
digit d = if ltb d 10 then b'0' + d else b'a' + (d - 10)

unfoldable pub digits_loop : ℕ → ℕ → ℕ → Name
digits_loop base zero n = []
digits_loop base (suc fuel) n = elim (ltb n base) [
  | true ↦ digit n ∷ []
  | false ↦ digits_loop base fuel (n / base) ++ digit (n % base) ∷ []
]

unfoldable pub digits : ℕ → ℕ → Name
digits base n = digits_loop base (n + 1) n

abbrev pub zero_digits : ℕ → Name
zero_digits zero = []
zero_digits (suc n) = b'0' ∷ zero_digits n

unfoldable pub padded : ℕ → Name → Name
padded width text = zero_digits (width - length text) ++ text

unfoldable pub convert : Conversion → ℕ → Name
convert (signed size) n =
    let m = n % modulus size in
    if ltb m (modulus size / 2) then digits 10 m else b'-' ∷ digits 10 (modulus size - m)
convert (hexadecimal size width) n = padded width (digits 16 (n % modulus size))
convert (octal size width) n = padded width (digits 8 (n % modulus size))
