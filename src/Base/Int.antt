-- ===== src/Base/Int.antt =====
-- C integers: `int` results as signed numbers, and the wrap-around of the machine's words.
use Prim.Native.Nat.{ℕ, zero, suc, ◌+◌, ◌-◌, ◌/◌, ◌%◌, ◌^◌}
use mathlib.Core.Bool.{Bool, true, false}
use mathlib.Core.Path.{◌≡◌}
use mathlib.Core.Logic.{◌≢◌}
use native.Mathlib.Omega.{arith}
use safs.Base.Tests.{ltb, if◌then◌else◌}

-- `negsuc n` is -(n + 1).
pub data ℤ : Type 0 where
  pos : ℕ → ℤ
  negsuc : ℕ → ℤ

-- -e, as in `return -EIO`.
abbrev pub neg : ℕ → ℤ
neg zero = pos 0
neg (suc n) = negsuc n

abbrev pub is_neg : ℤ → Bool
is_neg (pos n) = false
is_neg (negsuc n) = true

-- The value of a 32-bit `int` that is assigned the low bits of a larger number.
unfoldable pub to_int : ℕ → ℤ
to_int n = let m = n % 2 ^ 32 in if ltb m (2 ^ 31) then pos m else negsuc (2 ^ 32 - 1 - m)

-- An `off_t` is kept as its 64-bit pattern; this is `<` on such patterns.
unfoldable pub off_lt : ℕ → ℕ → Bool
off_lt a b = ltb ((a + 2 ^ 63) % 2 ^ 64) ((b + 2 ^ 63) % 2 ^ 64)

-- (size / 512) + 1 for an `off_t` pattern; C's division cuts towards zero.
unfoldable pub blocks_of : ℕ → ℕ
blocks_of size =
    if ltb size (2 ^ 63) then size / 512 + 1 else (2 ^ 64 - (2 ^ 64 - size) / 512 + 1) % 2 ^ 64

pub off_lt-ne : (a b : ℕ) → off_lt a b ≡ true → a ≢ b
unfolding off_lt
off_lt-ne a b h e = ground arith
