-- ===== src/Base/Text.antt =====
-- C strings as the bytes before their terminating zero.
use Prim.Native.Nat.{ℕ}
use Prim.Native.Char.{code}
use Prim.Native.String.{String}
use mathlib.Core.Path.{◌≡◌, refl}
use mathlib.Core.Logic.{◌↔◌, ◌≢◌}
use mathlib.Core.Bool.{Bool, true, false, ◌&&◌, ◌||◌}
use mathlib.Core.List.{List, [], ◌∷◌}
use native.Mathlib.Omega.{arith}
use safs.Base.Tests.{◌==◌}

abbrev pub Name : Type 0
Name = List ℕ

-- strcmp(a, b) == 0
unfoldable pub same_name : Name → Name → Bool
same_name [] [] = true
same_name [] (b ∷ bs) = false
same_name (a ∷ as') [] = false
same_name (a ∷ as') (b ∷ bs) = (a == b) && same_name as' bs

pub same_name_iff : (a b : Name) → (same_name a b ≡ true) ↔ (a ≡ b)
unfolding same_name
same_name_iff [] [] = ground arith
same_name_iff [] (b ∷ bs) = ground arith
same_name_iff (a ∷ as') [] = ground arith
same_name_iff (a ∷ as') (b ∷ bs) = ground (arith, same_name_iff as' bs)

pub same_name_refl : (a : Name) → same_name a a ≡ true
same_name_refl a = (same_name_iff a a).1 refl

pub same_name_of_ne : (a b : Name) → a ≢ b → same_name a b ≡ false
same_name_of_ne a b ne = ground (arith, same_name_iff a b)

-- The string `path + 1`.
abbrev pub rest : Name → Name
rest [] = []
rest (c ∷ cs) = cs

abbrev pub has_byte : ℕ → Name → Bool
has_byte c [] = false
has_byte c (d ∷ ds) = (d == c) || has_byte c ds

-- A string literal of the source, all ASCII.
abbrev pub codes : String → Name
codes String.[] = []
codes (String.◌∷◌ c s) = code c ∷ codes s
