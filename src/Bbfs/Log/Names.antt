-- ===== src/Bbfs/Log/Names.antt =====
-- The loop over the names of attributes, on a buffer as llistxattr fills it.
use safs.Base.{
  ℕ, zero, suc, ◌+◌, ◌<◌, ◌≡◌, refl, arith, some, List, [], ◌∷◌, ◌++◌, map, Name, codes, length,
}
use safs.Bbfs.Log.Scan.{Lacks}
use safs.Bbfs.Log.Session.{c_string, list_loop}

-- The names one after another, each with its zero, before the bytes `behind`.
abbrev pub packed : List Name → List ℕ → List ℕ
packed [] behind = behind
packed (name ∷ names) behind = name ++ 0 ∷ packed names behind

abbrev pub packed_length : List Name → ℕ
packed_length [] = 0
packed_length (name ∷ names) = length name + 1 + packed_length names

abbrev pub AreStrings : List Name → Type 0
AreStrings [] = Unit
AreStrings (name ∷ names) = Lacks 0 name × AreStrings names

abbrev pub logged : Name → Name
logged name = codes "    \"" ++ name ++ codes "\"\n"

c_string-append :
    (name : Name) (behind : List ℕ)
    → Lacks 0 name
    → c_string (name ++ 0 ∷ behind) ≡ some (name, behind)
unfolding c_string
c_string-append [] behind lacks = refl
c_string-append (c ∷ name) behind lacks = ground (arith, lacks, c_string-append name behind)

-- The loop of bb_listxattr over a buffer that holds names without zero bytes, each with the zero
-- that ends it, and whose used part is as long as llistxattr returned, ends after at most as
-- many rounds as that part has bytes, and one; it logs each name once, in order, and never reads
-- what lies behind.
pub list_loop-packed :
    (names : List Name) (behind : List ℕ) (fuel : ℕ)
    → AreStrings names
    → packed_length names < fuel
    → list_loop fuel (packed_length names) (packed names behind) ≡ some (map logged names)
unfolding list_loop
list_loop-packed [] behind zero strings enough = ground (arith, enough)
list_loop-packed [] behind (suc fuel) strings enough = refl
list_loop-packed (name ∷ names) behind zero strings enough = ground (arith, enough)
list_loop-packed (name ∷ names) behind (suc fuel) (string, strings) enough = ground (
  arith,
  c_string-append name (packed names behind) string,
  list_loop-packed names behind fuel strings,
)
