-- ===== src/Ramfs/Keys.antt =====
-- The orders of the keys: operator< on `int`, and on std::string, which compares byte by byte.
use Prim.Native.Nat.{compare, Ordering}
use Prim.Native.Nat.Ordering.{lt, eq, gt}
use safs.Base.{◌≡◌, refl, arith, [], ◌∷◌, ℤ, pos, negsuc, Name}
use safs.Ramfs.StdMap.{Order}

abbrev pub compare_int : ℤ → ℤ → Ordering
compare_int (pos a) (pos b) = compare a b
compare_int (pos a) (negsuc b) = gt
compare_int (negsuc a) (pos b) = lt
compare_int (negsuc a) (negsuc b) = compare b a

pub int_self : (a : ℤ) → compare_int a a ≡ eq
int_self = ground arith

pub int_only_self : (a b : ℤ) → compare_int a b ≡ eq → a ≡ b
int_only_self = ground arith

pub int_flip : (a b : ℤ) → compare_int a b ≡ gt → compare_int b a ≡ lt
int_flip = ground arith

pub int_chain : (a b c : ℤ) → compare_int a b ≡ lt → compare_int b c ≡ lt → compare_int a c ≡ lt
int_chain = ground arith

instance abbrev pub int_order : Order ℤ
int_order = record {
  compare_keys = compare_int;
  self = int_self;
  only_self = int_only_self;
  flip = int_flip;
  chain = int_chain;
}

abbrev pub compare_string : Name → Name → Ordering
compare_string [] [] = eq
compare_string [] (b ∷ bs) = lt
compare_string (a ∷ as') [] = gt
compare_string (a ∷ as') (b ∷ bs) = elim (compare a b) [
  | lt ↦ lt
  | eq ↦ compare_string as' bs
  | gt ↦ gt
]

pub string_self : (a : Name) → compare_string a a ≡ eq
string_self [] = refl
string_self (c ∷ cs) = ground (arith, string_self cs)

pub string_only_self : (a b : Name) → compare_string a b ≡ eq → a ≡ b
string_only_self [] [] e = refl
string_only_self [] (b ∷ bs) e = ground (arith, e)
string_only_self (a ∷ as') [] e = ground (arith, e)
string_only_self (a ∷ as') (b ∷ bs) e = ground (arith, string_only_self as' bs)

pub string_flip : (a b : Name) → compare_string a b ≡ gt → compare_string b a ≡ lt
string_flip [] [] e = ground (arith, e)
string_flip [] (b ∷ bs) e = ground (arith, e)
string_flip (a ∷ as') [] e = refl
string_flip (a ∷ as') (b ∷ bs) e = ground (arith, string_flip as' bs)

pub string_chain :
    (a b c : Name) → compare_string a b ≡ lt → compare_string b c ≡ lt → compare_string a c ≡ lt
string_chain [] [] c p q = ground (arith, p)
string_chain [] (b ∷ bs) [] p q = ground (arith, q)
string_chain [] (b ∷ bs) (c ∷ cs) p q = refl
string_chain (a ∷ as') [] c p q = ground (arith, p)
string_chain (a ∷ as') (b ∷ bs) [] p q = ground (arith, q)
string_chain (a ∷ as') (b ∷ bs) (c ∷ cs) p q = ground (arith, string_chain as' bs cs)

instance abbrev pub string_order : Order Name
string_order = record {
  compare_keys = compare_string;
  self = string_self;
  only_self = string_only_self;
  flip = string_flip;
  chain = string_chain;
}
