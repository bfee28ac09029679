-- ===== src/Safs/Names/Unlink/Entries.antt =====
-- The search in the table that unlink leaves.
use safs.Base.{
  ℕ, ◌+◌, ◌≡◌, ◌≢◌, ◌∙◌, refl, true, false, none, some, inl, inr, Bool-cases, List, [], ◌∷◌, ◌++◌,
  Name, arith, same_name, same_name_iff,
}
use safs.Disk.{Dentry, blank_dentry}
use safs.Safs.Find.{find_entry, matches}
use safs.Safs.Find.Laws.{matches_name}
use safs.Safs.Names.Unlink.{Absent, survivors, packed}

blank-matches : (name : Name) → matches name blank_dentry ≡ false
unfolding matches
blank-matches name = ground arith

-- The two unused slots hide nothing.
pub find_entry-packed :
    (name : Name) (xs : List Dentry) → find_entry name (packed xs) 0 ≡ find_entry name xs 2
unfolding find_entry
find_entry-packed name [] = refl
find_entry-packed name (x ∷ xs) = ground (arith, blank-matches name)

pub find_entry-Absent :
    (name : Name) (xs : List Dentry) (i : ℕ)
    → Absent name xs
    → find_entry name (survivors xs) i ≡ none
unfolding find_entry survivors matches
find_entry-Absent name [] i absent = refl
find_entry-Absent name (x ∷ xs) i (other, absent) =
    ground
      (arith, other, find_entry-Absent name xs i absent, find_entry-Absent name xs (i + 1) absent)

module _ (name : Name) (named : name ≢ []) where
  matches_blank : (x : Dentry) → same_name x.name [] ≡ true → matches name x ≡ false
  matches_blank x blank = elim (Bool-cases (matches name x)) [
    | inl hit ↦ elim (named (matches_name name x hit ∙ (same_name_iff x.name []).0 blank)) [ ]
    | inr miss ↦ miss
  ]

  -- An entry with a name that is not empty is copied.
  find_entry-survivors :
      (xs : List Dentry) (i i' j : ℕ) (e : Dentry)
      → find_entry name xs i ≡ some (j, e)
      → (k : ℕ) × (find_entry name (survivors xs) i' ≡ some (k, e))
  unfolding find_entry survivors
  find_entry-survivors [] i i' j e found = cc
  find_entry-survivors (x ∷ xs) i i' j e found = elim (Bool-cases (matches name x)) [
    | inl hit ↦ (i', ground (arith, hit, rw hit at found, matches_blank x))
    | inr miss ↦ elim (Bool-cases (same_name x.name [])) [
      | inl blank ↦
          let (k, at') = find_entry-survivors xs (i + 1) i' j e (rw miss at found) in
          (k, ground (arith, blank, at'))
      | inr used ↦
          let (k, at') = find_entry-survivors xs (i + 1) (i' + 1) j e (rw miss at found) in
          (k, ground (arith, used, miss, at'))
    ]
  ]

  -- And so it is where another entry is left out.
  pub find_entry-left_out :
      (before others : List Dentry) (d : Dentry) (i i' j : ℕ) (e : Dentry)
      → matches name d ≡ false
      → find_entry name (before ++ d ∷ others) i ≡ some (j, e)
      → (k : ℕ) × (find_entry name (survivors (before ++ others)) i' ≡ some (k, e))
  unfolding find_entry survivors
  find_entry-left_out [] others d i i' j e other found =
      find_entry-survivors others (i + 1) i' j e (rw other at found)
  find_entry-left_out (x ∷ xs) others d i i' j e other found = elim (Bool-cases (matches name x)) [
    | inl hit ↦ (i', ground (arith, hit, rw hit at found, matches_blank x))
    | inr miss ↦ elim (Bool-cases (same_name x.name [])) [
      | inl blank ↦
          let (k, at') = find_entry-left_out xs others d (i + 1) i' j e other (rw miss at found) in
          (k, ground (arith, blank, at'))
      | inr used ↦
          let (k, at') =
            find_entry-left_out xs others d (i + 1) (i' + 1) j e other (rw miss at found) in
          (k, ground (arith, used, miss, at'))
    ]
  ]
