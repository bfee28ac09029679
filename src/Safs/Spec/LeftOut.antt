-- ===== src/Safs/Spec/LeftOut.antt =====
-- The entries that unlink leaves, as names for files.
use safs.Base.{
  ℕ, zero, suc, ◌<◌, ◌≡◌, ◌≢◌, ◌⊎◌, inl, inr, refl, ap, arith, false, none, List, [], ◌∷◌, ◌++◌,
  Name, same_name, same_name_iff, Bool-cases, if◌then◌else◌,
}
use safs.Disk.{Dentry, blank_dentry}
use safs.Safs.Find.{matches}
use safs.Safs.Find.Laws.{IsFirst}
use safs.Safs.Names.Unlink.{Absent, survivors, packed}
use safs.Safs.Rules.{EveryEntry}
use safs.Safs.Spec.Unique.{file_found, IsUnique}

-- An entry is unused and has no name, or has one.
abbrev pub IsTidy : Dentry → Type 0
IsTidy d = ((d.inum ≡ 0) × (d.name ≡ [])) ⊎ ((0 < d.inum) × (same_name d.name [] ≡ false))

-- The first entry of a name, with the entries before and behind it.
abbrev pub Split : Name → List Dentry → Dentry → Type 0
Split name ds d =
    (before : List Dentry) × (others : List Dentry) × (ds ≡ before ++ d ∷ others)
    × Absent name before

module _ (name : Name) (named : same_name name [] ≡ false) where
  pub Split-IsFirst :
      (ds : List Dentry) (k : ℕ) (d : Dentry)
      → EveryEntry IsTidy ds
      → IsFirst name ds k d
      → Split name ds d
  unfolding matches
  Split-IsFirst [] k d tidy first = elim first [ ]
  Split-IsFirst (e ∷ ds) zero d tidy (same, hit) = ([], ds, ap (λ x. x ∷ ds) same, tt)
  Split-IsFirst (e ∷ ds) (suc k) d (here, tidy) (miss, first) =
      let (before, others, same, absent) = Split-IsFirst ds k d tidy first in
      (e ∷ before, others, ap (λ xs. e ∷ xs) same, (ground (arith, here, miss, named), absent))

  pub Absent-file_found :
      (ds : List Dentry) → EveryEntry IsTidy ds → file_found name ds ≡ none → Absent name ds
  unfolding file_found matches
  Absent-file_found [] tidy free = tt
  Absent-file_found (e ∷ ds) (here, tidy) free = elim (Bool-cases (same_name name e.name)) [
    | inl same ↦ ground (arith, here, named, same, free, same_name_iff name e.name)
    | inr other ↦ (other, Absent-file_found ds tidy (ground (arith, other, free)))
  ]

pub file_found-Absent :
    (name : Name) (ds : List Dentry) → Absent name ds → file_found name ds ≡ none
unfolding file_found matches
file_found-Absent name [] absent = refl
file_found-Absent name (e ∷ ds) (other, absent) =
    ground (arith, other, file_found-Absent name ds absent)

pub file_found-survivors :
    (name : Name) (ds : List Dentry)
    → EveryEntry IsTidy ds
    → file_found name (survivors ds) ≡ file_found name ds
unfolding file_found matches survivors
file_found-survivors name [] tidy = refl
file_found-survivors name (e ∷ ds) (here, tidy) = elim (Bool-cases (same_name e.name [])) [
  | inl blank ↦ ground (arith, here, blank, file_found-survivors name ds tidy)
  | inr named ↦ ground (arith, named, file_found-survivors name ds tidy)
]

pub file_found-packed :
    (name : Name) (ds : List Dentry) → file_found name (packed ds) ≡ file_found name ds
unfolding file_found matches
file_found-packed name [] = refl
file_found-packed name (e ∷ ds) = ground arith

module _ (d : Dentry) where
  -- An entry is left out whose name no other has.
  pub file_found-left_out :
      (name : Name) (before others : List Dentry)
      → d.inum ≢ 0
      → Absent d.name before
      → Absent d.name others
      → file_found name (before ++ others)
        ≡ (if same_name d.name name then none else file_found name (before ++ d ∷ others))
  unfolding file_found matches
  file_found-left_out name [] others used first later = ground (
    arith,
    file_found-Absent d.name others later,
    same_name_iff d.name name,
    same_name_iff name d.name,
  )
  file_found-left_out name (e ∷ before) others used (other, first) later = ground (
    arith,
    other,
    file_found-left_out name before others used first later,
    same_name_iff d.name name,
    same_name_iff name e.name,
    same_name_iff d.name e.name,
  )

  none_left_out :
      (name : Name) (before others : List Dentry)
      → file_found name (before ++ d ∷ others) ≡ none
      → file_found name (before ++ others) ≡ none
  unfolding file_found
  none_left_out name [] others free = ground (arith, free)
  none_left_out name (e ∷ before) others free =
      ground (arith, free, none_left_out name before others)

  pub IsUnique-left_out :
      (before others : List Dentry) → IsUnique (before ++ d ∷ others) → IsUnique (before ++ others)
  IsUnique-left_out [] others (alone, unique) = unique
  IsUnique-left_out (e ∷ before) others (alone, unique) = (
    ground (arith, alone, none_left_out e.name before others),
    IsUnique-left_out before others unique,
  )

  pub IsUnique-behind :
      (before others : List Dentry)
      → d.inum ≢ 0
      → IsUnique (before ++ d ∷ others)
      → file_found d.name others ≡ none
  IsUnique-behind [] others used (alone, unique) = ground (arith, alone)
  IsUnique-behind (e ∷ before) others used (alone, unique) =
      IsUnique-behind before others used unique

  pub EveryEntry-left_out :
      (E : Dentry → Type 0) (before others : List Dentry)
      → EveryEntry E (before ++ d ∷ others)
      → EveryEntry E (before ++ others)
  EveryEntry-left_out E [] others (here, every) = every
  EveryEntry-left_out E (e ∷ before) others (here, every) =
      (here, EveryEntry-left_out E before others every)

  pub EveryEntry-behind :
      (E : Dentry → Type 0) (before others : List Dentry)
      → EveryEntry E (before ++ d ∷ others)
      → EveryEntry E others
  EveryEntry-behind E [] others (here, every) = every
  EveryEntry-behind E (e ∷ before) others (here, every) = EveryEntry-behind E before others every

pub IsUnique-survivors :
    (ds : List Dentry) → EveryEntry IsTidy ds → IsUnique ds → IsUnique (survivors ds)
unfolding survivors
IsUnique-survivors [] tidy unique = tt
IsUnique-survivors (e ∷ ds) (here, tidy) (alone, unique) = elim (Bool-cases (same_name e.name [])) [
  | inl blank ↦ rw blank (IsUnique-survivors ds tidy unique)
  | inr named ↦ rw named (
    ground (arith, alone, file_found-survivors e.name ds tidy),
    IsUnique-survivors ds tidy unique,
  )
]

pub IsUnique-packed : (ds : List Dentry) → IsUnique ds → IsUnique (packed ds)
IsUnique-packed [] unique = tt
IsUnique-packed (e ∷ ds) unique = (inl refl, (inl refl, unique))

pub EveryEntry-survivors :
    (E : Dentry → Type 0) (ds : List Dentry) → EveryEntry E ds → EveryEntry E (survivors ds)
unfolding survivors
EveryEntry-survivors E [] every = tt
EveryEntry-survivors E (e ∷ ds) (here, every) = elim (Bool-cases (same_name e.name [])) [
  | inl blank ↦ rw blank (EveryEntry-survivors E ds every)
  | inr named ↦ rw named (here, EveryEntry-survivors E ds every)
]

pub EveryEntry-packed :
    (E : Dentry → Type 0) (ds : List Dentry)
    → E blank_dentry
    → EveryEntry E ds
    → EveryEntry E (packed ds)
EveryEntry-packed E [] blank every = tt
EveryEntry-packed E (e ∷ ds) blank every = (blank, (blank, every))
