-- ===== src/Safs/Spec/Beside.antt =====
-- What an unlink leaves alone: the entries of other names with their inodes and data files.
use safs.Base.{
  ℕ, ◌≡◌, ◌⊎◌, inl, inr, arith, true, false, some, List, [], ◌∷◌, Name, same_name, same_name_iff,
  same_name_refl, Bool-cases, erase, lookup-erase,
}
use safs.Disk.{Disk, Dentry}
use safs.Posix.{Env}
use safs.Safs.Find.{matches}
use safs.Safs.Names.Unlink.{Absent}
use safs.Safs.Rules.{EveryEntry}
use safs.Safs.Spec.LeftOut.{IsTidy}
use safs.Safs.Spec.Sound.{EveryEntry-map}
use safs.Safs.Spec.Unique.{file_found, IsUnique}
use safs.Safs.Spec.View.{IsKept}

pub IsKept-IsTidy : (env : Env) (disk : Disk) (d : Dentry) → IsKept env disk d → IsTidy d
IsKept-IsTidy env disk d (inl unused) = inl unused
IsKept-IsTidy env disk d (inr (below, fits, plain, stored, named)) = inr named

-- An entry in use is what its name stands for.
abbrev pub IsFound : List Dentry → Dentry → Type 0
IsFound all d = (d.inum ≡ 0) ⊎ (file_found d.name all ≡ some (d.inum, d.storage))

pub IsUnique-IsFound : (ds : List Dentry) → IsUnique ds → EveryEntry (IsFound ds) ds
unfolding file_found matches
IsUnique-IsFound [] unique = tt
IsUnique-IsFound (d ∷ ds) (alone, unique) = (
  ground (arith, same_name_refl d.name),
  EveryEntry-map (IsFound ds) (IsFound (d ∷ ds)) ds
      (λ e found. ground (arith, found, alone, same_name_iff e.name d.name))
      (IsUnique-IsFound ds unique),
)

module _ (env : Env) (disk disk' : Disk) (name : Name) (all : List Dentry)
    (inodes : disk'.inodes ≡ disk.inodes) (left : disk'.data_files ≡ erase name disk.data_files)
    (alone : (other : Name) (j : ℕ)
      → file_found other all ≡ some (j, name)
      → same_name name other ≡ true) where
  -- The entries of other names keep their inodes and data files.
  pub kept_beside :
      (ds : List Dentry)
      → EveryEntry (IsKept env disk) ds
      → EveryEntry (IsFound all) ds
      → Absent name ds
      → EveryEntry (IsKept env disk') ds
  kept_beside [] every found absent = tt
  kept_beside (d ∷ ds) (inl unused, every) (found, later) (other, absent) =
      (inl unused, kept_beside ds every later absent)
  kept_beside (d ∷ ds) (inr (below, fits, plain, (held, stored), named), every) (found, later)
        (other, absent) =
      let apart : same_name name d.storage ≡ false = elim (Bool-cases (same_name name d.storage)) [
        | inl shared ↦
            ground (
              arith,
              shared,
              found,
              named,
              other,
              same_name_iff name d.storage,
              alone d.name d.inum,
            )
        | inr apart ↦ apart
      ] in
      (
        inr (
          ground (arith, below, inodes),
          fits,
          plain,
          (held, ground (arith, stored, apart, left, lookup-erase name d.storage disk.data_files)),
          named,
        ),
        kept_beside ds every later absent,
      )
