-- ===== src/Safs/Spec/Unique.antt =====
-- Directories in which no two entries in use have one name, and a rename in them.
use safs.Base.{
  ℕ, zero, suc, ◌+◌, ◌≡◌, ◌⊎◌, refl, arith, Option, none, some, List, [], ◌∷◌, Name, same_name,
  same_name_iff, put_at, if◌then◌else◌,
}
use safs.Disk.{Dentry, blank_dentry}
use safs.Safs.Find.{find_entry, matches}
use safs.Safs.Find.Laws.{IsFirst}
use safs.Safs.Spec.{File, file_of}

-- The inode and the data file of a name.
unfoldable pub file_found : Name → List Dentry → Option File
file_found name [] = none
file_found name (d ∷ ds) = if matches name d then some (d.inum, d.storage) else file_found name ds

pub file_of-find_entry :
    (name : Name) (ds : List Dentry) (i : ℕ) → file_of (find_entry name ds i) ≡ file_found name ds
unfolding find_entry file_found
file_of-find_entry name [] i = refl
file_of-find_entry name (d ∷ ds) i = ground (arith, file_of-find_entry name ds (i + 1))

abbrev pub IsUnique : List Dentry → Type 0
IsUnique [] = Unit
IsUnique (d ∷ ds) = ((d.inum ≡ 0) ⊎ (file_found d.name ds ≡ none)) × IsUnique ds

module _ (old new : Name) (d : Dentry) where
  abbrev moved : Dentry
  moved = record d { name = new }

  pub file_found-rename :
      (name : Name) (ds : List Dentry) (k : ℕ)
      → IsUnique ds
      → IsFirst old ds k d
      → file_found new ds ≡ none
      → file_found name (put_at blank_dentry k moved ds) ≡ (
          if same_name new name
          then some (d.inum, d.storage)
          else if same_name old name
          then none
          else file_found name ds)
  unfolding file_found matches put_at
  file_found-rename name [] k unique first free = elim first [ ]
  file_found-rename name (e ∷ ds) zero (alone, unique) (same, hit) free = ground (
    arith,
    alone,
    same,
    hit,
    same_name_iff new name,
    same_name_iff old name,
    same_name_iff name new,
    same_name_iff name old,
    same_name_iff old e.name,
    same_name_iff name e.name,
  )
  file_found-rename name (e ∷ ds) (suc k) (alone, unique) (miss, first) free = ground (
    arith,
    miss,
    free,
    file_found-rename name ds k unique first,
    same_name_iff new name,
    same_name_iff old name,
    same_name_iff name e.name,
    same_name_iff new e.name,
    same_name_iff old e.name,
  )

  pub IsUnique-rename :
      (ds : List Dentry) (k : ℕ)
      → IsUnique ds
      → IsFirst old ds k d
      → file_found new ds ≡ none
      → IsUnique (put_at blank_dentry k moved ds)
  unfolding file_found matches put_at
  IsUnique-rename [] k unique first free = elim first [ ]
  IsUnique-rename (e ∷ ds) zero (alone, unique) (same, hit) free = (ground (arith, free), unique)
  IsUnique-rename (e ∷ ds) (suc k) (alone, unique) (miss, first) free = (
    ground (
      arith,
      alone,
      miss,
      free,
      file_found-rename e.name ds k unique first,
      same_name_iff new e.name,
      same_name_iff old e.name,
      same_name_iff e.name e.name,
    ),
    ground (arith, free, IsUnique-rename ds k unique first),
  )
