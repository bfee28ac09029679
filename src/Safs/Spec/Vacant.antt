-- ===== src/Safs/Spec/Vacant.antt =====
-- A new entry in a slot of Directory~ that is not in use.
use safs.Base.{
  ℕ, zero, suc, ◌+◌, ◌≡◌, ◌≢◌, inl, inr, refl, ap, arith, none, some, Option, List, [], ◌∷◌, ◌==◌,
  Name, same_name, same_name_iff, codes, put_at, if◌then◌else◌, Bool-cases, ◌||◌,
}
use mathlib.Core.Path.{fun_ext}
use safs.Disk.{Disk, Dentry, blank_dentry}
use safs.Posix.{Env}
use safs.Safs.Find.{find_entry, matches}
use safs.Safs.Names.Move.{free_entry}
use safs.Safs.Rules.{EveryEntry-put_at}
use safs.Safs.Spec.{Abstract, File, file_of, view, add_name}
use safs.Safs.Spec.Unique.{file_found, file_of-find_entry, IsUnique}
use safs.Safs.Spec.View.{IsKept, IsSound}

-- The slot holds an unused entry, or lies beyond the end.
abbrev pub IsVacant : ℕ → List Dentry → Type 0
IsVacant k [] = Unit
IsVacant zero (e ∷ ds) = e.inum ≡ 0
IsVacant (suc k) (e ∷ ds) = IsVacant k ds

-- The slot that link's second search ends at is not in use.
pub free_entry-IsVacant :
    (ds : List Dentry) (d : Dentry) (i : ℕ)
    → (k : ℕ) × ((free_entry ds d i).0 ≡ i + k) × IsVacant k ds
unfolding free_entry
free_entry-IsVacant [] d i = (0, ground arith, tt)
free_entry-IsVacant (e ∷ ds) d i =
    let (k, at', vacant) = free_entry-IsVacant ds e (i + 1) in
    elim (Bool-cases (same_name e.name (codes ".") || same_name e.name (codes ".."))) [
      | inl dots ↦ (suc k, ground (arith, dots, at'), vacant)
      | inr other ↦ elim (Bool-cases (e.inum == 0)) [
        | inl free ↦ (0, ground (arith, other, free), ground (arith, free))
        | inr used ↦ (suc k, ground (arith, other, used, at'), vacant)
      ]
    ]

module _ (d : Dentry) (used : d.inum ≢ 0) where
  pub file_found-put_at :
      (name : Name) (k : ℕ) (ds : List Dentry)
      → IsVacant k ds
      → file_found d.name ds ≡ none
      → file_found name (put_at blank_dentry k d ds)
        ≡ (if same_name d.name name then some (d.inum, d.storage) else file_found name ds)
  unfolding file_found matches put_at
  file_found-put_at name zero [] vacant free =
      ground (arith, same_name_iff d.name name, same_name_iff name d.name)
  file_found-put_at name (suc k) [] vacant free =
      ground (arith, file_found-put_at name k [] tt free)
  file_found-put_at name zero (e ∷ ds) vacant free =
      ground (arith, same_name_iff d.name name, same_name_iff name d.name)
  file_found-put_at name (suc k) (e ∷ ds) vacant free = ground (
    arith,
    free,
    file_found-put_at name k ds vacant,
    same_name_iff d.name name,
    same_name_iff name e.name,
    same_name_iff d.name e.name,
  )

  pub IsUnique-put_at :
      (k : ℕ) (ds : List Dentry)
      → IsVacant k ds
      → file_found d.name ds ≡ none
      → IsUnique ds
      → IsUnique (put_at blank_dentry k d ds)
  unfolding file_found matches put_at
  IsUnique-put_at zero [] vacant free unique = (inr refl, tt)
  IsUnique-put_at (suc k) [] vacant free unique = (inl refl, IsUnique-put_at k [] tt free tt)
  IsUnique-put_at zero (e ∷ ds) vacant free (alone, unique) = (ground (arith, free), unique)
  IsUnique-put_at (suc k) (e ∷ ds) vacant free (alone, unique) = (
    ground (arith, alone, free, file_found-put_at e.name k ds vacant, same_name_iff d.name e.name),
    ground (arith, free, IsUnique-put_at k ds vacant),
  )

module _ (env : Env) (disk : Disk) (k : ℕ) (d : Dentry) (used : d.inum ≢ 0)
    (sound : IsSound env disk) (vacant : IsVacant k sound.dirs)
    (free : file_found d.name sound.dirs ≡ none) where
  pub IsSound-add :
      IsKept env disk d
      → IsSound env (record disk { directory = some (put_at blank_dentry k d sound.dirs) })
  IsSound-add kept = record {
    dirs = put_at blank_dentry k d sound.dirs;
    inodes = sound.inodes;
    has_directory = refl;
    has_inodes = sound.has_inodes;
    every = EveryEntry-put_at (IsKept env disk) k d sound.dirs (inl (refl, refl)) kept sound.every;
    unique = IsUnique-put_at d used k sound.dirs vacant free sound.unique;
  }

  -- What the disk stands for then.
  pub view-add :
      view (record disk { directory = some (put_at blank_dentry k d sound.dirs) })
      ≡ add_name d.name (d.inum, d.storage) (view disk)
  view-add =
      let before : Abstract = view disk in
      let each : (name : Name)
          → file_of (find_entry name (put_at blank_dentry k d sound.dirs) 0)
            ≡ (if same_name d.name name then some (d.inum, d.storage) else before.names name) =
        λ name. ground (
          arith,
          sound.has_directory,
          file_of-find_entry name (put_at blank_dentry k d sound.dirs) 0,
          file_of-find_entry name sound.dirs 0,
          file_found-put_at d used name k sound.dirs vacant free,
        ) in
      ap (λ (names : Name → Option File). record before { names = names }) (fun_ext each)
