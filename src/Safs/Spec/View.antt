-- ===== src/Safs/Spec/View.antt =====
-- The disks on which every entry in use has its inode and its data file, and what the writes of an
-- inode and of a data file mean for the state that a disk stands for.
use mathlib.Core.Path.{fun_ext, subst}
use safs.Base.{
  ℕ, zero, suc, ◌+◌, ◌*◌, ◌^◌, ◌<◌, ◌≡◌, ◌⊎◌, inl, inr, refl, ap, arith, false, Option, none, some,
  List, [], ◌∷◌, ◌==◌, Name, rest, same_name, length, lookup, insert, lookup-insert, get_elem?,
  get_or, put_at, if◌then◌else◌, Bool-cases, Option-cases,
}
use safs.Disk.{Disk, Dentry, Stat, blank_stat}
use safs.Posix.{Env, list_of}
use safs.Posix.Data.{is_table}
use safs.Safs.Find.{find_entry, matches}
use safs.Safs.Find.Laws.{find_entry-matches}
use safs.Safs.Named.{IsNamed}
use safs.Safs.Names.Renamed.{matches_used}
use safs.Safs.Rules.{EveryEntry}
use safs.Safs.Spec.Unique.{IsUnique}
use safs.Safs.Spec.{view, set_stat, set_bytes, Names}

pub get_or-put_at :
    (i j : ℕ) (st : Stat) (is : List Stat)
    → get_or (put_at blank_stat i st is) j blank_stat
      ≡ (if i == j then st else get_or is j blank_stat)
unfolding put_at
get_or-put_at zero zero st [] = refl
get_or-put_at zero (suc j) st [] = ground arith
get_or-put_at (suc i) zero st [] = ground arith
get_or-put_at (suc i) (suc j) st [] = ground (arith, get_or-put_at i j st [])
get_or-put_at zero zero st (x ∷ is) = ground arith
get_or-put_at zero (suc j) st (x ∷ is) = ground arith
get_or-put_at (suc i) zero st (x ∷ is) = ground arith
get_or-put_at (suc i) (suc j) st (x ∷ is) = ground (arith, get_or-put_at i j st is)

pub get_or-get_elem? :
    (is : List Stat) (i : ℕ) (st : Stat) → get_elem? is i ≡ some st → get_or is i blank_stat ≡ st
get_or-get_elem? [] i st h = cc
get_or-get_elem? (x ∷ is) zero st h = ground arith
get_or-get_elem? (x ∷ is) (suc i) st h = get_or-get_elem? is i st h

-- An inode is written, also one that was not there.
pub view-put_at :
    (disk : Disk) (is : List Stat) (i : ℕ) (st : Stat)
    → disk.inodes ≡ some is
    → view (record disk { inodes = some (put_at blank_stat i st is) }) ≡ set_stat i st (view disk)
view-put_at disk is i st table =
    let each : (j : ℕ)
        → get_or (put_at blank_stat i st is) j blank_stat
          ≡ (if i == j then st else get_or (list_of disk.inodes) j blank_stat) =
      λ j. ground (arith, table, get_or-put_at i j st is) in
    ap (λ (stats : ℕ → Stat). record (view disk) { stats = stats }) (fun_ext each)

-- A data file is overwritten.
pub view-insert :
    (disk : Disk) (s : Name) (held : List ℕ)
    → view (record disk { data_files = insert s held disk.data_files })
      ≡ set_bytes s held (view disk)
view-insert disk s held =
    ap (λ (bytes : Name → Option (List ℕ)). record (view disk) { bytes = bytes })
      (fun_ext (λ t. lookup-insert s t held disk.data_files))

-- An entry that is unused and has no name, or has its inode, at an offset that fits, its data file,
-- and a name.
abbrev pub IsKept : Env → Disk → Dentry → Type 0
IsKept env disk d =
    ((d.inum ≡ 0) × (d.name ≡ []))
    ⊎ ((d.inum < length (list_of disk.inodes))
        × (d.inum * env.sizeof_stat < 2 ^ 31)
        × (is_table d.storage ≡ false)
        × ((held : List ℕ) × (lookup d.storage disk.data_files ≡ some held))
        × ((0 < d.inum) × (same_name d.name [] ≡ false)))

-- A disk with both tables, whose entries are all of that kind, and no two in use have one name.
pub record IsSound (env : Env) (disk : Disk) : Type 0 where
  pub dirs : List Dentry
  pub inodes : List Stat
  pub has_directory : disk.directory ≡ some dirs
  pub has_inodes : disk.inodes ≡ some inodes
  pub every : EveryEntry (IsKept env disk) dirs
  pub unique : IsUnique dirs

find-every :
    (E : Dentry → Type 0) (name : Name) (dirs : List Dentry) (i k : ℕ) (d : Dentry)
    → EveryEntry E dirs
    → find_entry name dirs i ≡ some (k, d)
    → E d
unfolding find_entry
find-every E name [] i k d all found = cc
find-every E name (x ∷ xs) i k d (here, all) found = elim (Bool-cases (matches name x)) [
  | inl hit ↦ let same : x ≡ d = ground (arith, rw hit at found) in subst E same here
  | inr miss ↦ find-every E name xs (i + 1) k d all (rw miss at found)
]

pub get_elem?_inside :
    (is : List Stat) (i : ℕ) → i < length is → (st : Stat) × (get_elem? is i ≡ some st)
get_elem?_inside [] i inside = ground arith
get_elem?_inside (st ∷ is) zero inside = (st, refl)
get_elem?_inside (st ∷ is) (suc i) inside = get_elem?_inside is i (omega arith)

-- A path that names a file, with all that belongs to the file.
pub record Known (env : Env) (disk : Disk) (path : Name) : Type 0 where
  pub dir : Dentry
  pub st : Stat
  pub held : List ℕ
  pub named : IsNamed env disk path dir st
  pub plain : is_table dir.storage ≡ false
  pub stored : lookup dir.storage disk.data_files ≡ some held
  pub inside : dir.inum < length named.inodes
  pub names : Names (view disk) path dir.inum dir.storage st held

module _ (env : Env) (disk : Disk) (path : Name) (sound : IsSound env disk) where
  known :
      (k : ℕ) (d : Dentry) → find_entry (rest path) sound.dirs 0 ≡ some (k, d) → Known env disk path
  known k d found =
      let used =
        matches_used (rest path) d (find_entry-matches (rest path) sound.dirs 0 k d found) in
      elim (find-every (IsKept env disk) (rest path) sound.dirs 0 k d sound.every found) [
        | inl (unused, nameless) ↦ absurd (used unused)
        | inr (below, fits, plain, (held, stored), named) ↦
            let inside : d.inum < length sound.inodes = ground (arith, below, sound.has_inodes) in
            let (st, inode) = get_elem?_inside sound.inodes d.inum inside in
            record {
              dir = d;
              st = st;
              held = held;
              named = record {
                dirs = sound.dirs;
                index = k;
                inodes = sound.inodes;
                has_directory = sound.has_directory;
                has_inodes = sound.has_inodes;
                found = found;
                inode = inode;
                fits = fits;
              };
              plain = plain;
              stored = stored;
              inside = inside;
              names = (
                ground (arith, sound.has_directory, found),
                ground (arith, sound.has_inodes, get_or-get_elem? sound.inodes d.inum st inode),
                stored,
              );
            }
      ]

  -- A path names no file, or one with all that belongs to it.
  pub Known-cases : (find_entry (rest path) (list_of disk.directory) 0 ≡ none) ⊎ Known env disk path
  Known-cases = elim (Option-cases (find_entry (rest path) sound.dirs 0)) [
    | inl free ↦ inl (ground (arith, sound.has_directory, free))
    | inr ((k, d), found) ↦ inr (known k d found)
  ]
