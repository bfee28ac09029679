-- ===== src/Safs/Spec/Sound.antt =====
-- Writes of an inode that is there, and of a data file, on a sound disk.
use mathlib.Core.Path.{fun_ext, subst}
use safs.Base.{
  none, ap, Option, if◌then◌else◌, ℕ, ◌≡◌, ◌≢◌, refl, inl, inr, arith, Bool-cases, some, List, [],
  ◌∷◌, Name, rest, false, same_name, insert, lookup-insert, put_at,
}
use safs.Disk.{Disk, Dentry, Stat, blank_stat, blank_dentry}
use safs.Posix.{Env, list_of}
use safs.Safs.Rules.{EveryEntry, EveryEntry-put_at}
use safs.Safs.Find.{find_entry}
use safs.Safs.Find.Laws.{IsFirst, IsFirst-find_entry, find_entry-matches}
use safs.Safs.Names.Renamed.{matches_used}
use safs.Safs.Spec.{Abstract, File, file_of, view, set_name}
use safs.Safs.Spec.Unique.{
  file_found, file_of-find_entry, file_found-rename, IsUnique-rename, IsUnique,
}
use safs.Safs.Spec.View.{IsKept, IsSound, Known}
use safs.Safs.Stored.{length-put_at_le}

pub EveryEntry-map :
    (E F : Dentry → Type 0) (ds : List Dentry)
    → ((d : Dentry) → E d → F d)
    → EveryEntry E ds
    → EveryEntry F ds
EveryEntry-map E F [] weaken every = tt
EveryEntry-map E F (d ∷ ds) weaken (here, every) =
    (weaken d here, EveryEntry-map E F ds weaken every)

pub IsKept-put_at :
    (env : Env) (disk : Disk) (is : List Stat) (i : ℕ) (st : Stat) (d : Dentry)
    → disk.inodes ≡ some is
    → IsKept env disk d
    → IsKept env (record disk { inodes = some (put_at blank_stat i st is) }) d
IsKept-put_at env disk is i st d table (inl unused) = inl unused
IsKept-put_at env disk is i st d table (inr (below, fits, plain, stored, named)) =
    inr (ground (arith, table, below, length-put_at_le i st is), fits, plain, stored, named)

abbrev pub IsSound-put_at :
    (env : Env) (disk : Disk) (is : List Stat) (i : ℕ) (st : Stat)
    → IsSound env disk
    → disk.inodes ≡ some is
    → IsSound env (record disk { inodes = some (put_at blank_stat i st is) })
IsSound-put_at env disk is i st sound table =
    let disk' : Disk = record disk { inodes = some (put_at blank_stat i st is) } in
    record {
      dirs = sound.dirs;
      inodes = put_at blank_stat i st is;
      has_directory = sound.has_directory;
      has_inodes = refl;
      every =
          EveryEntry-map (IsKept env disk) (IsKept env disk') sound.dirs
            (λ d kept. IsKept-put_at env disk is i st d table kept) sound.every;
      unique = sound.unique;
    }

pub IsKept-insert :
    (env : Env) (disk : Disk) (s : Name) (held : List ℕ) (d : Dentry)
    → IsKept env disk d
    → IsKept env (record disk { data_files = insert s held disk.data_files }) d
IsKept-insert env disk s held d (inl unused) = inl unused
IsKept-insert env disk s held d (inr (below, fits, plain, (old, e), named)) =
    elim (Bool-cases (same_name s d.storage)) [
      | inl same ↦ inr (
        below,
        fits,
        plain,
        (held, ground (arith, same, lookup-insert s d.storage held disk.data_files)),
        named,
      )
      | inr other ↦ inr (
        below,
        fits,
        plain,
        (old, ground (arith, other, e, lookup-insert s d.storage held disk.data_files)),
        named,
      )
    ]

abbrev pub IsSound-insert :
    (env : Env) (disk : Disk) (s : Name) (held : List ℕ)
    → IsSound env disk
    → IsSound env (record disk { data_files = insert s held disk.data_files })
IsSound-insert env disk s held sound =
    let disk' : Disk = record disk { data_files = insert s held disk.data_files } in
    record {
      dirs = sound.dirs;
      inodes = sound.inodes;
      has_directory = sound.has_directory;
      has_inodes = sound.has_inodes;
      every =
          EveryEntry-map (IsKept env disk) (IsKept env disk') sound.dirs
            (IsKept-insert env disk s held) sound.every;
      unique = sound.unique;
    }

-- A name that is not in use takes the place of one that is.
pub IsSound-rename :
    (env : Env) (disk : Disk) (old new : Name) (k : ℕ) (d : Dentry) (sound : IsSound env disk)
    → IsFirst old sound.dirs k d
    → file_found new sound.dirs ≡ none
    → IsKept env disk (record d { name = new })
    → IsSound env (record disk {
      directory = some (put_at blank_dentry k (record d { name = new }) sound.dirs);
    })
IsSound-rename env disk old new k d sound first free kept =
    let moved : Dentry = record d { name = new } in
    record {
      dirs = put_at blank_dentry k moved sound.dirs;
      inodes = sound.inodes;
      has_directory = refl;
      has_inodes = sound.has_inodes;
      every =
          EveryEntry-put_at (IsKept env disk) k moved sound.dirs (inl (refl, refl)) kept
            sound.every;
      unique = IsUnique-rename old new d sound.dirs k sound.unique first free;
    }

-- What the disk stands for then.
pub view-rename :
    (env : Env) (disk : Disk) (old new : Name) (k : ℕ) (d : Dentry) (sound : IsSound env disk)
    → IsFirst old sound.dirs k d
    → file_found new sound.dirs ≡ none
    → view (record disk {
      directory = some (put_at blank_dentry k (record d { name = new }) sound.dirs);
    })
      ≡ set_name old new (d.inum, d.storage) (view disk)
view-rename env disk old new k d sound first free =
    let moved : Dentry = record d { name = new } in
    let before : Abstract = view disk in
    let each : (name : Name)
        → file_of (find_entry name (put_at blank_dentry k moved sound.dirs) 0) ≡ (
            if same_name new name
            then some (d.inum, d.storage)
            else if same_name old name
            then none
            else before.names name) =
      λ name. ground (
        arith,
        sound.has_directory,
        file_of-find_entry name (put_at blank_dentry k moved sound.dirs) 0,
        file_of-find_entry name sound.dirs 0,
        file_found-rename old new d name sound.dirs k sound.unique first free,
      ) in
    ap (λ (names : Name → Option File). record before { names = names }) (fun_ext each)

module _ (env : Env) (disk : Disk) (path : Name) where
  pub same_dirs : (sound : IsSound env disk) (k : Known env disk path) → sound.dirs ≡ k.named.dirs
  same_dirs sound k = ground (arith, sound.has_directory, k.named.has_directory)

  -- The disk is sound, with the entries that the search went through.
  abbrev pub searched : IsSound env disk → (k : Known env disk path) → IsSound env disk
  searched sound k = record {
    dirs = k.named.dirs;
    inodes = sound.inodes;
    has_directory = k.named.has_directory;
    has_inodes = sound.has_inodes;
    every = subst (EveryEntry (IsKept env disk)) (same_dirs sound k) sound.every;
    unique = subst IsUnique (same_dirs sound k) sound.unique;
  }

  pub not_found :
      (k : Known env disk path) (target : Name)
      → file_of (find_entry (rest target) (list_of disk.directory) 0) ≡ none
      → file_found (rest target) k.named.dirs ≡ none
  not_found k target free =
      ground (arith, free, k.named.has_directory, file_of-find_entry (rest target) k.named.dirs 0)

  pub IsUsed : (k : Known env disk path) → k.dir.inum ≢ 0
  IsUsed k =
      matches_used (rest path) k.dir
        (find_entry-matches (rest path) k.named.dirs 0 k.named.index k.dir k.named.found)

  pub Known-IsFirst :
      (k : Known env disk path) → IsFirst (rest path) k.named.dirs k.named.index k.dir
  Known-IsFirst k =
      let (j, at', found) =
        IsFirst-find_entry (rest path) k.named.dirs 0 k.named.index k.dir k.named.found in
      let same : j ≡ k.named.index = omega arith in
      subst (λ i. IsFirst (rest path) k.named.dirs i k.dir) same found

  -- The file under another name.
  pub kept_as :
      (k : Known env disk path) (name : Name)
      → same_name name [] ≡ false
      → IsKept env disk (record k.dir { name = name })
  kept_as k name named = inr (
    ground (arith, k.inside, k.named.has_inodes),
    k.named.fits,
    k.plain,
    (k.held, k.stored),
    (ground (arith, IsUsed k), named),
  )
