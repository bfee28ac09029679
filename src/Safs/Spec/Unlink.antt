-- ===== src/Safs/Spec/Unlink.antt =====
-- safs_unlink as a step of the specification, for a file whose data file has its name and belongs
-- to no other name.
use mathlib.Core.Path.{fun_ext, subst}
use safs.Base.{
  ℕ, ◌+◌, ◌-◌, ◌%◌, ◌^◌, ◌≡◌, ◌∙◌, inl, inr, refl, sym, ap, arith, true, false, none, some, pos,
  List, [], ◌∷◌, ◌++◌, Name, rest, same_name, same_name_refl, erase, lookup-erase, put_at,
  if◌then◌else◌,
}
use safs.Disk.{Disk, Dentry, Stat, blank_stat}
use safs.Posix.{Env, World, calm, list_of}
use safs.Safs.Find.{find_entry}
use safs.Safs.Find.Laws.{find_entry-matches, matches_name}
use safs.Safs.Names.{safs_unlink}
use safs.Safs.Names.Unlink.After.{Absent-append}
use safs.Safs.Names.Unlink.{Absent, survivors, packed}
use safs.Safs.Names.Unlink.Calm.{safs_unlink-calm}
use safs.Safs.Rules.{EveryEntry}
use safs.Safs.Server.{unlink, safs_oper}
use safs.Safs.Spec.{Abstract, Names, view, file_of, set_stat, drop_name}
use safs.Safs.Spec.Step.{Step, unlinked}
use safs.Safs.Spec.LeftOut.{
  IsTidy, Split-IsFirst, Absent-file_found, file_found-survivors, file_found-packed,
  file_found-left_out, IsUnique-left_out, IsUnique-behind, EveryEntry-left_out, EveryEntry-behind,
  IsUnique-survivors, IsUnique-packed, EveryEntry-survivors, EveryEntry-packed,
}
use safs.Safs.Spec.Outcome.{IsStep, step_to}
use safs.Safs.Spec.Sound.{EveryEntry-map, IsSound-put_at, searched, IsUsed, Known-IsFirst}
use safs.Safs.Spec.Unique.{file_found, file_of-find_entry, IsUnique}
use safs.Safs.Spec.View.{IsKept, IsSound, Known, Known-cases, view-put_at}
use safs.Safs.Spec.Beside.{IsKept-IsTidy, IsFound, IsUnique-IsFound, kept_beside}

-- The name has a data file of the same name, and it is no other name's.
abbrev pub IsAlone : Abstract → Name → Type 0
IsAlone a name =
    ((i : ℕ) × (a.names name ≡ some (i, name)))
    × ((other : Name) (j : ℕ) → a.names other ≡ some (j, name) → same_name name other ≡ true)

module _ (env : Env) (w : World) (sound : IsSound env w.disk) (path : Name)
    (named : same_name (rest path) [] ≡ false) (alone : IsAlone (view w.disk) (rest path))
    (k : Known env w.disk path) where
  abbrev all : List Dentry
  all = k.named.dirs

  abbrev lower : Stat
  lower = record k.st { st_nlink = (k.st.st_nlink + 2 ^ 64 - 1) % 2 ^ 64 }

  abbrev between : Disk
  between = record w.disk { inodes = some (put_at blank_stat k.dir.inum lower k.named.inodes) }

  -- What unlink leaves of the disk.
  abbrev left : List Dentry → List Dentry → Disk
  left before others = record between {
    directory = some (packed (survivors (before ++ others)));
    tmp_directory = none;
    data_files = erase (rest path) w.disk.data_files;
  }

  every : EveryEntry (IsKept env between) all
  every =
      (IsSound-put_at env w.disk k.named.inodes k.dir.inum lower (searched env w.disk path sound k)
        k.named.has_inodes).every

  tidy : EveryEntry IsTidy all
  tidy = EveryEntry-map (IsKept env between) IsTidy all (IsKept-IsTidy env between) every

  unique : IsUnique all
  unique = (searched env w.disk path sound k).unique

  same : k.dir.name ≡ rest path
  same = sym (
      matches_name (rest path) k.dir
        (find_entry-matches (rest path) all 0 k.named.index k.dir k.named.found))

  own : k.dir.storage ≡ rest path
  own = ground (arith, k.names.0, alone.0.1)

  module _ (before others : List Dentry) (split : all ≡ before ++ k.dir ∷ others)
      (first : Absent (rest path) before) where
    later : Absent (rest path) others
    later =
        Absent-file_found (rest path) named others
          (EveryEntry-behind k.dir IsTidy before others (subst (EveryEntry IsTidy) split tidy))
          (subst (λ name. file_found name others ≡ none) same
            (IsUnique-behind k.dir before others (IsUsed env w.disk path k)
              (subst IsUnique split unique)))

    left-IsTidy : EveryEntry IsTidy (before ++ others)
    left-IsTidy =
        EveryEntry-left_out k.dir IsTidy before others (subst (EveryEntry IsTidy) split tidy)

    names_left :
        (name : Name)
        → file_of (find_entry name (packed (survivors (before ++ others))) 0) ≡ (
            if same_name (rest path) name
            then none
            else file_of (find_entry name (list_of w.disk.directory) 0))
    names_left name = ground (
      arith,
      same,
      split,
      k.named.has_directory,
      file_of-find_entry name (packed (survivors (before ++ others))) 0,
      file_of-find_entry name all 0,
      file_found-packed name (survivors (before ++ others)),
      file_found-survivors name (before ++ others) left-IsTidy,
      file_found-left_out k.dir name before others (IsUsed env w.disk path k)
          (subst (λ n. Absent n before) (sym same) first)
          (subst (λ n. Absent n others) (sym same) later),
    )

    view-left :
        view (left before others) ≡ drop_name (rest path) (set_stat k.dir.inum lower (view w.disk))
    view-left =
        let stats =
          ap (λ (a : Abstract). a.stats)
            (view-put_at w.disk k.named.inodes k.dir.inum lower k.named.has_inodes) in
        λ i. record {
          names = fun_ext names_left i;
          stats = stats i;
          bytes = fun_ext (λ t. lookup-erase (rest path) t w.disk.data_files) i;
        }

    only :
        (other : Name) (j : ℕ)
        → file_found other all ≡ some (j, rest path)
        → same_name (rest path) other ≡ true
    only other j found =
        alone.1 other j
          (ground (arith, found, k.named.has_directory, file_of-find_entry other all 0))

    left_sound : IsSound env (left before others)
    left_sound =
        let found =
          EveryEntry-left_out k.dir (IsFound all) before others
            (subst (EveryEntry (IsFound all)) split (IsUnique-IsFound all unique)) in
        let kept =
          EveryEntry-left_out k.dir (IsKept env between) before others
            (subst (EveryEntry (IsKept env between)) split every) in
        let beside =
          kept_beside env between (left before others) (rest path) all refl refl only
            (before ++ others) kept found (Absent-append (rest path) before others first later) in
        record {
          dirs = packed (survivors (before ++ others));
          inodes = put_at blank_stat k.dir.inum lower k.named.inodes;
          has_directory = refl;
          has_inodes = refl;
          every =
              EveryEntry-packed (IsKept env (left before others)) (survivors (before ++ others))
                (inl (refl, refl))
                (EveryEntry-survivors (IsKept env (left before others)) (before ++ others) beside);
          unique = IsUnique-packed (survivors (before ++ others)) (
              IsUnique-survivors (before ++ others) left-IsTidy
                (IsUnique-left_out k.dir before others (subst IsUnique split unique)));
        }

    unlink_split : IsStep env (unlink path) w.disk (safs_oper (calm env) (unlink path) w)
    unfolding safs_oper
    unlink_split =
        let (e, d) =
          safs_unlink-calm env path w before others k.dir (k.named.has_directory ∙ ap some split)
            first (ground (arith, same, same_name_refl (rest path))) (ground (arith, same, named))
            k.named.inodes k.st k.named.has_inodes k.named.inode k.named.fits
            (ground (arith, same, own, k.plain)) later k.held
            (ground (arith, same, own, k.stored)) in
        let d' : (safs_unlink (calm env) path w).1.disk ≡ left before others =
          subst
            (λ name.
              (safs_unlink (calm env) path w).1.disk
              ≡ record (left before others) { data_files = erase name w.disk.data_files })
            same d in
        let names' : Names (view w.disk) path k.dir.inum (rest path) k.st k.held =
          subst (λ s. Names (view w.disk) path k.dir.inum s k.st k.held) own k.names in
        step_to env (unlink path) w.disk (safs_oper (calm env) (unlink path) w) _ _ e d'
          (subst (Step (unlink path) (pos 0) (view w.disk)) (sym view-left) (unlinked names'))
          left_sound

  unlink_known : IsStep env (unlink path) w.disk (safs_oper (calm env) (unlink path) w)
  unlink_known =
      let (before, others, split, first) =
        Split-IsFirst (rest path) named all k.named.index k.dir tidy
          (Known-IsFirst env w.disk path k) in
      unlink_split before others split first

pub unlink-IsStep :
    (env : Env) (w : World) (sound : IsSound env w.disk) (path : Name)
    → same_name (rest path) [] ≡ false
    → IsAlone (view w.disk) (rest path)
    → IsStep env (unlink path) w.disk (safs_oper (calm env) (unlink path) w)
unlink-IsStep env w sound path named alone = elim (Known-cases env w.disk path sound) [
  | inl unknown ↦ absurd (let found = alone.0.1 in ground (arith, unknown, found))
  | inr k ↦ unlink_known env w sound path named alone k
]
