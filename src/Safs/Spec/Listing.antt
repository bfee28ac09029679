-- ===== src/Safs/Spec/Listing.antt =====
-- safs_readdir as a step of the specification.
use mathlib.Core.Path.{subst}
use safs.Base.{
  ◌<◌, ◌≡◌, inl, inr, sym, ap, arith, false, Bool-cases, some, List, [], ◌∷◌, pos, neg, ℤ, Name,
  codes, same_name, same_name_iff, length,
}
use safs.Disk.{Disk, Dentry, Stat}
use safs.Posix.{Env, World, calm, ◌>>=◌}
use safs.Posix.Errno.{enoent}
use safs.Safs.Listing.{Filled, safs_readdir}
use safs.Safs.Listing.Calm.{HasInodes, safs_readdir_lem}
use safs.Safs.Rules.{EveryEntry}
use safs.Safs.Server.{readdir, safs_oper}
use safs.Safs.Spec.Step.{listed, not_listed}
use safs.Safs.Spec.View.{IsKept, get_elem?_inside, IsSound}
use safs.Safs.Spec.Outcome.{IsStep, stayed}

readdir_below :
    (env : Env) (path : Name) (w : World)
    → same_name path (codes "/") ≡ false
    → ((safs_readdir (calm env) path w).0.0 ≡ neg enoent)
      × ((safs_readdir (calm env) path w).1.disk ≡ w.disk)
unfolding safs_readdir
readdir_below env path w below = ground (arith, below)

HasInodes-kept :
    (env : Env) (disk : Disk) (is : List Stat) (ds : List Dentry)
    → disk.inodes ≡ some is
    → EveryEntry (IsKept env disk) ds
    → HasInodes is ds
HasInodes-kept env disk is [] table every = tt
HasInodes-kept env disk is (d ∷ ds) table (inl unused, every) =
    (inl (ground (arith, unused)), HasInodes-kept env disk is ds table every)
HasInodes-kept env disk is (d ∷ ds) table (inr (below, fits, plain, stored, named), every) =
    let inside : d.inum < length is = ground (arith, below, table) in
    (inr (get_elem?_inside is d.inum inside), HasInodes-kept env disk is ds table every)

has_inodes :
    (env : Env) (w : World) (sound : IsSound env w.disk) → HasInodes sound.inodes sound.dirs
has_inodes env w sound =
    HasInodes-kept env w.disk sound.inodes sound.dirs sound.has_inodes sound.every

module _ (env : Env) (w : World) (sound : IsSound env w.disk) (path : Name) where
  pub readdir-IsStep : IsStep env (readdir path) w.disk (safs_oper (calm env) (readdir path) w)
  unfolding safs_oper ◌>>=◌
  readdir-IsStep = elim (Bool-cases (same_name path (codes "/"))) [
    | inl root ↦
        let same : path ≡ codes "/" = ground (arith, root, same_name_iff path (codes "/")) in
        let (e, d) =
          safs_readdir_lem env sound.inodes w sound.dirs sound.has_directory sound.has_inodes
            (has_inodes env w sound) in
        subst (λ p. IsStep env (readdir p) w.disk (safs_oper (calm env) (readdir p) w)) (sym same)
          (stayed env w sound (readdir (codes "/")) (pos 0) (ap (λ (x : ℤ × List Filled). x.0) e) d
            listed)
    | inr below ↦
        stayed env w sound (readdir path) _ (readdir_below env path w below).0
          (readdir_below env path w below).1 (not_listed below)
  ]
