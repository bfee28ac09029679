-- ===== src/Safs/Apart/Requests.antt =====
-- Other files through a sequence of requests whose system calls may fail.
use mathlib.Core.Path.{subst}
use safs.Base.{
  ℕ, ◌≡◌, ◌≢◌, ◌∙◌, refl, sym, arith, some, none, false, inl, inr, Option, Option-cases, List, [],
  ◌∷◌, Name, rest, same_name,
}
use safs.Disk.{Disk, Dentry}
use safs.Posix.{Env, World, ◌>>=◌}
use safs.Safs.Apart.{others}
use safs.Safs.Apart.Spared.{
  IsSpared, others-IsSpared, same-IsSpared, present-IsSpared, safs_readdir-present,
  safs_getattr-present,
}
use safs.Safs.Apart.Handlers.{
  safs_chmod-others, safs_utimens-others, safs_open-others, safs_read-others, safs_write-others,
  safs_ftruncate-others,
}
use safs.Safs.Attributes.{safs_chown, safs_setattr, safs_getattr}
use safs.Safs.Contents.{safs_truncate}
use safs.Safs.Find.{find_entry}
use safs.Safs.Listing.{safs_readdir}
use safs.Safs.Server.{
  Request, getattr, readdir, open_file, read, write, mknod, setxattr, chmod, chown, utimens,
  truncate, ftruncate, unlink, link, rename, safs_oper, serve,
}
use safs.Safs.Server.Unknown.{subject, safs_oper_unknown}
use safs.Safs.Spec.{File, view}

-- The file that the request needs, if it is there, has another inode and another data file.
abbrev pub HasOther : (Name → Option File) → ℕ → Name → Option Name → Type 0
HasOther names i s none = Unit
HasOther names i s (some path) =
    (j : ℕ) (t : Name) → names (rest path) ≡ some (j, t) → (i ≢ j) × (same_name t s ≡ false)

module _ (env : Env) (i : ℕ) (s : Name) (w : World) (r : Request) where
  abbrev after : Disk
  after = (safs_oper env r w).1.disk

  module _ (path : Name) (needs : subject r ≡ some path)
      (apart : HasOther (view w.disk).names i s (some path))
      (rest_alone : (dirs : List Dentry) (k : ℕ) (d : Dentry)
        → w.disk.directory ≡ some dirs
        → find_entry (rest path) dirs 0 ≡ some (k, d)
        → others d.inum d.storage after ≡ others d.inum d.storage w.disk) where
    listed-IsSpared :
        (dirs : List Dentry) → w.disk.directory ≡ some dirs → IsSpared i s w.disk after
    listed-IsSpared dirs listed = elim (Option-cases (find_entry (rest path) dirs 0)) [
      | inl unknown ↦
          same-IsSpared i s w.disk after
            (safs_oper_unknown env r path w needs (ground (arith, listed, unknown))).1
      | inr ((k, d), found) ↦
          let (number, storage) = apart d.inum d.storage (ground (arith, listed, found)) in
          others-IsSpared i d.inum s d.storage w.disk after number storage
            (rest_alone dirs k d listed found)
    ]

    subject-IsSpared : IsSpared i s w.disk after
    unfolding find_entry
    subject-IsSpared = elim (Option-cases w.disk.directory) [
      | inl unlisted ↦
          same-IsSpared i s w.disk after
            (safs_oper_unknown env r path w needs (ground (arith, unlisted))).1
      | inr (dirs, listed) ↦ listed-IsSpared dirs listed
    ]

-- The request changes no name, and if its path names a file, that has another inode than `i` and
-- another data file than `s`.
abbrev pub Spares : (Name → Option File) → ℕ → Name → Request → Type 0
Spares names i s (mknod path mode) = ⊥
Spares names i s (unlink path) = ⊥
Spares names i s (link path1 path2) = ⊥
Spares names i s (rename oldname newname) = ⊥
Spares names i s (getattr path st) = Unit
Spares names i s request = HasOther names i s (subject request)

module _ (env : Env) (i : ℕ) (s : Name) where
  safs_oper-IsSpared :
      (r : Request) (w : World)
      → Spares (view w.disk).names i s r
      → IsSpared i s w.disk (safs_oper env r w).1.disk
  unfolding safs_oper ◌>>=◌ safs_chown safs_setattr safs_truncate
  safs_oper-IsSpared (getattr path st) w apart =
      present-IsSpared i s w.disk (safs_getattr env path st w).1.disk
        (safs_getattr-present env path st w)
  safs_oper-IsSpared (readdir path) w apart =
      present-IsSpared i s w.disk (safs_readdir env path w).1.disk (safs_readdir-present env path w)
  safs_oper-IsSpared (open_file path flags) w apart =
      subject-IsSpared env i s w (open_file path flags) path refl apart
        λ dirs k d listed found. safs_open-others env path w dirs k d listed found flags
  safs_oper-IsSpared (read path size offset) w apart =
      subject-IsSpared env i s w (read path size offset) path refl apart
        λ dirs k d listed found. safs_read-others env path w dirs k d listed found size offset
  safs_oper-IsSpared (write path buf size offset) w apart =
      subject-IsSpared env i s w (write path buf size offset) path refl apart
        λ dirs k d listed found. safs_write-others env path w dirs k d listed found buf size offset
  safs_oper-IsSpared (mknod path mode) w apart = absurd apart
  safs_oper-IsSpared (setxattr path name value size flag) w apart = (refl, refl, refl)
  safs_oper-IsSpared (chmod path mode) w apart =
      subject-IsSpared env i s w (chmod path mode) path refl apart
        λ dirs k d listed found. safs_chmod-others env path w dirs k d listed found mode
  safs_oper-IsSpared (chown path uid gid) w apart = (refl, refl, refl)
  safs_oper-IsSpared (utimens path t u) w apart =
      subject-IsSpared env i s w (utimens path t u) path refl apart
        λ dirs k d listed found. safs_utimens-others env path w dirs k d listed found t u
  safs_oper-IsSpared (truncate path off) w apart =
      subject-IsSpared env i s w (truncate path off) path refl apart
        λ dirs k d listed found. safs_ftruncate-others env path dirs k d found off w listed
  safs_oper-IsSpared (ftruncate path off) w apart =
      subject-IsSpared env i s w (ftruncate path off) path refl apart
        λ dirs k d listed found. safs_ftruncate-others env path dirs k d found off w listed
  safs_oper-IsSpared (unlink path) w apart = absurd apart
  safs_oper-IsSpared (link path1 path2) w apart = absurd apart
  safs_oper-IsSpared (rename oldname newname) w apart = absurd apart

abbrev pub AllSpare : (Name → Option File) → ℕ → Name → List Request → Type 0
AllSpare names i s [] = Unit
AllSpare names i s (r ∷ rs) = Spares names i s r × AllSpare names i s rs

module _ (env : Env) (i : ℕ) (s : Name) where
  -- Through any sequence of requests that change no name, whichever of their system calls fail,
  -- and whatever the tables hold at first, where `outside` is not set at the end, so that no
  -- table was opened as a data file: each name keeps its inode and its data file, and an inode
  -- and a data file keep their attributes and their bytes, if no path of an open, read, write,
  -- chmod, utimens, truncate or ftruncate among the requests names a file that has that inode or
  -- that data file.
  pub serve-IsSpared :
      (requests : List Request) (w : World)
      → (serve env requests w).outside ≡ false
      → AllSpare (view w.disk).names i s requests
      → IsSpared i s w.disk (serve env requests w).disk
  unfolding serve
  serve-IsSpared [] w inside apart = (refl, refl, refl)
  serve-IsSpared (r ∷ rs) w inside (apart, others_apart) =
      let (names, stats, bytes) = safs_oper-IsSpared env i s r w apart in
      let later =
        serve-IsSpared rs (safs_oper env r w).1 inside
          (subst (λ known. AllSpare known i s rs) (sym names) others_apart) in
      (later.0 ∙ names, later.1 ∙ stats, later.2 ∙ bytes)
