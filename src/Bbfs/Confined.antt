-- ===== src/Bbfs/Confined.antt =====
-- The paths that bbfs.c hands to the host.
use mathlib.Core.Path.{subst}
use safs.Base.{
  ℕ, ◌≡◌, refl, sym, ◌⊎◌, inl, inr, Bool-cases, ◌++◌, ◌&&◌, Bool, some, List, [], ◌∷◌, arith, Name,
  take, codes, same_name,
}
use safs.Bbfs.{
  Call, lstat, readlink, open_file, close, mkfifo, mknod, mkdir, unlink, rmdir, symlink, rename,
  link, chmod, chown, truncate, utime, pread, pwrite, statvfs, fdatasync, fsync, lsetxattr,
  lgetxattr, llistxattr, lremovexattr, opendir, closedir, access, creat, ftruncate, fstat, Answer,
  Bb, ◌>>=◌, ask, bb_error, bb_fullpath, reported, path_max,
}
use safs.Bbfs.Handlers.{bb_mknod, create_flags}
use safs.Bbfs.Open.{bb_flush, bb_fsyncdir}
use safs.Bbfs.Outcomes.{at_root, host_call, bb_oper_lem}
use safs.Bbfs.Server.{
  BbRequest, oper_getattr, oper_readlink, oper_mknod, oper_mkdir, oper_unlink, oper_rmdir,
  oper_symlink, oper_rename, oper_link, oper_chmod, oper_chown, oper_truncate, oper_utime,
  oper_open, oper_read, oper_write, oper_statfs, oper_flush, oper_release, oper_fsync,
  oper_setxattr, oper_getxattr, oper_listxattr, oper_removexattr, oper_opendir, oper_releasedir,
  oper_fsyncdir, oper_access, oper_create, oper_ftruncate, oper_fgetattr, bb_oper,
}

abbrev pub Begins : Name → Name → Type 0
Begins rootdir path = (q : Name) × (path ≡ rootdir ++ q)

-- The paths of a call that name a file begin with `rootdir`. The first argument of symlink is the
-- text of the new link.
abbrev pub Within : Name → Call → Type 0
Within rootdir (lstat p) = Begins rootdir p
Within rootdir (readlink p size) = Begins rootdir p
Within rootdir (open_file p flags mode) = Begins rootdir p
Within rootdir (mkfifo p mode) = Begins rootdir p
Within rootdir (mknod p mode dev) = Begins rootdir p
Within rootdir (mkdir p mode) = Begins rootdir p
Within rootdir (unlink p) = Begins rootdir p
Within rootdir (rmdir p) = Begins rootdir p
Within rootdir (symlink target p) = Begins rootdir p
Within rootdir (rename p q) = Begins rootdir p × Begins rootdir q
Within rootdir (link p q) = Begins rootdir p × Begins rootdir q
Within rootdir (chmod p mode) = Begins rootdir p
Within rootdir (chown p uid gid) = Begins rootdir p
Within rootdir (truncate p size) = Begins rootdir p
Within rootdir (utime p times) = Begins rootdir p
Within rootdir (statvfs p) = Begins rootdir p
Within rootdir (lsetxattr p name value flags) = Begins rootdir p
Within rootdir (lgetxattr p name size) = Begins rootdir p
Within rootdir (llistxattr p size) = Begins rootdir p
Within rootdir (lremovexattr p name) = Begins rootdir p
Within rootdir (opendir p) = Begins rootdir p
Within rootdir (access p mask) = Begins rootdir p
Within rootdir (creat p mode) = Begins rootdir p
Within rootdir (close fh) = Unit
Within rootdir (pread fh size offset) = Unit
Within rootdir (pwrite fh buf offset) = Unit
Within rootdir (fdatasync fh) = Unit
Within rootdir (fsync fh) = Unit
Within rootdir (closedir fh) = Unit
Within rootdir (ftruncate fh offset) = Unit
Within rootdir (fstat fh) = Unit

abbrev pub AllWithin : Name → List Call → Type 0
AllWithin rootdir [] = Unit
AllWithin rootdir (c ∷ cs) = Within rootdir c × AllWithin rootdir cs

module _ {S : Type 0} (host : Call → S → Answer × S) (rootdir : Name) (has_fdatasync : Bool) where
  grown :
      (r : BbRequest) (c : Call) (w : Bb S)
      → host_call rootdir has_fdatasync r ≡ some c
      → Within rootdir c
      → AllWithin rootdir w.asked
      → AllWithin rootdir (bb_oper host rootdir has_fdatasync r w).1.asked
  grown r c w made inside all =
      subst (AllWithin rootdir) (sym (bb_oper_lem host rootdir has_fdatasync r c w made).1)
        (inside, all)

  module _ (path : Name) (mode dev : ℕ) (w : Bb S) where
    abbrev made : Bb S
    made = (bb_mknod host rootdir path mode dev w).1

    abbrev fpath : Name
    fpath = at_root rootdir path

    abbrev creation : Call
    creation = open_file fpath create_flags mode

    mknod_asked :
        (made.asked ≡ creation ∷ w.asked)
        ⊎ (made.asked ≡ close (host creation w.host_state).0.value ∷ creation ∷ w.asked)
        ⊎ (made.asked ≡ mkfifo fpath mode ∷ w.asked)
        ⊎ (made.asked ≡ mknod fpath mode dev ∷ w.asked)
    unfolding bb_mknod ◌>>=◌ ask bb_error bb_fullpath reported
    mknod_asked = ground arith

    bb_mknod-AllWithin : AllWithin rootdir w.asked → AllWithin rootdir made.asked
    bb_mknod-AllWithin all =
        let inside : Begins rootdir fpath = (take path_max path, refl) in
        elim mknod_asked [
          | inl e ↦ subst (AllWithin rootdir) (sym e) (inside, all)
          | inr later ↦ elim later [
            | inl e ↦ subst (AllWithin rootdir) (sym e) (tt, (inside, all))
            | inr last ↦ elim last [
              | inl e ↦ subst (AllWithin rootdir) (sym e) (inside, all)
              | inr e ↦ subst (AllWithin rootdir) (sym e) (inside, all)
            ]
          ]
        ]

  pub bb_oper-AllWithin :
      (r : BbRequest) (w : Bb S)
      → AllWithin rootdir w.asked
      → AllWithin rootdir (bb_oper host rootdir has_fdatasync r w).1.asked
  unfolding bb_oper ◌>>=◌ bb_flush bb_fsyncdir
  bb_oper-AllWithin (oper_getattr path) w all =
      grown (oper_getattr path) _ w refl (take path_max path, refl) all
  bb_oper-AllWithin (oper_readlink path size) w all =
      grown (oper_readlink path size) _ w refl (take path_max path, refl) all
  bb_oper-AllWithin (oper_mknod path mode dev) w all = bb_mknod-AllWithin path mode dev w all
  bb_oper-AllWithin (oper_mkdir path mode) w all =
      grown (oper_mkdir path mode) _ w refl (take path_max path, refl) all
  bb_oper-AllWithin (oper_unlink path) w all =
      grown (oper_unlink path) _ w refl (take path_max path, refl) all
  bb_oper-AllWithin (oper_rmdir path) w all =
      grown (oper_rmdir path) _ w refl (take path_max path, refl) all
  bb_oper-AllWithin (oper_symlink path target) w all =
      grown (oper_symlink path target) _ w refl (take path_max target, refl) all
  bb_oper-AllWithin (oper_rename path newpath) w all =
      grown (oper_rename path newpath) _ w refl
        ((take path_max path, refl), (take path_max newpath, refl)) all
  bb_oper-AllWithin (oper_link path newpath) w all =
      grown (oper_link path newpath) _ w refl
        ((take path_max path, refl), (take path_max newpath, refl)) all
  bb_oper-AllWithin (oper_chmod path mode) w all =
      grown (oper_chmod path mode) _ w refl (take path_max path, refl) all
  bb_oper-AllWithin (oper_chown path uid gid) w all =
      grown (oper_chown path uid gid) _ w refl (take path_max path, refl) all
  bb_oper-AllWithin (oper_truncate path newsize) w all =
      grown (oper_truncate path newsize) _ w refl (take path_max path, refl) all
  bb_oper-AllWithin (oper_utime path ubuf) w all =
      grown (oper_utime path ubuf) _ w refl (take path_max path, refl) all
  bb_oper-AllWithin (oper_open path flags) w all =
      grown (oper_open path flags) _ w refl (take path_max path, refl) all
  bb_oper-AllWithin (oper_read fh size offset) w all =
      grown (oper_read fh size offset) _ w refl tt all
  bb_oper-AllWithin (oper_write fh buf offset) w all =
      grown (oper_write fh buf offset) _ w refl tt all
  bb_oper-AllWithin (oper_statfs path) w all =
      grown (oper_statfs path) _ w refl (take path_max path, refl) all
  bb_oper-AllWithin (oper_flush fh) w all = all
  bb_oper-AllWithin (oper_release fh) w all = grown (oper_release fh) _ w refl tt all
  bb_oper-AllWithin (oper_fsync datasync fh) w all = elim (Bool-cases (has_fdatasync && datasync)) [
    | inl e ↦ grown (oper_fsync datasync fh) (fdatasync fh) w (rw e refl) tt all
    | inr e ↦ grown (oper_fsync datasync fh) (fsync fh) w (rw e refl) tt all
  ]
  bb_oper-AllWithin (oper_setxattr path name value flags) w all =
      grown (oper_setxattr path name value flags) _ w refl (take path_max path, refl) all
  bb_oper-AllWithin (oper_getxattr path name size) w all =
      grown (oper_getxattr path name size) _ w refl (take path_max path, refl) all
  bb_oper-AllWithin (oper_listxattr path size) w all =
      grown (oper_listxattr path size) _ w refl (take path_max path, refl) all
  bb_oper-AllWithin (oper_removexattr path name) w all =
      grown (oper_removexattr path name) _ w refl (take path_max path, refl) all
  bb_oper-AllWithin (oper_opendir path) w all =
      grown (oper_opendir path) _ w refl (take path_max path, refl) all
  bb_oper-AllWithin (oper_releasedir fh) w all = grown (oper_releasedir fh) _ w refl tt all
  bb_oper-AllWithin (oper_fsyncdir fh) w all = all
  bb_oper-AllWithin (oper_access path mask) w all =
      grown (oper_access path mask) _ w refl (take path_max path, refl) all
  bb_oper-AllWithin (oper_create path mode) w all =
      grown (oper_create path mode) _ w refl (take path_max path, refl) all
  bb_oper-AllWithin (oper_ftruncate fh offset) w all =
      grown (oper_ftruncate fh offset) _ w refl tt all
  bb_oper-AllWithin (oper_fgetattr path fh) w all = elim (Bool-cases (same_name path (codes "/"))) [
    | inl e ↦
        grown (oper_fgetattr path fh) (lstat (at_root rootdir path)) w (rw e refl)
          (take path_max path, refl) all
    | inr e ↦ grown (oper_fgetattr path fh) (fstat fh) w (rw e refl) tt all
  ]
