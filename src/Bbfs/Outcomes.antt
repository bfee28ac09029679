-- ===== src/Bbfs/Outcomes.antt =====
-- Which call of the host a request makes, and what comes of its answer.
use safs.Base.{
  ◌+◌, ◌-◌, ◌%◌, ◌^◌, ◌≡◌, ◌++◌, ◌&&◌, inl, inr, Bool-cases, Bool, true, false, Option, none, some,
  ◌∷◌, arith, pos, neg, ℤ, is_neg, Name, take, codes, same_name, if◌then◌else◌,
}
use safs.Bbfs.{
  Call, lstat, readlink, open_file, close, mkdir, unlink, rmdir, symlink, rename, link, chmod,
  chown, truncate, utime, pread, pwrite, statvfs, fdatasync, fsync, lsetxattr, lgetxattr,
  llistxattr, lremovexattr, opendir, closedir, access, creat, ftruncate, fstat, Answer, Bb, ◌>>=◌,
  ask, bb_error, bb_fullpath, reported, path_max,
}
use safs.Bbfs.Handlers.{
  bb_getattr, bb_readlink, bb_mknod, bb_mkdir, bb_unlink, bb_rmdir, bb_symlink, bb_rename, bb_link,
  bb_chmod, bb_chown, bb_truncate, bb_utime, bb_statfs, bb_setxattr, bb_getxattr, bb_listxattr,
  bb_removexattr, bb_access, is_zero,
}
use safs.Bbfs.Open.{
  handle, bb_open, bb_read, bb_write, bb_flush, bb_release, bb_fsync, bb_opendir, bb_releasedir,
  bb_fsyncdir, bb_create, bb_ftruncate, bb_fgetattr,
}
use safs.Bbfs.Server.{
  BbRequest, oper_getattr, oper_readlink, oper_mknod, oper_mkdir, oper_unlink, oper_rmdir,
  oper_symlink, oper_rename, oper_link, oper_chmod, oper_chown, oper_truncate, oper_utime,
  oper_open, oper_read, oper_write, oper_statfs, oper_flush, oper_release, oper_fsync,
  oper_setxattr, oper_getxattr, oper_listxattr, oper_removexattr, oper_opendir, oper_releasedir,
  oper_fsyncdir, oper_access, oper_create, oper_ftruncate, oper_fgetattr, bb_oper,
}

-- Where a path of the mounted file system lies in the host's.
abbrev pub at_root : Name → Name → Name
at_root rootdir path = rootdir ++ take path_max path

-- The one call that a request makes; `none` for one that makes none or several.
abbrev pub host_call : Name → Bool → BbRequest → Option Call
host_call rootdir has_fdatasync (oper_getattr path) = some (lstat (at_root rootdir path))
host_call rootdir has_fdatasync (oper_readlink path size) =
    some (readlink (at_root rootdir path) ((size + 2 ^ 64 - 1) % 2 ^ 64))
host_call rootdir has_fdatasync (oper_mknod path mode dev) = none
host_call rootdir has_fdatasync (oper_mkdir path mode) = some (mkdir (at_root rootdir path) mode)
host_call rootdir has_fdatasync (oper_unlink path) = some (unlink (at_root rootdir path))
host_call rootdir has_fdatasync (oper_rmdir path) = some (rmdir (at_root rootdir path))
host_call rootdir has_fdatasync (oper_symlink path target) =
    some (symlink path (at_root rootdir target))
host_call rootdir has_fdatasync (oper_rename path newpath) =
    some (rename (at_root rootdir path) (at_root rootdir newpath))
host_call rootdir has_fdatasync (oper_link path newpath) =
    some (link (at_root rootdir path) (at_root rootdir newpath))
host_call rootdir has_fdatasync (oper_chmod path mode) = some (chmod (at_root rootdir path) mode)
host_call rootdir has_fdatasync (oper_chown path uid gid) =
    some (chown (at_root rootdir path) uid gid)
host_call rootdir has_fdatasync (oper_truncate path newsize) =
    some (truncate (at_root rootdir path) newsize)
host_call rootdir has_fdatasync (oper_utime path ubuf) = some (utime (at_root rootdir path) ubuf)
host_call rootdir has_fdatasync (oper_open path flags) =
    some (open_file (at_root rootdir path) flags 0)
host_call rootdir has_fdatasync (oper_read fh size offset) = some (pread fh size offset)
host_call rootdir has_fdatasync (oper_write fh buf offset) = some (pwrite fh buf offset)
host_call rootdir has_fdatasync (oper_statfs path) = some (statvfs (at_root rootdir path))
host_call rootdir has_fdatasync (oper_flush fh) = none
host_call rootdir has_fdatasync (oper_release fh) = some (close fh)
host_call rootdir has_fdatasync (oper_fsync datasync fh) =
    some ((if has_fdatasync && datasync then fdatasync fh else fsync fh))
host_call rootdir has_fdatasync (oper_setxattr path name value flags) =
    some (lsetxattr (at_root rootdir path) name value flags)
host_call rootdir has_fdatasync (oper_getxattr path name size) =
    some (lgetxattr (at_root rootdir path) name size)
host_call rootdir has_fdatasync (oper_listxattr path size) =
    some (llistxattr (at_root rootdir path) size)
host_call rootdir has_fdatasync (oper_removexattr path name) =
    some (lremovexattr (at_root rootdir path) name)
host_call rootdir has_fdatasync (oper_opendir path) = some (opendir (at_root rootdir path))
host_call rootdir has_fdatasync (oper_releasedir fh) = some (closedir fh)
host_call rootdir has_fdatasync (oper_fsyncdir fh) = none
host_call rootdir has_fdatasync (oper_access path mask) = some (access (at_root rootdir path) mask)
host_call rootdir has_fdatasync (oper_create path mode) = some (creat (at_root rootdir path) mode)
host_call rootdir has_fdatasync (oper_ftruncate fh offset) = some (ftruncate fh offset)
host_call rootdir has_fdatasync (oper_fgetattr path fh) =
    if same_name path (codes "/") then some (lstat (at_root rootdir path)) else some (fstat fh)

-- Requests whose failing call gives its value as the result, and not -errno.
abbrev pub raw : BbRequest → Bool
raw (oper_truncate path newsize) = true
raw (oper_release fh) = true
raw (oper_fsync datasync fh) = true
raw r = false

-- Requests whose successful call gives 0, whatever its value.
abbrev pub zeroed : BbRequest → Bool
zeroed (oper_readlink path size) = true
zeroed (oper_open path flags) = true
zeroed (oper_opendir path) = true
zeroed (oper_create path mode) = true
zeroed r = false

-- What comes of the call's answer.
abbrev pub outcome : BbRequest → Answer → ℤ
outcome (oper_getattr path) a = if is_zero a.value then a.value else neg a.errno
outcome (oper_releasedir fh) a = pos 0
outcome (oper_fgetattr path fh) a =
    if same_name path (codes "/")
    then (if is_zero a.value then a.value else neg a.errno)
    else if is_neg a.value
    then neg a.errno
    else a.value
outcome r a =
    if is_neg a.value
    then (if raw r then a.value else neg a.errno)
    else if zeroed r
    then pos 0
    else a.value

module _ {S : Type 0} (host : Call → S → Answer × S) (rootdir : Name) (has_fdatasync : Bool) where
  abbrev pub Served : BbRequest → Call → Bb S → Type 0
  Served r c w =
      ((bb_oper host rootdir has_fdatasync r w).0 ≡ outcome r (host c w.host_state).0)
      × ((bb_oper host rootdir has_fdatasync r w).1.asked ≡ c ∷ w.asked)

  pub bb_oper_lem :
      (r : BbRequest) (c : Call) (w : Bb S)
      → host_call rootdir has_fdatasync r ≡ some c
      → Served r c w
  unfolding bb_oper ◌>>=◌ ask bb_error bb_fullpath reported handle bb_getattr bb_readlink bb_mknod
      bb_mkdir bb_unlink bb_rmdir bb_symlink bb_rename bb_link bb_chmod bb_chown bb_truncate
      bb_utime bb_open bb_read bb_write bb_statfs bb_flush bb_release bb_fsync bb_setxattr
      bb_getxattr bb_listxattr bb_removexattr bb_opendir bb_releasedir bb_fsyncdir bb_access
      bb_create bb_ftruncate bb_fgetattr
  bb_oper_lem (oper_getattr path) c w made = ground (arith, made)
  bb_oper_lem (oper_readlink path size) c w made = ground (arith, made)
  bb_oper_lem (oper_mknod path mode dev) c w made = ground (arith, made)
  bb_oper_lem (oper_mkdir path mode) c w made = ground (arith, made)
  bb_oper_lem (oper_unlink path) c w made = ground (arith, made)
  bb_oper_lem (oper_rmdir path) c w made = ground (arith, made)
  bb_oper_lem (oper_symlink path target) c w made = ground (arith, made)
  bb_oper_lem (oper_rename path newpath) c w made = ground (arith, made)
  bb_oper_lem (oper_link path newpath) c w made = ground (arith, made)
  bb_oper_lem (oper_chmod path mode) c w made = ground (arith, made)
  bb_oper_lem (oper_chown path uid gid) c w made = ground (arith, made)
  bb_oper_lem (oper_truncate path newsize) c w made = ground (arith, made)
  bb_oper_lem (oper_utime path ubuf) c w made = ground (arith, made)
  bb_oper_lem (oper_open path flags) c w made = ground (arith, made)
  bb_oper_lem (oper_read fh size offset) c w made = ground (arith, made)
  bb_oper_lem (oper_write fh buf offset) c w made = ground (arith, made)
  bb_oper_lem (oper_statfs path) c w made = ground (arith, made)
  bb_oper_lem (oper_flush fh) c w made = ground (arith, made)
  bb_oper_lem (oper_release fh) c w made = ground (arith, made)
  bb_oper_lem (oper_fsync datasync fh) c w made = ground (arith, made)
  bb_oper_lem (oper_setxattr path name value flags) c w made = ground (arith, made)
  bb_oper_lem (oper_getxattr path name size) c w made = ground (arith, made)
  bb_oper_lem (oper_listxattr path size) c w made = ground (arith, made)
  bb_oper_lem (oper_removexattr path name) c w made = ground (arith, made)
  bb_oper_lem (oper_opendir path) c w made = ground (arith, made)
  bb_oper_lem (oper_releasedir fh) c w made = ground (arith, made)
  bb_oper_lem (oper_fsyncdir fh) c w made = ground (arith, made)
  bb_oper_lem (oper_access path mask) c w made = ground (arith, made)
  bb_oper_lem (oper_create path mode) c w made = ground (arith, made)
  bb_oper_lem (oper_ftruncate fh offset) c w made = ground (arith, made)
  bb_oper_lem (oper_fgetattr path fh) c w made = elim (Bool-cases (same_name path (codes "/"))) [
    | inl root ↦ rw root (ground (arith, rw root at made))
    | inr below ↦ rw below (ground (arith, rw below at made))
  ]
