-- ===== src/Bbfs/Server.antt =====
-- The table bb_oper of bbfs.c but its readdir, init and destroy: a request, and the handler that
-- serves it. The results other than the `int` are left out here.
use safs.Base.{ℕ, Bool, List, [], ◌∷◌, ℤ, Name}
use safs.Bbfs.{Call, Answer, Bb, BbCmd, pure, ◌>>=◌}
use safs.Bbfs.Handlers.{
  bb_getattr, bb_readlink, bb_mknod, bb_mkdir, bb_unlink, bb_rmdir, bb_symlink, bb_rename, bb_link,
  bb_chmod, bb_chown, bb_truncate, bb_utime, bb_statfs, bb_setxattr, bb_getxattr, bb_listxattr,
  bb_removexattr, bb_access,
}
use safs.Bbfs.Open.{
  bb_open, bb_read, bb_write, bb_flush, bb_release, bb_fsync, bb_opendir, bb_releasedir,
  bb_fsyncdir, bb_create, bb_ftruncate, bb_fgetattr,
}

pub data BbRequest : Type 0 where
  oper_getattr : Name → BbRequest
  oper_readlink : Name → ℕ → BbRequest
  oper_mknod : Name → ℕ → ℕ → BbRequest
  oper_mkdir : Name → ℕ → BbRequest
  oper_unlink : Name → BbRequest
  oper_rmdir : Name → BbRequest
  oper_symlink : Name → Name → BbRequest
  oper_rename : Name → Name → BbRequest
  oper_link : Name → Name → BbRequest
  oper_chmod : Name → ℕ → BbRequest
  oper_chown : Name → ℕ → ℕ → BbRequest
  oper_truncate : Name → ℕ → BbRequest
  oper_utime : Name → ℕ → BbRequest
  oper_open : Name → ℕ → BbRequest
  oper_read : ℤ → ℕ → ℕ → BbRequest
  oper_write : ℤ → List ℕ → ℕ → BbRequest
  oper_statfs : Name → BbRequest
  oper_flush : ℤ → BbRequest
  oper_release : ℤ → BbRequest
  oper_fsync : Bool → ℤ → BbRequest
  oper_setxattr : Name → Name → List ℕ → ℕ → BbRequest
  oper_getxattr : Name → Name → ℕ → BbRequest
  oper_listxattr : Name → ℕ → BbRequest
  oper_removexattr : Name → Name → BbRequest
  oper_opendir : Name → BbRequest
  oper_releasedir : ℤ → BbRequest
  oper_fsyncdir : ℤ → BbRequest
  oper_access : Name → ℕ → BbRequest
  oper_create : Name → ℕ → BbRequest
  oper_ftruncate : ℤ → ℕ → BbRequest
  oper_fgetattr : Name → ℤ → BbRequest

-- `has_fdatasync` is HAVE_FDATASYNC; HAVE_SYS_XATTR_H is taken as defined.
module _ {S : Type 0} (host : Call → S → Answer × S) (rootdir : Name) (has_fdatasync : Bool) where
  unfoldable pub bb_oper : BbRequest → BbCmd S ℤ
  bb_oper (oper_getattr path) = do (rtn, out) ← bb_getattr host rootdir path; pure rtn
  bb_oper (oper_readlink path size) = do (rtn, out) ← bb_readlink host rootdir path size; pure rtn
  bb_oper (oper_mknod path mode dev) = do (rtn, out) ← bb_mknod host rootdir path mode dev; pure rtn
  bb_oper (oper_mkdir path mode) = do (rtn, out) ← bb_mkdir host rootdir path mode; pure rtn
  bb_oper (oper_unlink path) = do (rtn, out) ← bb_unlink host rootdir path; pure rtn
  bb_oper (oper_rmdir path) = do (rtn, out) ← bb_rmdir host rootdir path; pure rtn
  bb_oper (oper_symlink path target) = do (rtn, out) ← bb_symlink host rootdir path target; pure rtn
  bb_oper (oper_rename path newpath) = do (rtn, out) ← bb_rename host rootdir path newpath; pure rtn
  bb_oper (oper_link path newpath) = do (rtn, out) ← bb_link host rootdir path newpath; pure rtn
  bb_oper (oper_chmod path mode) = do (rtn, out) ← bb_chmod host rootdir path mode; pure rtn
  bb_oper (oper_chown path uid gid) = do (rtn, out) ← bb_chown host rootdir path uid gid; pure rtn
  bb_oper (oper_truncate path newsize) = do
    (rtn, out) ← bb_truncate host rootdir path newsize
    pure rtn
  bb_oper (oper_utime path ubuf) = do (rtn, out) ← bb_utime host rootdir path ubuf; pure rtn
  bb_oper (oper_open path flags) = do (rtn, out) ← bb_open host rootdir path flags; pure rtn
  bb_oper (oper_read fh size offset) = do (rtn, out) ← bb_read host rootdir fh size offset; pure rtn
  bb_oper (oper_write fh buf offset) = do (rtn, out) ← bb_write host rootdir fh buf offset; pure rtn
  bb_oper (oper_statfs path) = do (rtn, out) ← bb_statfs host rootdir path; pure rtn
  bb_oper (oper_flush fh) = bb_flush host rootdir fh
  bb_oper (oper_release fh) = bb_release host rootdir fh
  bb_oper (oper_fsync datasync fh) = bb_fsync host rootdir has_fdatasync datasync fh
  bb_oper (oper_setxattr path name value flags) = do
    (rtn, out) ← bb_setxattr host rootdir path name value flags
    pure rtn
  bb_oper (oper_getxattr path name size) = do
    (rtn, out) ← bb_getxattr host rootdir path name size
    pure rtn
  bb_oper (oper_listxattr path size) = do (rtn, out) ← bb_listxattr host rootdir path size; pure rtn
  bb_oper (oper_removexattr path name) = do
    (rtn, out) ← bb_removexattr host rootdir path name
    pure rtn
  bb_oper (oper_opendir path) = do (rtn, out) ← bb_opendir host rootdir path; pure rtn
  bb_oper (oper_releasedir fh) = bb_releasedir host rootdir fh
  bb_oper (oper_fsyncdir fh) = bb_fsyncdir host rootdir fh
  bb_oper (oper_access path mask) = do (rtn, out) ← bb_access host rootdir path mask; pure rtn
  bb_oper (oper_create path mode) = do (rtn, out) ← bb_create host rootdir path mode; pure rtn
  bb_oper (oper_ftruncate fh offset) = do (rtn, out) ← bb_ftruncate host rootdir fh offset; pure rtn
  bb_oper (oper_fgetattr path fh) = do (rtn, out) ← bb_fgetattr host rootdir path fh; pure rtn

  -- The world after a sequence of requests.
  unfoldable pub bb_serve : List BbRequest → Bb S → Bb S
  bb_serve [] w = w
  bb_serve (r ∷ rs) w = bb_serve rs (bb_oper r w).1
