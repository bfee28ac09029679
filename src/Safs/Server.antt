-- ===== src/Safs/Server.antt =====
-- The table safs_oper of safs.c: a request by the kernel, and the handler that serves it. The
-- results other than the `int` are left out here.
pub mod Descriptors
pub mod Fresh
pub mod Inside
pub mod Missing
pub mod Unknown
use safs.Base.{ℕ, List, [], ◌∷◌, ℤ, Name}
use safs.Disk.{Stat, Timespec}
use safs.Posix.{Env, World, Cmd, pure, ◌>>=◌}
use safs.Safs.Attributes.{safs_getattr, safs_chmod, safs_chown, safs_setattr, safs_utimens}
use safs.Safs.Contents.{safs_open, safs_read, safs_write, safs_truncate, safs_ftruncate}
use safs.Safs.Listing.{safs_readdir}
use safs.Safs.Names.{safs_mknod, safs_rename, safs_link, safs_unlink}

pub data Request : Type 0 where
  getattr : Name → Stat → Request
  readdir : Name → Request
  open_file : Name → ℕ → Request
  read : Name → ℕ → ℕ → Request
  write : Name → List ℕ → ℕ → ℕ → Request
  mknod : Name → ℕ → Request
  setxattr : Name → Name → Name → ℕ → ℕ → Request
  chmod : Name → ℕ → Request
  chown : Name → ℕ → ℕ → Request
  utimens : Name → Timespec → Timespec → Request
  truncate : Name → ℕ → Request
  ftruncate : Name → ℕ → Request
  unlink : Name → Request
  link : Name → Name → Request
  rename : Name → Name → Request

module _ (env : Env) where
  unfoldable pub safs_oper : Request → Cmd ℤ
  safs_oper (getattr path st) = do (rtn, st') ← safs_getattr env path st; pure rtn
  safs_oper (readdir path) = do (rtn, filled) ← safs_readdir env path; pure rtn
  safs_oper (open_file path flags) = safs_open env path flags
  safs_oper (read path size offset) = do (rtn, bytes) ← safs_read env path size offset; pure rtn
  safs_oper (write path buf size offset) = safs_write env path buf size offset
  safs_oper (mknod path mode) = safs_mknod env path mode
  safs_oper (setxattr path name value size flag) = safs_setattr env path name value size flag
  safs_oper (chmod path mode) = safs_chmod env path mode
  safs_oper (chown path uid gid) = safs_chown env path uid gid
  safs_oper (utimens path s t) = safs_utimens env path s t
  safs_oper (truncate path off) = safs_truncate env path off
  safs_oper (ftruncate path off) = safs_ftruncate env path off
  safs_oper (unlink path) = safs_unlink env path
  safs_oper (link path1 path2) = safs_link env path1 path2
  safs_oper (rename oldname newname) = safs_rename env oldname newname

  -- The world after a sequence of requests.
  unfoldable pub serve : List Request → World → World
  serve [] w = w
  serve (r ∷ rs) w = serve rs (safs_oper r w).1
