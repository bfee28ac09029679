-- ===== src/Ramfs/Server.antt =====
-- The table ramfs_oper of fuse-examples/ramfs/fuse-test.cpp: a request, the handler that serves it,
-- and what the library gets back. One map `files` serves all requests, in the order of their arrival.
use safs.Base.{ℕ, List, [], ◌∷◌, Option, none, some, ℤ, Name, length}
use safs.Disk.{Stat, Timespec}
use safs.Ramfs.{
  FileMap, RamCmd, Caller, ramfs_getattr, ramfs_readdir, ramfs_open, ramfs_read, ramfs_write,
  ramfs_unlink, ramfs_create, ramfs_truncate,
}
use safs.Ramfs.Refused.{
  ramfs_fgetattr, ramfs_opendir, ramfs_access, ramfs_mknod, ramfs_mkdir, ramfs_rmdir, ramfs_symlink,
  ramfs_rename, ramfs_link, ramfs_chmod, ramfs_chown, ramfs_utime, ramfs_utimens, ramfs_bmap,
  ramfs_setxattr,
}

pub data RamRequest : Type 0 where
  call_getattr : Name → RamRequest
  call_readdir : Name → RamRequest
  call_open : Name → RamRequest
  call_read : Name → ℕ → ℕ → RamRequest
  call_mknod : Name → ℕ → ℕ → RamRequest
  call_write : Name → List ℕ → ℕ → RamRequest
  call_unlink : Name → RamRequest
  call_setxattr : Name → Name → List ℕ → ℕ → RamRequest
  call_mkdir : Name → ℕ → RamRequest
  call_rmdir : Name → RamRequest
  call_symlink : Name → Name → RamRequest
  call_rename : Name → Name → RamRequest
  call_link : Name → Name → RamRequest
  call_chmod : Name → ℕ → RamRequest
  call_chown : Name → ℕ → ℕ → RamRequest
  call_truncate : Name → ℕ → RamRequest
  call_utime : Name → ℕ → ℕ → RamRequest
  call_opendir : Name → RamRequest
  call_access : Name → ℕ → RamRequest
  call_create : Name → ℕ → RamRequest
  call_fgetattr : Name → RamRequest
  call_utimens : Name → Timespec → Timespec → RamRequest
  call_bmap : Name → ℕ → ℕ → RamRequest

-- The `int`, or nothing where the handler overflows a signed counter, with the struct stat, the names given to `filler`, or the bytes in `buf`.
pub data Reply : Type 0 where
  result : ℤ → Reply
  attributes : ℤ → Stat → Reply
  entries : ℤ → List Name → Reply
  content : ℤ → List ℕ → Reply
  undefined : Reply

-- The result of a handler that gives only its `int`, or another result beside it.
abbrev pub plain : ℤ × FileMap → Reply × FileMap
plain (res, files) = (result res, files)

abbrev pub if_defined : Option ℤ × FileMap → Reply × FileMap
if_defined (none, files) = (undefined, files)
if_defined (some res, files) = (result res, files)

abbrev pub with_stat : (ℤ × Stat) × FileMap → Reply × FileMap
with_stat ((res, stbuf), files) = (attributes res stbuf, files)

abbrev pub with_names : (ℤ × List Name) × FileMap → Reply × FileMap
with_names ((res, names), files) = (entries res names, files)

abbrev pub with_bytes : (ℤ × List ℕ) × FileMap → Reply × FileMap
with_bytes ((res, buf), files) = (content res buf, files)

module _ (caller : Caller) where
  unfoldable pub ramfs_oper : RamRequest → RamCmd Reply
  ramfs_oper (call_getattr path) files = with_stat (ramfs_getattr caller path files)
  ramfs_oper (call_readdir path) files = with_names (ramfs_readdir path files)
  ramfs_oper (call_open path) files = plain (ramfs_open path files)
  ramfs_oper (call_read path size offset) files = with_bytes (ramfs_read path size offset files)
  ramfs_oper (call_mknod path mode dev) files = plain (ramfs_mknod path mode dev files)
  ramfs_oper (call_write path buf offset) files =
      plain (ramfs_write path buf (length buf) offset files)
  ramfs_oper (call_unlink path) files = plain (ramfs_unlink path files)
  ramfs_oper (call_setxattr path name value flags) files =
      plain (ramfs_setxattr path name value flags files)
  ramfs_oper (call_mkdir path mode) files = plain (ramfs_mkdir path mode files)
  ramfs_oper (call_rmdir path) files = plain (ramfs_rmdir path files)
  ramfs_oper (call_symlink target path) files = plain (ramfs_symlink target path files)
  ramfs_oper (call_rename path newpath) files = plain (ramfs_rename path newpath files)
  ramfs_oper (call_link path newpath) files = plain (ramfs_link path newpath files)
  ramfs_oper (call_chmod path mode) files = plain (ramfs_chmod path mode files)
  ramfs_oper (call_chown path uid gid) files = plain (ramfs_chown path uid gid files)
  ramfs_oper (call_truncate path new_length) files =
      if_defined (ramfs_truncate path new_length files)
  ramfs_oper (call_utime path actime modtime) files = plain (ramfs_utime path actime modtime files)
  ramfs_oper (call_opendir path) files = plain (ramfs_opendir path files)
  ramfs_oper (call_access path mask) files = plain (ramfs_access path mask files)
  ramfs_oper (call_create path mode) files = plain (ramfs_create path mode files)
  ramfs_oper (call_fgetattr path) files = with_stat (ramfs_fgetattr caller path files)
  ramfs_oper (call_utimens path atime mtime) files = plain (ramfs_utimens path atime mtime files)
  ramfs_oper (call_bmap path blocksize idx) files = plain (ramfs_bmap path blocksize idx files)

  -- Requests one after another.
  unfoldable pub ramfs_run : List RamRequest → RamCmd (List Reply)
  ramfs_run [] files = ([], files)
  ramfs_run (request ∷ requests) files =
      let (reply, files') = ramfs_oper request files in
      let (replies, files'') = ramfs_run requests files' in (reply ∷ replies, files'')
