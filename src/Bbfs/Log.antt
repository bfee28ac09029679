-- ===== src/Bbfs/Log.antt =====
-- fuse-examples/bbfs/src/log.c, with the macro log_struct of log.h: what bbfs prints of the
-- structures of FUSE to its log file. The structures hold the bits of their fields.
pub mod Printf
pub mod Scan
pub mod Lines
pub mod Stat
pub mod Session
pub mod Names
mod Tests
use Prim.Native.String.{String}
use safs.Base.{ℕ, List, [], ◌∷◌, ◌++◌, Name, codes}
use safs.Disk.{Timespec}
use safs.Disk as disk
use Printf.{Conversion, signed, hexadecimal, octal, int_size, long_size, convert}

-- vfprintf(BB_DATA->logfile, format, ap): the text stands at the end of the log file.
unfoldable pub log_msg : Name → Name → Name
log_msg text logfile = logfile ++ text

-- Calls of log_msg one after another.
unfoldable pub log_msgs : List Name → Name → Name
log_msgs [] logfile = logfile
log_msgs (text ∷ texts) logfile = log_msgs texts (log_msg text logfile)

-- The text of log_struct(st, field, format, ): `prefix` is what the format has before its "%".
unfoldable pub log_struct : String → String → Conversion → ℕ → Name
log_struct field prefix format value =
    codes "    " ++ codes field ++ codes " = " ++ codes prefix ++ convert format value ++ codes "\n"

-- struct fuse_context and the struct bb_state that its private_data points to
pub record FuseContext : Type 0 where
  pub fuse : ℕ
  pub uid : ℕ
  pub gid : ℕ
  pub pid : ℕ
  pub private_data : ℕ
  pub logfile : ℕ
  pub rootdir : Name
  pub umask : ℕ

unfoldable pub log_fuse_context : FuseContext → Name → Name
log_fuse_context context = log_msgs (
    codes "    context:\n"
    ∷ log_struct "fuse" "" (hexadecimal int_size 8) context.fuse
    ∷ log_struct "uid" "" (signed int_size) context.uid
    ∷ log_struct "gid" "" (signed int_size) context.gid
    ∷ log_struct "pid" "" (signed int_size) context.pid
    ∷ log_struct "private_data" "" (hexadecimal int_size 8) context.private_data
    ∷ log_struct "logfile" "" (hexadecimal int_size 8) context.logfile
    ∷ (codes "    rootdir = " ++ context.rootdir ++ codes "\n")
    ∷ log_struct "umask" "" (octal int_size 5) context.umask
    ∷ [])

-- struct fuse_conn_info
pub record FuseConnInfo : Type 0 where
  pub proto_major : ℕ
  pub proto_minor : ℕ
  pub async_read : ℕ
  pub max_write : ℕ
  pub max_readahead : ℕ
  pub capable : ℕ
  pub want : ℕ
  pub max_background : ℕ
  pub congestion_threshold : ℕ

unfoldable pub log_conn : FuseConnInfo → Name → Name
log_conn conn = log_msgs (
    codes "    conn:\n"
    ∷ log_struct "proto_major" "" (signed int_size) conn.proto_major
    ∷ log_struct "proto_minor" "" (signed int_size) conn.proto_minor
    ∷ log_struct "async_read" "" (signed int_size) conn.async_read
    ∷ log_struct "max_write" "" (signed int_size) conn.max_write
    ∷ log_struct "max_readahead" "" (signed int_size) conn.max_readahead
    ∷ log_struct "capable" "" (hexadecimal int_size 8) conn.capable
    ∷ log_struct "want" "" (hexadecimal int_size 8) conn.want
    ∷ log_struct "max_background" "" (signed int_size) conn.max_background
    ∷ log_struct "congestion_threshold" "" (signed int_size) conn.congestion_threshold
    ∷ [])

-- struct fuse_file_info
pub record FuseFileInfo : Type 0 where
  pub flags : ℕ
  pub fh_old : ℕ
  pub writepage : ℕ
  pub direct_io : ℕ
  pub keep_cache : ℕ
  pub fh : ℕ
  pub lock_owner : ℕ

unfoldable pub log_fi : FuseFileInfo → Name → Name
log_fi fi = log_msgs (
    codes "    fi:\n"
    ∷ log_struct "flags" "0x" (hexadecimal int_size 8) fi.flags
    ∷ log_struct "fh_old" "0x" (hexadecimal long_size 8) fi.fh_old
    ∷ log_struct "writepage" "" (signed int_size) fi.writepage
    ∷ log_struct "direct_io" "" (signed int_size) fi.direct_io
    ∷ log_struct "keep_cache" "" (signed int_size) fi.keep_cache
    ∷ log_struct "fh" "0x" (hexadecimal long_size 16) fi.fh
    ∷ log_struct "lock_owner" "0x" (hexadecimal long_size 16) fi.lock_owner
    ∷ [])

-- The texts of log_stat, in order. st_atime is st_atim.tv_sec, and so on.
unfoldable pub stat_texts : disk.Stat → List Name
stat_texts si =
    (codes "    si:\n"
      ∷ log_struct "st_dev" "" (signed long_size) si.st_dev
      ∷ log_struct "st_ino" "" (signed long_size) si.st_ino
      ∷ log_struct "st_mode" "0" (octal int_size 0) si.st_mode
      ∷ log_struct "st_nlink" "" (signed int_size) si.st_nlink
      ∷ log_struct "st_uid" "" (signed int_size) si.st_uid
      ∷ log_struct "st_gid" "" (signed int_size) si.st_gid
      ∷ log_struct "st_rdev" "" (signed long_size) si.st_rdev
      ∷ log_struct "st_size" "" (signed long_size) si.st_size
      ∷ log_struct "st_blksize" "" (signed long_size) si.st_blksize
      ∷ log_struct "st_blocks" "" (signed long_size) si.st_blocks
      ∷ log_struct "st_atime" "0x" (hexadecimal long_size 8) si.st_atim.tv_sec
      ∷ log_struct "st_mtime" "0x" (hexadecimal long_size 8) si.st_mtim.tv_sec
      ∷ log_struct "st_ctime" "0x" (hexadecimal long_size 8) si.st_ctim.tv_sec
      ∷ [])

unfoldable pub log_stat : disk.Stat → Name → Name
log_stat si = log_msgs (stat_texts si)

-- struct statvfs
pub record Statvfs : Type 0 where
  pub f_bsize : ℕ
  pub f_frsize : ℕ
  pub f_blocks : ℕ
  pub f_bfree : ℕ
  pub f_bavail : ℕ
  pub f_files : ℕ
  pub f_ffree : ℕ
  pub f_favail : ℕ
  pub f_fsid : ℕ
  pub f_flag : ℕ
  pub f_namemax : ℕ

unfoldable pub log_statvfs : Statvfs → Name → Name
log_statvfs sv = log_msgs (
    codes "    sv:\n"
    ∷ log_struct "f_bsize" "" (signed long_size) sv.f_bsize
    ∷ log_struct "f_frsize" "" (signed long_size) sv.f_frsize
    ∷ log_struct "f_blocks" "" (signed long_size) sv.f_blocks
    ∷ log_struct "f_bfree" "" (signed long_size) sv.f_bfree
    ∷ log_struct "f_bavail" "" (signed long_size) sv.f_bavail
    ∷ log_struct "f_files" "" (signed long_size) sv.f_files
    ∷ log_struct "f_ffree" "" (signed long_size) sv.f_ffree
    ∷ log_struct "f_favail" "" (signed long_size) sv.f_favail
    ∷ log_struct "f_fsid" "" (signed long_size) sv.f_fsid
    ∷ log_struct "f_flag" "0x" (hexadecimal long_size 8) sv.f_flag
    ∷ log_struct "f_namemax" "" (signed long_size) sv.f_namemax
    ∷ [])

-- struct utimbuf
pub record Utimbuf : Type 0 where
  pub actime : ℕ
  pub modtime : ℕ

unfoldable pub log_utime : Utimbuf → Name → Name
log_utime buf = log_msgs (
    codes "    buf:\n"
    ∷ log_struct "actime" "0x" (hexadecimal long_size 8) buf.actime
    ∷ log_struct "modtime" "0x" (hexadecimal long_size 8) buf.modtime
    ∷ [])
