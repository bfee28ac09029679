-- ===== src/Ramfs/Refused.antt =====
-- The handlers of fuse-examples/ramfs/fuse-test.cpp that are "not implemented", and those that
-- grant everything.
use safs.Base.{ℕ, ℤ, pos, neg, Name, List}
use safs.Disk.{Stat, Timespec}
use safs.Posix.Errno.{einval}
use safs.Ramfs.{RamCmd, Caller, ramfs_getattr}

unfoldable pub ramfs_fgetattr : Caller → Name → RamCmd (ℤ × Stat)
ramfs_fgetattr caller path files = ramfs_getattr caller path files

unfoldable pub ramfs_opendir : Name → RamCmd ℤ
ramfs_opendir path files = (pos 0, files)

unfoldable pub ramfs_access : Name → ℕ → RamCmd ℤ
ramfs_access path mask files = (pos 0, files)

unfoldable pub ramfs_mknod : Name → ℕ → ℕ → RamCmd ℤ
ramfs_mknod path mode dev files = (neg einval, files)

unfoldable pub ramfs_mkdir : Name → ℕ → RamCmd ℤ
ramfs_mkdir path mode files = (neg einval, files)

unfoldable pub ramfs_rmdir : Name → RamCmd ℤ
ramfs_rmdir path files = (neg einval, files)

unfoldable pub ramfs_symlink : Name → Name → RamCmd ℤ
ramfs_symlink target path files = (neg einval, files)

unfoldable pub ramfs_rename : Name → Name → RamCmd ℤ
ramfs_rename path newpath files = (neg einval, files)

unfoldable pub ramfs_link : Name → Name → RamCmd ℤ
ramfs_link path newpath files = (neg einval, files)

unfoldable pub ramfs_chmod : Name → ℕ → RamCmd ℤ
ramfs_chmod path mode files = (neg einval, files)

unfoldable pub ramfs_chown : Name → ℕ → ℕ → RamCmd ℤ
ramfs_chown path uid gid files = (neg einval, files)

-- The times of `utime` in seconds.
unfoldable pub ramfs_utime : Name → ℕ → ℕ → RamCmd ℤ
ramfs_utime path actime modtime files = (neg einval, files)

unfoldable pub ramfs_utimens : Name → Timespec → Timespec → RamCmd ℤ
ramfs_utimens path atime mtime files = (neg einval, files)

unfoldable pub ramfs_bmap : Name → ℕ → ℕ → RamCmd ℤ
ramfs_bmap path blocksize idx files = (neg einval, files)

unfoldable pub ramfs_setxattr : Name → Name → List ℕ → ℕ → RamCmd ℤ
ramfs_setxattr path name value flags files = (neg einval, files)
