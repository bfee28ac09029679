-- ===== src/Bbfs/Handlers.antt =====
-- The handlers of bbfs.c. Beside the result stands what the handler leaves in the caller's buffer,
-- or in fi->fh.
use safs.Base.{
  ℕ, ◌+◌, ◌-◌, ◌%◌, ◌^◌, Bool, false, not, List, [], pos, negsuc, ℤ, is_neg, ◌==◌, Name, take,
  bit_and, if◌then◌else◌,
}
use safs.Posix.Errno.{s_ifmt, s_ifreg}
use safs.Bbfs.{
  Call, lstat, readlink, open_file, close, mkfifo, mknod, mkdir, unlink, rmdir, symlink, rename,
  link, chmod, chown, truncate, utime, statvfs, lsetxattr, lgetxattr, llistxattr, lremovexattr,
  access, Answer, BbCmd, pure, ◌>>=◌, ask, bb_error, bb_fullpath, reported,
}

abbrev pub s_ififo : ℕ
s_ififo = 0o010000

-- O_CREAT | O_EXCL | O_WRONLY
abbrev pub create_flags : ℕ
create_flags = 0o301

abbrev pub is_zero : ℤ → Bool
is_zero (pos n) = n == 0
is_zero (negsuc n) = false

-- What the buffer of readlink holds up to the zero that ends it.
abbrev pub filled : ℤ → List ℕ → List ℕ
filled (pos n) bytes = take n bytes
filled (negsuc n) bytes = bytes

module _ {S : Type 0} (host : Call → S → Answer × S) (rootdir : Name) where
  unfoldable pub bb_getattr : Name → BbCmd S (ℤ × List ℕ)
  bb_getattr path = do
    fpath ← bb_fullpath rootdir path
    a ← ask host (lstat fpath)
    if not (is_zero a.value) then (do e ← bb_error; pure (e, a.bytes)) else pure (a.value, a.bytes)

  unfoldable pub bb_readlink : Name → ℕ → BbCmd S (ℤ × List ℕ)
  bb_readlink path size = do
    fpath ← bb_fullpath rootdir path
    a ← ask host (readlink fpath ((size + 2 ^ 64 - 1) % 2 ^ 64))
    if is_neg a.value
        then (do e ← bb_error; pure (e, a.bytes))
        else pure (pos 0, filled a.value a.bytes)

  unfoldable pub bb_mknod : Name → ℕ → ℕ → BbCmd S (ℤ × List ℕ)
  bb_mknod path mode dev = do
    fpath ← bb_fullpath rootdir path
    if bit_and mode s_ifmt == s_ifreg
        then (do
          a ← ask host (open_file fpath create_flags mode)
          if is_neg a.value then (do e ← bb_error; pure (e, [])) else reported host (close a.value))
        else if bit_and mode s_ifmt == s_ififo
        then reported host (mkfifo fpath mode)
        else reported host (mknod fpath mode dev)

  unfoldable pub bb_mkdir : Name → ℕ → BbCmd S (ℤ × List ℕ)
  bb_mkdir path mode = do fpath ← bb_fullpath rootdir path; reported host (mkdir fpath mode)

  unfoldable pub bb_unlink : Name → BbCmd S (ℤ × List ℕ)
  bb_unlink path = do fpath ← bb_fullpath rootdir path; reported host (unlink fpath)

  unfoldable pub bb_rmdir : Name → BbCmd S (ℤ × List ℕ)
  bb_rmdir path = do fpath ← bb_fullpath rootdir path; reported host (rmdir fpath)

  unfoldable pub bb_symlink : Name → Name → BbCmd S (ℤ × List ℕ)
  bb_symlink path target = do flink ← bb_fullpath rootdir target; reported host (symlink path flink)

  unfoldable pub bb_rename : Name → Name → BbCmd S (ℤ × List ℕ)
  bb_rename path newpath = do
    fpath ← bb_fullpath rootdir path
    fnewpath ← bb_fullpath rootdir newpath
    reported host (rename fpath fnewpath)

  unfoldable pub bb_link : Name → Name → BbCmd S (ℤ × List ℕ)
  bb_link path newpath = do
    fpath ← bb_fullpath rootdir path
    fnewpath ← bb_fullpath rootdir newpath
    reported host (link fpath fnewpath)

  unfoldable pub bb_chmod : Name → ℕ → BbCmd S (ℤ × List ℕ)
  bb_chmod path mode = do fpath ← bb_fullpath rootdir path; reported host (chmod fpath mode)

  unfoldable pub bb_chown : Name → ℕ → ℕ → BbCmd S (ℤ × List ℕ)
  bb_chown path uid gid = do fpath ← bb_fullpath rootdir path; reported host (chown fpath uid gid)

  -- The result of bb_error is dropped.
  unfoldable pub bb_truncate : Name → ℕ → BbCmd S (ℤ × List ℕ)
  bb_truncate path newsize = do
    fpath ← bb_fullpath rootdir path
    a ← ask host (truncate fpath newsize)
    if is_neg a.value then (do e ← bb_error; pure (a.value, a.bytes)) else pure (a.value, a.bytes)

  unfoldable pub bb_utime : Name → ℕ → BbCmd S (ℤ × List ℕ)
  bb_utime path ubuf = do fpath ← bb_fullpath rootdir path; reported host (utime fpath ubuf)

  unfoldable pub bb_statfs : Name → BbCmd S (ℤ × List ℕ)
  bb_statfs path = do fpath ← bb_fullpath rootdir path; reported host (statvfs fpath)

  unfoldable pub bb_setxattr : Name → Name → List ℕ → ℕ → BbCmd S (ℤ × List ℕ)
  bb_setxattr path name value flags = do
    fpath ← bb_fullpath rootdir path
    reported host (lsetxattr fpath name value flags)

  unfoldable pub bb_getxattr : Name → Name → ℕ → BbCmd S (ℤ × List ℕ)
  bb_getxattr path name size = do
    fpath ← bb_fullpath rootdir path
    reported host (lgetxattr fpath name size)

  unfoldable pub bb_listxattr : Name → ℕ → BbCmd S (ℤ × List ℕ)
  bb_listxattr path size = do
    fpath ← bb_fullpath rootdir path
    reported host (llistxattr fpath size)

  unfoldable pub bb_removexattr : Name → Name → BbCmd S (ℤ × List ℕ)
  bb_removexattr path name = do
    fpath ← bb_fullpath rootdir path
    reported host (lremovexattr fpath name)

  unfoldable pub bb_access : Name → ℕ → BbCmd S (ℤ × List ℕ)
  bb_access path mask = do fpath ← bb_fullpath rootdir path; reported host (access fpath mask)
