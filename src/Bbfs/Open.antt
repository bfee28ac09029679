-- ===== src/Bbfs/Open.antt =====
-- The handlers of bbfs.c on open files and directories. They use fi->fh, here `fh`, and leave it in
-- the second result where they set it.
use safs.Base.{ℕ, Bool, List, pos, ℤ, is_neg, Name, codes, same_name, if◌then◌else◌}
use safs.Bbfs.{
  Call, open_file, close, pread, pwrite, fdatasync, fsync, opendir, closedir, creat, ftruncate,
  fstat, Answer, BbCmd, pure, ◌>>=◌, ask, bb_error, bb_fullpath, reported,
}
use safs.Bbfs.Handlers.{bb_getattr}

module _ {S : Type 0} (host : Call → S → Answer × S) (rootdir : Name) where
  -- fd = …; if (fd < 0) retstat = bb_error(…); fi->fh = fd
  unfoldable pub handle : Call → BbCmd S (ℤ × ℤ)
  handle c = do
    a ← ask host c
    if is_neg a.value then (do e ← bb_error; pure (e, a.value)) else pure (pos 0, a.value)

  unfoldable pub bb_open : Name → ℕ → BbCmd S (ℤ × ℤ)
  bb_open path flags = do fpath ← bb_fullpath rootdir path; handle (open_file fpath flags 0)

  -- dp = opendir(…); a failure, here a negative answer, is the null pointer, which fi->fh gets too.
  unfoldable pub bb_opendir : Name → BbCmd S (ℤ × ℤ)
  bb_opendir path = do
    fpath ← bb_fullpath rootdir path
    a ← ask host (opendir fpath)
    if is_neg a.value then (do e ← bb_error; pure (e, pos 0)) else pure (pos 0, a.value)

  unfoldable pub bb_create : Name → ℕ → BbCmd S (ℤ × ℤ)
  bb_create path mode = do fpath ← bb_fullpath rootdir path; handle (creat fpath mode)

  unfoldable pub bb_read : ℤ → ℕ → ℕ → BbCmd S (ℤ × List ℕ)
  bb_read fh size offset = reported host (pread fh size offset)

  unfoldable pub bb_write : ℤ → List ℕ → ℕ → BbCmd S (ℤ × List ℕ)
  bb_write fh buf offset = reported host (pwrite fh buf offset)

  unfoldable pub bb_flush : ℤ → BbCmd S ℤ
  bb_flush fh = pure (pos 0)

  unfoldable pub bb_release : ℤ → BbCmd S ℤ
  bb_release fh = do a ← ask host (close fh); pure a.value

  -- `has_fdatasync` is HAVE_FDATASYNC. The result of bb_error is dropped.
  unfoldable pub bb_fsync : Bool → Bool → ℤ → BbCmd S ℤ
  bb_fsync has_fdatasync datasync fh = do
    a ← ask host (if has_fdatasync then (if datasync then fdatasync fh else fsync fh) else fsync fh)
    if is_neg a.value then (do e ← bb_error; pure a.value) else pure a.value

  unfoldable pub bb_releasedir : ℤ → BbCmd S ℤ
  bb_releasedir fh = do a ← ask host (closedir fh); pure (pos 0)

  unfoldable pub bb_fsyncdir : ℤ → BbCmd S ℤ
  bb_fsyncdir fh = pure (pos 0)

  unfoldable pub bb_ftruncate : ℤ → ℕ → BbCmd S (ℤ × List ℕ)
  bb_ftruncate fh offset = reported host (ftruncate fh offset)

  unfoldable pub bb_fgetattr : Name → ℤ → BbCmd S (ℤ × List ℕ)
  bb_fgetattr path fh =
      if same_name path (codes "/") then bb_getattr host rootdir path else reported host (fstat fh)
