-- ===== src/Safs/Contents/Frame.antt =====
-- What the handlers on contents leave alone, whichever calls fail.
use safs.Base.{ℕ, ◌≡◌, refl, arith, Name, List, [], ◌∷◌, Bool, true, false}
use safs.Posix.{Env, World}
use safs.Posix.Syscalls.{syscalls}
use safs.Posix.Kept.{kept}
use safs.Safs.Contents.{
  read_file, write_file, extend, safs_open, safs_read, safs_write, safs_ftruncate,
}
use safs.Safs.Find.Frame.{find_loop-kept}
use safs.Safs.Inode.Frame.{read_inode-kept, write_inode-kept}

module _ (env : Env) where
  read_file-kept :
      (storage : Name) (size offset : ℕ) (w : World)
      → kept (read_file env storage size offset w).1 ≡ kept w
  unfolding read_file syscalls
  read_file-kept storage size offset w = ground arith

  write_file-kept :
      (storage : Name) (buf : List ℕ) (size offset : ℕ) (w : World)
      → kept (write_file env storage buf size offset w).1 ≡ kept w
  unfolding write_file syscalls
  write_file-kept storage buf size offset w = ground arith

  ruleset frames =
      (arith, find_loop-kept, read_inode-kept, write_inode-kept, read_file-kept, write_file-kept)

  pub safs_open-kept :
      (path : Name) (flags : ℕ) (w : World) → kept (safs_open env path flags w).1 ≡ kept w
  unfolding safs_open syscalls
  safs_open-kept path flags w = grind frames

  pub safs_read-kept :
      (path : Name) (size offset : ℕ) (w : World)
      → kept (safs_read env path size offset w).1 ≡ kept w
  unfolding safs_read syscalls
  safs_read-kept path size offset w = grind frames

  pub safs_write-kept :
      (path : Name) (buf : List ℕ) (size offset : ℕ) (w : World)
      → kept (safs_write env path buf size offset w).1 ≡ kept w
  unfolding safs_write syscalls
  safs_write-kept path buf size offset w = grind frames

  extend-kept :
      (grows : Bool) (path : Name) (off : ℕ) (w : World)
      → kept (extend env grows path off w).1 ≡ kept w
  unfolding extend syscalls
  extend-kept false path off w = refl
  extend-kept true path off w = safs_write-kept path (0 ∷ []) 1 off w

  pub safs_ftruncate-kept :
      (path : Name) (off : ℕ) (w : World) → kept (safs_ftruncate env path off w).1 ≡ kept w
  unfolding safs_ftruncate syscalls
  safs_ftruncate-kept path off w = grind (frames, extend-kept)
