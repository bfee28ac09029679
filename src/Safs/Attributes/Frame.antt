-- ===== src/Safs/Attributes/Frame.antt =====
-- What the handlers on attributes leave alone, whichever calls fail.
use safs.Base.{ℕ, ◌≡◌, arith, Name}
use safs.Posix.{Env, World}
use safs.Posix.Syscalls.{syscalls}
use safs.Posix.Kept.{kept}
use safs.Disk.{Stat, Timespec}
use safs.Safs.Attributes.{safs_chmod, safs_getattr, safs_utimens}
use safs.Safs.Find.Frame.{find_loop-kept}
use safs.Safs.Inode.Frame.{read_inode-kept, write_inode-kept}

module _ (env : Env) (path : Name) where
  pub safs_chmod-kept : (mode : ℕ) (w : World) → kept (safs_chmod env path mode w).1 ≡ kept w
  unfolding safs_chmod syscalls
  safs_chmod-kept mode w = grind (arith, find_loop-kept, read_inode-kept, write_inode-kept)

  pub safs_getattr-kept : (st : Stat) (w : World) → kept (safs_getattr env path st w).1 ≡ kept w
  unfolding safs_getattr syscalls
  safs_getattr-kept st w = grind (arith, find_loop-kept, read_inode-kept, write_inode-kept)

  pub safs_utimens-kept :
      (s t : Timespec) (w : World) → kept (safs_utimens env path s t w).1 ≡ kept w
  unfolding safs_utimens syscalls
  safs_utimens-kept s t w = grind (arith, find_loop-kept, read_inode-kept, write_inode-kept)
