-- ===== src/Safs/Inode/Frame.antt =====
-- What read_inode and write_inode leave alone, whichever of their calls fail.
use safs.Base.{ℕ, ◌≡◌, arith}
use safs.Disk.{Stat}
use safs.Posix.{Env, World}
use safs.Posix.Syscalls.{syscalls}
use safs.Posix.Kept.{kept}
use safs.Safs.Inode.{read_inode, write_inode}

module _ (env : Env) (i : ℕ) (st : Stat) (w : World) where
  pub read_inode-kept : kept (read_inode env i st w).1 ≡ kept w
  unfolding read_inode syscalls
  read_inode-kept = ground arith

  pub write_inode-kept : kept (write_inode env i st w).1 ≡ kept w
  unfolding write_inode syscalls
  write_inode-kept = ground arith
