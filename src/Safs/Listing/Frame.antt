-- ===== src/Safs/Listing/Frame.antt =====
-- What safs_readdir leaves alone, whichever calls fail.
use safs.Safs.Inode.{read_inode}
use safs.Base.{◌+◌, ◌≡◌, List, [], ◌∷◌, Name, arith}
use safs.Disk.{Dentry, Stat}
use safs.Posix.{Env, World}
use safs.Posix.Syscalls.{syscalls}
use safs.Posix.Kept.{kept}
use safs.Safs.Inode.Frame.{read_inode-kept}
use safs.Safs.Listing.{readdir_loop, safs_readdir}

module _ (env : Env) where
  readdir_loop-kept :
      (dirs : List Dentry) (stat : Stat) (w : World)
      → kept (readdir_loop env dirs stat w).1 ≡ kept w
  unfolding readdir_loop syscalls
  readdir_loop-kept [] stat w = ground arith
  readdir_loop-kept (dentry ∷ dirs) stat w =
      let v : World = record w { calls = w.calls + 1 } in
      let st = (read_inode env dentry.inum stat v).0.1 in
      let u = (read_inode env dentry.inum stat v).1 in
      ground (
        arith,
        readdir_loop-kept dirs stat v,
        readdir_loop-kept dirs st u,
        read_inode-kept env dentry.inum stat v,
      )

  pub safs_readdir-kept : (path : Name) (w : World) → kept (safs_readdir env path w).1 ≡ kept w
  unfolding safs_readdir syscalls
  safs_readdir-kept path w = grind (arith, readdir_loop-kept)
