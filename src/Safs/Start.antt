-- ===== src/Safs/Start.antt =====
-- safs_init and main of safs.c.
pub mod Calm
use safs.Base.{
  ℕ, ◌^◌, not, ◌&&◌, ◌||◌, true, false, List, [], ◌∷◌, pos, ℤ, is_neg, ◌==◌, ltb, leb,
  if◌then◌else◌,
}
use safs.Disk.{Dentry}
use safs.Posix.{Env, Cmd, pure, ◌>>=◌, ◌>>◌, errno_result, get_errno, attempt, close}
use safs.Posix.Tables.{live, contents, open_table, open_inodes, read_next}
use safs.Posix.Errno.{eexist}

-- if (dentry.inum > inode_number) inode_number = dentry.inum, for one entry.
unfoldable pub raise_number : ℕ → Cmd (Unit {0})
raise_number inum w =
    if ltb w.inode_number inum
    then (tt, record w { inode_number = inum; outside = leb (2 ^ 31) inum || w.outside })
    else (tt, w)

module _ (env : Env) where
  unfoldable pub number_loop : List Dentry → Cmd (Unit {0})
  number_loop [] = read_next env >> pure tt
  number_loop (dentry ∷ dirs) = do
    got ← read_next env
    if not got then pure tt else raise_number dentry.inum >> number_loop dirs

  -- mkdir of /tmp/safs counts for its result only; its failures are the environment's.
  unfoldable pub safs_init : Cmd ℤ
  safs_init = do
    made ← attempt env false (pure true)
    e ← get_errno
    if not made && not (e == eexist) then errno_result else do
      inodes ← open_inodes env
      if not inodes then errno_result else do
        directory ← open_table env live true
        if not directory
            then errno_result
            else do dirs ← contents live; number_loop dirs; close env; pure (pos 0)

  -- `fuse_main` is the library's loop over the handlers, with its exit status.
  unfoldable pub main : Cmd ℤ → Cmd ℤ
  main fuse_main = do rtn ← safs_init; if is_neg rtn then pure (pos 1) else fuse_main
