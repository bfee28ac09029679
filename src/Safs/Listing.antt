-- ===== src/Safs/Listing.antt =====
-- safs_readdir of safs.c. The calls of the callback `filler` are the second result, in order.
pub mod Calm
pub mod Frame
use safs.Base.{
  not, Option, none, some, List, [], ◌∷◌, pos, neg, ℤ, ◌==◌, Name, codes, same_name, false,
  if◌then◌else◌,
}
use safs.Disk.{Dentry, Stat}
use safs.Posix.{Env, Cmd, pure, ◌>>=◌, ◌>>◌, close}
use safs.Posix.Tables.{live, contents, open_table, read_next}
use safs.Posix.Errno.{enoent, eio}
use safs.Safs.Inode.{read_inode}

-- filler(buf, name, stat, 0); the directory's own entries come without attributes.
abbrev pub Filled : Type 0
Filled = Name × Option Stat

module _ (env : Env) where
  -- `stat` is the local that read_inode fills.
  unfoldable pub readdir_loop : List Dentry → Stat → Cmd (List Filled)
  readdir_loop [] stat = read_next env >> pure []
  readdir_loop (dentry ∷ dirs) stat = do
    got ← read_next env
    if not got then pure [] else if dentry.inum == 0 then readdir_loop dirs stat else do
      (rtn, stat') ← read_inode env dentry.inum stat
      later ← readdir_loop dirs stat'
      pure ((dentry.name, some stat') ∷ later)

  unfoldable pub safs_readdir : Name → Cmd (ℤ × List Filled)
  safs_readdir path = if not (same_name path (codes "/")) then pure (neg enoent, []) else do
    directory ← open_table env live false
    if not directory then pure (neg eio, []) else do
      dirs ← contents live
      filled ← readdir_loop dirs env.junk
      close env
      pure (pos 0, (codes ".", none) ∷ (codes "..", none) ∷ filled)
