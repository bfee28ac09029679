-- ===== src/Safs/Attributes.antt =====
-- safs_getattr, safs_chmod, safs_chown, safs_utimens and safs_setattr of safs.c.
pub mod Calm
pub mod Frame
pub mod RoundTrip
use safs.Base.{
  ℕ, not, false, none, some, pos, neg, ℤ, Name, rest, codes, same_name, blocks_of, bit_or,
  if◌then◌else◌,
}
use safs.Disk.{Stat, Timespec}
use safs.Posix.{Env, Cmd, pure, ◌>>=◌, ◌>>◌, close, clock_gettime}
use safs.Posix.Tables.{live, contents, open_table}
use safs.Posix.Errno.{enoent, eio, s_ifdir}
use safs.Safs.Find.{find_loop}
use safs.Safs.Inode.{read_inode, write_inode}

module _ (env : Env) where
  -- The second result is what `*metadata` holds afterwards.
  unfoldable pub safs_getattr : Name → Stat → Cmd (ℤ × Stat)
  safs_getattr path metadata =
      if same_name path (codes "/")
      then pure (pos 0, record metadata { st_mode = bit_or s_ifdir 0o755; st_nlink = 2 })
      else do
        directory ← open_table env live false
        if not directory then pure (neg eio, metadata) else do
          dirs ← contents live
          found ← find_loop env (rest path) dirs 0
          elim found [
            | none ↦ close env >> pure (neg enoent, metadata)
            | some (index, dentry) ↦ (do
              (rtn, st) ← read_inode env dentry.inum metadata
              close env
              pure (pos 0, record st { st_blocks = blocks_of st.st_size }))
          ]

  unfoldable pub safs_chmod : Name → ℕ → Cmd ℤ
  safs_chmod path mode = do
    fd ← open_table env live false
    if not fd then pure (neg eio) else do
      dirs ← contents live
      found ← find_loop env (rest path) dirs 0
      elim found [
        | none ↦ close env >> pure (neg enoent)
        | some (index, dir) ↦ (do
          (rtn, st) ← read_inode env dir.inum env.junk
          rtn' ← write_inode env dir.inum (record st { st_mode = mode })
          close env
          pure (pos 0))
      ]

  unfoldable pub safs_chown : Name → ℕ → ℕ → Cmd ℤ
  safs_chown path uid gid = pure (pos 0)

  unfoldable pub safs_setattr : Name → Name → Name → ℕ → ℕ → Cmd ℤ
  safs_setattr path name value size flag = pure (pos 0)

  unfoldable pub safs_utimens : Name → Timespec → Timespec → Cmd ℤ
  safs_utimens path atime mtime = do
    fd ← open_table env live false
    if not fd then pure (neg eio) else do
      dirs ← contents live
      found ← find_loop env (rest path) dirs 0
      elim found [
        | none ↦ close env >> pure (neg enoent)
        | some (index, dir) ↦ (do
          (rtn, st) ← read_inode env dir.inum env.junk
          tm ← clock_gettime env
          rtn' ← write_inode env dir.inum (record st { st_atim = atime; st_mtim = mtime })
          close env
          pure (pos 0))
      ]
