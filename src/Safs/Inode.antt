-- ===== src/Safs/Inode.antt =====
-- write_inode and read_inode of safs.c.
pub mod Calm
pub mod Frame
use safs.Base.{ℕ, ◌*◌, not, none, some, pos, neg, is_neg, to_int, ℤ, if◌then◌else◌}
use safs.Disk.{Stat}
use safs.Posix.{Env, Cmd, pure, ◌>>=◌, ◌>>◌, get_errno, close}
use safs.Posix.Tables.{lseek, open_inodes, read_stat, write_stat}

-- `rtn` is an `int` that is given the offset that lseek reached.
unfoldable pub write_inode : Env → ℕ → Stat → Cmd ℤ
write_inode env i st = do
  fd ← open_inodes env
  if not fd then pure (neg 1) else do
    sought ← lseek env
    let rtn = if sought then to_int (i * env.sizeof_stat) else neg 1
    if is_neg rtn then close env >> pure rtn else do
      written ← write_stat env i st
      if written then close env >> pure (pos 0) else close env >> pure (neg 1)

-- The second result is what `*metadata` holds afterwards: what it held before, if the read fails.
unfoldable pub read_inode : Env → ℕ → Stat → Cmd (ℤ × Stat)
read_inode env i metadata = do
  fd ← open_inodes env
  if not fd then pure (neg 1, metadata) else do
    sought ← lseek env
    if not sought then (do close env; e ← get_errno; pure (neg e, metadata)) else do
      got ← read_stat env i
      elim got [
        | none ↦ (do close env; e ← get_errno; pure (neg e, metadata))
        | some st ↦ close env >> pure (pos 0, st)
      ]
