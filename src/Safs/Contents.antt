-- ===== src/Safs/Contents.antt =====
-- safs_open, safs_read, safs_write, safs_truncate and safs_ftruncate of safs.c.
pub mod Calm
pub mod Checks
pub mod Resize
pub mod RoundTrip
pub mod Frame
use safs.Base.{
  ℕ, ◌+◌, ◌%◌, ◌^◌, ◌&&◌, not, Bool, true, false, none, some, List, [], ◌∷◌, pos, neg, ℤ, to_int,
  off_lt, ◌==◌, Name, rest, bit_and, length, take, if◌then◌else◌,
}
use safs.Posix.{Env, Cmd, pure, ◌>>=◌, ◌>>◌, mark_outside, close, clock_gettime}
use safs.Posix.Tables.{live, contents, lseek, open_table}
use safs.Posix.Data.{open_data, read_data, write_data, full_path}
use safs.Posix.Errno.{enoent, eio, eperm, o_rdonly, o_wronly, o_trunc}
use safs.Safs.Find.{find_loop}
use safs.Safs.Inode.{read_inode, write_inode}

module _ (env : Env) where
  -- `flags` is fi->flags
  unfoldable pub safs_open : Name → ℕ → Cmd ℤ
  safs_open path flags = do
    directory ← open_table env live false
    if not directory then pure (neg eio) else do
      dirs ← contents live
      found ← find_loop env (rest path) dirs 0
      elim found [
        | none ↦ close env >> pure (neg enoent)
        | some (index, dentry) ↦ (do
          (rtn, metadata) ← read_inode env dentry.inum env.junk
          if not (bit_and flags o_rdonly == 0) && (bit_and metadata.st_mode 0o444 == 0)
              then close env >> pure (neg eperm)
              else if not (bit_and flags o_wronly == 0) && (bit_and metadata.st_mode 0o222 == 0)
              then close env >> pure (neg eperm)
              else if not (bit_and flags o_trunc == 0)
              then (do
                rtn' ← write_inode env dentry.inum (record metadata { st_size = 0 })
                close env
                pure (pos 0))
              else close env >> pure (pos 0))
      ]

  -- The end of safs_read, from the copy of the path on. A storage that is the name of a table sets
  -- `outside`, since its records have no bytes here. A read that fails returns -1, and the
  -- memcpy of -1 bytes that follows it is outside of the model.
  unfoldable pub read_file : Name → ℕ → ℕ → Cmd (ℤ × List ℕ)
  read_file storage size offset = do
    file_path ← full_path storage
    fd ← open_data env file_path
    if not fd then pure (neg eio, []) else do
      sought ← lseek env
      got ← read_data env file_path (if sought then offset else 0) size
      elim got [
        | none ↦ mark_outside true >> close env >> pure (neg 1, [])
        | some bytes ↦ close env >> pure (to_int (length bytes), bytes)
      ]

  -- The end of safs_write, from the copy of the path on. A storage that is the name of a table sets
  -- `outside`: what the bytes make of the table is not modelled.
  unfoldable pub write_file : Name → List ℕ → ℕ → ℕ → Cmd ℤ
  write_file storage buf size offset = do
    file_path ← full_path storage
    fd ← open_data env file_path
    if not fd then pure (neg eio) else do
      sought ← lseek env
      written ← write_data env file_path (if sought then offset else 0) (take size buf)
      close env
      pure (if written then to_int size else neg 1)

  -- The second result is what the call leaves in `buf`.
  unfoldable pub safs_read : Name → ℕ → ℕ → Cmd (ℤ × List ℕ)
  safs_read path size offset = do
    fd ← open_table env live false
    if not fd then pure (neg eio, []) else do
      dirs ← contents live
      found ← find_loop env (rest path) dirs 0
      elim found [
        | none ↦ close env >> pure (neg enoent, [])
        | some (index, dir) ↦ (do
          close env
          (rtn, st) ← read_inode env dir.inum env.junk
          atime ← clock_gettime env
          rtn' ← write_inode env dir.inum (record st { st_atim = atime })
          read_file dir.storage size offset)
      ]

  -- `buf` holds at least `size` bytes
  unfoldable pub safs_write : Name → List ℕ → ℕ → ℕ → Cmd ℤ
  safs_write path buf size offset = do
    fd ← open_table env live false
    if not fd then pure (neg eio) else do
      dirs ← contents live
      found ← find_loop env (rest path) dirs 0
      elim found [
        | none ↦ close env >> pure (neg enoent)
        | some (index, dir) ↦ (do
          close env
          (rtn, st) ← read_inode env dir.inum env.junk
          atime ← clock_gettime env
          mtime ← clock_gettime env
          rtn' ←
              write_inode env dir.inum
                (record st { st_size = (offset + size) % 2 ^ 64; st_atim = atime; st_mtim = mtime })
          write_file dir.storage buf size offset)
      ]

  -- if (st.st_size < off) safs_write(path, &ch, 1, off, fi)
  unfoldable pub extend : Bool → Name → ℕ → Cmd ℤ
  extend false path off = pure (pos 0)
  extend true path off = safs_write path (0 ∷ []) 1 off

  unfoldable pub safs_ftruncate : Name → ℕ → Cmd ℤ
  safs_ftruncate path off = do
    fd ← open_table env live false
    if not fd then pure (neg eio) else do
      dirs ← contents live
      found ← find_loop env (rest path) dirs 0
      elim found [
        | none ↦ close env >> pure (neg enoent)
        | some (index, dir) ↦ (do
          (rtn, st) ← read_inode env dir.inum env.junk
          if st.st_size == off then close env >> pure (pos 0) else do
            extended ← extend (off_lt st.st_size off) path off
            rtn' ← write_inode env dir.inum (record st { st_size = off })
            close env
            pure (pos 0))
      ]

  unfoldable pub safs_truncate : Name → ℕ → Cmd ℤ
  safs_truncate path off = safs_ftruncate path off
