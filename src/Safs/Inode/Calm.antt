-- ===== src/Safs/Inode/Calm.antt =====
-- read_inode and write_inode where no system call fails.
use safs.Base.{ℕ, ◌+◌, ◌*◌, ◌<◌, ◌^◌, ◌≡◌, List, some, arith, pos, to_int, put_at, get_elem?}
use safs.Disk.{Stat, blank_stat}
use safs.Posix.{Env, World, calm}
use safs.Posix.Syscalls.{syscalls}
use safs.Safs.Inode.{read_inode, write_inode}

module _ (env : Env) (i : ℕ) (st : Stat) (w : World) (is : List Stat)
    (table : w.disk.inodes ≡ some is) where
  pub read_inode-calm :
      (found : Stat)
      → get_elem? is i ≡ some found
      → read_inode (calm env) i st w ≡ ((pos 0, found), record w { calls = w.calls + 4 })
  unfolding read_inode syscalls
  read_inode-calm found e = ground arith

  pub write_inode-calm :
      i * env.sizeof_stat < 2 ^ 31
      → write_inode (calm env) i st w ≡ (
        pos 0,
        record w {
          disk = record w.disk { inodes = some (put_at blank_stat i st is) };
          calls = w.calls + 4;
        },
      )
  unfolding write_inode to_int syscalls
  write_inode-calm fits = ground arith
