-- ===== src/Safs/Attributes/Calm.antt =====
-- The handlers on attributes where no system call fails.
use safs.Base.{◌+◌, ◌≡◌, ℕ, some, arith, pos, Name, codes, same_name, false, blocks_of, put_at}
use safs.Disk.{Dentry, Stat, Timespec, blank_stat}
use safs.Posix.{Env, World, calm}
use safs.Posix.Syscalls.{syscalls}
use safs.Safs.Attributes.{safs_chmod, safs_getattr, safs_utimens}
use safs.Safs.Inode.Calm.{read_inode-calm, write_inode-calm}
use safs.Safs.Named.{IsNamed, searched, find_loop-named}

module _ (env : Env) (path : Name) (w : World) {dir : Dentry} {st : Stat}
    (f : IsNamed env w.disk path dir st) where
  abbrev here : World
  here = searched env path w f

  pub safs_getattr-calm :
      (metadata : Stat)
      → same_name path (codes "/") ≡ false
      → (safs_getattr (calm env) path metadata w).0
        ≡ (pos 0, record st { st_blocks = blocks_of st.st_size })
  unfolding safs_getattr syscalls
  safs_getattr-calm metadata below = ground (
    arith,
    f.has_directory,
    find_loop-named env path w f,
    read_inode-calm env dir.inum metadata here f.inodes f.has_inodes st f.inode,
  )

  pub safs_chmod-calm :
      (mode : ℕ)
      → ((safs_chmod (calm env) path mode w).0 ≡ pos 0)
        × ((safs_chmod (calm env) path mode w).1.disk ≡ record w.disk {
          inodes = some (put_at blank_stat dir.inum (record st { st_mode = mode }) f.inodes);
        })
  unfolding safs_chmod syscalls
  safs_chmod-calm mode =
      let v : World = record here { calls = here.calls + 4 } in
      ground (
        arith,
        f.has_directory,
        find_loop-named env path w f,
        read_inode-calm env dir.inum env.junk here f.inodes f.has_inodes st f.inode,
        write_inode-calm env dir.inum (record st { st_mode = mode }) v f.inodes f.has_inodes f.fits,
      )

  pub safs_utimens-calm :
      (s t : Timespec)
      → ((safs_utimens (calm env) path s t w).0 ≡ pos 0)
        × ((safs_utimens (calm env) path s t w).1.disk ≡ record w.disk {
          inodes =
              some (put_at blank_stat dir.inum (record st { st_atim = s; st_mtim = t }) f.inodes);
        })
  unfolding safs_utimens syscalls
  safs_utimens-calm s t =
      let v : World = record here { calls = here.calls + 4 + 1 } in
      ground (
        arith,
        f.has_directory,
        find_loop-named env path w f,
        read_inode-calm env dir.inum env.junk here f.inodes f.has_inodes st f.inode,
        write_inode-calm env dir.inum (record st { st_atim = s; st_mtim = t }) v f.inodes
            f.has_inodes f.fits,
      )
