-- ===== src/Safs/Contents/Checks.antt =====
-- The checks of safs_open, and the cases of safs_ftruncate, where no system call fails.
use safs.Base.{
  ◌+◌, ◌≡◌, ℕ, ◌&&◌, not, ◌==◌, Bool, some, arith, pos, neg, Name, bit_and, bit_and-zero, put_at,
  if◌then◌else◌,
}
use safs.Disk.{Disk, Dentry, Stat, blank_stat}
use safs.Posix.{Env, World, calm}
use safs.Posix.Syscalls.{syscalls}
use safs.Posix.Errno.{eperm, o_wronly, o_trunc}
use safs.Safs.Contents.{safs_open}
use safs.Safs.Inode.Calm.{read_inode-calm, write_inode-calm}
use safs.Safs.Named.{IsNamed, searched, find_loop-named}

-- What open refuses: to open for writing only what nobody may write.
abbrev pub refuses : ℕ → Stat → Bool
refuses flags st = not (bit_and flags o_wronly == 0) && (bit_and st.st_mode 0o222 == 0)

module _ (env : Env) (path : Name) (w : World) {dir : Dentry} {st : Stat}
    (f : IsNamed env w.disk path dir st) (flags : ℕ) where
  abbrev here : World
  here = searched env path w f

  abbrev pub opened_disk : Disk
  opened_disk =
      if refuses flags st
      then w.disk
      else if bit_and flags o_trunc == 0
      then w.disk
      else record w.disk {
        inodes = some (put_at blank_stat dir.inum (record st { st_size = 0 }) f.inodes);
      }

  -- Where no system call fails and `path` names a file, open refuses with -EPERM, and changes
  -- nothing, exactly if the flags ask for O_WRONLY and the mode has no write bit; else the
  -- result is 0, and the size of the inode is set to 0 if the flags have O_TRUNC, and the disk
  -- is as before if not.
  pub safs_open-calm :
      ((safs_open (calm env) path flags w).0 ≡ (if refuses flags st then neg eperm else pos 0))
      × ((safs_open (calm env) path flags w).1.disk ≡ opened_disk)
  unfolding safs_open syscalls
  safs_open-calm =
      let v : World = record here { calls = here.calls + 4 } in
      ground (
        arith,
        f.has_directory,
        find_loop-named env path w f,
        bit_and-zero flags,
        read_inode-calm env dir.inum env.junk here f.inodes f.has_inodes st f.inode,
        write_inode-calm env dir.inum (record st { st_size = 0 }) v f.inodes f.has_inodes f.fits,
      )
