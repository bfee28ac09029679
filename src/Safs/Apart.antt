-- ===== src/Safs/Apart.antt =====
-- What a disk holds but for one inode and one data file: what the calls for a file leave alone,
-- whichever of them fail.
pub mod Handlers
pub mod Requests
pub mod Spared
use safs.Base.{
  ℕ, ◌≡◌, refl, ap, arith, some, none, List, Name, erase, insert, erase-insert, put_at,
  put_at-put_at,
}
use safs.Disk.{Disk, Stat, blank_stat}
use safs.Posix.{Env, World, list_of}
use safs.Posix.Syscalls.{syscalls}
use safs.Safs.Inode.{read_inode, write_inode}
use safs.Safs.Contents.{read_file, write_file}

unfoldable pub others : ℕ → Name → Disk → Disk
others i s disk = record disk {
  inodes = some (put_at blank_stat i blank_stat (list_of disk.inodes));
  data_files = erase s disk.data_files;
}

module _ (env : Env) (i : ℕ) (s : Name) where
  pub read_inode-others :
      (j : ℕ) (st : Stat) (w : World)
      → others i s (read_inode env j st w).1.disk ≡ others i s w.disk
  unfolding others read_inode syscalls
  read_inode-others j st w = ground arith

  pub write_inode-others :
      (st : Stat) (w : World) → others i s (write_inode env i st w).1.disk ≡ others i s w.disk
  unfolding others write_inode syscalls
  write_inode-others st w =
      ground (arith, put_at-put_at blank_stat i blank_stat st (list_of w.disk.inodes))

  pub read_file-others :
      (size offset : ℕ) (w : World)
      → others i s (read_file env s size offset w).1.disk ≡ others i s w.disk
  unfolding others read_file syscalls
  read_file-others size offset w = ground arith

  pub write_file-others :
      (buf : List ℕ) (size offset : ℕ) (w : World)
      → others i s (write_file env s buf size offset w).1.disk ≡ others i s w.disk
  unfolding others write_file syscalls
  write_file-others buf size offset w = grind (arith, erase-insert)
