-- ===== src/Posix/Kept.antt =====
-- The part of a world that a handler leaves alone if it changes no name: the two tables of
-- entries, the inode counter and the number of open descriptors.
use safs.Base.{ℕ, Option, List}
use safs.Disk.{Dentry}
use safs.Posix.{World}

pub record Kept : Type 0 where
  pub directory : Option (List Dentry)
  pub tmp_directory : Option (List Dentry)
  pub inode_number : ℕ
  pub fds : ℕ

abbrev pub kept : World → Kept
kept w = record {
  directory = w.disk.directory;
  tmp_directory = w.disk.tmp_directory;
  inode_number = w.inode_number;
  fds = w.fds;
}
