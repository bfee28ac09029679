-- ===== src/Disk.antt =====
-- What safs.c keeps under /tmp/safs: the table of directory entries (Directory~, and .Directory~
-- while unlink runs), the table of inodes (Inodes~), and one data file for each created name.
-- The tables are lists of whole records, since safs reads and writes them by whole records only.
use safs.Base.{ℕ, List, [], Option, Name, codes}

-- struct timespec
pub record Timespec : Type 0 where
  pub tv_sec : ℕ
  pub tv_nsec : ℕ

-- struct stat
pub record Stat : Type 0 where
  pub st_dev : ℕ
  pub st_ino : ℕ
  pub st_mode : ℕ
  pub st_nlink : ℕ
  pub st_uid : ℕ
  pub st_gid : ℕ
  pub st_rdev : ℕ
  pub st_size : ℕ
  pub st_blksize : ℕ
  pub st_blocks : ℕ
  pub st_atim : Timespec
  pub st_mtim : Timespec
  pub st_ctim : Timespec

-- struct safs_dir_entry and struct safs_dentry, which are the same; the two arrays as C strings.
pub record Dentry : Type 0 where
  pub name : Name
  pub storage : Name
  pub inum : ℕ

-- What the zero bytes of a gap read as.
abbrev pub epoch : Timespec
epoch = record { tv_sec = 0; tv_nsec = 0 }

abbrev pub blank_stat : Stat
blank_stat = record {
  st_dev = 0;
  st_ino = 0;
  st_mode = 0;
  st_nlink = 0;
  st_uid = 0;
  st_gid = 0;
  st_rdev = 0;
  st_size = 0;
  st_blksize = 0;
  st_blocks = 0;
  st_atim = epoch;
  st_mtim = epoch;
  st_ctim = epoch;
}

abbrev pub blank_dentry : Dentry
blank_dentry = record { name = []; storage = []; inum = 0 }

-- `none` is a table whose file does not exist.
pub record Disk : Type 0 where
  pub directory : Option (List Dentry)
  pub tmp_directory : Option (List Dentry)
  pub inodes : Option (List Stat)
  pub data_files : List (Name × List ℕ)

-- The names of the tables below safs_path, as inodes_path, directory_path and
-- tmp_directory_path spell them.
abbrev pub inodes_name : Name
inodes_name = codes "Inodes~"

abbrev pub directory_name : Name
directory_name = codes "Directory~"

abbrev pub tmp_directory_name : Name
tmp_directory_name = codes ".Directory~"
