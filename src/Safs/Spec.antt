-- ===== src/Safs/Spec.antt =====
-- What safs.c promises, without slots, tables and descriptors: names stand for inodes and data
-- files. Which times a step puts into an inode is left open.
pub mod Step
pub mod View
pub mod Unique
pub mod Sound
pub mod Outcome
pub mod Handlers
pub mod Vacant
pub mod Rename
pub mod Link
pub mod Mknod
pub mod LeftOut
pub mod Beside
pub mod Unlink
pub mod Nothing
pub mod Listing
pub mod Refines
pub mod Boot
use safs.Base.{
  ℕ, ◌+◌, ◌-◌, ◌≢◌, ◌%◌, ◌^◌, ◌≡◌, ◌⊎◌, false, true, Option, none, some, List, [], ◌∷◌, pos, neg, ℤ,
  to_int, off_lt, ◌==◌, Name, rest, codes, same_name, bit_and, length, take, drop, write_at, lookup,
  get_or, if◌then◌else◌,
}
use safs.Disk.{Disk, Dentry, Stat, Timespec, blank_stat}
use safs.Posix.{list_of}
use safs.Posix.Errno.{enoent, eio, eperm, o_trunc, s_ifmt, s_ifreg}
use safs.Safs.Contents.Checks.{refuses}
use safs.Safs.Find.{find_entry}
use safs.Safs.Server.{
  Request, getattr, readdir, open_file, read, write, mknod, setxattr, chmod, chown, utimens,
  truncate, ftruncate, unlink, link, rename,
}
use safs.Safs.Server.Unknown.{subject}

-- The number of the inode that a name stands for, and the name of its data file.
abbrev pub File : Type 0
File = ℕ × Name

pub record Abstract : Type 0 where
  pub names : Name → Option File
  -- A number that no mknod has given out yet has blank attributes.
  pub stats : ℕ → Stat
  pub bytes : Name → Option (List ℕ)

abbrev pub file_of : Option (ℕ × Dentry) → Option File
file_of none = none
file_of (some (index, d)) = some (d.inum, d.storage)

-- What a disk stands for.
abbrev pub view : Disk → Abstract
view disk = record {
  names = λ name. file_of (find_entry name (list_of disk.directory) 0);
  stats = λ i. get_or (list_of disk.inodes) i blank_stat;
  bytes = λ storage. lookup storage disk.data_files;
}

abbrev pub set_stat : ℕ → Stat → Abstract → Abstract
set_stat i st a = record a { stats = λ j. if i == j then st else a.stats j }

abbrev pub set_bytes : Name → List ℕ → Abstract → Abstract
set_bytes s held a = record a { bytes = λ t. if same_name s t then some held else a.bytes t }

-- The name `old` goes over to `new`.
abbrev pub set_name : Name → Name → File → Abstract → Abstract
set_name old new file a = record a {
  names = λ name.
      if same_name new name then some file else if same_name old name then none else a.names name;
}

-- A name comes to be in use.
abbrev pub add_name : Name → File → Abstract → Abstract
add_name new file a = record a {
  names = λ name. if same_name new name then some file else a.names name;
}

-- A name is not in use any more, and no data file has it.
abbrev pub drop_name : Name → Abstract → Abstract
drop_name old a = record a {
  names = λ name. if same_name old name then none else a.names name;
  bytes = λ t. if same_name old t then none else a.bytes t;
}

-- In the state `a` the path names the inode `i` with the attributes `st`, and the data file `s` with
-- the bytes `held`.
abbrev pub Names : Abstract → Name → ℕ → Name → Stat → List ℕ → Type 0
Names a path i s st held =
    (a.names (rest path) ≡ some (i, s)) × (a.stats i ≡ st) × (a.bytes s ≡ some held)
