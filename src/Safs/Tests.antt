-- ===== src/Safs/Tests.antt =====
-- A disk with two files, and the theorems on the handlers of safs.c at work on it.
mod Contents
mod Creating
mod Linking
mod Renaming
mod Unlinking
mod Requests
mod Stored
mod Steps
mod Boot
mod Apart
use safs.Base.{
  length, ℕ, ◌*◌, ◌<◌, ◌^◌, ◌==◌, ◌≡◌, refl, false, none, some, [], ◌∷◌, List, arith, codes,
  same_name, lookup, Name, rest, if◌then◌else◌, get_elem?,
}
use safs.Disk.{Disk, Stat, Dentry, blank_stat, blank_dentry, epoch}
use safs.Posix.{Env, World}
use safs.Posix.Data.{is_table}
use safs.Safs.Find.{find_entry, matches}
use safs.Safs.Named.{IsNamed}
use safs.Safs.Numbers.{IsFresh}

abbrev pub quiet_day : Env
quiet_day = record {
  fault = λ n. none;
  now = λ n. record { tv_sec = n; tv_nsec = 0 };
  uid = 1000;
  gid = 1000;
  junk = blank_stat;
  sizeof_stat = 144;
}

-- An environment in which the eighth system call fails with EIO.
abbrev pub bad_day : Env
bad_day = record quiet_day { fault = λ n. if n == 7 then some 5 else none }

abbrev pub entry_a : Dentry
entry_a = record { name = codes "a"; storage = codes "a"; inum = 1 }

abbrev pub entry_b : Dentry
entry_b = record { name = codes "b"; storage = codes "b"; inum = 2 }

abbrev pub stat_a : Stat
stat_a = record blank_stat { st_ino = 1; st_mode = 0o100644; st_nlink = 1; st_size = 3 }

abbrev pub stat_b : Stat
stat_b = record blank_stat { st_ino = 2; st_mode = 0o100400; st_nlink = 1; st_size = 1 }

abbrev pub two_entries : List Dentry
two_entries = blank_dentry ∷ entry_a ∷ entry_b ∷ []

abbrev pub two_inodes : List Stat
two_inodes = blank_stat ∷ stat_a ∷ stat_b ∷ []

abbrev pub two_files : World
two_files = record {
  disk = record {
    directory = some two_entries;
    tmp_directory = none;
    inodes = some two_inodes;
    data_files = (codes "a", 1 ∷ 2 ∷ 3 ∷ []) ∷ (codes "b", 7 ∷ []) ∷ [];
  };
  inode_number = 3;
  fds = 0;
  errno = 0;
  calls = 0;
  outside = false;
}

pub fits_a : 1 * 144 < 2 ^ 31
fits_a = omega arith

pub fits_b : 2 * 144 < 2 ^ 31
fits_b = omega arith

pub found_a : find_entry (codes "a") two_entries 0 ≡ some (1, entry_a)
unfolding find_entry matches same_name
found_a = refl

abbrev pub named_a : IsNamed quiet_day two_files.disk (codes "/a") entry_a stat_a
named_a = record {
  dirs = two_entries;
  index = 1;
  inodes = two_inodes;
  has_directory = refl;
  has_inodes = refl;
  found = found_a;
  inode = refl;
  fits = fits_a;
}

pub found_b : find_entry (codes "b") two_entries 0 ≡ some (2, entry_b)
unfolding find_entry matches same_name
found_b = refl

abbrev pub named_b : IsNamed quiet_day two_files.disk (codes "/b") entry_b stat_b
named_b = record {
  dirs = two_entries;
  index = 2;
  inodes = two_inodes;
  has_directory = refl;
  has_inodes = refl;
  found = found_b;
  inode = refl;
  fits = fits_b;
}

pub plain_a : is_table (codes "a") ≡ false
unfolding is_table same_name
plain_a = refl

pub plain_b : is_table (codes "b") ≡ false
unfolding is_table same_name
plain_b = refl

pub plain_c : is_table (codes "c") ≡ false
unfolding is_table same_name
plain_c = refl

pub stored_a : lookup (codes "a") two_files.disk.data_files ≡ some (1 ∷ 2 ∷ 3 ∷ [])
unfolding lookup same_name
stored_a = refl

pub stored_b : lookup (codes "b") two_files.disk.data_files ≡ some (7 ∷ [])
unfolding lookup same_name
stored_b = refl

pub unused_c : find_entry (codes "c") two_entries 0 ≡ none
unfolding find_entry matches same_name
unused_c = refl

pub below_a : same_name (codes "/a") (codes "/") ≡ false
unfolding same_name
below_a = refl

pub below_b : same_name (codes "/b") (codes "/") ≡ false
unfolding same_name
below_b = refl

pub below_c : same_name (codes "/c") (codes "/") ≡ false
unfolding same_name
below_c = refl

pub two_files-IsFresh : IsFresh two_files
two_files-IsFresh = record {
  number = refl;
  positive = ground arith;
  listed = ground arith;
  parked = tt;
}

pub short_c : length (codes "c") < 32
short_c = omega arith
