-- ===== src/Posix/Tables.antt =====
-- The calls on the two files of directory entries and on the file of inodes.
use safs.Base.{ℕ, Bool, true, false, Option, none, some, List, [], if◌then◌else◌, get_elem?, put_at}
use safs.Disk.{Stat, Dentry, Disk, blank_dentry, blank_stat}
use safs.Posix.{Env, Cmd, pure, ◌>>◌, set_disk, attempt, list_of, opened, missing}

-- The two files of directory entries: Directory~ and .Directory~.
pub data Table : Type 0 where
  live temporary : Table

abbrev pub entries : Table → Disk → Option (List Dentry)
entries live d = d.directory
entries temporary d = d.tmp_directory

abbrev pub set_entries : Table → Option (List Dentry) → Disk → Disk
set_entries live es d = record d { directory = es }
set_entries temporary es d = record d { tmp_directory = es }

-- The records that the loop over a table reads.
unfoldable pub contents : Table → Cmd (List Dentry)
contents t w = (list_of (entries t w.disk), w)

-- open of a table with O_RDWR, and with O_CREAT if `creat`.
unfoldable pub open_table : Env → Table → Bool → Cmd Bool
unfolding attempt
open_table env t creat = attempt env false λ w. elim (entries t w.disk) [
  | some es ↦ opened w
  | none ↦ if creat then (set_disk (set_entries t (some []) w.disk) >> opened) w else missing w
]

-- lseek to a record or a byte; its result only says whether it failed.
unfoldable pub lseek : Env → Cmd Bool
unfolding attempt
lseek env = attempt env false (pure true)

-- read of the next whole record of a table that has one more; its result only says whether it
-- failed.
unfoldable pub read_next : Env → Cmd Bool
unfolding attempt
read_next env = attempt env false (pure true)

-- write of one record at slot `i`. A table that has been unlinked meanwhile is written in vain.
unfoldable pub write_dentry : Env → Table → ℕ → Dentry → Cmd Bool
unfolding attempt
write_dentry env t i d = attempt env false λ w. elim (entries t w.disk) [
  | some es ↦ (set_disk (set_entries t (some (put_at blank_dentry i d es)) w.disk) >> pure true) w
  | none ↦ (true, w)
]

unfoldable pub open_inodes : Env → Cmd Bool
unfolding attempt
open_inodes env = attempt env false λ w. elim w.disk.inodes [
  | some is ↦ opened w
  | none ↦ (set_disk (record w.disk { inodes = some [] }) >> opened) w
]

-- read of the inode at slot `i`; nothing where the file ends before.
unfoldable pub read_stat : Env → ℕ → Cmd (Option Stat)
unfolding attempt
read_stat env i = attempt env none λ w. (get_elem? (list_of w.disk.inodes) i, w)

unfoldable pub write_stat : Env → ℕ → Stat → Cmd Bool
unfolding attempt
write_stat env i st = attempt env false λ w. elim w.disk.inodes [
  | some is ↦
      (set_disk (record w.disk { inodes = some (put_at blank_stat i st is) }) >> pure true) w
  | none ↦ (true, w)
]

-- rename(directory_path, tmp_directory_path)
unfoldable pub rename_directory : Env → Cmd Bool
unfolding attempt
rename_directory env = attempt env false λ w. elim w.disk.directory [
  | none ↦ missing w
  | some es ↦
      (set_disk (record w.disk { directory = none; tmp_directory = some es }) >> pure true) w
]
