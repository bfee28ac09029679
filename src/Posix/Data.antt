-- ===== src/Posix/Data.antt =====
-- The calls on data files, and the paths to files that safs.c builds.
use safs.Base.{
  ℕ, ◌+◌, Bool, true, false, ◌||◌, Option, none, some, List, [], Name, if◌then◌else◌, same_name,
  has_byte, codes, leb, length, drop, write_at, take, lookup, insert, erase,
}
use safs.Disk.{Disk, inodes_name, directory_name, tmp_directory_name}
use safs.Posix.{Env, Cmd, pure, ◌>>◌, mark_outside, set_disk, attempt, list_of, opened, missing}

-- strcpy into a char[32].
unfoldable pub strcpy_name : Name → Cmd Name
strcpy_name s = mark_outside (leb 32 (length s)) >> pure s

abbrev pub safs_path : Name
safs_path = codes "/tmp/safs/"

-- strcpy(filePath, safs_path); strcat(filePath, name), into a char[80]. The result is the name
-- below safs_path, which has to be the name of a file there.
unfoldable pub full_path : Name → Cmd Name
full_path s =
    mark_outside (
      leb 80 (length safs_path + length s)
      || same_name s []
      || same_name s (codes ".")
      || same_name s (codes "..")
      || has_byte b'/' s)
    >> pure s

unfoldable pub is_table : Name → Bool
is_table s = same_name s directory_name || same_name s tmp_directory_name || same_name s inodes_name

-- open of a data file for its bytes. To open a table so is outside of the model.
unfoldable pub open_data : Env → Name → Cmd Bool
unfolding attempt
open_data env s = attempt env false λ w.
    if is_table s
    then (mark_outside true >> opened) w
    else elim (lookup s w.disk.data_files) [ some bytes ↦ opened w | none ↦ missing w ]

-- The file `s` as open with O_CREAT and O_TRUNC leaves it: empty.
unfoldable pub truncated : Name → Disk → Disk
truncated s d =
    if same_name s directory_name
    then record d { directory = some [] }
    else if same_name s tmp_directory_name
    then record d { tmp_directory = some [] }
    else if same_name s inodes_name
    then record d { inodes = some [] }
    else record d { data_files = insert s [] d.data_files }

-- open with O_CREAT|O_TRUNC|O_RDONLY
unfoldable pub create_data : Env → Name → Cmd Bool
unfolding attempt
create_data env s = attempt env false λ w. (set_disk (truncated s w.disk) >> opened) w

-- unlink of the file `s` below safs_path
unfoldable pub unlink_file : Env → Name → Cmd Bool
unfolding attempt
unlink_file env s = attempt env false λ w.
    let d = w.disk in
    if same_name s directory_name
    then elim d.directory [
      | none ↦ missing w
      | some _ ↦ (set_disk (record d { directory = none }) >> pure true) w
    ]
    else if same_name s tmp_directory_name
    then elim d.tmp_directory [
      | none ↦ missing w
      | some _ ↦ (set_disk (record d { tmp_directory = none }) >> pure true) w
    ]
    else if same_name s inodes_name
    then elim d.inodes [
      | none ↦ missing w
      | some _ ↦ (set_disk (record d { inodes = none }) >> pure true) w
    ]
    else elim (lookup s d.data_files) [
      | none ↦ missing w
      | some _ ↦ (set_disk (record d { data_files = erase s d.data_files }) >> pure true) w
    ]

-- read of at most `size` bytes of a data file at `offset`
unfoldable pub read_data : Env → Name → ℕ → ℕ → Cmd (Option (List ℕ))
unfolding attempt
read_data env s offset size =
    attempt env none λ w. (some (take size (drop offset (list_of (lookup s w.disk.data_files)))), w)

-- write of `bytes` to a data file at `offset`, all of them or none
unfoldable pub write_data : Env → Name → ℕ → List ℕ → Cmd Bool
unfolding attempt
write_data env s offset bytes = attempt env false λ w. elim (lookup s w.disk.data_files) [
  | none ↦ (true, w)
  | some old ↦
      let d = w.disk in
      (set_disk (record d { data_files = insert s (write_at 0 offset bytes old) d.data_files })
          >> pure true)
        w
]
