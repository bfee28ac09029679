-- ===== src/Ramfs.antt =====
-- The handlers of fuse-examples/ramfs/fuse-test.cpp, a file system in memory: a std::map from names
-- to files, each of which is a std::map from positions to bytes. Messages to cout are left out.
pub mod StdMap
pub mod Keys
pub mod Refused
pub mod Server
pub mod Numbered
pub mod Bytes
pub mod Spec
pub mod Refines
pub mod Sparse
mod Tests
use safs.Base.{
  ℕ, zero, suc, ◌+◌, ◌-◌, ◌%◌, ◌^◌, not, Bool, true, false, Option, none, some, List, [], ◌∷◌, pos,
  neg, ℤ, to_int, ◌==◌, ltb, Name, codes, same_name, bit_and, bit_or, length, take, if◌then◌else◌,
}
use safs.Disk.{Stat, Timespec, blank_stat}
use safs.Posix.Errno.{enoent, einval, eexist, s_ifdir, s_ifreg}
use StdMap.{Map, find, assign, erase_key, erase_from}
use Keys.{int_order, string_order}

-- map<int, unsigned char>
abbrev pub FileContents : Type 0
FileContents = Map ℤ ℕ

-- map<string, FileContents>
abbrev pub FileMap : Type 0
FileMap = Map Name FileContents

-- A command on `files`.
abbrev pub RamCmd : Type 0 → Type 0
RamCmd A = FileMap → A × FileMap

-- getuid(), getgid() and time(NULL)
pub record Caller : Type 0 where
  pub uid : ℕ
  pub gid : ℕ
  pub now : ℕ

unfoldable pub file_exists : Name → FileMap → Bool
file_exists filename files = elim (find filename files) [ none ↦ false | some file ↦ true ]

-- files[filename], where the file exists
abbrev pub file_of : Option FileContents → FileContents
file_of none = []
file_of (some file) = file

abbrev pub strip_leading_slash : Name → Name
strip_leading_slash [] = []
strip_leading_slash (c ∷ cs) = if c == b'/' then cs else c ∷ cs

-- The loop of to_map: data_map[i++] = *it
unfoldable pub to_map_loop : ℕ → Name → FileContents → FileContents
to_map_loop i [] data_map = data_map
to_map_loop i (c ∷ cs) data_map = to_map_loop (i + 1) cs (assign (to_int i) c data_map)

unfoldable pub to_map : Name → FileContents
to_map text = to_map_loop 0 text []

-- The second result is `*stbuf`.
unfoldable pub ramfs_getattr : Caller → Name → RamCmd (ℤ × Stat)
ramfs_getattr caller path files =
    let name = strip_leading_slash path in
    let time : Timespec = record { tv_sec = caller.now; tv_nsec = 0 } in
    let stbuf : Stat = record blank_stat {
      st_uid = caller.uid;
      st_gid = caller.gid;
      st_atim = time;
      st_mtim = time;
      st_ctim = time;
    } in
    if same_name path (codes "/")
    then ((pos 0, record stbuf { st_mode = bit_or s_ifdir 0o777; st_nlink = 2 }), files)
    else if file_exists name files
    then (
      (
        pos 0,
        record stbuf {
          st_mode = bit_or s_ifreg 0o777;
          st_nlink = 1;
          st_size = length (file_of (find name files));
        },
      ),
      files,
    )
    else ((neg enoent, stbuf), files)

abbrev names_of : FileMap → List Name
names_of [] = []
names_of ((name, file) ∷ files) = name ∷ names_of files

-- The second result holds the names that `filler` is called with.
unfoldable pub ramfs_readdir : Name → RamCmd (ℤ × List Name)
ramfs_readdir path files =
    if not (same_name path (codes "/"))
    then ((neg enoent, []), files)
    else ((pos 0, codes "." ∷ codes ".." ∷ names_of files), files)

unfoldable pub ramfs_open : Name → RamCmd ℤ
ramfs_open path files =
    if not (file_exists (strip_leading_slash path) files)
    then (neg enoent, files)
    else (pos 0, files)

-- file[key] as a value: a key that is missing is entered with the byte 0.
unfoldable pub fetch : ℤ → FileContents → ℕ × FileContents
fetch key file = elim (find key file) [ none ↦ (0, assign key 0 file) | some byte ↦ (byte, file) ]

-- for (size_t i = 0; i < size; ++i) buf[i] = file[offset + i]; `position` is offset + i.
unfoldable pub read_loop : ℕ → ℕ → FileContents → List ℕ × FileContents
read_loop zero position file = ([], file)
read_loop (suc n) position file =
    let (byte, file') = fetch (to_int position) file in
    let (bytes, file'') = read_loop n (position + 1) file' in (byte ∷ bytes, file'')

-- The second result is what the call leaves in `buf`. `offset` is compared as a size_t.
unfoldable pub ramfs_read : Name → ℕ → ℕ → RamCmd (ℤ × List ℕ)
ramfs_read path size offset files =
    let filename = strip_leading_slash path in
    if not (file_exists filename files)
    then ((neg enoent, []), files)
    else (let file = file_of (find filename files) in
        let len = length file in
        if not (ltb offset len)
        then ((neg einval, []), files)
        else (let size' = if ltb len ((offset + size) % 2 ^ 64) then len - offset else size in
            let (bytes, file') = read_loop size' offset file in
            ((to_int size', bytes), assign filename file' files)))

-- for (size_t i = 0; i < size; ++i) file[offset + i] = data[i]; `position` is offset + i.
unfoldable pub write_loop : ℕ → List ℕ → FileContents → FileContents
write_loop position [] file = file
write_loop position (byte ∷ bytes) file =
    write_loop (position + 1) bytes (assign (to_int position) byte file)

-- `bytes` holds at least `size` bytes
unfoldable pub ramfs_write : Name → List ℕ → ℕ → ℕ → RamCmd ℤ
ramfs_write path bytes size offset files =
    let filename = strip_leading_slash path in
    if not (file_exists filename files) then (neg enoent, files) else (
      to_int size,
      assign filename (write_loop offset (take size bytes) (file_of (find filename files))) files,
    )

unfoldable pub ramfs_unlink : Name → RamCmd ℤ
ramfs_unlink pathname files = (pos 0, erase_key (strip_leading_slash pathname) files)

unfoldable pub ramfs_create : Name → ℕ → RamCmd ℤ
ramfs_create path mode files =
    let filename = strip_leading_slash path in
    if file_exists filename files
    then (neg eexist, files)
    else if bit_and mode s_ifreg == 0
    then (neg einval, files)
    else (pos 0, assign filename (to_map (codes "")) files)

-- for (int i = file.size(); i < length; ++i) file[i] = '\0', for the rounds that are left, where
-- they do not lead beyond the range of `int`
unfoldable pub enlarge_loop : ℕ → ℕ → FileContents → FileContents
enlarge_loop zero i file = file
enlarge_loop (suc rounds) i file = enlarge_loop rounds (i + 1) (assign (to_int i) 0 file)

-- The sizes are compared as size_t, and the loop compares `i` with a signed off_t. Where that is
-- 2^31 or more, the `int` i overflows before the loop ends: there is no result then.
unfoldable pub resize : ℕ → FileContents → Option FileContents
resize new_length file =
    let size = length file in
    if ltb new_length size
    then some (erase_from (to_int new_length) file)
    else if ltb size new_length
    then (if ltb new_length (2 ^ 31)
        then some (enlarge_loop (new_length - size) size file)
        else if ltb new_length (2 ^ 63)
        then none
        else some file)
    else some file

-- No result where the loop overflows its counter; what `files` holds then is left as it was.
unfoldable pub ramfs_truncate : Name → ℕ → RamCmd (Option ℤ)
ramfs_truncate path new_length files =
    let filename = strip_leading_slash path in
    if not (file_exists filename files)
    then (some (neg enoent), files)
    else elim (resize new_length (file_of (find filename files))) [
      | none ↦ (none, files)
      | some file ↦ (some (neg einval), assign filename file files)
    ]
