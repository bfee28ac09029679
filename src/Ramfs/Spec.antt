-- ===== src/Ramfs/Spec.antt =====
-- What a file system in memory promises, without maps from positions: each file is a list of bytes.
-- The replies are those of ramfs_oper.
use safs.Base.{
  ℕ, ◌+◌, ◌^◌, ◌≤◌, ◌<◌, Option, none, some, List, [], ◌∷◌, pos, neg, to_int, ◌==◌, ltb, Name,
  codes, same_name, bit_and, bit_or, length, take, drop, write_at, if◌then◌else◌,
}
use safs.Disk.{Stat, Timespec, blank_stat}
use safs.Posix.Errno.{enoent, einval, eexist, s_ifdir, s_ifreg}
use safs.Ramfs.{FileMap, Caller, strip_leading_slash}
use safs.Ramfs.Keys.{string_order}
use safs.Ramfs.Numbered.{numbered, resize_bytes}
use safs.Ramfs.StdMap.{Map, find, assign, erase_key}
use safs.Ramfs.StdMap.Every.{Every}
use safs.Ramfs.StdMap.Sorted.{IsSorted}
use safs.Ramfs.StdMap.Values.{map_values}
use safs.Ramfs.Server.{
  RamRequest, call_getattr, call_readdir, call_open, call_read, call_write, call_unlink,
  call_truncate, call_opendir, call_access, call_create, call_fgetattr, Reply, result, attributes,
  entries, content,
}

-- The bytes of each file.
abbrev pub Store : Type 0
Store = Map Name (List ℕ)

-- The store as ramfs keeps it.
abbrev pub represent : Store → FileMap
represent store = map_values numbered store

abbrev pub names_held : Store → List Name
names_held [] = []
names_held ((name, bs) ∷ store) = name ∷ names_held store

abbrev pub stat_of : Caller → ℕ → ℕ → ℕ → Stat
stat_of caller mode nlink size =
    let time : Timespec = record { tv_sec = caller.now; tv_nsec = 0 } in
    record blank_stat {
      st_uid = caller.uid;
      st_gid = caller.gid;
      st_atim = time;
      st_mtim = time;
      st_ctim = time;
      st_mode = mode;
      st_nlink = nlink;
      st_size = size;
    }

abbrev pub spec_getattr : Caller → Name → Store → Reply
spec_getattr caller path store =
    if same_name path (codes "/")
    then attributes (pos 0) (stat_of caller (bit_or s_ifdir 0o777) 2 0)
    else elim (find (strip_leading_slash path) store) [
      | none ↦ attributes (neg enoent) (stat_of caller 0 0 0)
      | some bs ↦ attributes (pos 0) (stat_of caller (bit_or s_ifreg 0o777) 1 (length bs))
    ]

-- A read gives the bytes from `offset` on, at most `size` of them, but -EINVAL at the end.
abbrev pub spec_read : ℕ → ℕ → List ℕ → Reply
spec_read size offset bs =
    let bytes = take size (drop offset bs) in
    if ltb offset (length bs)
    then content (to_int (length bytes)) bytes
    else content (neg einval) []

-- The files are found by their names without the slash. A truncation that succeeds replies -EINVAL.
unfoldable pub spec_oper : Caller → RamRequest → Store → Reply × Store
spec_oper caller (call_getattr path) store = (spec_getattr caller path store, store)
spec_oper caller (call_fgetattr path) store = (spec_getattr caller path store, store)
spec_oper caller (call_readdir path) store = (
  if same_name path (codes "/")
      then entries (pos 0) (codes "." ∷ codes ".." ∷ names_held store)
      else entries (neg enoent) [],
  store,
)
spec_oper caller (call_open path) store = (
  elim (find (strip_leading_slash path) store) [
    | none ↦ result (neg enoent)
    | some bs ↦ result (pos 0)
  ],
  store,
)
spec_oper caller (call_read path size offset) store = (
  elim (find (strip_leading_slash path) store) [
    | none ↦ content (neg enoent) []
    | some bs ↦ spec_read size offset bs
  ],
  store,
)
spec_oper caller (call_write path buf offset) store =
    let name = strip_leading_slash path in
    elim (find name store) [
      | none ↦ (result (neg enoent), store)
      | some bs ↦ (result (to_int (length buf)), assign name (write_at 0 offset buf bs) store)
    ]
spec_oper caller (call_unlink path) store =
    (result (pos 0), erase_key (strip_leading_slash path) store)
spec_oper caller (call_truncate path new_length) store =
    let name = strip_leading_slash path in
    elim (find name store) [
      | none ↦ (result (neg enoent), store)
      | some bs ↦ (result (neg einval), assign name (resize_bytes new_length bs) store)
    ]
spec_oper caller (call_create path mode) store =
    let name = strip_leading_slash path in
    elim (find name store) [
      | none ↦
          if bit_and mode s_ifreg == 0
          then (result (neg einval), store)
          else (result (pos 0), assign name [] store)
      | some bs ↦ (result (neg eexist), store)
    ]
spec_oper caller (call_opendir path) store = (result (pos 0), store)
spec_oper caller (call_access path mask) store = (result (pos 0), store)
spec_oper caller request store = (result (neg einval), store)

unfoldable pub spec_run : Caller → List RamRequest → Store → List Reply × Store
spec_run caller [] store = ([], store)
spec_run caller (request ∷ requests) store =
    let (reply, store') = spec_oper caller request store in
    let (replies, store'') = spec_run caller requests store' in (reply ∷ replies, store'')

-- The positions of a file are below 2^31, as an `int` key wants it.
abbrev pub IsSmall : List ℕ → Type 0
IsSmall bs = length bs ≤ 2 ^ 31

-- A store that ramfs can hold.
abbrev pub IsStore : Store → Type 0
IsStore store = IsSorted store × Every IsSmall store

abbrev pub held_length : Option (List ℕ) → ℕ
held_length none = 0
held_length (some bs) = length bs

-- A write that begins within its file and ends at 2^31 at most, a read whose end is a size_t, and a
-- truncation below 2^31; other requests have no bound.
abbrev pub IsGapFree : RamRequest → Store → Type 0
IsGapFree (call_write path buf offset) store =
    (offset ≤ held_length (find (strip_leading_slash path) store)) × (offset + length buf ≤ 2 ^ 31)
IsGapFree (call_read path size offset) store = offset + size < 2 ^ 64
IsGapFree (call_truncate path new_length) store = new_length < 2 ^ 31
IsGapFree request store = Unit

-- Each request is gap-free when its turn comes.
abbrev pub AreGapFree : Caller → List RamRequest → Store → Type 0
AreGapFree caller [] store = Unit
AreGapFree caller (request ∷ requests) store =
    IsGapFree request store × AreGapFree caller requests (spec_oper caller request store).1
