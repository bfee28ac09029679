-- ===== src/Ramfs/Sparse.antt =====
-- The size of a file of fuse-test.cpp that has gaps.
use safs.Base.{ℕ, ◌+◌, ◌≤◌, ◌≡◌, arith, some, List, [], ◌∷◌, neg, to_int, Name, length, suc}
use safs.Posix.Errno.{einval}
use safs.Ramfs.{
  FileContents, FileMap, strip_leading_slash, file_exists, write_loop, ramfs_read, ramfs_write,
}
use safs.Ramfs.Keys.{int_order, string_order}
use safs.Ramfs.Bytes.{take_whole}
use safs.Ramfs.StdMap.{Map, Order, find, assign}
use safs.Ramfs.StdMap.Laws.{find-assign}

length-assign {ℓ κ} :
    {K : Type ℓ} {V : Type κ} ⦃o : Order K⦄ (k : K) (v : V) (m : Map K V)
    → length (assign k v m) ≤ suc (length m)
unfolding assign
length-assign k v [] = omega arith
length-assign k v ((j, w) ∷ m) = ground (arith, length-assign k v m)

length-write_loop :
    (k : ℕ) (bytes : List ℕ) (file : FileContents)
    → length (write_loop k bytes file) ≤ length file + length bytes
unfolding write_loop
length-write_loop k [] file = omega arith
length-write_loop k (b ∷ bytes) file = ground (
  arith,
  length-assign (to_int k) b file,
  length-write_loop (k + 1) bytes (assign (to_int k) b file),
)

-- A write to a file of `files` at an offset that is at least the number of bytes held and
-- written together reports all its bytes, but a read at that offset is refused with -EINVAL.
pub ramfs_read-ramfs_write :
    (path : Name) (buf : List ℕ) (size offset : ℕ) (file : FileContents) (files : FileMap)
    → find (strip_leading_slash path) files ≡ some file
    → length file + length buf ≤ offset
    → let (written, files') = ramfs_write path buf (length buf) offset files in
      (written ≡ to_int (length buf)) × ((ramfs_read path size offset files').0 ≡ (neg einval, []))
unfolding ramfs_read ramfs_write file_exists
ramfs_read-ramfs_write path buf size offset file files found beyond =
    let name = strip_leading_slash path in
    ground (
      arith,
      found,
      take_whole buf,
      find-assign name name (write_loop offset buf file) files,
      string_order.self name,
      length-write_loop offset buf file,
    )
