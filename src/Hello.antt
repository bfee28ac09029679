-- ===== src/Hello.antt =====
-- The handlers of fuse-examples/hellofs/hello.c: a file system of one file. They keep no state.
pub mod Laws
mod Tests
use safs.Base.{
  ℕ, ◌+◌, ◌-◌, ◌%◌, ◌^◌, not, Option, none, some, List, [], ◌∷◌, pos, neg, ℤ, to_int, ◌==◌, ltb,
  leb, Name, rest, codes, same_name, bit_and, bit_or, length, take, drop, if◌then◌else◌,
}
use safs.Disk.{Stat, blank_stat}
use safs.Posix.Errno.{enoent, eacces, s_ifdir, s_ifreg, o_rdonly}

abbrev pub hello_str : Name
hello_str = codes "Hello World!\n"

abbrev pub hello_path : Name
hello_path = codes "/hello"

-- The second result is `*stbuf`.
unfoldable pub hello_getattr : Name → ℤ × Stat
hello_getattr path =
    if same_name path (codes "/")
    then (pos 0, record blank_stat { st_mode = bit_or s_ifdir 0o755; st_nlink = 2 })
    else if same_name path hello_path
    then (
      pos 0,
      record blank_stat {
        st_mode = bit_or s_ifreg 0o444;
        st_nlink = 1;
        st_size = length hello_str;
      },
    )
    else (neg enoent, blank_stat)

-- The second result holds the names that `filler` is called with.
unfoldable pub hello_readdir : Name → ℤ × List Name
hello_readdir path =
    if not (same_name path (codes "/"))
    then (neg enoent, [])
    else (pos 0, codes "." ∷ codes ".." ∷ rest hello_path ∷ [])

unfoldable pub hello_open : Name → ℕ → ℤ
hello_open path flags =
    if not (same_name path hello_path)
    then neg enoent
    else if not (bit_and flags 3 == o_rdonly)
    then neg eacces
    else pos 0

-- memcpy(buf, hello_str + offset, size); `none` is a copy of bytes beyond the string.
unfoldable pub copy_hello : ℕ → ℕ → Option (List ℕ)
copy_hello offset size =
    if leb (offset + size) (length hello_str)
    then some (take size (drop offset hello_str))
    else none

-- The second result is what the call leaves in `buf`. `size` and the sum are of type size_t.
unfoldable pub hello_read : Name → ℕ → ℕ → ℤ × Option (List ℕ)
hello_read path size offset =
    if not (same_name path hello_path)
    then (neg enoent, some [])
    else (let len : ℕ = length hello_str in
        if ltb offset len
        then (let size' : ℕ = if ltb len ((offset + size) % 2 ^ 64) then len - offset else size in
            (to_int size', copy_hello offset size'))
        else (pos 0, some []))
