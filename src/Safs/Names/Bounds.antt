-- ===== src/Safs/Names/Bounds.antt =====
-- The arrays and the counter that mknod and rename fill, whichever calls fail.
use safs.Base.{
  ℕ, zero, suc, ◌+◌, ◌<◌, ◌^◌, ◌≡◌, false, ◌||◌, leb, List, [], ◌∷◌, Name, arith, pos, negsuc, ℤ,
  length, rest, codes, same_name, has_byte,
}
use safs.Disk.{Dentry, Stat}
use safs.Posix.{Env, World}
use safs.Posix.Data.{full_path, truncated, safs_path}
use safs.Posix.Syscalls.{syscalls}
use safs.Safs.Find.{matches, find_loop}
use safs.Safs.Inode.{write_inode}
use safs.Safs.Inode.Frame.{write_inode-kept}
use safs.Safs.Names.{
  safs_rename, add_entry, add_unless, get_inode_number, next_inode_number, make_node, create_node,
  safs_mknod,
}

-- A name that full_path takes for that of a file below safs_path, with a path that fits char[80].
abbrev pub Plain : Name → Type 0
Plain s =
    (leb 80 (length safs_path + length s)
      || same_name s []
      || same_name s (codes ".")
      || same_name s (codes "..")
      || has_byte b'/' s)
    ≡ false

module _ (env : Env) where
  find_loop-outside :
      (name : Name) (dirs : List Dentry) (index : ℕ) (w : World)
      → (find_loop env name dirs index w).1.outside ≡ w.outside
  unfolding find_loop matches syscalls
  find_loop-outside name [] index w = ground arith
  find_loop-outside name (dir ∷ dirs) index w =
      ground (arith, find_loop-outside name dirs (index + 1) (record w { calls = w.calls + 1 }))

  write_inode-outside :
      (i : ℕ) (st : Stat) (w : World) → (write_inode env i st w).1.outside ≡ w.outside
  unfolding write_inode syscalls
  write_inode-outside i st w = ground arith

  -- rename to a name shorter than 32 bytes overflows no array, whichever of its calls fail.
  pub safs_rename-outside :
      (oldname newname : Name) (w : World)
      → length (rest newname) < 32
      → (safs_rename env oldname newname w).1.outside ≡ w.outside
  unfolding safs_rename syscalls
  safs_rename-outside oldname newname w short = grind (arith, find_loop-outside)

  add_entry-outside :
      (number : ℕ) (dentry : Dentry) (w : World)
      → w.inode_number + 1 < 2 ^ 31
      → (add_entry env number dentry w).1.outside ≡ w.outside
  unfolding add_entry next_inode_number syscalls
  add_entry-outside number dentry w few = ground arith

  add_unless-outside :
      (rtn : ℤ) (number : ℕ) (dentry : Dentry) (w : World)
      → w.inode_number + 1 < 2 ^ 31
      → (add_unless env rtn number dentry w).1.outside ≡ w.outside
  unfolding add_unless syscalls
  add_unless-outside (negsuc n) number dentry w few = ground arith
  add_unless-outside (pos (suc n)) number dentry w few = ground arith
  add_unless-outside (pos zero) number dentry w few = add_entry-outside number dentry w few

  make_node-outside :
      (name : Name) (mode : ℕ) (w : World)
      → length name < 32
      → w.inode_number + 1 < 2 ^ 31
      → (make_node env name mode w).1.outside ≡ w.outside
  unfolding make_node get_inode_number syscalls
  make_node-outside name mode w short few =
      grind (arith, write_inode-outside, write_inode-kept, add_unless-outside)

  create_node-outside :
      (name : Name) (mode : ℕ) (w : World)
      → length name < 32
      → Plain name
      → w.inode_number + 1 < 2 ^ 31
      → (create_node env name mode w).1.outside ≡ w.outside
  unfolding create_node syscalls
  create_node-outside name mode w short plain few =
      let u : World = (full_path name w).1 in
      let v : World = record u {
        disk = truncated name u.disk;
        fds = u.fds + 1;
        calls = u.calls + 1;
      } in
      ground (arith, make_node-outside name mode v short few)

  -- mknod of a name shorter than 32 bytes that is a plain file name, its path within 80 bytes,
  -- while inode_number is below the range of `int`, overflows no array and no counter, whichever
  -- of its calls fail.
  pub safs_mknod-outside :
      (filename : Name) (mode : ℕ) (w : World)
      → length (rest filename) < 32
      → Plain (rest filename)
      → w.inode_number + 1 < 2 ^ 31
      → (safs_mknod env filename mode w).1.outside ≡ w.outside
  unfolding safs_mknod syscalls
  safs_mknod-outside filename mode w short plain few = ground (
    arith,
    create_node-outside (rest filename) mode (record w { fds = w.fds + 1; calls = w.calls + 1 })
        short plain few,
  )
