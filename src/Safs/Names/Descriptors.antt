-- ===== src/Safs/Names/Descriptors.antt =====
-- The descriptors that the handlers on names open and close.
use safs.Base.{
  rest, ℕ, zero, suc, ◌+◌, ◌-◌, ◌≤◌, ◌≡◌, ◌⊎◌, List, [], ◌∷◌, Name, arith, pos, negsuc, ℤ,
}
use safs.Disk.{Dentry}
use safs.Posix.{Env, World}
use safs.Posix.Data.{full_path, truncated}
use safs.Posix.Syscalls.{syscalls}
use safs.Posix.Kept.{kept}
use safs.Safs.Find.Frame.{find_loop-kept}
use safs.Safs.Inode.Frame.{read_inode-kept, write_inode-kept}
use safs.Safs.Names.{
  free_loop, safs_rename, add_link, safs_link, add_entry, add_unless, get_inode_number,
  next_inode_number, make_node, create_node, safs_mknod,
}

module _ (env : Env) where
  pub free_loop-kept :
      (dirs : List Dentry) (dir : Dentry) (index : ℕ) (w : World)
      → kept (free_loop env dirs dir index w).1 ≡ kept w
  unfolding free_loop syscalls
  free_loop-kept [] dir index w = ground arith
  free_loop-kept (next ∷ dirs) dir index w =
      ground (arith, free_loop-kept dirs next (index + 1) (record w { calls = w.calls + 1 }))

  ruleset frames = (arith, find_loop-kept, read_inode-kept, write_inode-kept, free_loop-kept)

  pub safs_rename-fds :
      (oldname newname : Name) (w : World) → (safs_rename env oldname newname w).1.fds ≡ w.fds
  unfolding safs_rename syscalls
  safs_rename-fds oldname newname w = grind frames

  add_link-fds :
      (index : ℕ) (new_dir : Dentry) (inum : ℕ) (w : World)
      → (add_link env index new_dir inum w).1.fds ≡ w.fds - 1
  unfolding add_link syscalls
  add_link-fds index new_dir inum w = grind frames

  pub safs_link-fds : (path1 path2 : Name) (w : World) → (safs_link env path1 path2 w).1.fds ≡ w.fds
  unfolding safs_link syscalls
  safs_link-fds path1 path2 w = grind (frames, add_link-fds)

  add_entry-fds :
      (number : ℕ) (dentry : Dentry) (w : World) → (add_entry env number dentry w).1.fds ≡ w.fds - 1
  unfolding add_entry next_inode_number syscalls
  add_entry-fds number dentry w = ground arith

  add_unless-fds :
      (rtn : ℤ) (number : ℕ) (dentry : Dentry) (w : World)
      → (add_unless env rtn number dentry w).1.fds ≡ w.fds - 1
  unfolding add_unless syscalls
  add_unless-fds (negsuc n) number dentry w = ground arith
  add_unless-fds (pos (suc n)) number dentry w = ground arith
  add_unless-fds (pos zero) number dentry w = add_entry-fds number dentry w

  make_node-fds :
      (name : Name) (mode : ℕ) (w : World) → (make_node env name mode w).1.fds ≡ w.fds - 1
  unfolding make_node get_inode_number syscalls
  make_node-fds name mode w = grind (frames, add_unless-fds)

  create_node-fds :
      (name : Name) (mode : ℕ) (w : World)
      → (create_node env name mode w).0 ≡ pos 0
      → (create_node env name mode w).1.fds ≡ w.fds + 1 - 1
  unfolding create_node syscalls
  create_node-fds name mode w h =
      let u : World = (full_path name w).1 in
      let v : World = record u {
        disk = truncated name u.disk;
        fds = u.fds + 1;
        calls = u.calls + 1;
      } in
      ground (arith, make_node-fds name mode v)

  create_node_fds_cases :
      (name : Name) (mode : ℕ) (w : World)
      → ((create_node env name mode w).1.fds ≡ w.fds - 1)
        ⊎ ((create_node env name mode w).1.fds ≡ w.fds + 1 - 1)
  unfolding create_node syscalls
  create_node_fds_cases name mode w =
      let u : World = (full_path name w).1 in
      let v : World = record u {
        disk = truncated name u.disk;
        fds = u.fds + 1;
        calls = u.calls + 1;
      } in
      ground (arith, make_node-fds name mode v)

  -- Whatever a mknod returns.
  pub safs_mknod_fds_bounds :
      (filename : Name) (mode : ℕ) (w : World)
      → (w.fds ≤ (safs_mknod env filename mode w).1.fds)
        × ((safs_mknod env filename mode w).1.fds ≤ w.fds + 1)
  unfolding safs_mknod syscalls
  safs_mknod_fds_bounds filename mode w = ground (
    arith,
    create_node_fds_cases (rest filename) mode (record w { fds = w.fds + 1; calls = w.calls + 1 }),
  )

  -- A mknod that returns 0, whichever calls fail on the way, leaves one descriptor more open
  -- than before: that of the file that it made.
  pub safs_mknod-fds :
      (filename : Name) (mode : ℕ) (w : World)
      → (safs_mknod env filename mode w).0 ≡ pos 0
      → (safs_mknod env filename mode w).1.fds ≡ w.fds + 1
  unfolding safs_mknod syscalls
  safs_mknod-fds filename mode w h = ground (
    arith,
    create_node-fds (rest filename) mode (record w { fds = w.fds + 1; calls = w.calls + 1 }),
  )
