-- ===== src/Safs/Numbers/Mknod.antt =====
-- The entries' numbers through safs_mknod, whichever calls fail.
use safs.Base.{
  ℕ, zero, suc, ◌+◌, ◌<◌, ◌≡◌, not, ◌==◌, false, List, ℤ, pos, negsuc, Name, rest, arith, bit_and,
}
use safs.Disk.{Dentry}
use safs.Posix.{Env, close, pure, list_of, ◌>>◌}
use safs.Posix.Tables.{live}
use safs.Posix.Syscalls.{syscalls}
use safs.Posix.Errno.{s_ifmt, s_ifreg}
use safs.Posix.Keeps.{
  Keeps, Anything, Keeps-pure, Keeps-then, Leads, Ends-bind, Ends-if, Ends-Keeps,
}
use safs.Safs.Names.{
  safs_mknod, create_node, make_node, add_unless, add_entry, get_inode_number, next_inode_number,
}
use safs.Safs.Numbers.{
  Under, IsFresh, IsFresh-Under, Below-suc, Below-put_at, close-Under, open_table-Under,
  strcpy_name-Under, full_path-Under, clock_gettime-Under, write_inode-Under, create_data-Under,
}

module _ (n : ℕ) (env : Env) where
  failed : {A : Type 0} (a : A) → Leads (Under n) IsFresh (close env >> pure a)
  failed a =
      Ends-Keeps (Keeps-then (close-Under n env) (Keeps-pure {Q = Anything} tt))
        (λ _. IsFresh-Under n)

  unchanged : {A : Type 0} (a : A) → Leads (Under n) IsFresh (pure a)
  unchanged a = Ends-Keeps (Keeps-pure {Q = Anything} tt) (λ _. IsFresh-Under n)

  add_entry-IsFresh :
      (number : ℕ) (dentry : Dentry)
      → dentry.inum < n + 1
      → Leads (Under n) IsFresh (add_entry env number dentry)
  unfolding add_entry next_inode_number syscalls
  add_entry-IsFresh number dentry small = record {
    at = λ w u.
        let es : List Dentry = list_of w.disk.directory in
        let raised = Below-suc n es u.listed in
        ground (
          arith,
          u.positive,
          u.listed,
          u.parked,
          u.number,
          raised,
          Below-suc n (list_of w.disk.tmp_directory) u.parked,
          Below-put_at (n + 1) number dentry es (omega arith) small raised,
        );
  }

  add_unless-IsFresh :
      (rtn : ℤ) (number : ℕ) (dentry : Dentry)
      → dentry.inum < n + 1
      → Leads (Under n) IsFresh (add_unless env rtn number dentry)
  unfolding add_unless
  add_unless-IsFresh (negsuc k) number dentry small = failed _
  add_unless-IsFresh (pos (suc k)) number dentry small = failed _
  add_unless-IsFresh (pos zero) number dentry small = add_entry-IsFresh number dentry small

  get_inode_number-Under : Keeps (Under n) (λ k. k ≡ n) get_inode_number
  unfolding get_inode_number
  get_inode_number-Under = record { at = λ w u. (u, u.number) }

  make_node-IsFresh : (name : Name) (mode : ℕ) → Leads (Under n) IsFresh (make_node env name mode)
  unfolding make_node
  make_node-IsFresh name mode = Ends-bind (clock_gettime-Under n env) λ timestamp _.
      Ends-bind get_inode_number-Under λ number e.
        Ends-bind (strcpy_name-Under n env name) λ entry_name _.
          Ends-bind (strcpy_name-Under n env name) λ storage _.
            Ends-bind (write_inode-Under n env number _)
              λ rtn _. add_unless-IsFresh rtn number _ (omega arith)

  create_node-IsFresh :
      (name : Name) (mode : ℕ) → Leads (Under n) IsFresh (create_node env name mode)
  unfolding create_node
  create_node-IsFresh name mode = Ends-bind (full_path-Under n env name) λ file_path _.
      Ends-bind (create_data-Under n env file_path)
        λ created _. Ends-if (not created) (failed _) (make_node-IsFresh name mode)

  pub safs_mknod-IsFresh :
      (filename : Name) (mode : ℕ) → Leads (Under n) IsFresh (safs_mknod env filename mode)
  unfolding safs_mknod
  safs_mknod-IsFresh filename mode = Ends-if (not (bit_and mode s_ifmt == s_ifreg)) (unchanged _) (
      Ends-bind (open_table-Under n env live false)
        λ fd _. Ends-if (not fd) (unchanged _) (create_node-IsFresh (rest filename) mode))
