-- ===== src/Safs/Listing/Calm.antt =====
-- safs_readdir where no system call fails.
use safs.Base.{
  ℕ, ◌+◌, ◌≡◌, ◌⊎◌, inl, inr, Bool-cases, true, none, some, List, [], ◌∷◌, arith, pos, ◌==◌, codes,
  same_name, get_elem?, if◌then◌else◌,
}
use safs.Disk.{Dentry, Stat}
use safs.Posix.{Env, World, calm}
use safs.Posix.Syscalls.{syscalls}
use safs.Safs.Inode.Calm.{read_inode-calm}
use safs.Safs.Listing.{Filled, readdir_loop, safs_readdir}

-- What a listing has to show: the entries in use, in order, each with the attributes of its inode.
unfoldable pub listing : List Stat → List Dentry → List Filled
listing is [] = []
listing is (d ∷ ds) =
    let later = listing is ds in
    if d.inum == 0 then later else (d.name, get_elem? is d.inum) ∷ later

-- Every entry in use has its inode.
abbrev pub HasInodes : List Stat → List Dentry → Type 0
HasInodes is [] = Unit
HasInodes is (d ∷ ds) =
    (((d.inum == 0) ≡ true) ⊎ ((st : Stat) × (get_elem? is d.inum ≡ some st))) × HasInodes is ds

module _ (env : Env) (is : List Stat) where
  readdir_loop-calm :
      (dirs : List Dentry) (stat : Stat) (w : World)
      → w.disk.inodes ≡ some is
      → HasInodes is dirs
      → (c : ℕ) × (readdir_loop (calm env) dirs stat w ≡ (listing is dirs, record w { calls = c }))
  unfolding readdir_loop listing syscalls
  readdir_loop-calm [] stat w table stored = (w.calls + 1, ground arith)
  readdir_loop-calm (d ∷ ds) stat w table (inl unused, stored) =
      let (c, e) = readdir_loop-calm ds stat (record w { calls = w.calls + 1 }) table stored in
      (c, ground (arith, unused, e))
  readdir_loop-calm (d ∷ ds) stat w table (inr (st, inode), stored) =
      let v : World = record w { calls = w.calls + 1 } in
      let (c, e) = readdir_loop-calm ds stat v table stored in
      let (c', e') = readdir_loop-calm ds st (record v { calls = v.calls + 4 }) table stored in
      elim (Bool-cases (d.inum == 0)) [
        | inl unused ↦ (c, ground (arith, unused, e))
        | inr used ↦ (
          c',
          ground (arith, used, e', inode, read_inode-calm env d.inum stat v is table st inode),
        )
      ]

  -- Where no system call fails, both tables exist and every entry in use has its inode: a
  -- listing of the root gives "." and "..", and then exactly the entries in use, in order, each
  -- with the attributes of its inode, and it changes nothing on the disk.
  pub safs_readdir_lem :
      (w : World) (dirs : List Dentry)
      → w.disk.directory ≡ some dirs
      → w.disk.inodes ≡ some is
      → HasInodes is dirs
      → ((safs_readdir (calm env) (codes "/") w).0
          ≡ (pos 0, (codes ".", none) ∷ (codes "..", none) ∷ listing is dirs))
        × ((safs_readdir (calm env) (codes "/") w).1.disk ≡ w.disk)
  unfolding safs_readdir same_name syscalls
  safs_readdir_lem w dirs listed table stored =
      let v : World = record w { fds = w.fds + 1; calls = w.calls + 1 } in
      let (c, e) = readdir_loop-calm dirs env.junk v table stored in ground (arith, listed, e)
