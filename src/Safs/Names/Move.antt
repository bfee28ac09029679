-- ===== src/Safs/Names/Move.antt =====
-- safs_rename and safs_link where no system call fails.
use safs.Base.{
  ℕ, ◌+◌, ◌*◌, ◌%◌, ◌^◌, ◌<◌, ◌≡◌, some, List, [], ◌∷◌, Name, arith, pos, ◌==◌, rest, put_at, leb,
  length, ◌||◌, if◌then◌else◌, codes, same_name, get_elem?,
}
use safs.Disk.{Dentry, Stat, blank_dentry, blank_stat}
use safs.Posix.{Env, World, calm}
use safs.Posix.Syscalls.{syscalls}
use safs.Safs.Inode.Calm.{read_inode-calm, write_inode-calm}
use safs.Safs.Named.{IsNamed, searched, find_loop-named}
use safs.Safs.Names.{safs_rename, free_loop, add_link, safs_link}

module _ (env : Env) (path target : Name) (w : World) {dir : Dentry} {st : Stat}
    (f : IsNamed env w.disk path dir st) where
  abbrev pub renamed_entry : Dentry
  renamed_entry = record dir { name = rest target }

  -- The entry stays in its slot and keeps its storage and its inode.
  pub safs_rename-calm :
      ((safs_rename (calm env) path target w).0 ≡ pos 0)
      × ((safs_rename (calm env) path target w).1.disk
          ≡ record w.disk { directory = some (put_at blank_dentry f.index renamed_entry f.dirs) })
  unfolding safs_rename syscalls
  safs_rename-calm = ground (arith, f.has_directory, find_loop-named env path w f)

-- The slot at which free_loop stops, the entry that it read last, and how many it read.
unfoldable pub free_entry : List Dentry → Dentry → ℕ → ℕ × Dentry
free_entry [] dir index = (index, dir)
free_entry (next ∷ dirs) dir index =
    if same_name next.name (codes ".") || same_name next.name (codes "..")
    then free_entry dirs next (index + 1)
    else if next.inum == 0
    then (index, next)
    else free_entry dirs next (index + 1)

unfoldable pub free_reads : List Dentry → ℕ
free_reads [] = 1
free_reads (next ∷ dirs) =
    if same_name next.name (codes ".") || same_name next.name (codes "..")
    then 1 + free_reads dirs
    else if next.inum == 0
    then 1
    else 1 + free_reads dirs

module _ (env : Env) where
  pub free_loop-calm :
      (dirs : List Dentry) (dir : Dentry) (index : ℕ) (w : World)
      → free_loop (calm env) dirs dir index w
        ≡ (free_entry dirs dir index, record w { calls = w.calls + free_reads dirs })
  unfolding free_loop free_entry free_reads syscalls
  free_loop-calm [] dir index w = ground arith
  free_loop-calm (next ∷ dirs) dir index w =
      ground (arith, free_loop-calm dirs next (index + 1) (record w { calls = w.calls + 1 }))

module _ (env : Env) (i : ℕ) (d : Dentry) (inum : ℕ) (w : World) (dirs : List Dentry)
    (is : List Stat) (listed : w.disk.directory ≡ some dirs) (table : w.disk.inodes ≡ some is)
    (st : Stat) (inode : get_elem? is inum ≡ some st) (fits : inum * env.sizeof_stat < 2 ^ 31) where
  abbrev bumped : Stat
  bumped = record st { st_nlink = (st.st_nlink + 1) % 2 ^ 64 }

  add_link-calm :
      ((add_link (calm env) i d inum w).0 ≡ pos 0)
      × ((add_link (calm env) i d inum w).1.disk ≡ record w.disk {
        directory = some (put_at blank_dentry i d dirs);
        inodes = some (put_at blank_stat inum bumped is);
      })
  unfolding add_link syscalls
  add_link-calm =
      let v : World = record w {
        disk = record w.disk { directory = some (put_at blank_dentry i d dirs) };
        calls = w.calls + 1 + 1;
      } in
      ground (
        arith,
        listed,
        read_inode-calm env inum env.junk v is table st inode,
        write_inode-calm env inum bumped (record v { calls = v.calls + 4 }) is table fits,
      )

module _ (env : Env) (path target : Name) (w : World) {dir : Dentry} {st : Stat}
    (f : IsNamed env w.disk path dir st) where
  abbrev pub link_entry : Dentry
  link_entry = record { name = rest target; storage = dir.storage; inum = dir.inum }

  -- The slot that the second search of link ends at, and the entry that it leaves in `dir`.
  abbrev pub free : ℕ × Dentry
  free = free_entry f.dirs dir 0

  -- The new entry, and the inode whose link count is incremented: that of the entry which the
  -- second search read last.
  pub safs_link-calm :
      (st' : Stat)
      → get_elem? f.inodes free.1.inum ≡ some st'
      → free.1.inum * env.sizeof_stat < 2 ^ 31
      → ((safs_link (calm env) path target w).0 ≡ pos 0)
        × ((safs_link (calm env) path target w).1.disk ≡ record w.disk {
          directory = some (put_at blank_dentry free.0 link_entry f.dirs);
          inodes = some (
              put_at blank_stat free.1.inum
                (record st' { st_nlink = (st'.st_nlink + 1) % 2 ^ 64 })
                f.inodes);
        })
  unfolding safs_link syscalls
  safs_link-calm st' inode fits =
      let long = leb 32 (length (rest target)) in
      let wide = leb 32 (length dir.storage) in
      let here = searched env path w f in
      let v : World = record here {
        outside = wide || (long || w.outside);
        calls = here.calls + 1 + free_reads f.dirs;
      } in
      ground (
        arith,
        f.has_directory,
        find_loop-named env path w f,
        free_loop-calm env f.dirs dir 0
            (record here { outside = wide || (long || w.outside); calls = here.calls + 1 }),
        add_link-calm env free.0 link_entry free.1.inum v f.dirs f.inodes f.has_directory
            f.has_inodes st' inode fits,
      )
