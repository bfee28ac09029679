-- ===== src/Safs/Names/Create.antt =====
-- safs_mknod where no system call fails.
use safs.Base.{
  ℕ, ◌+◌, ◌*◌, ◌%◌, ◌^◌, ◌<◌, ◌≡◌, false, some, List, Name, arith, pos, bit_and, rest, insert,
  put_at, leb, length, ◌||◌, [],
}
use safs.Disk.{Disk, Dentry, Stat, blank_dentry, blank_stat}
use safs.Posix.{Env, World, calm}
use safs.Posix.Data.{is_table, truncated, full_path}
use safs.Posix.Syscalls.{syscalls}
use safs.Posix.Errno.{s_ifmt, s_ifreg}
use safs.Safs.Inode.Calm.{write_inode-calm}
use safs.Safs.Names.{
  add_entry, add_unless, get_inode_number, next_inode_number, make_node, create_node, safs_mknod,
  new_stat,
}

module _ (env : Env) (name : Name) (mode : ℕ) (w : World) (dirs : List Dentry) (is : List Stat)
    (listed : w.disk.directory ≡ some dirs) (table : w.disk.inodes ≡ some is)
    (fits : w.inode_number * env.sizeof_stat < 2 ^ 31) where
  abbrev entry : Dentry
  entry = record { name = name; storage = name; inum = w.inode_number % 2 ^ 32 }

  abbrev made : Stat
  made = new_stat env mode w.inode_number (env.now w.calls)

  make_node-calm :
      ((make_node (calm env) name mode w).0 ≡ pos 0)
      × ((make_node (calm env) name mode w).1.disk ≡ record w.disk {
        directory = some (put_at blank_dentry w.inode_number entry dirs);
        inodes = some (put_at blank_stat w.inode_number made is);
      })
      × ((make_node (calm env) name mode w).1.inode_number ≡ w.inode_number + 1)
  unfolding make_node get_inode_number add_unless add_entry next_inode_number syscalls
  make_node-calm =
      let long = leb 32 (length name) in
      let v : World = record w { calls = w.calls + 1; outside = long || (long || w.outside) } in
      ground (arith, listed, write_inode-calm env w.inode_number made v is table fits)

-- The creation of a file that is none of the tables.
truncated-plain :
    (s : Name) (d : Disk)
    → is_table s ≡ false
    → truncated s d ≡ record d { data_files = insert s [] d.data_files }
unfolding truncated is_table
truncated-plain s d plain = ground arith

module _ (env : Env) (filename : Name) (mode : ℕ) (w : World) (dirs : List Dentry) (is : List Stat)
    (regular : bit_and mode s_ifmt ≡ s_ifreg) (plain : is_table (rest filename) ≡ false)
    (listed : w.disk.directory ≡ some dirs) (table : w.disk.inodes ≡ some is)
    (fits : w.inode_number * env.sizeof_stat < 2 ^ 31) where
  abbrev pub made_entry : Dentry
  made_entry = entry env (rest filename) mode w dirs is listed table fits

  abbrev pub made_stat : Stat
  made_stat = new_stat env mode w.inode_number (env.now (w.calls + 2))

  abbrev pub made_disk : Disk
  made_disk = record w.disk {
    directory = some (put_at blank_dentry w.inode_number made_entry dirs);
    inodes = some (put_at blank_stat w.inode_number made_stat is);
    data_files = insert (rest filename) [] w.disk.data_files;
  }

  pub safs_mknod-calm :
      ((safs_mknod (calm env) filename mode w).0 ≡ pos 0)
      × ((safs_mknod (calm env) filename mode w).1.disk ≡ made_disk)
      × ((safs_mknod (calm env) filename mode w).1.inode_number ≡ w.inode_number + 1)
  unfolding safs_mknod create_node syscalls
  safs_mknod-calm =
      let name = rest filename in
      let u : World = (full_path name (record w { fds = w.fds + 1; calls = w.calls + 1 })).1 in
      let v : World = record u {
        disk = record w.disk { data_files = insert name [] w.disk.data_files };
        fds = u.fds + 1;
        calls = u.calls + 1;
      } in
      ground (
        arith,
        regular,
        truncated-plain name w.disk plain,
        make_node-calm env name mode v dirs is listed table fits,
      )
