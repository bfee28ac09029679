-- ===== src/Safs/Contents/Calm.antt =====
-- The handlers on contents where no system call fails.
use safs.Base.{
  ◌+◌, ◌%◌, ◌^◌, ◌≡◌, ℕ, some, arith, to_int, Name, List, length, take, drop, false, lookup, insert,
  write_at, put_at,
}
use safs.Disk.{Dentry, Stat, blank_stat}
use safs.Posix.{Env, World, calm}
use safs.Posix.Data.{is_table}
use safs.Posix.Syscalls.{syscalls}
use safs.Safs.Contents.{read_file, write_file, safs_write, safs_read}
use safs.Safs.Inode.Calm.{read_inode-calm, write_inode-calm}
use safs.Safs.Named.{IsNamed, searched, find_loop-named}

module _ (env : Env) (storage : Name) (w : World) (bytes : List ℕ)
    (plain : is_table storage ≡ false)
    (stored : lookup storage w.disk.data_files ≡ some bytes) where
  pub read_file-calm :
      (size offset : ℕ)
      → ((read_file (calm env) storage size offset w).0
          ≡ (to_int (length (take size (drop offset bytes))), take size (drop offset bytes)))
        × ((read_file (calm env) storage size offset w).1.disk ≡ w.disk)
  unfolding read_file syscalls
  read_file-calm size offset = ground arith

  pub write_file-calm :
      (buf : List ℕ) (size offset : ℕ)
      → ((write_file (calm env) storage buf size offset w).0 ≡ to_int size)
        × ((write_file (calm env) storage buf size offset w).1.disk ≡ record w.disk {
          data_files = insert storage (write_at 0 offset (take size buf) bytes) w.disk.data_files;
        })
  unfolding write_file syscalls
  write_file-calm buf size offset = ground arith

module _ (env : Env) (path : Name) (w : World) {dir : Dentry} {st : Stat}
    (f : IsNamed env w.disk path dir st) (bytes : List ℕ) (plain : is_table dir.storage ≡ false)
    (stored : lookup dir.storage w.disk.data_files ≡ some bytes) where
  abbrev here : World
  here = searched env path w f

  -- The inode after a write, with the two times that it was given.
  abbrev pub written_stat : (size offset : ℕ) → Stat
  written_stat size offset =
      let c : ℕ = here.calls + 1 + 4 in
      record st {
        st_size = (offset + size) % 2 ^ 64;
        st_atim = env.now c;
        st_mtim = env.now (c + 1);
      }

  pub safs_write-calm :
      (buf : List ℕ) (size offset : ℕ)
      → ((safs_write (calm env) path buf size offset w).0 ≡ to_int size)
        × ((safs_write (calm env) path buf size offset w).1.disk ≡ record w.disk {
          inodes = some (put_at blank_stat dir.inum (written_stat size offset) f.inodes);
          data_files =
              insert dir.storage (write_at 0 offset (take size buf) bytes) w.disk.data_files;
        })
  unfolding safs_write syscalls
  safs_write-calm buf size offset =
      let u : World = record w { calls = here.calls + 1 } in
      let v : World = record u { calls = u.calls + 4 + 1 + 1 } in
      let x : World = record v {
        calls = v.calls + 4;
        disk = record w.disk {
          inodes = some (put_at blank_stat dir.inum (written_stat size offset) f.inodes);
        };
      } in
      ground (
        arith,
        f.has_directory,
        find_loop-named env path w f,
        read_inode-calm env dir.inum env.junk u f.inodes f.has_inodes st f.inode,
        write_inode-calm env dir.inum (written_stat size offset) v f.inodes f.has_inodes f.fits,
        write_file-calm env dir.storage x bytes plain stored buf size offset,
      )

  -- The inode after a read, with the time that it was given.
  abbrev pub read_stat : Stat
  read_stat = record st { st_atim = env.now (here.calls + 1 + 4) }

  pub safs_read-calm :
      (size offset : ℕ)
      → ((safs_read (calm env) path size offset w).0
          ≡ (to_int (length (take size (drop offset bytes))), take size (drop offset bytes)))
        × ((safs_read (calm env) path size offset w).1.disk
            ≡ record w.disk { inodes = some (put_at blank_stat dir.inum read_stat f.inodes) })
  unfolding safs_read syscalls
  safs_read-calm size offset =
      let u : World = record w { calls = here.calls + 1 } in
      let v : World = record u { calls = u.calls + 4 + 1 } in
      let x : World = record v {
        calls = v.calls + 4;
        disk = record w.disk { inodes = some (put_at blank_stat dir.inum read_stat f.inodes) };
      } in
      ground (
        arith,
        f.has_directory,
        find_loop-named env path w f,
        read_inode-calm env dir.inum env.junk u f.inodes f.has_inodes st f.inode,
        write_inode-calm env dir.inum read_stat v f.inodes f.has_inodes f.fits,
        read_file-calm env dir.storage x bytes plain stored size offset,
      )
