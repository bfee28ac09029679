-- ===== src/Safs/Contents/Resize.antt =====
-- safs_ftruncate where no system call fails.
use safs.Base.{
  ap, ◌+◌, ◌≡◌, ℕ, ◌==◌, true, false, some, List, [], ◌∷◌, arith, pos, Name, off_lt, off_lt-ne,
  put_at, put_at-put_at, write_at, lookup, insert, if◌then◌else◌,
}
use safs.Disk.{Disk, Dentry, Stat, blank_stat}
use safs.Posix.{Env, World, calm}
use safs.Posix.Data.{is_table}
use safs.Posix.Syscalls.{syscalls}
use safs.Safs.Contents.{safs_write, safs_ftruncate, extend}
use safs.Safs.Contents.Calm.{safs_write-calm, written_stat}
use safs.Safs.Inode.Calm.{read_inode-calm, write_inode-calm}
use safs.Safs.Named.{IsNamed, searched, find_loop-named}

module _ (env : Env) (path : Name) (w : World) {dir : Dentry} {st : Stat}
    (f : IsNamed env w.disk path dir st) (off : ℕ) where
  abbrev here : World
  here = searched env path w f

  abbrev behind : World
  behind = record here { calls = here.calls + 4 }

  abbrev resized_inodes : List Stat
  resized_inodes = put_at blank_stat dir.inum (record st { st_size = off }) f.inodes

  -- Where no system call fails and `path` names a file that is not shorter than `off`, ftruncate
  -- returns 0 and sets the size of its inode; the bytes of the data file stay, and nothing is
  -- changed if the size is `off` already.
  pub safs_ftruncate_shrinks :
      off_lt st.st_size off ≡ false
      → ((safs_ftruncate (calm env) path off w).0 ≡ pos 0)
        × ((safs_ftruncate (calm env) path off w).1.disk ≡ (
            if st.st_size == off then w.disk else record w.disk { inodes = some resized_inodes }))
  unfolding safs_ftruncate extend syscalls
  safs_ftruncate_shrinks long = ground (
    arith,
    f.has_directory,
    find_loop-named env path w f,
    read_inode-calm env dir.inum env.junk here f.inodes f.has_inodes st f.inode,
    write_inode-calm env dir.inum (record st { st_size = off }) behind f.inodes f.has_inodes f.fits,
  )

  module _ (bytes : List ℕ) (plain : is_table dir.storage ≡ false)
      (stored : lookup dir.storage w.disk.data_files ≡ some bytes) where
    -- Where no system call fails and `path` names a file shorter than `off` with a data file,
    -- ftruncate returns 0, the data file gets a zero byte at `off`, a gap before it is filled
    -- with zeros and its other bytes stay, also those behind the old size, and the size is set
    -- to `off`; the times of the inode are those before.
    pub safs_ftruncate_extends :
        off_lt st.st_size off ≡ true
        → ((safs_ftruncate (calm env) path off w).0 ≡ pos 0)
          × ((safs_ftruncate (calm env) path off w).1.disk ≡ record w.disk {
            inodes = some resized_inodes;
            data_files = insert dir.storage (write_at 0 off (0 ∷ []) bytes) w.disk.data_files;
          })
    unfolding safs_ftruncate extend syscalls
    safs_ftruncate_extends short =
        let wrote = safs_write-calm env path behind f bytes plain stored (0 ∷ []) 1 off in
        let v : World = (safs_write (calm env) path (0 ∷ []) 1 off behind).1 in
        let st' : Stat = written_stat env path behind f bytes plain stored 1 off in
        let is : List Stat = put_at blank_stat dir.inum st' f.inodes in
        let table : v.disk.inodes ≡ some is = ap (λ (d : Disk). d.inodes) wrote.1 in
        ground (
          arith,
          f.has_directory,
          find_loop-named env path w f,
          wrote,
          off_lt-ne st.st_size off short,
          read_inode-calm env dir.inum env.junk here f.inodes f.has_inodes st f.inode,
          write_inode-calm env dir.inum (record st { st_size = off }) v is table f.fits,
          put_at-put_at blank_stat dir.inum (record st { st_size = off }) st' f.inodes,
        )
