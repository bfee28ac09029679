-- ===== src/Safs/Names/Created.antt =====
-- What the other handlers show after mknod, where no system call fails.
use safs.Base.{
  ℕ, ◌+◌, ◌*◌, ◌%◌, ◌^◌, ◌<◌, ◌≡◌, ◌≢◌, refl, ap, sym, ◌∙◌, false, some, none, List, [], Name,
  arith, pos, bit_and, rest, put_at, codes, same_name, same_name_refl, lookup, length, to_int,
  lookup-insert, get_elem?-put_at_self, get_elem?-put_at_ne, blocks_of,
}
use safs.Disk.{Disk, Dentry, Stat, blank_dentry, blank_stat}
use safs.Posix.{Env, World, calm}
use safs.Posix.Data.{is_table}
use safs.Posix.Errno.{s_ifmt, s_ifreg}
use safs.Safs.Attributes.{safs_getattr}
use safs.Safs.Attributes.Calm.{safs_getattr-calm}
use safs.Safs.Contents.{safs_write, safs_read}
use safs.Safs.Contents.RoundTrip.{read-write}
use safs.Safs.Find.{find_entry}
use safs.Safs.Find.Laws.{find_entry-put_at}
use safs.Safs.Names.{safs_mknod}
use safs.Safs.Names.Create.{safs_mknod-calm, made_entry, made_stat}
use safs.Safs.Names.Renamed.{matches_self, matches_ne}
use safs.Safs.Named.{IsNamed}
use safs.Safs.Named.Update.{IsNamed_beside}

module _ (env : Env) (filename : Name) (mode : ℕ) (w : World) (dirs : List Dentry) (is : List Stat)
    (regular : bit_and mode s_ifmt ≡ s_ifreg) (plain : is_table (rest filename) ≡ false)
    (listed : w.disk.directory ≡ some dirs) (table : w.disk.inodes ≡ some is)
    (fits : w.inode_number * env.sizeof_stat < 2 ^ 31) (started : 0 < w.inode_number)
    (narrow : w.inode_number < 2 ^ 32) (short : length (rest filename) < 32) where
  abbrev after : World
  after = (safs_mknod (calm env) filename mode w).1

  abbrev entry : Dentry
  entry = made_entry env filename mode w dirs is regular plain listed table fits

  abbrev stat : Stat
  stat = made_stat env filename mode w dirs is regular plain listed table fits

  number_kept : w.inode_number % 2 ^ 32 ≡ w.inode_number
  number_kept = omega arith

  named_mknod :
      find_entry (rest filename) dirs 0 ≡ none → IsNamed env after.disk filename entry stat
  named_mknod free =
      let e = (safs_mknod-calm env filename mode w dirs is regular plain listed table fits).1 in
      record {
        dirs = put_at blank_dentry w.inode_number entry dirs;
        index = w.inode_number;
        inodes = put_at blank_stat w.inode_number stat is;
        has_directory = ap (λ (d : Disk). d.directory) e;
        has_inodes = ap (λ (d : Disk). d.inodes) e;
        found = ground (
          arith,
          find_entry-put_at (rest filename) dirs 0 w.inode_number entry free
              (matches_self entry (ground (arith, number_kept))),
        );
        inode = rw number_kept (get_elem?-put_at_self blank_stat w.inode_number stat is);
        fits = rw number_kept fits;
      }

  -- Where no system call fails, both tables exist, the mode is a regular file's, the name is
  -- shorter than 32 bytes, that of no table, not in use and not the root, and inode_number is
  -- positive and fits its words: getattr after mknod shows the mode that was asked for, one
  -- link, size 0 in 1 block, the user's ids, the time of the call and the number that
  -- inode_number was.
  pub getattr-mknod :
      (metadata : Stat)
      → find_entry (rest filename) dirs 0 ≡ none
      → same_name filename (codes "/") ≡ false
      → (safs_getattr (calm env) filename metadata (safs_mknod (calm env) filename mode w).1).0 ≡ (
        pos 0,
        record env.junk {
          st_ino = w.inode_number;
          st_mode = mode;
          st_nlink = 1;
          st_uid = env.uid;
          st_gid = env.gid;
          st_size = 0;
          st_blocks = 1;
          st_atim = env.now (w.calls + 2);
          st_mtim = env.now (w.calls + 2);
          st_ctim = env.now (w.calls + 2);
        },
      )
  unfolding blocks_of
  getattr-mknod metadata free below =
      safs_getattr-calm env filename after (named_mknod free) metadata below

  -- Where no system call fails, both tables exist, the mode is a regular file's, the name is
  -- shorter than 32 bytes, that of no table and not in use, and inode_number is positive and
  -- fits its words: what is written to a file that mknod has just made is read back from it at
  -- the same offset.
  pub read-write-mknod :
      find_entry (rest filename) dirs 0 ≡ none
      → (buf : List ℕ) (offset : ℕ)
      → (safs_read
          (calm env)
          filename
          (length buf)
          offset
          (safs_write
            (calm env)
            filename
            buf
            (length buf)
            offset
            (safs_mknod (calm env) filename mode w).1).1).0
        ≡ (to_int (length buf), buf)
  read-write-mknod free buf offset =
      let e = (safs_mknod-calm env filename mode w dirs is regular plain listed table fits).1 in
      let stored : lookup (rest filename) after.disk.data_files ≡ some [] =
        rw (ap (λ (d : Disk). d.data_files) e, lookup-insert, same_name_refl) in
      read-write env filename filename after (named_mknod free) (named_mknod free) [] plain stored
        buf offset refl

  -- Where no system call fails, both tables exist, the mode is a regular file's, the name is
  -- shorter than 32 bytes and that of no table, and inode_number is positive and fits its words:
  -- after mknod, getattr of another name gives what it gave before, if that name's entry does
  -- not stand in the slot `inode_number` and its inode does not have that number.
  pub getattr-mknod_ne :
      (other : Name) {dir' : Dentry} {st' : Stat} (g : IsNamed env w.disk other dir' st')
      → rest other ≢ rest filename
      → g.index ≢ w.inode_number
      → dir'.inum ≢ w.inode_number
      → (metadata : Stat) → same_name other (codes "/") ≡ false
      → (safs_getattr (calm env) other metadata (safs_mknod (calm env) filename mode w).1).0
        ≡ (safs_getattr (calm env) other metadata w).0
  getattr-mknod_ne other {dir'} {st'} g differ slot number metadata below =
      let e = (safs_mknod-calm env filename mode w dirs is regular plain listed table fits).1 in
      let same_table : g.inodes ≡ is = ground (arith, table, g.has_inodes) in
      let h : IsNamed env after.disk other dir' st' =
        IsNamed_beside env w.disk other g after.disk dirs (put_at blank_stat w.inode_number stat is)
          w.inode_number entry st' listed (ap (λ (d : Disk). d.directory) e)
          (ap (λ (d : Disk). d.inodes) e)
          (get_elem?-put_at_ne blank_stat w.inode_number dir'.inum stat st' is
            (λ same. number (sym same)) (rw (← same_table) g.inode))
          (matches_ne (rest other) entry differ) (λ same. slot (sym same)) in
      safs_getattr-calm env other after h metadata below
      ∙ sym (safs_getattr-calm env other w g metadata below)
