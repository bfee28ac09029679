-- ===== src/Safs/Names/Unlink/After.antt =====
-- What the other handlers show after unlink, where no system call fails.
use safs.Base.{
  ℕ, ◌+◌, ◌-◌, ◌%◌, ◌*◌, ◌^◌, ◌<◌, ◌≡◌, ◌≢◌, ◌∙◌, ap, true, false, none, some, List, [], ◌∷◌, ◌++◌,
  Name, arith, pos, neg, codes, same_name, get_elem?, lookup, rest, put_at, blocks_of, ◌==◌,
  if◌then◌else◌,
}
use safs.Disk.{Disk, Dentry, Stat, blank_stat}
use safs.Posix.{Env, World, calm}
use safs.Posix.Data.{is_table}
use safs.Posix.Syscalls.{syscalls}
use safs.Posix.Errno.{enoent}
use safs.Safs.Attributes.{safs_getattr}
use safs.Safs.Attributes.Calm.{safs_getattr-calm}
use safs.Safs.Find.{find_entry}
use safs.Safs.Find.Calm.{find_loop-calm}
use safs.Safs.Names.Renamed.{matches_ne}
use safs.Safs.Named.{IsNamed}
use safs.Safs.Named.Update.{inode-updated, updated}
use safs.Safs.Names.{safs_unlink}
use safs.Safs.Names.Unlink.{Absent, survivors, packed}
use safs.Safs.Names.Unlink.Calm.{safs_unlink-calm, unlinked_disk}
use safs.Safs.Names.Unlink.Entries.{find_entry-packed, find_entry-Absent, find_entry-left_out}

pub Absent-append :
    (name : Name) (xs ys : List Dentry) → Absent name xs → Absent name ys → Absent name (xs ++ ys)
Absent-append name [] ys a b = b
Absent-append name (x ∷ xs) ys (other, a) b = (other, Absent-append name xs ys a b)

-- A getattr of a name that is not in use.
safs_getattr_missing :
    (env : Env) (path : Name) (metadata : Stat) (w : World) (dirs : List Dentry)
    → same_name path (codes "/") ≡ false
    → w.disk.directory ≡ some dirs
    → find_entry (rest path) dirs 0 ≡ none
    → (safs_getattr (calm env) path metadata w).0 ≡ (neg enoent, metadata)
unfolding safs_getattr syscalls
safs_getattr_missing env path metadata w dirs below listed unused = ground (
  arith,
  listed,
  find_loop-calm env (rest path) dirs 0 (record w { fds = w.fds + 1; calls = w.calls + 1 }),
)

module _ (env : Env) (path : Name) (w : World) (before others : List Dentry) (d : Dentry)
    (listed : w.disk.directory ≡ some (before ++ d ∷ others)) (first : Absent (rest path) before)
    (hit : same_name (rest path) d.name ≡ true) (used : same_name d.name [] ≡ false)
    (is : List Stat) (st : Stat) (table : w.disk.inodes ≡ some is)
    (inode : get_elem? is d.inum ≡ some st) (fits : d.inum * env.sizeof_stat < 2 ^ 31)
    (plain : is_table d.name ≡ false) (absent : Absent (rest path) others) (bytes : List ℕ)
    (stored : lookup d.name w.disk.data_files ≡ some bytes) (metadata : Stat) where
  abbrev after : World
  after = (safs_unlink (calm env) path w).1

  done :
      ((safs_unlink (calm env) path w).0 ≡ pos 0)
      × (after.disk
          ≡ unlinked_disk env path w before others d listed first hit used is st table inode fits
              plain absent bytes stored)
  done =
      safs_unlink-calm env path w before others d listed first hit used is st table inode fits plain
        absent bytes stored

  -- After an unlink of a name that exactly one entry has, under the conditions in which it
  -- succeeds and where no system call fails, the name is gone: getattr gives -ENOENT.
  pub getattr-unlink :
      same_name path (codes "/") ≡ false
      → (safs_getattr (calm env) path metadata (safs_unlink (calm env) path w).1).0
        ≡ (neg enoent, metadata)
  getattr-unlink below =
      let left : List Dentry = survivors (before ++ others) in
      safs_getattr_missing env path metadata after (packed left) below
        (ap (λ (k : Disk). k.directory) done.1)
        (find_entry-packed (rest path) left
          ∙ find_entry-Absent (rest path) (before ++ others) 2
              (Absent-append (rest path) before others first absent))

  -- Under the conditions in which an unlink of a name that exactly one entry has succeeds, and
  -- where no system call fails, it leaves alone what getattr gives for every other name, not
  -- empty, of an entry in use whose inode is in Inodes~ at an offset that fits an `int`, but
  -- that a name of the same inode has a link less.
  pub getattr-unlink_ne :
      (other : Name) {dir' : Dentry} {st' : Stat}
      → IsNamed env w.disk other dir' st'
      → rest other ≢ []
      → rest other ≢ d.name
      → same_name other (codes "/") ≡ false
      → (safs_getattr (calm env) other metadata (safs_unlink (calm env) path w).1).0 ≡ (
          let s =
            if d.inum == dir'.inum
            then record st { st_nlink = (st.st_nlink + 2 ^ 64 - 1) % 2 ^ 64 }
            else st' in
          (pos 0, record s { st_blocks = blocks_of s.st_size }))
  getattr-unlink_ne other {dir'} {st'} g named differ below =
      let lower : Stat = record st { st_nlink = (st.st_nlink + 2 ^ 64 - 1) % 2 ^ 64 } in
      let left : List Dentry = survivors (before ++ others) in
      let same_dirs : g.dirs ≡ before ++ d ∷ others = ground (arith, listed, g.has_directory) in
      let same_inodes : g.inodes ≡ is = ground (arith, table, g.has_inodes) in
      let (k, at') =
        find_entry-left_out (rest other) named before others d 0 2 g.index dir'
          (matches_ne (rest other) d differ) (rw (← same_dirs) g.found) in
      let h : IsNamed env after.disk other dir' (updated env w.disk other g d.inum lower) = record {
        dirs = packed left;
        index = k;
        inodes = put_at blank_stat d.inum lower is;
        has_directory = ap (λ (k : Disk). k.directory) done.1;
        has_inodes = ap (λ (k : Disk). k.inodes) done.1;
        found = find_entry-packed (rest other) left ∙ at';
        inode = rw (← same_inodes) (inode-updated env w.disk other g d.inum lower);
        fits = g.fits;
      } in
      safs_getattr-calm env other after h metadata below
