-- ===== src/Safs/Named/Update.antt =====
-- Which file a path names after an inode was written.
use safs.Base.{
  ℕ, ◌≢◌, List, rest, false, ◌≡◌, ◌==◌, some, inl, inr, Bool-cases, arith, Name, put_at, get_elem?,
  get_elem?-put_at_self, get_elem?-put_at_ne, if◌then◌else◌,
}
use safs.Disk.{Disk, Dentry, Stat, blank_stat, blank_dentry}
use safs.Posix.{Env}
use safs.Safs.Find.{matches}
use safs.Safs.Find.Laws.{find_entry-put_at_ne}
use safs.Safs.Named.{IsNamed}

module _ (env : Env) (disk : Disk) (path : Name) {dir : Dentry} {st : Stat}
    (f : IsNamed env disk path dir st) (i : ℕ) (st' : Stat) where
  abbrev pub updated : Stat
  updated = if i == dir.inum then st' else st

  pub inode-updated : get_elem? (put_at blank_stat i st' f.inodes) dir.inum ≡ some updated
  inode-updated = elim (Bool-cases (i == dir.inum)) [
    | inl same ↦
        let e : i ≡ dir.inum = ground arith in
        rw same (rw (← e) (get_elem?-put_at_self blank_stat i st' f.inodes))
    | inr differ ↦
        rw differ (get_elem?-put_at_ne blank_stat i dir.inum st' st f.inodes (ground arith) f.inode)
  ]

  -- The inode `i` is overwritten: the path names the same entry, and the new inode if it is `i`'s.
  pub IsNamed-put_at :
      (disk' : Disk)
      → disk'.directory ≡ disk.directory
      → disk'.inodes ≡ some (put_at blank_stat i st' f.inodes)
      → IsNamed env disk' path dir updated
  IsNamed-put_at disk' names table = record {
    dirs = f.dirs;
    index = f.index;
    inodes = put_at blank_stat i st' f.inodes;
    has_directory = ground (arith, f.has_directory);
    has_inodes = table;
    found = f.found;
    inode = inode-updated;
    fits = f.fits;
  }

module _ (env : Env) (disk : Disk) (path : Name) {dir : Dentry} {st : Stat}
    (f : IsNamed env disk path dir st) where
  -- The entry `d` is written to another slot and under another name, and inodes are written.
  pub IsNamed_beside :
      (disk' : Disk) (dirs : List Dentry) (is : List Stat) (k : ℕ) (d : Dentry) (st' : Stat)
      → disk.directory ≡ some dirs
      → disk'.directory ≡ some (put_at blank_dentry k d dirs)
      → disk'.inodes ≡ some is
      → get_elem? is dir.inum ≡ some st'
      → matches (rest path) d ≡ false
      → k ≢ f.index
      → IsNamed env disk' path dir st'
  IsNamed_beside disk' dirs is k d st' was now inodes holds other apart = record {
    dirs = put_at blank_dentry k d f.dirs;
    index = f.index;
    inodes = is;
    has_directory = cc (was, now, f.has_directory);
    has_inodes = inodes;
    found =
        find_entry-put_at_ne (rest path) f.dirs 0 k f.index d dir other f.found
          (λ same. apart (ground arith));
    inode = holds;
    fits = f.fits;
  }
