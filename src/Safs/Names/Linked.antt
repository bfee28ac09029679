-- ===== src/Safs/Names/Linked.antt =====
-- What the other handlers show after link, where no system call fails.
use safs.Base.{
  length, ℕ, ◌+◌, ◌*◌, ◌%◌, ◌^◌, ◌<◌, ◌≡◌, ap, sym, ◌∙◌, false, some, none, List, Name, arith, pos,
  ◌==◌, rest, put_at, codes, same_name, lookup, get_elem?, if◌then◌else◌, blocks_of,
}
use safs.Disk.{Disk, Dentry, Stat, blank_dentry, blank_stat}
use safs.Posix.{Env, World, calm}
use safs.Posix.Data.{is_table}
use safs.Safs.Attributes.{safs_getattr}
use safs.Safs.Attributes.Calm.{safs_getattr-calm}
use safs.Safs.Contents.{safs_read}
use safs.Safs.Contents.Calm.{safs_read-calm}
use safs.Safs.Find.{find_entry}
use safs.Safs.Find.Laws.{find_entry-put_at, find_entry-matches}
use safs.Safs.Names.{safs_link}
use safs.Safs.Names.Move.{safs_link-calm, link_entry, free_entry}
use safs.Safs.Names.Renamed.{matches_self, matches_used}
use safs.Safs.Named.{IsNamed}
use safs.Safs.Named.Update.{updated, inode-updated}

module _ (env : Env) (path target : Name) (w : World) {dir : Dentry} {st : Stat}
    (f : IsNamed env w.disk path dir st) (unused : find_entry (rest target) f.dirs 0 ≡ none)
    (st' : Stat) (inode : get_elem? f.inodes (free_entry f.dirs dir 0).1.inum ≡ some st')
    (fits : (free_entry f.dirs dir 0).1.inum * env.sizeof_stat < 2 ^ 31)
    (short : length (rest target) < 32) where
  abbrev linked : World
  linked = (safs_link (calm env) path target w).1

  abbrev free : ℕ × Dentry
  free = free_entry f.dirs dir 0

  abbrev bumped : Stat
  bumped = record st' { st_nlink = (st'.st_nlink + 1) % 2 ^ 64 }

  abbrev after_link : Stat
  after_link = updated env w.disk path f free.1.inum bumped

  named_link : IsNamed env linked.disk target (link_entry env path target w f) after_link
  named_link =
      let e = (safs_link-calm env path target w f st' inode fits).1 in
      let hit = find_entry-matches (rest path) f.dirs 0 f.index dir f.found in
      record {
        dirs = put_at blank_dentry free.0 (link_entry env path target w f) f.dirs;
        index = free.0;
        inodes = put_at blank_stat free.1.inum bumped f.inodes;
        has_directory = ap (λ (d : Disk). d.directory) e;
        has_inodes = ap (λ (d : Disk). d.inodes) e;
        found = ground (
          arith,
          find_entry-put_at (rest target) f.dirs 0 free.0 (link_entry env path target w f) unused
              (matches_self _ (matches_used (rest path) dir hit)),
        );
        inode = inode-updated env w.disk path f free.1.inum bumped;
        fits = f.fits;
      }

  -- Where no system call fails, `path` names a file, the new name is shorter than 32 bytes, not
  -- in use and not the root, and the entry that link's second search read last has an inode with
  -- an offset that fits: getattr of the new name shows the attributes of the old name's inode.
  -- Its link count is one more only if that last entry has the same inode number; otherwise the
  -- count is what it was.
  pub getattr-link :
      (metadata : Stat)
      → same_name target (codes "/") ≡ false
      → (safs_getattr (calm env) target metadata (safs_link (calm env) path target w).1).0 ≡ (
          let s =
            if (free_entry f.dirs dir 0).1.inum == dir.inum
            then record st' { st_nlink = (st'.st_nlink + 1) % 2 ^ 64 }
            else st in
          (pos 0, record s { st_blocks = blocks_of s.st_size }))
  getattr-link metadata below = safs_getattr-calm env target linked named_link metadata below

  -- Where no system call fails, `path` names a file whose storage is a data file, the new name
  -- is shorter than 32 bytes and not in use, and the entry that link's second search read last
  -- has an inode with an offset that fits: the new link reads as the file that it links to read
  -- before.
  pub read-link :
      (bytes : List ℕ)
      → is_table dir.storage ≡ false
      → lookup dir.storage w.disk.data_files ≡ some bytes
      → (size offset : ℕ)
      → (safs_read (calm env) target size offset (safs_link (calm env) path target w).1).0
        ≡ (safs_read (calm env) path size offset w).0
  read-link bytes plain stored size offset =
      let e = (safs_link-calm env path target w f st' inode fits).1 in
      let holds : lookup dir.storage linked.disk.data_files ≡ some bytes =
        ground (arith, ap (λ (d : Disk). d.data_files) e, stored) in
      (safs_read-calm env target linked named_link bytes plain holds size offset).0
      ∙ sym (safs_read-calm env path w f bytes plain stored size offset).0
