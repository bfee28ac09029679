-- ===== src/Safs/Names/Renamed.antt =====
-- What the other handlers show after rename, where no system call fails.
use mathlib.Core.Path.{subst}
use safs.Base.{
  length, ◌<◌, ℕ, ◌≡◌, ◌≢◌, ap, sym, ◌∙◌, false, true, some, none, List, Name, arith, rest, put_at,
  codes, same_name, lookup, same_name_refl, same_name_of_ne,
}
use safs.Disk.{Disk, Dentry, Stat, blank_dentry}
use safs.Posix.{Env, World, calm}
use safs.Posix.Data.{is_table}
use safs.Safs.Attributes.{safs_getattr}
use safs.Safs.Attributes.Calm.{safs_getattr-calm}
use safs.Safs.Contents.{safs_read}
use safs.Safs.Contents.Calm.{safs_read-calm}
use safs.Safs.Find.{find_entry, matches}
use safs.Safs.Find.Laws.{find_entry-put_at, find_entry-matches, find_entry_apart}
use safs.Safs.Names.{safs_rename}
use safs.Safs.Names.Move.{safs_rename-calm, renamed_entry}
use safs.Safs.Named.{IsNamed}
use safs.Safs.Named.Update.{IsNamed_beside}

-- An entry that is used matches its own name, and no other.
pub matches_self : (d : Dentry) → d.inum ≢ 0 → matches d.name d ≡ true
unfolding matches
matches_self d used = ground (arith, same_name_refl d.name)

pub matches_ne : (a : Name) (d : Dentry) → a ≢ d.name → matches a d ≡ false
unfolding matches
matches_ne a d differ = ground (arith, same_name_of_ne a d.name differ)

pub matches_used : (a : Name) (d : Dentry) → matches a d ≡ true → d.inum ≢ 0
unfolding matches
matches_used a d hit = ground arith

module _ (env : Env) (path target : Name) (w : World) {dir : Dentry} {st : Stat}
    (f : IsNamed env w.disk path dir st) where
  abbrev renamed : World
  renamed = (safs_rename (calm env) path target w).1

  -- A rename to a name that is not in use: the new name has the inode and the storage of the old.
  pub named_rename :
      find_entry (rest target) f.dirs 0 ≡ none
      → IsNamed env renamed.disk target (renamed_entry env path target w f) st
  named_rename free =
      let e = (safs_rename-calm env path target w f).1 in
      let hit = find_entry-matches (rest path) f.dirs 0 f.index dir f.found in
      record {
        dirs = put_at blank_dentry f.index (renamed_entry env path target w f) f.dirs;
        index = f.index;
        inodes = f.inodes;
        has_directory = ap (λ (d : Disk). d.directory) e;
        has_inodes = ground (arith, ap (λ (d : Disk). d.inodes) e, f.has_inodes);
        found = ground (
          arith,
          find_entry-put_at (rest target) f.dirs 0 f.index (renamed_entry env path target w f) free
              (matches_self _ (matches_used (rest path) dir hit)),
        );
        inode = f.inode;
        fits = f.fits;
      }

  named_rename_ne :
      (other : Name) {dir' : Dentry} {st' : Stat}
      → IsNamed env w.disk other dir' st'
      → rest other ≢ rest path
      → rest other ≢ rest target
      → IsNamed env renamed.disk other dir' st'
  named_rename_ne other {dir'} {st'} g from to =
      let e = (safs_rename-calm env path target w f).1 in
      IsNamed_beside env w.disk other g renamed.disk f.dirs g.inodes f.index
        (renamed_entry env path target w f) st' f.has_directory (ap (λ (d : Disk). d.directory) e)
        (ground (arith, ap (λ (d : Disk). d.inodes) e, g.has_inodes)) g.inode
        (matches_ne (rest other) _ to)
        (find_entry_apart (rest path) (rest other) f.dirs 0 f.index g.index dir dir'
          (λ same. from (sym same)) f.found
          (subst (λ ds. find_entry (rest other) ds 0 ≡ some (g.index, dir'))
            (cc (f.has_directory, g.has_directory)) g.found))

module _ (env : Env) (path target : Name) (w : World) {dir : Dentry} {st : Stat}
    (f : IsNamed env w.disk path dir st) (metadata : Stat) (short : length (rest target) < 32) where
  -- Where no system call fails, `path` names a file and the new name is shorter than 32 bytes
  -- and not in use, neither of them the root: getattr of the new name after the rename gives
  -- what getattr of the old name gave before.
  pub getattr-rename :
      find_entry (rest target) f.dirs 0 ≡ none
      → same_name path (codes "/") ≡ false
      → same_name target (codes "/") ≡ false
      → (safs_getattr (calm env) target metadata (safs_rename (calm env) path target w).1).0
        ≡ (safs_getattr (calm env) path metadata w).0
  getattr-rename free below below' =
      (safs_getattr-calm env target (safs_rename (calm env) path target w).1
        (named_rename env path target w f free) metadata below')
      ∙ sym (safs_getattr-calm env path w f metadata below)

  -- Where no system call fails and `path` names a file: a rename of it to a name shorter than 32
  -- bytes leaves alone what getattr gives for every third name of a file.
  pub getattr-rename_ne :
      (other : Name) {dir' : Dentry} {st' : Stat}
      → IsNamed env w.disk other dir' st'
      → rest other ≢ rest path
      → rest other ≢ rest target
      → same_name other (codes "/") ≡ false
      → (safs_getattr (calm env) other metadata (safs_rename (calm env) path target w).1).0
        ≡ (safs_getattr (calm env) other metadata w).0
  getattr-rename_ne other g from to below =
      (safs_getattr-calm env other (safs_rename (calm env) path target w).1
        (named_rename_ne env path target w f other g from to) metadata below)
      ∙ sym (safs_getattr-calm env other w g metadata below)

  -- Where no system call fails, `path` names a file whose storage is a data file, and the new
  -- name is shorter than 32 bytes and not in use: the new name reads after the rename as the old
  -- one read before.
  pub read-rename :
      (bytes : List ℕ)
      → find_entry (rest target) f.dirs 0 ≡ none
      → is_table dir.storage ≡ false
      → lookup dir.storage w.disk.data_files ≡ some bytes
      → (size offset : ℕ)
      → (safs_read (calm env) target size offset (safs_rename (calm env) path target w).1).0
        ≡ (safs_read (calm env) path size offset w).0
  read-rename bytes free plain stored size offset =
      let e = (safs_rename-calm env path target w f).1 in
      let holds : lookup dir.storage (safs_rename (calm env) path target w).1.disk.data_files
          ≡ some bytes =
        ground (arith, ap (λ (d : Disk). d.data_files) e, stored) in
      (safs_read-calm env target (safs_rename (calm env) path target w).1
        (named_rename env path target w f free) bytes plain holds size offset).0
      ∙ sym (safs_read-calm env path w f bytes plain stored size offset).0
