-- ===== src/Safs/Contents/RoundTrip.antt =====
-- What a read and a getattr give after a write, where no system call fails.
use safs.Base.{
  ◌≡◌, ◌≢◌, ℕ, ap, sym, ◌∙◌, false, ◌==◌, some, List, pos, to_int, blocks_of, Name, codes,
  same_name, same_name_of_ne, same_name_refl, length, take-length, take-drop-write_at, write_at,
  lookup, insert, lookup-insert, put_at, if◌then◌else◌,
}
use safs.Disk.{Disk, Dentry, Stat, blank_stat}
use safs.Posix.{Env, World, calm}
use safs.Posix.Data.{is_table}
use safs.Safs.Attributes.{safs_getattr}
use safs.Safs.Attributes.Calm.{safs_getattr-calm}
use safs.Safs.Contents.{safs_write, safs_read}
use safs.Safs.Contents.Calm.{safs_write-calm, safs_read-calm, written_stat}
use safs.Safs.Named.{IsNamed}
use safs.Safs.Named.Update.{IsNamed-put_at, updated}

module _ (env : Env) (path other : Name) (w : World) {dir dir' : Dentry} {st st' : Stat}
    (f : IsNamed env w.disk path dir st) (g : IsNamed env w.disk other dir' st') (bytes : List ℕ)
    (plain : is_table dir.storage ≡ false)
    (stored : lookup dir.storage w.disk.data_files ≡ some bytes) (buf : List ℕ) (offset : ℕ) where
  abbrev after : World
  after = (safs_write (calm env) path buf (length buf) offset w).1

  abbrev wrote : Stat
  wrote = written_stat env path w f bytes plain stored (length buf) offset

  disk-write : after.disk ≡ record w.disk {
    inodes = some (put_at blank_stat dir.inum wrote f.inodes);
    data_files = insert dir.storage (write_at 0 offset buf bytes) w.disk.data_files;
  }
  disk-write =
      rw (take-length buf) at
        ((safs_write-calm env path w f bytes plain stored buf (length buf) offset).1)

  other_named : IsNamed env after.disk other dir' (updated env w.disk other g dir.inum wrote)
  other_named =
      IsNamed-put_at env w.disk other g dir.inum wrote after.disk
        (ap (λ (d : Disk). d.directory) disk-write)
        (cc (ap (λ (d : Disk). d.inodes) disk-write, f.has_inodes, g.has_inodes))

  -- Where no system call fails, and two paths name files of the same storage, which is a data
  -- file: reading under the one path what was written under the other, at the same offset and of
  -- the same length, gives the bytes that were written and their number.
  pub read-write :
      dir'.storage ≡ dir.storage
      → (safs_read (calm env) other (length buf) offset after).0 ≡ (to_int (length buf), buf)
  read-write same =
      let now : List ℕ = write_at 0 offset buf bytes in
      let holds : lookup dir'.storage after.disk.data_files ≡ some now =
        rw (ap (λ (d : Disk). d.data_files) disk-write, same, lookup-insert, same_name_refl) in
      rw (take-drop-write_at 0 offset buf bytes) at
        (safs_read-calm env other after other_named now (rw same plain) holds (length buf) offset).0

  -- Where no system call fails and both paths name files whose storages are different data
  -- files: what the one reads as is the same after a write to the other as before, at every size
  -- and offset.
  pub read-write_ne :
      (bytes' : List ℕ)
      → is_table dir'.storage ≡ false
      → lookup dir'.storage w.disk.data_files ≡ some bytes'
      → dir.storage ≢ dir'.storage
      → (size from : ℕ)
      → (safs_read (calm env) other size from after).0 ≡ (safs_read (calm env) other size from w).0
  read-write_ne bytes' plain' stored' differ size from =
      let holds : lookup dir'.storage after.disk.data_files ≡ some bytes' =
        rw (ap (λ (d : Disk). d.data_files) disk-write, lookup-insert, same_name_of_ne _ _ differ)
          stored' in
      (safs_read-calm env other after other_named bytes' plain' holds size from).0
      ∙ sym (safs_read-calm env other w g bytes' plain' stored' size from).0

  -- Where no system call fails and both paths name files, the first with a data file, the second
  -- not the root: getattr after a write to the first shows, for a name of the same inode, the
  -- size `offset + size` in 64 bits, whatever the size was, and the two times of the write; and
  -- for a name of another inode what it showed before.
  pub getattr-write :
      (metadata : Stat)
      → same_name other (codes "/") ≡ false
      → (safs_getattr (calm env) other metadata after).0 ≡ (
          let s = if dir.inum == dir'.inum then wrote else st' in
          (pos 0, record s { st_blocks = blocks_of s.st_size }))
  getattr-write metadata below = safs_getattr-calm env other after other_named metadata below
