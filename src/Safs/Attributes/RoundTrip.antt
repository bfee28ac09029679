-- ===== src/Safs/Attributes/RoundTrip.antt =====
-- What a getattr gives after a chmod or a utimens, where no system call fails.
use safs.Base.{◌≡◌, ℕ, ap, false, ◌==◌, pos, blocks_of, Name, codes, same_name, if◌then◌else◌}
use safs.Disk.{Disk, Dentry, Stat, Timespec}
use safs.Posix.{Env, World, calm}
use safs.Safs.Attributes.{safs_getattr, safs_chmod, safs_utimens}
use safs.Safs.Attributes.Calm.{safs_getattr-calm, safs_chmod-calm, safs_utimens-calm}
use safs.Safs.Named.{IsNamed}
use safs.Safs.Named.Update.{IsNamed-put_at}

module _ (env : Env) (path other : Name) (w : World) {dir dir' : Dentry} {st st' : Stat}
    (f : IsNamed env w.disk path dir st) (g : IsNamed env w.disk other dir' st') (metadata : Stat)
    (below : same_name other (codes "/") ≡ false) where
  -- The attributes as getattr gives them.
  abbrev pub shown : Stat → Stat
  shown s = record s { st_blocks = blocks_of s.st_size }

  -- Where no system call fails and two paths name files, the second not the root: after a chmod
  -- of the first, getattr of the second shows the new mode and all else as before if it has the
  -- same inode, and what it showed before if it has another.
  pub getattr-chmod :
      (mode : ℕ)
      → (safs_getattr (calm env) other metadata (safs_chmod (calm env) path mode w).1).0
        ≡ (pos 0, shown (if dir.inum == dir'.inum then record st { st_mode = mode } else st'))
  getattr-chmod mode =
      let after : World = (safs_chmod (calm env) path mode w).1 in
      let e = (safs_chmod-calm env path w f mode).1 in
      safs_getattr-calm env other after
        (IsNamed-put_at env w.disk other g dir.inum (record st { st_mode = mode }) after.disk
          (ap (λ (d : Disk). d.directory) e)
          (cc (ap (λ (d : Disk). d.inodes) e, f.has_inodes, g.has_inodes)))
        metadata below

  -- Where no system call fails and two paths name files, the second not the root: after a
  -- utimens of the first, getattr of the second shows the two times and all else as before if it
  -- has the same inode, and what it showed before if it has another.
  pub getattr-utimens :
      (s t : Timespec)
      → (safs_getattr (calm env) other metadata (safs_utimens (calm env) path s t w).1).0 ≡ (
        pos 0,
        shown (if dir.inum == dir'.inum then record st { st_atim = s; st_mtim = t } else st'),
      )
  getattr-utimens s t =
      let after : World = (safs_utimens (calm env) path s t w).1 in
      let e = (safs_utimens-calm env path w f s t).1 in
      safs_getattr-calm env other after
        (IsNamed-put_at env w.disk other g dir.inum (record st { st_atim = s; st_mtim = t })
          after.disk (ap (λ (d : Disk). d.directory) e)
          (cc (ap (λ (d : Disk). d.inodes) e, f.has_inodes, g.has_inodes)))
        metadata below
