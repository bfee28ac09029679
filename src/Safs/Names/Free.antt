-- ===== src/Safs/Names/Free.antt =====
-- The slot that safs_link takes for its new entry.
use safs.Base.{
  length, ℕ, ◌+◌, ◌*◌, ◌%◌, ◌^◌, ◌<◌, ◌≤◌, ◌≡◌, ◌≢◌, ap, sym, ◌∙◌, false, some, inl, inr,
  Bool-cases, List, [], ◌∷◌, Name, arith, rest, put_at, codes, same_name, get_elem?,
  get_elem?-put_at_ne,
}
use safs.Disk.{Disk, Dentry, Stat, blank_stat}
use safs.Posix.{Env, World, calm}
use safs.Safs.Attributes.{safs_getattr}
use safs.Safs.Attributes.Calm.{safs_getattr-calm}
use safs.Safs.Find.{find_entry, matches}
use safs.Safs.Find.Laws.{find_entry-after}
use safs.Safs.Names.{safs_link}
use safs.Safs.Names.Move.{safs_link-calm, link_entry, free_entry}
use safs.Safs.Names.Renamed.{matches_ne, matches_used}
use safs.Safs.Named.{IsNamed}
use safs.Safs.Named.Update.{IsNamed_beside}

free_entry-after : (dirs : List Dentry) (dir : Dentry) (i : ℕ) → i ≤ (free_entry dirs dir i).0
unfolding free_entry
free_entry-after [] dir i = omega arith
free_entry-after (next ∷ dirs) dir i = ground (arith, free_entry-after dirs next (i + 1))

-- No name is found in the slot at which free_loop stops.
free_entry-find_entry :
    (name : Name) (dirs : List Dentry) (dir : Dentry) (i j : ℕ) (e : Dentry)
    → find_entry name dirs i ≡ some (j, e)
    → (free_entry dirs dir i).0 ≢ j
unfolding free_entry find_entry
free_entry-find_entry name [] dir i j e found = cc
free_entry-find_entry name (x ∷ xs) dir i j e found =
    let past = free_entry-after xs x (i + 1) in
    elim (Bool-cases (matches name x)) [
      | inl hit ↦ ground (arith, past, rw hit at found, matches_used name x hit)
      | inr miss ↦
          let found' = rw miss at found in
          ground (
            arith,
            free_entry-find_entry name xs x (i + 1) j e found',
            find_entry-after name xs (i + 1) j e found',
          )
    ]

module _ (env : Env) (path target : Name) (w : World) {dir : Dentry} {st : Stat}
    (f : IsNamed env w.disk path dir st) (st' : Stat)
    (inode : get_elem? f.inodes (free_entry f.dirs dir 0).1.inum ≡ some st')
    (fits : (free_entry f.dirs dir 0).1.inum * env.sizeof_stat < 2 ^ 31)
    (short : length (rest target) < 32) where
  -- Where no system call fails, `path` names a file, the new name is shorter than 32 bytes, and
  -- the entry that link's second search read last has an inode with an offset that fits: link
  -- leaves alone what getattr gives for every other name of another inode than that entry's,
  -- since the slot of the new entry held no file.
  pub getattr-link_ne :
      (other : Name) {dir' : Dentry} {st'' : Stat}
      → IsNamed env w.disk other dir' st''
      → rest other ≢ rest target
      → dir'.inum ≢ (free_entry f.dirs dir 0).1.inum
      → (metadata : Stat) → same_name other (codes "/") ≡ false
      → (safs_getattr (calm env) other metadata (safs_link (calm env) path target w).1).0
        ≡ (safs_getattr (calm env) other metadata w).0
  getattr-link_ne other {dir'} {st''} g differ number metadata below =
      let free = free_entry f.dirs dir 0 in
      let after : World = (safs_link (calm env) path target w).1 in
      let bumped : Stat = record st' { st_nlink = (st'.st_nlink + 1) % 2 ^ 64 } in
      let e = (safs_link-calm env path target w f st' inode fits).1 in
      let same_dirs : g.dirs ≡ f.dirs = ground (arith, f.has_directory, g.has_directory) in
      let same_inodes : g.inodes ≡ f.inodes = ground (arith, f.has_inodes, g.has_inodes) in
      let h : IsNamed env after.disk other dir' st'' =
        IsNamed_beside env w.disk other g after.disk f.dirs
          (put_at blank_stat free.1.inum bumped f.inodes) free.0 (link_entry env path target w f)
          st'' f.has_directory (ap (λ (d : Disk). d.directory) e) (ap (λ (d : Disk). d.inodes) e)
          (get_elem?-put_at_ne blank_stat free.1.inum dir'.inum bumped st'' f.inodes
            (λ same. number (sym same)) (rw (← same_inodes) g.inode))
          (matches_ne (rest other) (link_entry env path target w f) differ)
          (free_entry-find_entry (rest other) f.dirs dir 0 g.index dir'
            (rw (← same_dirs) g.found)) in
      safs_getattr-calm env other after h metadata below
      ∙ sym (safs_getattr-calm env other w g metadata below)
