-- ===== src/Safs/Names/Unlink/Calm.antt =====
-- safs_unlink where no system call fails.
use safs.Base.{
  ℕ, ◌+◌, ◌-◌, ◌*◌, ◌^◌, ◌<◌, ◌≡◌, ◌∙◌, refl, sym, ap, true, false, none, some, List, [], ◌∷◌, ◌++◌,
  Name, arith, pos, neg, same_name, codes, get_elem?, lookup, erase, length, rest, Bool,
}
use safs.Disk.{Disk, Dentry, Stat}
use safs.Posix.{Env, World, calm}
use safs.Posix.Data.{is_table, unlink_file}
use safs.Posix.Syscalls.{syscalls}
use safs.Posix.Errno.{enoent}
use safs.Safs.Names.{unlink_loop, safs_unlink}
use safs.Safs.Names.Unlink.{
  Absent, survivors, survivors_append, write_from, write_from-write_from, write_from-packed, packed,
}
use safs.Safs.Names.Unlink.Loop.{
  unlink_loop-Absent, unlink_loop_hit, unlink_loop_missing, lowered, lowered_inodes,
}

pub append_nil : (xs : List Dentry) → xs ++ [] ≡ xs
append_nil [] = refl
append_nil (x ∷ xs) = ap (λ ys. x ∷ ys) (append_nil xs)

-- The removal of .Directory~.
pub unlink_tmp-calm :
    (env : Env) (w : World) (ds : List Dentry)
    → w.disk.tmp_directory ≡ some ds
    → unlink_file (calm env) (codes ".Directory~") w
      ≡ (true, record w { disk = record w.disk { tmp_directory = none }; calls = w.calls + 1 })
unfolding syscalls same_name
unlink_tmp-calm env w ds parked = ground (arith, parked)

module _ (env : Env) (path : Name) (w : World) (before others : List Dentry) (d : Dentry)
    (listed : w.disk.directory ≡ some (before ++ d ∷ others)) (first : Absent (rest path) before)
    (hit : same_name (rest path) d.name ≡ true) (used : same_name d.name [] ≡ false)
    (is : List Stat) (st : Stat) (table : w.disk.inodes ≡ some is)
    (inode : get_elem? is d.inum ≡ some st) (fits : d.inum * env.sizeof_stat < 2 ^ 31)
    (plain : is_table d.name ≡ false) where
  -- The world in which the loop begins.
  abbrev start : World
  start = record w {
    disk = record w.disk { directory = some []; tmp_directory = some (before ++ d ∷ others) };
    fds = w.fds + 1 + 1;
    calls = w.calls + 1 + 1 + 1;
  }

  abbrev slot : ℕ
  slot = 2 + length (survivors before)

  -- The loop up to the entry of the name.
  copied :
      (c : ℕ) × (unlink_loop (calm env) (rest path) (before ++ d ∷ others) env.junk 2 start
        ≡ unlink_loop (calm env) (rest path) (d ∷ others) env.junk slot (record start {
          disk = record start.disk { directory = some (write_from 2 (survivors before) []) };
          calls = c;
        }))
  copied = unlink_loop-Absent env (rest path) before (d ∷ others) env.junk 2 start [] first refl

  all_packed :
      write_from slot (survivors others) (write_from 2 (survivors before) [])
      ≡ packed (survivors (before ++ others))
  all_packed =
      write_from-write_from 2 (survivors before) (survivors others) []
      ∙ write_from-packed (survivors before ++ survivors others)
      ∙ ap packed (sym (survivors_append before others))

  module _ (absent : Absent (rest path) others) (bytes : List ℕ)
      (stored : lookup d.name w.disk.data_files ≡ some bytes) where
    abbrev lower : List Stat
    lower =
        lowered_inodes env (rest path) d others env.junk slot w hit used is st table inode fits
          plain

    loop :
        (c : ℕ) × (o : Bool) × (unlink_loop
            (calm env)
            (rest path)
            (before ++ d ∷ others)
            env.junk
            2
            start
          ≡ (
            none,
            record start {
              disk = record start.disk {
                directory = some (packed (survivors (before ++ others)));
                inodes = some lower;
                data_files = erase d.name w.disk.data_files;
              };
              calls = c;
              outside = o;
            },
          ))
    unfolding unlink_loop syscalls
    loop =
        let (c, e) = copied in
        let es : List Dentry = write_from 2 (survivors before) [] in
        let v : World = record start {
          disk = record start.disk { directory = some es };
          calls = c;
        } in
        let (c', o, e') =
          unlink_loop_hit env (rest path) d others env.junk slot v hit used is st table inode fits
            plain bytes stored in
        let st' : Stat =
          lowered env (rest path) d others env.junk slot v hit used is st table inode fits plain in
        let u : World = record v {
          disk = record v.disk { inodes = some lower; data_files = erase d.name w.disk.data_files };
          calls = c';
          outside = o;
        } in
        let (c'', e'') = unlink_loop-Absent env (rest path) others [] st' slot u es absent refl in
        (c'' + 1, o, ground (arith, e, e', e'', append_nil others, all_packed))

    -- What unlink leaves of the disk.
    abbrev pub unlinked_disk : Disk
    unlinked_disk = record w.disk {
      directory = some (packed (survivors (before ++ others)));
      tmp_directory = none;
      inodes = some lower;
      data_files = erase d.name w.disk.data_files;
    }

    -- unlink of a name, not empty, that exactly one entry has, where no system call fails, that
    -- entry's inode and the data file of its name exist, the offset of the inode fits an `int`,
    -- and the name is not one of a table: the result is 0, Directory~ holds two unused slots and
    -- then the other named entries in order, or is empty if there are none, .Directory~ is gone,
    -- the data file is gone, and the inode has a link less.
    pub safs_unlink-calm :
        ((safs_unlink (calm env) path w).0 ≡ pos 0)
        × ((safs_unlink (calm env) path w).1.disk ≡ unlinked_disk)
    unfolding safs_unlink syscalls
    safs_unlink-calm =
        let (c, o, e) = loop in
        let v : World = record start {
          disk = record unlinked_disk { tmp_directory = some (before ++ d ∷ others) };
          fds = w.fds + 1 + 1 - 1 - 1;
          calls = c + 1 + 1;
          outside = o;
        } in
        ground (arith, listed, e, unlink_tmp-calm env v (before ++ d ∷ others) refl)

  -- unlink of a name, not empty and not that of a table, that has an entry but no data file of
  -- that name, as after a rename or for a link, where no system call fails, the entry's inode
  -- exists and its offset fits: the result is -ENOENT, Directory~ is left with two unused slots
  -- and the named entries before that one, or empty if there are none, the old table is left in
  -- .Directory~, and the inode has a link less.
  pub safs_unlink_missing :
      lookup d.name w.disk.data_files ≡ none
      → ((safs_unlink (calm env) path w).0 ≡ neg enoent)
        × ((safs_unlink (calm env) path w).1.disk ≡ record w.disk {
          directory = some (packed (survivors before));
          tmp_directory = some (before ++ d ∷ others);
          inodes = some (
              lowered_inodes env
                (rest path)
                d
                others
                env.junk
                slot
                w
                hit
                used
                is
                st
                table
                inode
                fits
                plain);
        })
  unfolding safs_unlink syscalls
  safs_unlink_missing absent =
      let (c, e) = copied in
      let es : List Dentry = write_from 2 (survivors before) [] in
      let v : World = record start {
        disk = record start.disk { directory = some es };
        calls = c;
      } in
      ground (
        arith,
        listed,
        e,
        write_from-packed (survivors before),
        unlink_loop_missing env (rest path) d others env.junk slot v hit used is st table inode fits
            plain absent,
      )
