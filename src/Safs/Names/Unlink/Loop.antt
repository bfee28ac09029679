-- ===== src/Safs/Names/Unlink/Loop.antt =====
-- The loop of safs_unlink where no system call fails.
use safs.Base.{
  ℕ, ◌+◌, ◌-◌, ◌*◌, ◌%◌, ◌^◌, ◌<◌, ◌≡◌, refl, true, false, none, some, List, [], ◌∷◌, ◌++◌, Name,
  arith, neg, same_name, put_at, get_elem?, lookup, erase, length, Bool, inl, inr, Bool-cases,
}
use safs.Disk.{Dentry, Stat, blank_dentry, blank_stat}
use safs.Posix.{Env, World, calm}
use safs.Posix.Data.{is_table, unlink_file, full_path}
use safs.Posix.Syscalls.{syscalls}
use safs.Safs.Inode.Calm.{read_inode-calm, write_inode-calm}
use safs.Posix.Errno.{enoent}
use safs.Safs.Names.{unlink_loop, return_errno}
use safs.Safs.Names.Unlink.{Absent, survivors, write_from}

pub unlink_data-calm :
    (env : Env) (s : Name) (w : World) (bytes : List ℕ)
    → is_table s ≡ false
    → lookup s w.disk.data_files ≡ some bytes
    → unlink_file (calm env) s w ≡ (
      true,
      record w {
        disk = record w.disk { data_files = erase s w.disk.data_files };
        calls = w.calls + 1;
      },
    )
unfolding syscalls is_table
unlink_data-calm env s w bytes plain stored = ground arith

module _ (env : Env) (name : Name) where
  -- Entries of other names are copied, those without a name left out.
  pub unlink_loop-Absent :
      (before : List Dentry) (others : List Dentry) (metadata : Stat) (slot : ℕ) (w : World)
      (es : List Dentry)
      → Absent name before
      → w.disk.directory ≡ some es
      → (c : ℕ) × (unlink_loop (calm env) name (before ++ others) metadata slot w
          ≡ unlink_loop
              (calm env)
              name
              others
              metadata
              (slot + length (survivors before))
              (record w {
                disk = record w.disk { directory = some (write_from slot (survivors before) es) };
                calls = c;
              }))
  unfolding unlink_loop survivors write_from syscalls
  unlink_loop-Absent [] others metadata slot w es absent open' = (w.calls, ground arith)
  unlink_loop-Absent (d ∷ ds) others metadata slot w es (other, absent) open' =
      let w' : World = record w { calls = w.calls + 1 } in
      let v : World = record w {
        disk = record w.disk { directory = some (put_at blank_dentry slot d es) };
        calls = w.calls + 1 + 1 + 1;
      } in
      let skipped = unlink_loop-Absent ds others metadata slot w' es absent open' in
      let copied =
        unlink_loop-Absent ds others metadata (slot + 1) v (put_at blank_dentry slot d es) absent
          refl in
      elim (Bool-cases (same_name d.name [])) [
        | inl blank ↦ (skipped.0, ground (arith, blank, skipped.1))
        | inr used ↦ (copied.0, ground (arith, used, other, copied.1, open'))
      ]

pub unlink_data_missing :
    (env : Env) (s : Name) (w : World)
    → is_table s ≡ false
    → lookup s w.disk.data_files ≡ none
    → unlink_file (calm env) s w ≡ (false, record w { errno = enoent; calls = w.calls + 1 })
unfolding syscalls is_table
unlink_data_missing env s w plain absent = ground arith

module _ (env : Env) (name : Name) (d : Dentry) (ds : List Dentry) (metadata : Stat) (slot : ℕ)
    (w : World) (hit : same_name name d.name ≡ true) (used : same_name d.name [] ≡ false)
    (is : List Stat) (st : Stat) (table : w.disk.inodes ≡ some is)
    (inode : get_elem? is d.inum ≡ some st) (fits : d.inum * env.sizeof_stat < 2 ^ 31)
    (plain : is_table d.name ≡ false) where
  abbrev pub lowered : Stat
  lowered = record st { st_nlink = (st.st_nlink + 2 ^ 64 - 1) % 2 ^ 64 }

  abbrev pub lowered_inodes : List Stat
  lowered_inodes = put_at blank_stat d.inum lowered is

  abbrev counted : World
  counted = record w {
    disk = record w.disk { inodes = some lowered_inodes };
    calls = w.calls + 1 + 4 + 4;
  }

  abbrev pathed : World
  pathed = (full_path d.name counted).1

  -- The entry of the name itself is left out, with its data file, and its inode has a link less.
  pub unlink_loop_hit :
      (bytes : List ℕ)
      → lookup d.name w.disk.data_files ≡ some bytes
      → (c : ℕ) × (o : Bool) × (unlink_loop (calm env) name (d ∷ ds) metadata slot w
          ≡ unlink_loop (calm env) name ds lowered slot (record w {
            disk = record w.disk {
              inodes = some lowered_inodes;
              data_files = erase d.name w.disk.data_files;
            };
            calls = c;
            outside = o;
          }))
  unfolding unlink_loop syscalls
  unlink_loop_hit bytes stored = (
    pathed.calls + 1,
    pathed.outside,
    ground (
      arith,
      hit,
      used,
      read_inode-calm env d.inum metadata (record w { calls = w.calls + 1 }) is table st inode,
      write_inode-calm env d.inum lowered (record w { calls = w.calls + 1 + 4 }) is table fits,
      unlink_data-calm env d.name pathed bytes plain stored,
    ),
  )

  -- Without a data file of the entry's name, the loop ends there.
  pub unlink_loop_missing :
      lookup d.name w.disk.data_files ≡ none
      → ((unlink_loop (calm env) name (d ∷ ds) metadata slot w).0 ≡ some (neg enoent))
        × ((unlink_loop (calm env) name (d ∷ ds) metadata slot w).1.disk
            ≡ record w.disk { inodes = some lowered_inodes })
  unfolding unlink_loop return_errno syscalls
  unlink_loop_missing absent = ground (
    arith,
    hit,
    used,
    read_inode-calm env d.inum metadata (record w { calls = w.calls + 1 }) is table st inode,
    write_inode-calm env d.inum lowered (record w { calls = w.calls + 1 + 4 }) is table fits,
    unlink_data_missing env d.name pathed plain absent,
  )
