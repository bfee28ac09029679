-- ===== src/Safs/Names/Unlink/Nothing.antt =====
-- safs_unlink of a name that no entry has, where no system call fails.
use safs.Base.{◌+◌, ◌-◌, ◌≡◌, refl, none, some, List, [], Name, arith, pos, rest}
use safs.Disk.{Dentry}
use safs.Posix.{Env, World, calm}
use safs.Posix.Syscalls.{syscalls}
use safs.Safs.Names.{unlink_loop, safs_unlink}
use safs.Safs.Names.Unlink.{Absent, survivors, write_from-packed, packed}
use safs.Safs.Names.Unlink.Calm.{append_nil, unlink_tmp-calm}
use safs.Safs.Names.Unlink.Loop.{unlink_loop-Absent}

-- The result is 0 all the same, and Directory~ is laid out anew: two unused slots, and then the
-- named entries in order.
pub safs_unlink_nothing :
    (env : Env) (path : Name) (w : World) (dirs : List Dentry)
    → w.disk.directory ≡ some dirs
    → Absent (rest path) dirs
    → ((safs_unlink (calm env) path w).0 ≡ pos 0)
      × ((safs_unlink (calm env) path w).1.disk
          ≡ record w.disk { directory = some (packed (survivors dirs)); tmp_directory = none })
unfolding safs_unlink unlink_loop syscalls
safs_unlink_nothing env path w dirs listed absent =
    let start : World = record w {
      disk = record w.disk { directory = some []; tmp_directory = some dirs };
      fds = w.fds + 1 + 1;
      calls = w.calls + 1 + 1 + 1;
    } in
    let (c, e) = unlink_loop-Absent env (rest path) dirs [] env.junk 2 start [] absent refl in
    let v : World = record start {
      disk = record start.disk { directory = some (packed (survivors dirs)) };
      fds = w.fds + 1 + 1 - 1 - 1;
      calls = c + 1 + 1 + 1;
    } in
    ground (
      arith,
      listed,
      e,
      append_nil dirs,
      write_from-packed (survivors dirs),
      unlink_tmp-calm env v dirs refl,
    )
