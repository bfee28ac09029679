-- ===== src/Safs/Tests/Stored.antt =====
-- The theorems on entries with their inodes at work: two files, and a third that is made.
use safs.Base.{
  ◌≡◌, refl, false, none, some, [], ◌∷◌, List, pos, codes, arith, same_name, put_at, insert, to_int,
}
use safs.Disk.{Dentry, Stat, blank_dentry, blank_stat}
use safs.Posix.{calm}
use safs.Posix.Data.{is_table, truncated}
use safs.Posix.Syscalls.{syscalls}
use safs.Safs.Find.{find_loop, matches}
use safs.Safs.Inode.{write_inode}
use safs.Safs.Listing.{safs_readdir}
use safs.Safs.Listing.Calm.{listing}
use safs.Safs.Names.{
  safs_mknod, create_node, make_node, add_unless, add_entry, next_inode_number, get_inode_number,
  safs_rename,
}
use safs.Safs.Server.{Request, mknod, rename, safs_oper, serve}
use safs.Safs.Stored.{AreStored}
use safs.Safs.Stored.Requests.{AreAllowed, serve-AreStored, safs_readdir-serve}
use safs.Safs.Tests.{quiet_day, bad_day, two_files, stat_a, stat_b, entry_a, entry_b}

two_files-AreStored : AreStored two_files
unfolding is_table same_name
two_files-AreStored = record { enough = ground arith; listed = ground arith; parked = tt }

abbrev changes : List Request
changes = mknod (codes "/c") 0o100644 ∷ rename (codes "/b") (codes "/d") ∷ []

changes-AreAllowed : AreAllowed changes
unfolding is_table same_name
changes-AreAllowed = (refl, (refl, tt))

changes_inside : (serve bad_day changes two_files).outside ≡ false
unfolding serve safs_oper safs_mknod create_node make_node add_unless add_entry next_inode_number
    get_inode_number write_inode safs_rename find_loop matches same_name put_at insert to_int
    truncated is_table syscalls
changes_inside = refl

quiet_changes_inside : (serve quiet_day changes two_files).outside ≡ false
unfolding serve safs_oper safs_mknod create_node make_node add_unless add_entry next_inode_number
    get_inode_number write_inode safs_rename find_loop matches same_name put_at insert to_int
    truncated is_table syscalls
quiet_changes_inside = refl

serve-AreStored_example : AreStored (serve bad_day changes two_files)
serve-AreStored_example =
    serve-AreStored bad_day changes two_files changes_inside changes-AreAllowed two_files-AreStored

abbrev stat_c : Stat
stat_c = record blank_stat {
  st_ino = 3;
  st_mode = 0o100644;
  st_nlink = 1;
  st_uid = 1000;
  st_gid = 1000;
  st_atim = record { tv_sec = 2; tv_nsec = 0 };
  st_mtim = record { tv_sec = 2; tv_nsec = 0 };
  st_ctim = record { tv_sec = 2; tv_nsec = 0 };
}

abbrev entries_after : List Dentry
entries_after =
    blank_dentry
    ∷ entry_a
    ∷ record entry_b { name = codes "d" }
    ∷ record { name = codes "c"; storage = codes "c"; inum = 3 }
    ∷ []

abbrev inodes_after : List Stat
inodes_after = blank_stat ∷ stat_a ∷ stat_b ∷ stat_c ∷ []

listed_after : (serve quiet_day changes two_files).disk.directory ≡ some entries_after
unfolding serve safs_oper safs_mknod create_node make_node add_unless add_entry next_inode_number
    get_inode_number write_inode safs_rename find_loop matches same_name put_at insert to_int
    truncated is_table syscalls
listed_after = refl

inodes_listed : (serve quiet_day changes two_files).disk.inodes ≡ some inodes_after
unfolding serve safs_oper safs_mknod create_node make_node add_unless add_entry next_inode_number
    get_inode_number write_inode safs_rename find_loop matches same_name put_at insert to_int
    truncated is_table syscalls
inodes_listed = refl

safs_readdir-serve_example :
    let v = serve quiet_day changes two_files in
    let (reply, v') = safs_readdir (calm quiet_day) (codes "/") v in
    (reply ≡ (
      pos 0,
      (codes ".", none)
          ∷ (codes "..", none)
          ∷ (codes "a", some stat_a)
          ∷ (codes "d", some stat_b)
          ∷ (codes "c", some stat_c)
          ∷ [],
    ))
    × (v'.disk ≡ v.disk)
unfolding listing
safs_readdir-serve_example =
    safs_readdir-serve quiet_day changes two_files entries_after inodes_after quiet_changes_inside
      changes-AreAllowed two_files-AreStored listed_after inodes_listed
