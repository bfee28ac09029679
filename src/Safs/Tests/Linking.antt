-- ===== src/Safs/Tests/Linking.antt =====
-- The theorems on link at work on two files.
use safs.Base.{◌*◌, ◌<◌, ◌^◌, ◌≡◌, refl, some, arith, pos, codes, same_name, get_elem?, blocks_of}
use safs.Disk.{blank_stat}
use safs.Posix.{calm}
use safs.Safs.Attributes.{safs_getattr}
use safs.Safs.Names.{safs_link}
use safs.Safs.Names.Linked.{getattr-link}
use safs.Safs.Names.Move.{free_entry}
use safs.Safs.Tests.{
  short_c, quiet_day, two_files, two_entries, two_inodes, named_a, entry_a, stat_a, unused_c,
  below_c,
}

-- The first slot is unused, and its entry has the number 0.
blank_inode : get_elem? two_inodes (free_entry two_entries entry_a 0).1.inum ≡ some blank_stat
unfolding free_entry same_name
blank_inode = refl

blank_fits : (free_entry two_entries entry_a 0).1.inum * 144 < 2 ^ 31
unfolding free_entry same_name
blank_fits = omega arith

getattr-link_example :
    (safs_getattr
      (calm quiet_day)
      (codes "/c")
      blank_stat
      (safs_link (calm quiet_day) (codes "/a") (codes "/c") two_files).1).0
    ≡ (pos 0, record stat_a { st_blocks = blocks_of 3 })
unfolding free_entry same_name
getattr-link_example =
    getattr-link quiet_day (codes "/a") (codes "/c") two_files named_a unused_c blank_stat
      blank_inode blank_fits short_c blank_stat below_c
