-- ===== src/Safs/Tests/Renaming.antt =====
-- The theorems on rename at work on two files.
use safs.Base.{◌≡◌, ◌≢◌, [], ◌∷◌, arith, codes}
use safs.Disk.{blank_stat}
use safs.Posix.{calm}
use safs.Safs.Attributes.{safs_getattr}
use safs.Safs.Contents.{safs_read}
use safs.Safs.Names.{safs_rename}
use safs.Safs.Names.Renamed.{getattr-rename, getattr-rename_ne, read-rename}
use safs.Safs.Tests.{
  short_c, quiet_day, two_files, named_a, named_b, plain_a, stored_a, unused_c, below_a, below_b,
  below_c,
}

b_ne_a : codes "b" ≢ codes "a"
b_ne_a same = ground (arith, same)

b_ne_c : codes "b" ≢ codes "c"
b_ne_c same = ground (arith, same)

getattr-rename_example :
    (safs_getattr
      (calm quiet_day)
      (codes "/c")
      blank_stat
      (safs_rename (calm quiet_day) (codes "/a") (codes "/c") two_files).1).0
    ≡ (safs_getattr (calm quiet_day) (codes "/a") blank_stat two_files).0
getattr-rename_example =
    getattr-rename quiet_day (codes "/a") (codes "/c") two_files named_a blank_stat short_c unused_c
      below_a below_c

getattr-rename_ne_example :
    (safs_getattr
      (calm quiet_day)
      (codes "/b")
      blank_stat
      (safs_rename (calm quiet_day) (codes "/a") (codes "/c") two_files).1).0
    ≡ (safs_getattr (calm quiet_day) (codes "/b") blank_stat two_files).0
getattr-rename_ne_example =
    getattr-rename_ne quiet_day (codes "/a") (codes "/c") two_files named_a blank_stat short_c
      (codes "/b") named_b b_ne_a b_ne_c below_b

read-rename_example :
    (safs_read
      (calm quiet_day)
      (codes "/c")
      2
      1
      (safs_rename (calm quiet_day) (codes "/a") (codes "/c") two_files).1).0
    ≡ (safs_read (calm quiet_day) (codes "/a") 2 1 two_files).0
read-rename_example =
    read-rename quiet_day (codes "/a") (codes "/c") two_files named_a blank_stat short_c
      (1 ∷ 2 ∷ 3 ∷ []) unused_c plain_a stored_a 2 1
