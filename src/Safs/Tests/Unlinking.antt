-- ===== src/Safs/Tests/Unlinking.antt =====
-- The theorems on unlink at work on two files.
use safs.Base.{
  ◌≡◌, ◌≢◌, refl, true, false, none, some, [], ◌∷◌, arith, pos, neg, codes, same_name, lookup,
  erase, put_at, blocks_of,
}
use safs.Disk.{Dentry, blank_stat, blank_dentry, tmp_directory_name}
use safs.Posix.{World, calm}
use safs.Posix.Errno.{enoent}
use safs.Safs.Attributes.{safs_getattr}
use safs.Safs.Names.{safs_unlink}
use safs.Safs.Names.Unlink.{Absent, survivors, write_from}
use safs.Safs.Names.Unlink.After.{getattr-unlink_ne}
use safs.Safs.Names.Unlink.Calm.{safs_unlink-calm, safs_unlink_missing}
use safs.Safs.Names.Unlink.Parked.{IsRecoverable, safs_unlink-IsRecoverable}
use safs.Safs.Tests.{
  quiet_day, two_files, two_inodes, named_b, entry_a, entry_b, stat_a, stat_b, plain_a, plain_c,
  stored_a, fits_a, below_b, bad_day, two_entries,
}

before_a : Absent (codes "a") (blank_dentry ∷ [])
unfolding same_name
before_a = (refl, tt)

after_a : Absent (codes "a") (entry_b ∷ [])
unfolding same_name
after_a = (refl, tt)

hit_a : same_name (codes "a") (codes "a") ≡ true
unfolding same_name
hit_a = refl

used_a : same_name (codes "a") [] ≡ false
unfolding same_name
used_a = refl

safs_unlink_example :
    ((safs_unlink (calm quiet_day) (codes "/a") two_files).0 ≡ pos 0)
    × ((safs_unlink (calm quiet_day) (codes "/a") two_files).1.disk ≡ record two_files.disk {
      directory = some (blank_dentry ∷ blank_dentry ∷ entry_b ∷ []);
      inodes = some (blank_stat ∷ record stat_a { st_nlink = 0 } ∷ stat_b ∷ []);
      data_files = (codes "b", 7 ∷ []) ∷ [];
    })
unfolding survivors same_name put_at erase
safs_unlink_example =
    safs_unlink-calm quiet_day (codes "/a") two_files (blank_dentry ∷ []) (entry_b ∷ []) entry_a
      refl before_a hit_a used_a two_inodes stat_a refl refl fits_a plain_a after_a (1 ∷ 2 ∷ 3 ∷ [])
      stored_a

other_a : same_name (codes "a") tmp_directory_name ≡ false
unfolding same_name
other_a = refl

safs_unlink-IsRecoverable_example :
    IsRecoverable bad_day two_entries
      (safs_unlink bad_day (codes "/a") two_files).0
      (safs_unlink bad_day (codes "/a") two_files).1
safs_unlink-IsRecoverable_example =
    safs_unlink-IsRecoverable bad_day two_entries (codes "/a") two_files refl other_a

b_named : codes "b" ≢ []
b_named same = ground (arith, same)

b_ne_a : codes "b" ≢ codes "a"
b_ne_a same = ground (arith, same)

getattr-unlink_ne_example :
    (safs_getattr
      (calm quiet_day)
      (codes "/b")
      blank_stat
      (safs_unlink (calm quiet_day) (codes "/a") two_files).1).0
    ≡ (pos 0, record stat_b { st_blocks = blocks_of 1 })
getattr-unlink_ne_example =
    getattr-unlink_ne quiet_day (codes "/a") two_files (blank_dentry ∷ []) (entry_b ∷ []) entry_a
      refl before_a hit_a used_a two_inodes stat_a refl refl fits_a plain_a after_a (1 ∷ 2 ∷ 3 ∷ [])
      stored_a blank_stat (codes "/b") named_b b_named b_ne_a below_b

-- The file "a" after a rename to "c": its data is still stored as "a".
abbrev entry_c : Dentry
entry_c = record { name = codes "c"; storage = codes "a"; inum = 1 }

abbrev renamed_files : World
renamed_files = record two_files {
  disk = record two_files.disk { directory = some (blank_dentry ∷ entry_c ∷ entry_b ∷ []) };
}

before_c : Absent (codes "c") (blank_dentry ∷ [])
unfolding same_name
before_c = (refl, tt)

hit_c : same_name (codes "c") (codes "c") ≡ true
unfolding same_name
hit_c = refl

used_c : same_name (codes "c") [] ≡ false
unfolding same_name
used_c = refl

missing_c : lookup (codes "c") renamed_files.disk.data_files ≡ none
unfolding lookup same_name
missing_c = refl

safs_unlink_missing_example :
    ((safs_unlink (calm quiet_day) (codes "/c") renamed_files).0 ≡ neg enoent)
    × ((safs_unlink (calm quiet_day) (codes "/c") renamed_files).1.disk
        ≡ record renamed_files.disk {
          directory = some [];
          tmp_directory = some (blank_dentry ∷ entry_c ∷ entry_b ∷ []);
          inodes = some (blank_stat ∷ record stat_a { st_nlink = 0 } ∷ stat_b ∷ []);
        })
unfolding survivors write_from same_name put_at
safs_unlink_missing_example =
    safs_unlink_missing quiet_day (codes "/c") renamed_files (blank_dentry ∷ []) (entry_b ∷ [])
      entry_c refl before_c hit_c used_c two_inodes stat_a refl refl fits_a plain_c missing_c
