-- ===== src/Safs/Tests/Contents.antt =====
-- The theorems on contents at work on two files.
use safs.Base.{
  ◌≡◌, ◌≢◌, true, false, off_lt, refl, some, [], ◌∷◌, arith, pos, neg, to_int, codes, same_name,
  put_at, insert, write_at, blocks_of,
}
use safs.Disk.{blank_stat}
use safs.Posix.{calm}
use safs.Posix.Errno.{eperm}
use safs.Safs.Attributes.{safs_getattr}
use safs.Safs.Contents.{safs_open, safs_read, safs_write, safs_ftruncate}
use safs.Safs.Contents.Checks.{safs_open-calm}
use safs.Safs.Contents.Resize.{safs_ftruncate_shrinks, safs_ftruncate_extends}
use safs.Safs.Contents.RoundTrip.{read-write, getattr-write}
use safs.Safs.Find.{matches}
use safs.Safs.Find.Calm.{find_reads}
use safs.Safs.Tests.{
  quiet_day, two_files, two_inodes, named_a, named_b, stat_a, plain_a, stored_a, below_a,
}

a_ne_b : codes "a" ≢ codes "b"
a_ne_b same = ground (arith, same)

long : off_lt 3 1 ≡ false
unfolding off_lt
long = refl

short : off_lt 3 5 ≡ true
unfolding off_lt
short = refl

read-write_example :
    (safs_read
      (calm quiet_day)
      (codes "/a")
      2
      1
      (safs_write (calm quiet_day) (codes "/a") (9 ∷ 8 ∷ []) 2 1 two_files).1).0
    ≡ (to_int 2, 9 ∷ 8 ∷ [])
read-write_example =
    read-write quiet_day (codes "/a") (codes "/a") two_files named_a named_a (1 ∷ 2 ∷ 3 ∷ [])
      plain_a stored_a (9 ∷ 8 ∷ []) 1 refl

getattr-write_example :
    (safs_getattr
      (calm quiet_day)
      (codes "/a")
      blank_stat
      (safs_write (calm quiet_day) (codes "/a") (9 ∷ []) 1 0 two_files).1).0
    ≡ (
      pos 0,
      record stat_a {
        st_size = 1;
        st_blocks = blocks_of 1;
        st_atim = record { tv_sec = 8; tv_nsec = 0 };
        st_mtim = record { tv_sec = 9; tv_nsec = 0 };
      },
    )
unfolding find_reads matches same_name
getattr-write_example =
    getattr-write quiet_day (codes "/a") (codes "/a") two_files named_a named_a (1 ∷ 2 ∷ 3 ∷ [])
      plain_a stored_a (9 ∷ []) 0 blank_stat below_a

safs_open_example :
    ((safs_open (calm quiet_day) (codes "/b") 1 two_files).0 ≡ neg eperm)
    × ((safs_open (calm quiet_day) (codes "/b") 1 two_files).1.disk ≡ two_files.disk)
safs_open_example = safs_open-calm quiet_day (codes "/b") two_files named_b 1

safs_ftruncate_shrinks_example :
    ((safs_ftruncate (calm quiet_day) (codes "/a") 1 two_files).0 ≡ pos 0)
    × ((safs_ftruncate (calm quiet_day) (codes "/a") 1 two_files).1.disk ≡ record two_files.disk {
      inodes = some (put_at blank_stat 1 (record stat_a { st_size = 1 }) two_inodes);
    })
safs_ftruncate_shrinks_example =
    safs_ftruncate_shrinks quiet_day (codes "/a") two_files named_a 1 long

safs_ftruncate_extends_example :
    ((safs_ftruncate (calm quiet_day) (codes "/a") 5 two_files).0 ≡ pos 0)
    × ((safs_ftruncate (calm quiet_day) (codes "/a") 5 two_files).1.disk ≡ record two_files.disk {
      inodes = some (put_at blank_stat 1 (record stat_a { st_size = 5 }) two_inodes);
      data_files =
          insert (codes "a") (write_at 0 5 (0 ∷ []) (1 ∷ 2 ∷ 3 ∷ [])) two_files.disk.data_files;
    })
safs_ftruncate_extends_example =
    safs_ftruncate_extends quiet_day (codes "/a") two_files named_a 5 (1 ∷ 2 ∷ 3 ∷ []) plain_a
      stored_a short
