-- ===== src/Safs/Tests/Creating.antt =====
-- The theorems on mknod at work on two files.
use safs.Base.{
  same_name, false, ◌+◌, ◌*◌, ◌<◌, ◌^◌, ◌≡◌, ◌≢◌, refl, [], ◌∷◌, arith, pos, to_int, codes, bit_and,
}
use safs.Disk.{blank_stat}
use safs.Posix.{calm}
use safs.Posix.Errno.{s_ifmt, s_ifreg}
use safs.Safs.Attributes.{safs_getattr}
use safs.Safs.Contents.{safs_read, safs_write}
use safs.Safs.Names.{safs_mknod}
use safs.Safs.Names.Bounds.{Plain, safs_mknod-outside}
use safs.Safs.Names.Create.{safs_mknod-calm}
use safs.Safs.Names.Created.{getattr-mknod, getattr-mknod_ne, read-write-mknod}
use safs.Safs.Names.Descriptors.{safs_mknod-fds}
use safs.Safs.Tests.{
  bad_day, short_c, quiet_day, two_files, two_entries, two_inodes, named_a, entry_a, plain_c,
  unused_c, below_a, below_c,
}

regular : bit_and 0o100640 s_ifmt ≡ s_ifreg
regular = refl

fits : 3 * 144 < 2 ^ 31
fits = omega arith

positive : 0 < 3
positive = omega arith

narrow : 3 < 2 ^ 32
narrow = omega arith

c_ne_a : codes "a" ≢ codes "c"
c_ne_a same = ground (arith, same)

one_ne_three : entry_a.inum ≢ two_files.inode_number
one_ne_three = omega arith

getattr-mknod_example :
    (safs_getattr
      (calm quiet_day)
      (codes "/c")
      blank_stat
      (safs_mknod (calm quiet_day) (codes "/c") 0o100640 two_files).1).0
    ≡ (
      pos 0,
      record blank_stat {
        st_ino = 3;
        st_mode = 0o100640;
        st_nlink = 1;
        st_uid = 1000;
        st_gid = 1000;
        st_size = 0;
        st_blocks = 1;
        st_atim = quiet_day.now (0 + 2);
        st_mtim = quiet_day.now (0 + 2);
        st_ctim = quiet_day.now (0 + 2);
      },
    )
getattr-mknod_example =
    getattr-mknod quiet_day (codes "/c") 0o100640 two_files two_entries two_inodes regular plain_c
      refl refl fits positive narrow short_c blank_stat unused_c below_c

read-write-mknod_example :
    (safs_read
      (calm quiet_day)
      (codes "/c")
      3
      2
      (safs_write
        (calm quiet_day)
        (codes "/c")
        (4 ∷ 5 ∷ 6 ∷ [])
        3
        2
        (safs_mknod (calm quiet_day) (codes "/c") 0o100640 two_files).1).1).0
    ≡ (to_int 3, 4 ∷ 5 ∷ 6 ∷ [])
read-write-mknod_example =
    read-write-mknod quiet_day (codes "/c") 0o100640 two_files two_entries two_inodes regular
      plain_c refl refl fits positive narrow short_c unused_c (4 ∷ 5 ∷ 6 ∷ []) 2

getattr-mknod_ne_example :
    (safs_getattr
      (calm quiet_day)
      (codes "/a")
      blank_stat
      (safs_mknod (calm quiet_day) (codes "/c") 0o100640 two_files).1).0
    ≡ (safs_getattr (calm quiet_day) (codes "/a") blank_stat two_files).0
getattr-mknod_ne_example =
    getattr-mknod_ne quiet_day (codes "/c") 0o100640 two_files two_entries two_inodes regular
      plain_c refl refl fits positive narrow short_c (codes "/a") named_a c_ne_a one_ne_three
      one_ne_three blank_stat below_a

made_c : (safs_mknod quiet_day (codes "/c") 0o100640 two_files).0 ≡ pos 0
made_c =
    (safs_mknod-calm quiet_day (codes "/c") 0o100640 two_files two_entries two_inodes regular
      plain_c refl refl fits).0

safs_mknod-fds_example : (safs_mknod quiet_day (codes "/c") 0o100640 two_files).1.fds ≡ 0 + 1
safs_mknod-fds_example = safs_mknod-fds quiet_day (codes "/c") 0o100640 two_files made_c

c_Plain : Plain (codes "c")
unfolding same_name
c_Plain = refl

few : 3 + 1 < 2 ^ 31
few = omega arith

safs_mknod-outside_example : (safs_mknod bad_day (codes "/c") 0o100640 two_files).1.outside ≡ false
safs_mknod-outside_example =
    safs_mknod-outside bad_day (codes "/c") 0o100640 two_files short_c c_Plain few
