-- ===== src/Bbfs/Tests.antt =====
-- The theorems on bbfs.c at work, on a host in which every call fails with ENOENT but mkdir.
use safs.Base.{
  ◌<◌, ◌≤◌, ◌≡◌, ◌≢◌, ℕ, refl, Bool, true, false, some, List, [], ◌∷◌, arith, pos, neg, negsuc,
  ◌==◌, Name, codes,
}
use safs.Posix.Errno.{enoent}
use safs.Bbfs.{Call, Answer, Bb, mkdir}
use safs.Bbfs.Server.{BbRequest, oper_mkdir, oper_rename, oper_mknod, oper_symlink}
use safs.Bbfs.Start.{
  Surroundings, exited, bbfs_main, bbfs_main_lem, enomem, bb_readdir, bb_readdir_full,
}

abbrev missing : Answer
missing = record { value = negsuc 0; errno = enoent; bytes = [] }

abbrev done : Answer
done = record { value = pos 0; errno = 0; bytes = [] }

abbrev bare_host : Call → Unit {0} → Answer × Unit {0}
bare_host (mkdir path mode) s = (done, s)
bare_host c s = (missing, s)

abbrev quiet : Bb (Unit {0})
quiet = record { host_state = tt; errno = 0; asked = []; outside = false }

abbrev root : Name
root = codes "/srv"

abbrev session : List BbRequest
session =
    oper_mkdir (codes "/d") 0o755
    ∷ oper_mknod (codes "/d/f") 0o100644 0
    ∷ oper_symlink (codes "../secret") (codes "/l")
    ∷ oper_rename (codes "/d/f") (codes "/g")
    ∷ []

abbrev office : Surroundings
office = record {
  uid = 1000;
  euid = 1000;
  allocated = true;
  log_opened = true;
  realpath = λ p. some p;
  fuse_main = λ args rootdir. pos 0;
}

not_root : office.uid ≢ 0
not_root = omega arith

enough : 1 ≤ 1
enough = omega arith

bbfs_main_example :
    bbfs_main office (codes "bbfs" ∷ codes "root" ∷ codes "mount" ∷ [])
    ≡ exited (office.fuse_main (codes "bbfs" ∷ codes "mount" ∷ []) (some (codes "root")))
bbfs_main_example =
    bbfs_main_lem office (codes "bbfs" ∷ []) (codes "root") (codes "mount") not_root not_root enough
      refl refl refl refl

abbrev tiny : ℕ → Bool
tiny k = k == 1

tiny_room : (i : ℕ) → i < 1 → tiny i ≡ false
tiny_room i lt = ground arith

room_for : 1 < 3
room_for = omega arith

bb_readdir_full_example :
    bb_readdir 0 tiny (codes "." ∷ codes ".." ∷ codes "f" ∷ [])
    ≡ (neg enomem, codes "." ∷ codes ".." ∷ [])
bb_readdir_full_example =
    bb_readdir_full tiny 0 1 (codes "." ∷ codes ".." ∷ codes "f" ∷ []) tiny_room refl room_for
