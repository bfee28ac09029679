-- ===== src/Ramfs/Tests.antt =====
-- The theorems on fuse-test.cpp at work.
use safs.Base.{
  same_name, ◌+◌, ◌≤◌, ◌≡◌, refl, arith, some, List, [], ◌∷◌, neg, pos, to_int, codes, write_at,
}
use safs.Posix.Errno.{einval, s_ifreg}
use safs.Ramfs.{Caller, FileMap, ramfs_read, ramfs_write, strip_leading_slash}
use safs.Ramfs.Keys.{string_order, int_order}
use safs.Ramfs.StdMap.{find, assign, erase_key}
use safs.Ramfs.Server.{
  RamRequest, call_create, call_write, call_read, call_truncate, call_unlink, call_readdir,
  ramfs_run, result, content, entries,
}
use safs.Ramfs.Spec.{AreGapFree, represent, spec_oper, spec_run}
use safs.Ramfs.Numbered.{resize_bytes}
use safs.Ramfs.Refines.{ramfs_run-refines}
use safs.Ramfs.Sparse.{ramfs_read-ramfs_write}

abbrev root : Caller
root = record { uid = 0; gid = 0; now = 7 }

-- Two files are made, one is written, cut, filled up and read, the other removed.
abbrev session : List RamRequest
session =
    call_create (codes "/b") s_ifreg
    ∷ call_create (codes "/a") s_ifreg
    ∷ call_write (codes "/a") (1 ∷ 2 ∷ 3 ∷ []) 0
    ∷ call_write (codes "/a") (9 ∷ 8 ∷ []) 2
    ∷ call_truncate (codes "/a") 3
    ∷ call_truncate (codes "/a") 5
    ∷ call_read (codes "/a") 10 1
    ∷ call_unlink (codes "/b")
    ∷ call_readdir (codes "/")
    ∷ []

in_turn : AreGapFree root session []
unfolding spec_oper find assign write_at
in_turn = ground arith

ramfs_run-refines_example :
    ramfs_run root session (represent [])
    ≡ (let (replies, store') = spec_run root session [] in (replies, represent store'))
ramfs_run-refines_example = ramfs_run-refines root session [] (tt, tt) in_turn

abbrev one_file : FileMap
one_file = (codes "a", (pos 0, 1) ∷ (pos 1, 2) ∷ []) ∷ []

held : find (strip_leading_slash (codes "/a")) one_file ≡ some ((pos 0, 1) ∷ (pos 1, 2) ∷ [])
unfolding find
held = refl

beyond : 2 + 1 ≤ 100
beyond = omega arith

ramfs_read-ramfs_write_example :
    let (written, files') = ramfs_write (codes "/a") (7 ∷ []) 1 100 one_file in
    (written ≡ to_int 1) × ((ramfs_read (codes "/a") 1 100 files').0 ≡ (neg einval, []))
ramfs_read-ramfs_write_example =
    ramfs_read-ramfs_write (codes "/a") (7 ∷ []) 1 100 ((pos 0, 1) ∷ (pos 1, 2) ∷ []) one_file held
      beyond

-- What the session replies.
session_replies :
    (spec_run root session []).0
    ≡ result (pos 0)
      ∷ result (pos 0)
      ∷ result (pos 3)
      ∷ result (pos 2)
      ∷ result (neg einval)
      ∷ result (neg einval)
      ∷ content (pos 4) (2 ∷ 9 ∷ 0 ∷ 0 ∷ [])
      ∷ result (pos 0)
      ∷ entries (pos 0) (codes "." ∷ codes ".." ∷ codes "a" ∷ [])
      ∷ []
unfolding spec_run spec_oper find assign erase_key write_at resize_bytes to_int same_name
session_replies = refl
