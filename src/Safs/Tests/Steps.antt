-- ===== src/Safs/Tests/Steps.antt =====
-- The specification at work: two files, of which one is unlinked, another made, linked, renamed,
-- written, cut and opened.
use safs.Base.{
  inl, inr, refl, ◌≡◌, [], ◌∷◌, some, List, codes, arith, same_name, same_name_iff, put_at, lookup,
  erase, insert, to_int,
}
use safs.Posix.{calm}
use safs.Posix.Syscalls.{syscalls}
use safs.Posix.Data.{is_table, truncated}
use safs.Posix.Errno.{o_wronly}
use safs.Safs.Find.{find_entry, matches, find_loop}
use safs.Safs.Inode.{read_inode, write_inode}
use safs.Safs.Names.{
  unlink_loop, safs_unlink, safs_mknod, create_node, make_node, get_inode_number, add_unless,
  add_entry, next_inode_number, safs_link, free_loop, add_link, return_errno,
}
use safs.Safs.Numbers.{IsFresh}
use safs.Safs.Server.{
  Request, write, read, chmod, ftruncate, open_file, mknod, link, unlink, rename, safs_oper, serve,
}
use safs.Safs.Spec.{view}
use safs.Safs.Spec.Step.{Steps}
use safs.Safs.Spec.Refines.{AreServed, results, serve-Steps}
use safs.Safs.Spec.Unlink.{IsAlone}
use safs.Safs.Spec.Unique.{file_found}
use safs.Safs.Spec.View.{IsSound}
use safs.Safs.Tests.{
  quiet_day, two_files, two_entries, two_inodes, plain_a, plain_b, stored_a, stored_b, fits_a,
  fits_b,
}

two_files-IsSound : IsSound quiet_day two_files.disk
unfolding file_found matches same_name
two_files-IsSound = record {
  dirs = two_entries;
  inodes = two_inodes;
  has_directory = refl;
  has_inodes = refl;
  every = (
    inl (refl, refl),
    (
      inr (omega arith, fits_a, plain_a, (1 ∷ 2 ∷ 3 ∷ [], stored_a), (omega arith, refl)),
      (inr (omega arith, fits_b, plain_b, (7 ∷ [], stored_b), (omega arith, refl)), tt),
    ),
  );
  unique = (inl refl, (inr refl, (inr refl, tt)));
}

abbrev work : List Request
work =
    unlink (codes "/b")
    ∷ mknod (codes "/d") 0o100644
    ∷ link (codes "/a") (codes "/e")
    ∷ rename (codes "/d") (codes "/f")
    ∷ write (codes "/a") (9 ∷ 9 ∷ []) 2 1
    ∷ ftruncate (codes "/a") 2
    ∷ chmod (codes "/f") 0o400
    ∷ open_file (codes "/f") o_wronly
    ∷ read (codes "/b") 1 0
    ∷ []

b_listed : (view two_files.disk).names (codes "b") ≡ some (2, codes "b")
unfolding find_entry matches same_name
b_listed = refl

-- b's data file is its own.
b-IsAlone : IsAlone (view two_files.disk) (codes "b")
unfolding find_entry matches
b-IsAlone = (
  (2, b_listed),
  λ other j found. ground (
    arith,
    found,
    same_name_iff other (codes "a"),
    same_name_iff other (codes "b"),
    same_name_iff (codes "b") other,
  ),
)

work-AreServed : AreServed quiet_day work two_files
unfolding safs_oper safs_unlink unlink_loop return_errno safs_mknod create_node make_node
    get_inode_number add_unless add_entry next_inode_number safs_link free_loop add_link find_loop
    read_inode write_inode syscalls find_entry matches same_name is_table put_at lookup erase insert
    to_int truncated
work-AreServed = (
  (refl, inr b-IsAlone),
  (
    ((omega arith, refl, refl), refl, (tt, omega arith, omega arith)),
    ((omega arith, refl, refl), ((omega arith, refl, refl), (tt, (tt, (tt, (tt, (tt, tt))))))),
  ),
)

two_files-IsFresh : IsFresh two_files
two_files-IsFresh = record {
  number = refl;
  positive = omega arith;
  listed = omega arith;
  parked = tt;
}

serve-Steps_example :
    Steps work
      (results (calm quiet_day) work two_files)
      (view two_files.disk)
      (view (serve (calm quiet_day) work two_files).disk)
    × IsSound quiet_day (serve (calm quiet_day) work two_files).disk
serve-Steps_example =
    serve-Steps quiet_day work two_files work-AreServed two_files-IsFresh two_files-IsSound
