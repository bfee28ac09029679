-- ===== src/Safs/Tests/Apart.antt =====
-- A file beside others that are worked on, on a day when a system call fails.
use safs.Base.{
  ◌≡◌, refl, false, arith, some, [], ◌∷◌, List, codes, same_name, put_at, insert, lookup, write_at,
  to_int, off_lt,
}
use safs.Posix.Data.{is_table}
use safs.Posix.Syscalls.{syscalls}
use safs.Safs.Attributes.{safs_chmod}
use safs.Safs.Contents.{safs_write, write_file, safs_read, read_file, safs_ftruncate, extend}
use safs.Safs.Inode.{read_inode, write_inode}
use safs.Safs.Listing.{safs_readdir, readdir_loop}
use safs.Safs.Find.{find_entry, find_loop, matches}
use safs.Safs.Server.{Request, write, read, readdir, chmod, ftruncate, safs_oper, serve}
use safs.Safs.Apart.Requests.{HasOther, serve-IsSpared}
use safs.Safs.Apart.Spared.{IsSpared}
use safs.Safs.Spec.{view}
use safs.Safs.Tests.{bad_day, two_files}

abbrev busy : List Request
busy =
    write (codes "/a") (9 ∷ 9 ∷ []) 2 1
    ∷ readdir (codes "/")
    ∷ ftruncate (codes "/a") 5
    ∷ chmod (codes "/c") 0o400
    ∷ read (codes "/a") 1 0
    ∷ []

a_apart : HasOther (view two_files.disk).names 2 (codes "b") (some (codes "/a"))
unfolding find_entry matches same_name
a_apart = λ j t named. ground (arith, named)

c_apart : HasOther (view two_files.disk).names 2 (codes "b") (some (codes "/c"))
unfolding find_entry matches same_name
c_apart = λ j t named. ground (arith, named)

busy_inside : (serve bad_day busy two_files).outside ≡ false
unfolding serve safs_oper safs_write write_file safs_read read_file safs_readdir readdir_loop
    safs_ftruncate extend safs_chmod read_inode write_inode find_loop matches same_name put_at
    insert lookup write_at to_int off_lt is_table syscalls
busy_inside = refl

serve-IsSpared_example : IsSpared 2 (codes "b") two_files.disk (serve bad_day busy two_files).disk
serve-IsSpared_example =
    serve-IsSpared bad_day 2 (codes "b") busy two_files busy_inside
      (a_apart, (tt, (a_apart, (c_apart, (a_apart, tt)))))
