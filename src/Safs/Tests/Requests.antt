-- ===== src/Safs/Tests/Requests.antt =====
-- The theorems on requests, searches and listings at work on two files.
use safs.Base.{
  lookup, same_name, put_at, insert, to_int, ◌+◌, ◌≡◌, ◌⊎◌, inl, inr, arith, refl, false, none,
  some, ◌==◌, if◌then◌else◌, [], ◌∷◌, List, pos, neg, codes,
}
use safs.Posix.{Env, World, calm}
use safs.Posix.Syscalls.{syscalls}
use safs.Posix.Errno.{eio, enoent}
use safs.Safs.Find.{find_loop, matches}
use safs.Safs.Find.Laws.{IsAnswer, find_loop-IsAnswer}
use safs.Posix.Data.{is_table, truncated}
use safs.Safs.Inode.{write_inode, read_inode}
use safs.Safs.Names.{
  safs_mknod, create_node, make_node, add_unless, add_entry, next_inode_number, get_inode_number,
  safs_rename, safs_link, free_loop, add_link, safs_unlink, unlink_loop, return_errno,
}
use safs.Safs.Numbers.{Below, IsFresh}
use safs.Safs.Server.{Request, chmod, mknod, link, rename, unlink, safs_oper, serve}
use safs.Safs.Server.Fresh.{serve-IsFresh}
use safs.Safs.Server.Missing.{serve_missing}
use safs.Safs.Server.Unknown.{safs_oper_unknown}
use safs.Safs.Start.{safs_init}
use safs.Safs.Start.Calm.{Lists, safs_init_lem}
use safs.Safs.Tests.{
  quiet_day, bad_day, two_files, two_entries, entry_b, unused_c, two_files-IsFresh,
}

abbrev requests : List Request
requests =
    mknod (codes "/c") 0o100644
    ∷ link (codes "/a") (codes "/d")
    ∷ rename (codes "/c") (codes "/e")
    ∷ unlink (codes "/a")
    ∷ []

requests_inside : (serve bad_day requests two_files).outside ≡ false
unfolding serve safs_oper safs_mknod create_node make_node add_unless add_entry next_inode_number
    get_inode_number write_inode read_inode safs_rename safs_link free_loop add_link safs_unlink
    unlink_loop return_errno find_loop matches same_name put_at insert lookup to_int truncated
    is_table syscalls
requests_inside = refl

serve-IsFresh_example : IsFresh (serve bad_day requests two_files)
serve-IsFresh_example = serve-IsFresh bad_day requests two_files requests_inside two_files-IsFresh

safs_oper_unknown_example :
    (((safs_oper bad_day (chmod (codes "/c") 0o600) two_files).0 ≡ neg eio)
      ⊎ ((safs_oper bad_day (chmod (codes "/c") 0o600) two_files).0 ≡ neg enoent))
    × ((safs_oper bad_day (chmod (codes "/c") 0o600) two_files).1.disk ≡ two_files.disk)
safs_oper_unknown_example =
    safs_oper_unknown bad_day (chmod (codes "/c") 0o600) (codes "/c") two_files refl unused_c

-- An unlink whose second call fails has renamed Directory~ and made no new one.
abbrev no_reopen : Env
no_reopen = record quiet_day { fault = λ n. if n == 1 then some 24 else none }

abbrev half_unlinked : World
half_unlinked = (safs_unlink no_reopen (codes "/a") two_files).1

no_directory : half_unlinked.disk.directory ≡ none
unfolding safs_unlink syscalls
no_directory = refl

serve_missing_example :
    ((serve bad_day requests half_unlinked).disk ≡ half_unlinked.disk)
    × ((safs_oper bad_day (mknod (codes "/c") 0o100644) (serve bad_day requests half_unlinked)).0
        ≡ neg eio)
    × ((safs_oper bad_day
          (mknod (codes "/c") 0o100644)
          (serve bad_day requests half_unlinked)).1.disk
        ≡ half_unlinked.disk)
serve_missing_example =
    serve_missing bad_day requests (mknod (codes "/c") 0o100644) half_unlinked no_directory refl

-- The first slot is unused, the second has another name.
entry_b-IsAnswer : IsAnswer (codes "b") two_entries (some (2, entry_b))
entry_b-IsAnswer = (
  inl refl,
  (inr (λ same. ground (arith, same)), (refl, (λ zero_is. ground (arith, zero_is)), refl)),
)

find_loop-IsAnswer_example :
    ((find_loop (calm bad_day) (codes "b") two_entries 0 two_files).0 ≡ some (2, entry_b))
    × (((find_loop bad_day (codes "b") two_entries 0 two_files).0 ≡ none)
        ⊎ ((find_loop bad_day (codes "b") two_entries 0 two_files).0 ≡ some (2, entry_b)))
find_loop-IsAnswer_example =
    find_loop-IsAnswer bad_day (codes "b") two_entries (some (2, entry_b)) two_files
      entry_b-IsAnswer

safs_init_example :
    ((safs_init (calm quiet_day) two_files).0 ≡ pos 0)
    × ((safs_init (calm quiet_day) two_files).1.disk ≡ two_files.disk)
    × Below ((safs_init (calm quiet_day) two_files).1.inode_number + 1) two_entries
    × (((safs_init (calm quiet_day) two_files).1.inode_number ≡ 3)
        ⊎ Lists (safs_init (calm quiet_day) two_files).1.inode_number two_entries)
safs_init_example = safs_init_lem quiet_day two_files
