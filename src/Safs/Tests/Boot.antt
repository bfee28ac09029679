-- ===== src/Safs/Tests/Boot.antt =====
-- safs started in an empty directory: a file is made, written, linked, read under its new name, and
-- a name that is not there is unlinked.
use safs.Base.{
  none, pos, write_at, inl, refl, ◌≡◌, [], ◌∷◌, List, codes, arith, same_name, put_at, lookup,
  erase, insert, to_int,
}
use safs.Posix.{World, calm}
use safs.Posix.Syscalls.{syscalls}
use safs.Posix.Data.{is_table, truncated}
use safs.Safs.Find.{find_entry, matches, find_loop}
use safs.Safs.Contents.{safs_write, write_file, safs_read, read_file}
use safs.Safs.Inode.{read_inode, write_inode}
use safs.Safs.Names.{
  safs_mknod, create_node, make_node, get_inode_number, add_unless, add_entry, next_inode_number,
  safs_link, free_loop, add_link,
}
use safs.Safs.Server.{Request, write, read, mknod, link, unlink, safs_oper, serve}
use safs.Safs.Spec.{view}
use safs.Safs.Spec.Step.{Steps}
use safs.Safs.Spec.Boot.{no_names, serve-safs_init}
use safs.Safs.Spec.Refines.{AreServed, results}
use safs.Safs.Start.{safs_init, number_loop}
use safs.Safs.Tests.{quiet_day, two_files}

abbrev new_disk : World
new_disk = record two_files {
  disk = record { directory = none; tmp_directory = none; inodes = none; data_files = [] };
  inode_number = 1;
}

abbrev first_work : List Request
first_work =
    mknod (codes "/d") 0o100644
    ∷ write (codes "/d") (9 ∷ 9 ∷ []) 2 0
    ∷ link (codes "/d") (codes "/e")
    ∷ read (codes "/e") 2 0
    ∷ unlink (codes "/f")
    ∷ []

first_work-AreServed : AreServed quiet_day first_work (safs_init (calm quiet_day) new_disk).1
unfolding safs_init number_loop safs_oper safs_mknod create_node make_node get_inode_number
    add_unless add_entry next_inode_number safs_link free_loop add_link find_loop read_inode
    write_inode safs_write write_file safs_read read_file syscalls find_entry matches same_name
    is_table put_at write_at lookup erase insert to_int truncated
first_work-AreServed = (
  ((omega arith, refl, refl), refl, (tt, omega arith, omega arith)),
  (tt, ((omega arith, refl, refl), (tt, ((refl, inl refl), tt)))),
)

serve-safs_init_example :
    ((safs_init (calm quiet_day) new_disk).0 ≡ pos 0)
    × Steps first_work
        (results (calm quiet_day) first_work (safs_init (calm quiet_day) new_disk).1)
        (no_names new_disk.disk)
        (view (serve (calm quiet_day) first_work (safs_init (calm quiet_day) new_disk).1).disk)
serve-safs_init_example =
    serve-safs_init quiet_day new_disk refl refl refl (omega arith) first_work first_work-AreServed
