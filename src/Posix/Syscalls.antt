-- ===== src/Posix/Syscalls.antt =====
-- All the calls, for the proofs that compute with them.
use safs.Posix.{
  ◌>>=◌, ◌>>◌, mark_outside, set_disk, attempt, get_errno, errno_result, close, clock_gettime,
}
use safs.Posix.Tables.{
  contents, open_table, lseek, read_next, write_dentry, open_inodes, read_stat, write_stat,
  rename_directory,
}
use safs.Posix.Data.{
  strcpy_name, full_path, open_data, create_data, unlink_file, read_data, write_data,
}

-- What a proof unfolds to compute with the calls themselves.
unfoldable pub syscalls : Unit {0}
unfolding ◌>>=◌ ◌>>◌ attempt mark_outside set_disk get_errno errno_result contents close open_table
    lseek read_next write_dentry open_inodes read_stat write_stat clock_gettime strcpy_name
    full_path open_data create_data unlink_file read_data write_data rename_directory
syscalls = tt
