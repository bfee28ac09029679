-- ===== src/Safs/Names.antt =====
-- safs_mknod, safs_rename, safs_link and safs_unlink of safs.c: the handlers that change names.
pub mod Bounds
pub mod Create
pub mod Created
pub mod Descriptors
pub mod Move
pub mod Free
pub mod Linked
pub mod Renamed
pub mod Unlink
use safs.Base.{
  ℕ, zero, suc, ◌+◌, ◌-◌, ◌%◌, ◌^◌, not, true, false, Option, none, some, List, [], ◌∷◌, pos,
  negsuc, neg, ℤ, ◌==◌, ◌||◌, ltb, Name, rest, codes, same_name, bit_and, drop, if◌then◌else◌,
}
use safs.Disk.{Dentry, Stat, Timespec}
use safs.Posix.{Env, Cmd, pure, ◌>>=◌, ◌>>◌, errno_result, get_errno, close, clock_gettime}
use safs.Posix.Tables.{
  live, temporary, contents, lseek, read_next, open_table, write_dentry, rename_directory,
}
use safs.Posix.Data.{create_data, unlink_file, full_path, strcpy_name}
use safs.Posix.Errno.{enoent, eio, eperm, s_ifmt, s_ifreg}
use safs.Safs.Find.{find_loop}
use safs.Safs.Inode.{read_inode, write_inode}

unfoldable pub get_inode_number : Cmd ℕ
get_inode_number w = (w.inode_number, w)

-- inode_number++ on an `int`
unfoldable pub next_inode_number : Cmd (Unit {0})
next_inode_number w = (
  tt,
  record w {
    inode_number = w.inode_number + 1;
    outside = not (ltb (w.inode_number + 1) (2 ^ 31)) || w.outside;
  },
)

-- The metadata of a new file; what mknod does not set is what the local held before.
abbrev pub new_stat : Env → (mode inum : ℕ) → Timespec → Stat
new_stat env mode inum timestamp = record env.junk {
  st_mode = mode;
  st_nlink = 1;
  st_size = 0;
  st_uid = env.uid;
  st_gid = env.gid;
  st_atim = timestamp;
  st_mtim = timestamp;
  st_ctim = timestamp;
  st_ino = inum;
}

-- close(fd); return -EIO
abbrev pub fail_io : Env → Cmd ℤ
fail_io env = close env >> pure (neg eio)

unfoldable pub return_errno : Cmd (Option ℤ)
return_errno = do e ← get_errno; pure (some (neg e))

module _ (env : Env) where
  -- The end of safs_mknod: the entry goes to the slot `number`, which is inode_number.
  unfoldable pub add_entry : ℕ → Dentry → Cmd ℤ
  add_entry number dentry = do
    sought ← lseek env
    if not sought then fail_io env else do
      written ← write_dentry env live number dentry
      if not written then fail_io env else do next_inode_number; close env; pure (pos 0)

  -- if (write_inode(…) != 0) return -EIO; and what follows
  unfoldable pub add_unless : ℤ → ℕ → Dentry → Cmd ℤ
  add_unless (negsuc n) number dentry = fail_io env
  add_unless (pos (suc n)) number dentry = fail_io env
  add_unless (pos zero) number dentry = add_entry number dentry

  -- The part of safs_mknod behind the creation of the file.
  unfoldable pub make_node : Name → ℕ → Cmd ℤ
  make_node name mode = do
    timestamp ← clock_gettime env
    number ← get_inode_number
    entry_name ← strcpy_name name
    storage ← strcpy_name name
    let dentry : Dentry = record { name = entry_name; storage = storage; inum = number % 2 ^ 32 }
    rtn ← write_inode env number (new_stat env mode number timestamp)
    add_unless rtn number dentry

  -- The part of safs_mknod behind the open of Directory~.
  unfoldable pub create_node : Name → ℕ → Cmd ℤ
  create_node name mode = do
    file_path ← full_path name
    created ← create_data env file_path
    if not created then fail_io env else make_node name mode

  unfoldable pub safs_mknod : Name → ℕ → Cmd ℤ
  safs_mknod filename mode = if not (bit_and mode s_ifmt == s_ifreg) then pure (neg eperm) else do
    directory ← open_table env live false
    if not directory then pure (neg eio) else create_node (rest filename) mode

  -- A seek that fails leaves the file offset behind the entry that was read. A name of 32 bytes or
  -- more, which runs over the fields behind it, sets `outside`.
  unfoldable pub safs_rename : Name → Name → Cmd ℤ
  safs_rename oldname newname = do
    fd ← open_table env live false
    if not fd then pure (neg eio) else do
      dirs ← contents live
      found ← find_loop env (rest oldname) dirs 0
      elim found [
        | none ↦ close env >> pure (neg enoent)
        | some (index, dir) ↦ (do
          name ← strcpy_name (rest newname)
          sought ← lseek env
          written ←
              write_dentry env live (if sought then index else index + 1)
                (record dir { name = name })
          close env
          pure (pos 0))
      ]

  -- The loop that looks for an unused entry. `dir` is the local that each read fills: the loop
  -- gives its slot and what `dir` holds at the end.
  unfoldable pub free_loop : List Dentry → Dentry → ℕ → Cmd (ℕ × Dentry)
  free_loop [] dir index = read_next env >> pure (index, dir)
  free_loop (next ∷ dirs) dir index = do
    got ← read_next env
    let later = free_loop dirs next (index + 1)
    elim got [
      | false ↦ pure (index, dir)
      | true ↦
          if same_name next.name (codes ".") || same_name next.name (codes "..")
          then later
          else if next.inum == 0
          then pure (index, next)
          else later
    ]

  -- The end of safs_link: the new entry goes to the slot `index`, and the link count of the
  -- inode `inum` is incremented.
  unfoldable pub add_link : ℕ → Dentry → ℕ → Cmd ℤ
  add_link index new_dir inum = do
    sought ← lseek env
    if not sought then fail_io env else do
      written ← write_dentry env live index new_dir
      if not written then fail_io env else do
        (rtn, st) ← read_inode env inum env.junk
        rtn' ← write_inode env inum (record st { st_nlink = (st.st_nlink + 1) % 2 ^ 64 })
        close env
        pure (pos 0)

  -- The second search reuses `dir`, whose `inum` is then the one whose link count is incremented.
  unfoldable pub safs_link : Name → Name → Cmd ℤ
  safs_link path1 path2 = do
    fd ← open_table env live false
    if not fd then pure (neg eio) else do
      dirs ← contents live
      found ← find_loop env (rest path1) dirs 0
      elim found [
        | none ↦ close env >> pure (neg enoent)
        | some (at', dir) ↦ (do
          name ← strcpy_name (rest path2)
          storage ← strcpy_name dir.storage
          let new_dir : Dentry = record { name = name; storage = storage; inum = dir.inum }
          rewound ← lseek env
          (index, dir') ← free_loop (if rewound then dirs else drop (at' + 1) dirs) dir 0
          add_link index new_dir dir'.inum)
      ]

  -- The loop that builds the new Directory~. `some r` is an early `return r`; `metadata` is the
  -- local that read_inode fills, and `slot` is new_inode_number.
  unfoldable pub unlink_loop : Name → List Dentry → Stat → ℕ → Cmd (Option ℤ)
  unlink_loop name [] metadata slot = read_next env >> pure none
  unlink_loop name (dentry ∷ dirs) metadata slot = do
    got ← read_next env
    if not got
        then pure none
        else if same_name dentry.name []
        then unlink_loop name dirs metadata slot
        else if same_name name dentry.name
        then (do
          (rtn, st) ← read_inode env dentry.inum metadata
          let metadata' = record st { st_nlink = (st.st_nlink + 2 ^ 64 - 1) % 2 ^ 64 }
          rtn' ← write_inode env dentry.inum metadata'
          file_path ← full_path dentry.name
          removed ← unlink_file env file_path
          if not removed then return_errno else unlink_loop name dirs metadata' slot)
        else do
          sought ← lseek env
          if not sought then close env >> return_errno else do
            written ← write_dentry env live slot dentry
            if not written
                then close env >> return_errno
                else unlink_loop name dirs metadata (slot + 1)

  unfoldable pub safs_unlink : Name → Cmd ℤ
  safs_unlink path = do
    renamed ← rename_directory env
    if not renamed then errno_result else do
      tmp_directory ← open_table env temporary false
      if not tmp_directory then errno_result else do
        new_directory ← open_table env live true
        if not new_directory then errno_result else do
          dirs ← contents temporary
          early ← unlink_loop (rest path) dirs env.junk 2
          elim early [
            | some r ↦ pure r
            | none ↦ (do
              close env
              close env
              removed ← unlink_file env (codes ".Directory~")
              if removed then pure (pos 0) else errno_result)
          ]
