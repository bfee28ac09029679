-- ===== src/Safs/Server/Unknown.antt =====
-- Requests for a name that no entry has.
use safs.Base.{
  ℕ, ◌+◌, ◌≡◌, ◌⊎◌, inl, inr, Bool-cases, false, Option, none, some, List, Name, arith, neg, ℤ,
  rest, codes, same_name, if◌then◌else◌,
}
use safs.Disk.{Disk, Dentry, Stat, Timespec}
use safs.Posix.{Env, World, list_of, ◌>>=◌}
use safs.Posix.Syscalls.{syscalls}
use safs.Posix.Errno.{eio, enoent}
use safs.Safs.Attributes.{safs_getattr, safs_chmod, safs_utimens}
use safs.Safs.Contents.{safs_open, safs_read, safs_write, safs_ftruncate, safs_truncate}
use safs.Safs.Find.{find_loop, find_entry}
use safs.Safs.Find.Frame.{find_loop-disk}
use safs.Safs.Find.Laws.{find_loop-find_entry}
use safs.Safs.Names.{safs_link, safs_rename}
use safs.Safs.Server.{
  Request, getattr, readdir, open_file, read, write, mknod, setxattr, chmod, chown, utimens,
  truncate, ftruncate, unlink, link, rename, safs_oper,
}

-- The name that a request needs an entry of, if it needs one.
abbrev pub subject : Request → Option Name
subject (getattr path st) = if same_name path (codes "/") then none else some path
subject (open_file path flags) = some path
subject (read path size offset) = some path
subject (write path buf size offset) = some path
subject (chmod path mode) = some path
subject (utimens path s t) = some path
subject (truncate path off) = some path
subject (ftruncate path off) = some path
subject (link path1 path2) = some path1
subject (rename oldname newname) = some oldname
subject (readdir path) = none
subject (mknod path mode) = none
subject (setxattr path name value size flag) = none
subject (chown path uid gid) = none
subject (unlink path) = none

abbrev pub Refused : Disk → ℤ × World → Type 0
Refused d (rtn, w) = ((rtn ≡ neg eio) ⊎ (rtn ≡ neg enoent)) × (w.disk ≡ d)

module _ (env : Env) (path : Name) (w : World)
    (unknown : find_entry (rest path) (list_of w.disk.directory) 0 ≡ none) where
  abbrev opened : World
  opened = record w { fds = w.fds + 1; calls = w.calls + 1 }

  abbrev dirs : List Dentry
  dirs = list_of w.disk.directory

  lost :
      ((find_loop env (rest path) dirs 0 opened).0 ≡ none)
      × ((find_loop env (rest path) dirs 0 opened).1.disk ≡ w.disk)
  lost = elim (find_loop-find_entry env (rest path) dirs 0 opened) [
    | inl e ↦ (e, find_loop-disk env (rest path) dirs 0 opened)
    | inr e ↦ (cc (e, unknown), find_loop-disk env (rest path) dirs 0 opened)
  ]

  getattr_unknown :
      (metadata : Stat)
      → same_name path (codes "/") ≡ false
      → Refused w.disk
          ((safs_getattr env path metadata w).0.0, (safs_getattr env path metadata w).1)
  unfolding safs_getattr syscalls
  getattr_unknown metadata below = ground (arith, lost)

  chmod_unknown : (mode : ℕ) → Refused w.disk (safs_chmod env path mode w)
  unfolding safs_chmod syscalls
  chmod_unknown mode = ground (arith, lost)

  utimens_unknown : (s t : Timespec) → Refused w.disk (safs_utimens env path s t w)
  unfolding safs_utimens syscalls
  utimens_unknown s t = ground (arith, lost)

  open_unknown : (flags : ℕ) → Refused w.disk (safs_open env path flags w)
  unfolding safs_open syscalls
  open_unknown flags = ground (arith, lost)

  read_unknown :
      (size offset : ℕ)
      → Refused w.disk
          ((safs_read env path size offset w).0.0, (safs_read env path size offset w).1)
  unfolding safs_read syscalls
  read_unknown size offset = ground (arith, lost)

  write_unknown :
      (buf : List ℕ) (size offset : ℕ) → Refused w.disk (safs_write env path buf size offset w)
  unfolding safs_write syscalls
  write_unknown buf size offset = ground (arith, lost)

  ftruncate_unknown : (off : ℕ) → Refused w.disk (safs_ftruncate env path off w)
  unfolding safs_ftruncate syscalls
  ftruncate_unknown off = ground (arith, lost)

  rename_unknown : (newname : Name) → Refused w.disk (safs_rename env path newname w)
  unfolding safs_rename syscalls
  rename_unknown newname = ground (arith, lost)

  link_unknown : (path2 : Name) → Refused w.disk (safs_link env path path2 w)
  unfolding safs_link syscalls
  link_unknown path2 = ground (arith, lost)

-- A request for a name that no entry has is refused with -ENOENT or -EIO, whichever system calls
-- fail, and leaves the disk as it was. (The requests meant are those that need an entry: getattr
-- below the root, open, read, write, chmod, utimens, truncate, ftruncate, link and rename.)
pub safs_oper_unknown :
    (env : Env) (r : Request) (path : Name) (w : World)
    → subject r ≡ some path
    → find_entry (rest path) (list_of w.disk.directory) 0 ≡ none
    → Refused w.disk (safs_oper env r w)
unfolding safs_oper safs_truncate ◌>>=◌
safs_oper_unknown env (getattr p st) path w of' unknown =
    elim (Bool-cases (same_name p (codes "/"))) [
      | inl root ↦ cc (rw root at of')
      | inr below ↦
          let same : p ≡ path = ground (arith, below, of') in
          getattr_unknown env p w (rw same unknown) st below
    ]
safs_oper_unknown env (open_file p flags) path w of' unknown =
    let same : p ≡ path = ground (arith, of') in open_unknown env p w (rw same unknown) flags
safs_oper_unknown env (read p size offset) path w of' unknown =
    let same : p ≡ path = ground (arith, of') in read_unknown env p w (rw same unknown) size offset
safs_oper_unknown env (write p buf size offset) path w of' unknown =
    let same : p ≡ path = ground (arith, of') in
    write_unknown env p w (rw same unknown) buf size offset
safs_oper_unknown env (chmod p mode) path w of' unknown =
    let same : p ≡ path = ground (arith, of') in chmod_unknown env p w (rw same unknown) mode
safs_oper_unknown env (utimens p s t) path w of' unknown =
    let same : p ≡ path = ground (arith, of') in utimens_unknown env p w (rw same unknown) s t
safs_oper_unknown env (truncate p off) path w of' unknown =
    let same : p ≡ path = ground (arith, of') in ftruncate_unknown env p w (rw same unknown) off
safs_oper_unknown env (ftruncate p off) path w of' unknown =
    let same : p ≡ path = ground (arith, of') in ftruncate_unknown env p w (rw same unknown) off
safs_oper_unknown env (link p p2) path w of' unknown =
    let same : p ≡ path = ground (arith, of') in link_unknown env p w (rw same unknown) p2
safs_oper_unknown env (rename p p2) path w of' unknown =
    let same : p ≡ path = ground (arith, of') in rename_unknown env p w (rw same unknown) p2
safs_oper_unknown env (readdir p) path w of' unknown = cc of'
safs_oper_unknown env (mknod p mode) path w of' unknown = cc of'
safs_oper_unknown env (setxattr p name value size flag) path w of' unknown = cc of'
safs_oper_unknown env (chown p uid gid) path w of' unknown = cc of'
safs_oper_unknown env (unlink p) path w of' unknown = cc of'
