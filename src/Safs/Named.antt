-- ===== src/Safs/Named.antt =====
-- A path that names a file: its entry and its inode, and how a handler comes to them where no
-- system call fails.
pub mod Update
use safs.Base.{ℕ, ◌+◌, ◌*◌, ◌<◌, ◌^◌, ◌≡◌, List, some, Name, arith, rest, get_elem?}
use safs.Disk.{Disk, Dentry, Stat}
use safs.Posix.{Env, World, calm}
use safs.Safs.Find.{find_loop, find_entry}
use safs.Safs.Find.Calm.{find_reads, find_loop-calm}

-- The search for `path` on `disk` ends at the entry `dir` in slot `index`, whose inode holds `st`
-- and has an offset that fits an `int`.
pub record IsNamed (env : Env) (disk : Disk) (path : Name) (dir : Dentry) (st : Stat) : Type 0 where
  pub dirs : List Dentry
  pub index : ℕ
  pub inodes : List Stat
  pub has_directory : disk.directory ≡ some dirs
  pub has_inodes : disk.inodes ≡ some inodes
  pub found : find_entry (rest path) dirs 0 ≡ some (index, dir)
  pub inode : get_elem? inodes dir.inum ≡ some st
  pub fits : dir.inum * env.sizeof_stat < 2 ^ 31

module _ (env : Env) (path : Name) (w : World) {dir : Dentry} {st : Stat}
    (f : IsNamed env w.disk path dir st) where
  abbrev pub opened : World
  opened = record w { fds = w.fds + 1; calls = w.calls + 1 }

  -- The world behind the search, with Directory~ open.
  abbrev pub searched : World
  searched = record opened { calls = opened.calls + find_reads (rest path) f.dirs }

  pub find_loop-named :
      find_loop (calm env) (rest path) f.dirs 0 opened ≡ (some (f.index, dir), searched)
  find_loop-named = ground (arith, f.found, find_loop-calm env (rest path) f.dirs 0 opened)
