-- ===== src/Safs/Apart/Handlers.antt =====
-- Other files through the handlers of the requests that change no name.
use safs.Base.{ℕ, ◌≡◌, refl, arith, some, List, [], ◌∷◌, Name, rest, true, false, Bool}
use safs.Disk.{Dentry, Timespec}
use safs.Posix.{Env, World}
use safs.Posix.Syscalls.{syscalls}
use safs.Safs.Apart.{
  others, read_inode-others, write_inode-others, read_file-others, write_file-others,
}
use safs.Safs.Attributes.{safs_chmod, safs_utimens}
use safs.Safs.Contents.{safs_open, safs_read, safs_write, extend, safs_ftruncate}
use safs.Safs.Find.{find_entry}
use safs.Safs.Find.Frame.{find_loop-disk, find_loop-kept}
use safs.Safs.Inode.Frame.{read_inode-kept}
use safs.Safs.Find.Laws.{find_loop-find_entry}

ruleset apart = (
  arith, find_loop-disk, find_loop-find_entry, read_inode-others, write_inode-others,
  read_file-others, write_file-others,
)

module _ (env : Env) (path : Name) (w : World) (dirs : List Dentry) (k : ℕ) (d : Dentry)
    (listed : w.disk.directory ≡ some dirs)
    (found : find_entry (rest path) dirs 0 ≡ some (k, d)) where
  pub safs_chmod-others :
      (mode : ℕ)
      → others d.inum d.storage (safs_chmod env path mode w).1.disk ≡ others d.inum d.storage w.disk
  unfolding safs_chmod syscalls
  safs_chmod-others mode = grind apart

  pub safs_utimens-others :
      (s t : Timespec)
      → others d.inum d.storage (safs_utimens env path s t w).1.disk
        ≡ others d.inum d.storage w.disk
  unfolding safs_utimens syscalls
  safs_utimens-others s t = grind apart

  pub safs_open-others :
      (flags : ℕ)
      → others d.inum d.storage (safs_open env path flags w).1.disk ≡ others d.inum d.storage w.disk
  unfolding safs_open syscalls
  safs_open-others flags = grind apart

  pub safs_read-others :
      (size offset : ℕ)
      → others d.inum d.storage (safs_read env path size offset w).1.disk
        ≡ others d.inum d.storage w.disk
  unfolding safs_read syscalls
  safs_read-others size offset = grind apart

  pub safs_write-others :
      (buf : List ℕ) (size offset : ℕ)
      → others d.inum d.storage (safs_write env path buf size offset w).1.disk
        ≡ others d.inum d.storage w.disk
  unfolding safs_write syscalls
  safs_write-others buf size offset = grind apart

module _ (env : Env) (path : Name) (dirs : List Dentry) (k : ℕ) (d : Dentry)
    (found : find_entry (rest path) dirs 0 ≡ some (k, d)) where
  extend-others :
      (longer : Bool) (off : ℕ) (w : World)
      → w.disk.directory ≡ some dirs
      → others d.inum d.storage (extend env longer path off w).1.disk
        ≡ others d.inum d.storage w.disk
  unfolding extend
  extend-others false off w listed = refl
  extend-others true off w listed =
      safs_write-others env path w dirs k d listed found (0 ∷ []) 1 off

  pub safs_ftruncate-others :
      (off : ℕ) (w : World)
      → w.disk.directory ≡ some dirs
      → others d.inum d.storage (safs_ftruncate env path off w).1.disk
        ≡ others d.inum d.storage w.disk
  unfolding safs_ftruncate syscalls
  safs_ftruncate-others off w listed = grind (apart, extend-others, find_loop-kept, read_inode-kept)
