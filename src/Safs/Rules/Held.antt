-- ===== src/Safs/Rules/Held.antt =====
-- Invariants through the handlers that change no name.
use safs.Base.{
  ℕ, not, true, false, Bool, ◌&&◌, ◌==◌, List, [], ◌∷◌, Name, codes, same_name, bit_and, off_lt,
  take,
}
use safs.Disk.{Dentry, Stat, Timespec}
use safs.Posix.{Env, World}
use safs.Posix.Tables.{live}
use safs.Posix.Errno.{o_rdonly, o_wronly, o_trunc}
use safs.Posix.Keeps.{
  Keeps, Anything, Keeps-pure, Keeps-bind, Keeps-then, Keeps-if, Keeps-elim_Option,
}
use safs.Safs.Attributes.{safs_getattr, safs_chmod, safs_utimens}
use safs.Safs.Contents.{
  safs_open, read_file, write_file, safs_read, safs_write, extend, safs_ftruncate,
}
use safs.Safs.Listing.{readdir_loop, safs_readdir}
use safs.Safs.Rules.{Rules, search-Keeps, done-Keeps}

module _ {env : Env} {P : World → Type 0} {E : Dentry → Type 0} {N : Name → Type 0}
    (r : Rules env P E N) where
  pub safs_getattr-Keeps : (path : Name) (st : Stat) → Keeps P Anything (safs_getattr env path st)
  unfolding safs_getattr
  safs_getattr-Keeps path st = Keeps-if (same_name path (codes "/")) (Keeps-pure tt) (
      search-Keeps r _ _ (done-Keeps r _)
        λ dirs (i, d) _. Keeps-bind (r.of_read_inode d.inum st) λ (rtn, st') _. done-Keeps r _)

  pub safs_chmod-Keeps : (path : Name) (mode : ℕ) → Keeps P Anything (safs_chmod env path mode)
  unfolding safs_chmod
  safs_chmod-Keeps path mode = search-Keeps r _ _ (done-Keeps r _) λ dirs (i, d) _.
      Keeps-bind (r.of_read_inode d.inum env.junk)
        λ (rtn, st) _. Keeps-bind (r.of_write_inode d.inum _) λ rtn' _. done-Keeps r _

  pub safs_utimens-Keeps :
      (path : Name) (s t : Timespec) → Keeps P Anything (safs_utimens env path s t)
  unfolding safs_utimens
  safs_utimens-Keeps path s t = search-Keeps r _ _ (done-Keeps r _) λ dirs (i, d) _.
      Keeps-bind (r.of_read_inode d.inum env.junk) λ (rtn, st) _.
        Keeps-bind r.of_clock_gettime
          λ tm _. Keeps-bind (r.of_write_inode d.inum _) λ rtn' _. done-Keeps r _

  pub safs_open-Keeps : (path : Name) (flags : ℕ) → Keeps P Anything (safs_open env path flags)
  unfolding safs_open
  safs_open-Keeps path flags = search-Keeps r _ _ (done-Keeps r _) λ dirs (i, d) _.
      Keeps-bind (r.of_read_inode d.inum env.junk) λ (rtn, st) _.
        Keeps-if (not (bit_and flags o_rdonly == 0) && (bit_and st.st_mode 0o444 == 0))
          (done-Keeps r _)
          (Keeps-if (not (bit_and flags o_wronly == 0) && (bit_and st.st_mode 0o222 == 0))
            (done-Keeps r _)
            (Keeps-if (not (bit_and flags o_trunc == 0))
              (Keeps-bind (r.of_write_inode d.inum _) λ rtn' _. done-Keeps r _) (done-Keeps r _)))

  read_file-Keeps :
      (storage : Name) (size offset : ℕ) → Keeps P Anything (read_file env storage size offset)
  unfolding read_file
  read_file-Keeps storage size offset = Keeps-bind (r.of_full_path storage) λ file_path _.
      Keeps-bind (r.of_open_data file_path) λ fd _. Keeps-if (not fd) (Keeps-pure tt) (
        Keeps-bind r.of_lseek λ sought _. Keeps-bind (r.of_read_data file_path _ size) λ got _.
          Keeps-elim_Option Anything got tt
            (Keeps-then (Keeps-then (r.of_mark_outside true) r.of_close) (Keeps-pure tt))
            (λ bytes _. done-Keeps r _))

  write_file-Keeps :
      (storage : Name) (buf : List ℕ) (size offset : ℕ)
      → Keeps P Anything (write_file env storage buf size offset)
  unfolding write_file
  write_file-Keeps storage buf size offset = Keeps-bind (r.of_full_path storage) λ file_path _.
      Keeps-bind (r.of_open_data file_path) λ fd _. Keeps-if (not fd) (Keeps-pure tt) (
        Keeps-bind r.of_lseek λ sought _.
          Keeps-bind (r.of_write_data file_path _ (take size buf)) λ written _. done-Keeps r _)

  pub safs_read-Keeps :
      (path : Name) (size offset : ℕ) → Keeps P Anything (safs_read env path size offset)
  unfolding safs_read
  safs_read-Keeps path size offset = search-Keeps r _ _ (done-Keeps r _) λ dirs (i, d) _.
      Keeps-then r.of_close (
        Keeps-bind (r.of_read_inode d.inum env.junk) λ (rtn, st) _.
          Keeps-bind r.of_clock_gettime λ atime _.
            Keeps-bind (r.of_write_inode d.inum _) λ rtn' _. read_file-Keeps d.storage size offset)

  pub safs_write-Keeps :
      (path : Name) (buf : List ℕ) (size offset : ℕ)
      → Keeps P Anything (safs_write env path buf size offset)
  unfolding safs_write
  safs_write-Keeps path buf size offset = search-Keeps r _ _ (done-Keeps r _) λ dirs (i, d) _.
      Keeps-then r.of_close (
        Keeps-bind (r.of_read_inode d.inum env.junk) λ (rtn, st) _.
          Keeps-bind r.of_clock_gettime λ atime _. Keeps-bind r.of_clock_gettime λ mtime _.
            Keeps-bind (r.of_write_inode d.inum _)
              λ rtn' _. write_file-Keeps d.storage buf size offset)

  extend-Keeps :
      (longer : Bool) (path : Name) (off : ℕ) → Keeps P Anything (extend env longer path off)
  unfolding extend
  extend-Keeps false path off = Keeps-pure tt
  extend-Keeps true path off = safs_write-Keeps path (0 ∷ []) 1 off

  pub safs_ftruncate-Keeps :
      (path : Name) (off : ℕ) → Keeps P Anything (safs_ftruncate env path off)
  unfolding safs_ftruncate
  safs_ftruncate-Keeps path off = search-Keeps r _ _ (done-Keeps r _) λ dirs (i, d) _.
      Keeps-bind (r.of_read_inode d.inum env.junk) λ (rtn, st) _.
        Keeps-if (st.st_size == off) (done-Keeps r _) (
          Keeps-bind (extend-Keeps (off_lt st.st_size off) path off)
            λ extended _. Keeps-bind (r.of_write_inode d.inum _) λ rtn' _. done-Keeps r _)

  readdir_loop-Keeps :
      (dirs : List Dentry) (st : Stat) → Keeps P Anything (readdir_loop env dirs st)
  unfolding readdir_loop
  readdir_loop-Keeps [] st = Keeps-then r.of_read_next (Keeps-pure tt)
  readdir_loop-Keeps (d ∷ ds) st = Keeps-bind r.of_read_next λ got _.
      Keeps-if (not got) (Keeps-pure tt) (
        Keeps-if (d.inum == 0) (readdir_loop-Keeps ds st) (
          Keeps-bind (r.of_read_inode d.inum st)
            λ (rtn, st') _. Keeps-bind (readdir_loop-Keeps ds st') λ later _. Keeps-pure tt))

  pub safs_readdir-Keeps : (path : Name) → Keeps P Anything (safs_readdir env path)
  unfolding safs_readdir
  safs_readdir-Keeps path = Keeps-if (not (same_name path (codes "/"))) (Keeps-pure tt) (
      Keeps-bind (r.of_open_table live false) λ fd _. Keeps-if (not fd) (Keeps-pure tt) (
        Keeps-bind (r.of_contents live)
          λ dirs every. Keeps-bind (readdir_loop-Keeps dirs env.junk) λ filled _. done-Keeps r _))
