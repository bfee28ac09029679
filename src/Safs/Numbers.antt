-- ===== src/Safs/Numbers.antt =====
-- The inode numbers in use: every entry's number is below inode_number.
pub mod Mknod
use mathlib.Core.Path.{subst}
use safs.Base.{
  sym, ℕ, zero, suc, ◌<◌, ◌≡◌, refl, List, [], ◌∷◌, Option, none, some, arith, Name, put_at,
  get_elem?, codes, Bool, true, false, ◌+◌,
}
use safs.Safs.Inode.{read_inode, write_inode}
use safs.Safs.Inode.Frame.{read_inode-kept, write_inode-kept}
use safs.Disk.{Stat, Dentry, blank_dentry}
use safs.Posix.{
  close, clock_gettime, errno_result, get_errno, mark_outside, Env, World, Cmd, list_of,
}
use safs.Posix.Tables.{
  contents, lseek, open_table, rename_directory, Table, live, temporary, write_dentry, read_next,
}
use safs.Posix.Data.{
  strcpy_name, full_path, open_data, read_data, write_data, create_data, truncated, unlink_file,
}
use safs.Posix.Syscalls.{syscalls}
use safs.Posix.Kept.{kept}
use safs.Posix.Keeps.{
  Keeps, Anything, Keeps-pure, Keeps-bind, Keeps-then, Keeps-if, Keeps-elim_Bool,
}
use safs.Safs.Rules.{Rules, EveryEntry, EveryEntry-put_at}

abbrev pub Below : ℕ → List Dentry → Type 0
Below n ds = EveryEntry (λ d. d.inum < n) ds

pub Below-put_at :
    (n i : ℕ) (d : Dentry) (ds : List Dentry)
    → 0 < n
    → d.inum < n
    → Below n ds
    → Below n (put_at blank_dentry i d ds)
Below-put_at n i d ds pos small below = EveryEntry-put_at (λ e. e.inum < n) i d ds pos small below

-- While a command runs, inode_number is `n` and both tables stay below it.
pub record Under (n : ℕ) (w : World) : Type 0 where
  pub number : w.inode_number ≡ n
  pub positive : 0 < n
  pub listed : Below n (list_of w.disk.directory)
  pub parked : Below n (list_of w.disk.tmp_directory)

module _ (n : ℕ) (env : Env) where
  pub Keeps-kept :
      {A : Type 0} (m : Cmd A) → ((w : World) → kept (m w).1 ≡ kept w) → Keeps (Under n) Anything m
  Keeps-kept m same = record { at = λ w u. (ground (arith, same w), tt) }

  pub read_next-Under : Keeps (Under n) Anything (read_next env)
  unfolding syscalls
  read_next-Under = Keeps-kept _ (λ w. ground arith)

  pub write_dentry-Under :
      (t : Table) (i : ℕ) (d : Dentry)
      → d.inum < n
      → Keeps (Under n) Anything (write_dentry env t i d)
  unfolding syscalls
  write_dentry-Under live i d small = record {
    at = λ w u.
        ground (arith, Below-put_at n i d (list_of w.disk.directory) u.positive small u.listed);
  }
  write_dentry-Under temporary i d small = record {
    at = λ w u.
        ground (arith, Below-put_at n i d (list_of w.disk.tmp_directory) u.positive small u.parked);
  }

  pub contents-Below : (t : Table) → Keeps (Under n) (Below n) (contents t)
  unfolding contents
  contents-Below live = record { at = λ w u. (u, u.listed) }
  contents-Below temporary = record { at = λ w u. (u, u.parked) }

  pub close-Under : Keeps (Under n) Anything (close env)
  unfolding syscalls
  close-Under = record { at = λ w u. ground arith }

  pub lseek-Under : Keeps (Under n) Anything (lseek env)
  unfolding syscalls
  lseek-Under = record { at = λ w u. ground arith }

  pub open_table-Under :
      (t : Table) (creat : Bool) → Keeps (Under n) Anything (open_table env t creat)
  unfolding syscalls
  open_table-Under live creat = record { at = λ w u. ground arith }
  open_table-Under temporary creat = record { at = λ w u. ground arith }

  pub strcpy_name-Under : (s : Name) → Keeps (Under n) (λ r. r ≡ s) (strcpy_name s)
  unfolding syscalls
  strcpy_name-Under s = record { at = λ w u. (ground arith, refl) }

  pub full_path-Under : (s : Name) → Keeps (Under n) (λ r. r ≡ s) (full_path s)
  unfolding syscalls
  full_path-Under s = record { at = λ w u. (ground arith, refl) }

  pub clock_gettime-Under : Keeps (Under n) Anything (clock_gettime env)
  unfolding syscalls
  clock_gettime-Under = record { at = λ w u. ground arith }

  pub errno_result-Under : Keeps (Under n) Anything errno_result
  unfolding syscalls
  errno_result-Under = record { at = λ w u. ground arith }

  pub create_data-Under : (s : Name) → Keeps (Under n) Anything (create_data env s)
  unfolding syscalls truncated
  create_data-Under s = record { at = λ w u. ground arith }

  pub unlink_file-Under : (s : Name) → Keeps (Under n) Anything (unlink_file env s)
  unfolding syscalls
  unlink_file-Under s = record { at = λ w u. ground arith }

  pub rename_directory-Under : Keeps (Under n) Anything (rename_directory env)
  unfolding syscalls
  rename_directory-Under = record { at = λ w u. ground arith }

  pub read_inode-Under : (i : ℕ) (st : Stat) → Keeps (Under n) Anything (read_inode env i st)
  read_inode-Under i st = Keeps-kept _ (read_inode-kept env i st)

  pub write_inode-Under : (i : ℕ) (st : Stat) → Keeps (Under n) Anything (write_inode env i st)
  write_inode-Under i st = Keeps-kept _ (write_inode-kept env i st)

  get_errno-Under : Keeps (Under n) Anything get_errno
  unfolding syscalls
  get_errno-Under = record { at = λ w u. (u, tt) }

  mark_outside-Under : (b : Bool) → Keeps (Under n) Anything (mark_outside b)
  unfolding syscalls
  mark_outside-Under b = record { at = λ w u. ground arith }

  open_data-Under : (s : Name) → Keeps (Under n) Anything (open_data env s)
  unfolding syscalls
  open_data-Under s = record { at = λ w u. ground arith }

  read_data-Under :
      (s : Name) (offset size : ℕ) → Keeps (Under n) Anything (read_data env s offset size)
  unfolding syscalls
  read_data-Under s offset size = record { at = λ w u. ground arith }

  write_data-Under :
      (s : Name) (offset : ℕ) (bytes : List ℕ)
      → Keeps (Under n) Anything (write_data env s offset bytes)
  unfolding syscalls
  write_data-Under s offset bytes = record { at = λ w u. ground arith }

  pub Under-Rules : Rules env (Under n) (λ d. d.inum < n) (λ name. Unit {0})
  Under-Rules = record {
    entry_name = λ d small. tt;
    entry = λ d name storage small allowed. small;
    of_contents = contents-Below;
    of_write_dentry = write_dentry-Under;
    of_close = close-Under;
    of_lseek = lseek-Under;
    of_read_next = read_next-Under;
    of_open_table = open_table-Under;
    of_strcpy_name = strcpy_name-Under;
    of_full_path = full_path-Under;
    of_clock_gettime = clock_gettime-Under;
    of_errno_result = errno_result-Under;
    of_get_errno = get_errno-Under;
    of_mark_outside = mark_outside-Under;
    of_open_data = open_data-Under;
    of_read_data = read_data-Under;
    of_write_data = write_data-Under;
    of_unlink_file = λ s allowed. unlink_file-Under s;
    of_unlink_temporary = unlink_file-Under (codes ".Directory~");
    of_rename_directory = rename_directory-Under;
    of_read_inode = read_inode-Under;
    of_write_inode = write_inode-Under;
  }

-- Every entry's number is below inode_number, and inode_number is positive.
abbrev pub IsFresh : World → Type 0
IsFresh w = Under w.inode_number w

pub IsFresh-Under : (n : ℕ) (w : World) → Under n w → IsFresh w
IsFresh-Under n w u = subst (λ k. Under k w) (sym u.number) u

pub Below-suc : (n : ℕ) (ds : List Dentry) → Below n ds → Below (n + 1) ds
Below-suc n [] below = tt
Below-suc n (d ∷ ds) below = (omega arith, Below-suc n ds below.1)
