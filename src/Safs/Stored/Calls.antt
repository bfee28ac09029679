-- ===== src/Safs/Stored/Calls.antt =====
-- Each system call, and the entries among the first `k` inodes.
use safs.Base.{
  ℕ, ◌*◌, ◌≡◌, not, Bool, List, arith, Name, codes, neg, is_neg, to_int, same_name, if◌then◌else◌,
}
use safs.Disk.{Stat, Dentry}
use safs.Posix.{
  pure, ◌>>◌, Env, list_of, close, clock_gettime, errno_result, get_errno, mark_outside,
}
use safs.Posix.Tables.{
  Table, live, temporary, contents, lseek, open_table, rename_directory, write_dentry, read_next,
  open_inodes, read_stat, write_stat,
}
use safs.Posix.Data.{
  is_table, strcpy_name, full_path, open_data, read_data, write_data, unlink_file,
}
use safs.Posix.Syscalls.{syscalls}
use safs.Posix.Keeps.{
  Keeps, Anything, Keeps-pure, Keeps-bind, Keeps-then, Keeps-if, Keeps-elim_Option,
}
use safs.Safs.Inode.{read_inode, write_inode}
use safs.Safs.Rules.{Rules, EveryEntry}
use safs.Safs.Stored.{IsPlain, IsStored, inodes_of, Holds, IsStored-put_at, length-put_at_le}

module _ (k : ℕ) (env : Env) where
  of_write_dentry :
      (t : Table) (i : ℕ) (d : Dentry)
      → IsStored k d
      → Keeps (Holds k) Anything (write_dentry env t i d)
  unfolding syscalls
  of_write_dentry live i d held = record {
    at = λ w u.
        ground (
          arith,
          u.enough,
          u.parked,
          IsStored-put_at k i d (list_of w.disk.directory) held u.listed,
        );
  }
  of_write_dentry temporary i d held = record {
    at = λ w u. ground (
      arith,
      u.enough,
      u.listed,
      IsStored-put_at k i d (list_of w.disk.tmp_directory) held u.parked,
    );
  }

  of_contents : (t : Table) → Keeps (Holds k) (EveryEntry (IsStored k)) (contents t)
  unfolding contents
  of_contents live = record { at = λ w u. (u, u.listed) }
  of_contents temporary = record { at = λ w u. (u, u.parked) }

  of_close : Keeps (Holds k) Anything (close env)
  unfolding syscalls
  of_close = record { at = λ w u. ground (arith, u.enough, u.listed, u.parked) }

  of_lseek : Keeps (Holds k) Anything (lseek env)
  unfolding syscalls
  of_lseek = record { at = λ w u. ground (arith, u.enough, u.listed, u.parked) }

  of_read_next : Keeps (Holds k) Anything (read_next env)
  unfolding syscalls
  of_read_next = record { at = λ w u. ground (arith, u.enough, u.listed, u.parked) }

  of_clock_gettime : Keeps (Holds k) Anything (clock_gettime env)
  unfolding syscalls
  of_clock_gettime = record { at = λ w u. ground (arith, u.enough, u.listed, u.parked) }

  of_errno_result : Keeps (Holds k) Anything (errno_result)
  unfolding syscalls
  of_errno_result = record { at = λ w u. ground (arith, u.enough, u.listed, u.parked) }

  of_get_errno : Keeps (Holds k) Anything (get_errno)
  unfolding syscalls
  of_get_errno = record { at = λ w u. ground (arith, u.enough, u.listed, u.parked) }

  of_mark_outside : (b : Bool) → Keeps (Holds k) Anything (mark_outside b)
  unfolding syscalls
  of_mark_outside b = record { at = λ w u. ground (arith, u.enough, u.listed, u.parked) }

  of_open_data : (s : Name) → Keeps (Holds k) Anything (open_data env s)
  unfolding syscalls
  of_open_data s = record { at = λ w u. ground (arith, u.enough, u.listed, u.parked) }

  of_read_data :
      (s : Name) (offset size : ℕ) → Keeps (Holds k) Anything (read_data env s offset size)
  unfolding syscalls
  of_read_data s offset size = record { at = λ w u. ground (arith, u.enough, u.listed, u.parked) }

  of_write_data :
      (s : Name) (offset : ℕ) (bytes : List ℕ)
      → Keeps (Holds k) Anything (write_data env s offset bytes)
  unfolding syscalls
  of_write_data s offset bytes = record { at = λ w u. ground (arith, u.enough, u.listed, u.parked) }

  of_rename_directory : Keeps (Holds k) Anything (rename_directory env)
  unfolding syscalls
  of_rename_directory = record { at = λ w u. ground (arith, u.enough, u.listed, u.parked) }

  of_unlink_temporary : Keeps (Holds k) Anything (unlink_file env (codes ".Directory~"))
  unfolding syscalls is_table same_name
  of_unlink_temporary = record { at = λ w u. ground (arith, u.enough, u.listed, u.parked) }

  of_unlink_file : (s : Name) → IsPlain s → Keeps (Holds k) Anything (unlink_file env s)
  unfolding syscalls is_table same_name
  of_unlink_file s plain = record {
    at = λ w u. ground (arith, u.enough, u.listed, u.parked, plain);
  }

  of_open_inodes : Keeps (Holds k) Anything (open_inodes env)
  unfolding syscalls
  of_open_inodes = record { at = λ w u. ground (arith, u.enough, u.listed, u.parked) }

  of_read_stat : (i : ℕ) → Keeps (Holds k) Anything (read_stat env i)
  unfolding syscalls
  of_read_stat i = record { at = λ w u. ground (arith, u.enough, u.listed, u.parked) }

  of_strcpy_name : (s : Name) → Keeps (Holds k) (λ r. r ≡ s) (strcpy_name s)
  unfolding syscalls
  of_strcpy_name s = record { at = λ w u. ground (arith, u.enough, u.listed, u.parked) }

  of_full_path : (s : Name) → Keeps (Holds k) (λ r. r ≡ s) (full_path s)
  unfolding syscalls
  of_full_path s = record { at = λ w u. ground (arith, u.enough, u.listed, u.parked) }

  of_open_table : (t : Table) (creat : Bool) → Keeps (Holds k) Anything (open_table env t creat)
  unfolding syscalls
  of_open_table live creat = record { at = λ w u. ground (arith, u.enough, u.listed, u.parked) }
  of_open_table temporary creat = record {
    at = λ w u. ground (arith, u.enough, u.listed, u.parked);
  }

  of_write_stat : (i : ℕ) (st : Stat) → Keeps (Holds k) Anything (write_stat env i st)
  unfolding syscalls
  of_write_stat i st = record {
    at = λ w u. ground (arith, u.enough, u.listed, u.parked, length-put_at_le i st (inodes_of w));
  }

  of_read_inode : (i : ℕ) (st : Stat) → Keeps (Holds k) Anything (read_inode env i st)
  unfolding read_inode
  of_read_inode i st =
      let failed = Keeps-then of_close (Keeps-bind of_get_errno λ e _. Keeps-pure tt) in
      Keeps-bind of_open_inodes λ fd _. Keeps-if (not fd) (Keeps-pure tt) (
        Keeps-bind of_lseek λ sought _. Keeps-if (not sought) failed (
          Keeps-bind (of_read_stat i) λ got _.
            Keeps-elim_Option Anything got tt failed
              (λ st' _. Keeps-then of_close (Keeps-pure tt))))

  ended : {A : Type 0} (a : A) → Keeps (Holds k) Anything (close env >> pure a)
  ended a = Keeps-then of_close (Keeps-pure tt)

  pub of_write_inode : (i : ℕ) (st : Stat) → Keeps (Holds k) Anything (write_inode env i st)
  unfolding write_inode
  of_write_inode i st = Keeps-bind of_open_inodes λ fd _. Keeps-if (not fd) (Keeps-pure tt) (
      Keeps-bind of_lseek λ sought _.
        Keeps-if (is_neg (if sought then to_int (i * env.sizeof_stat) else neg 1)) (ended _)
          (Keeps-bind (of_write_stat i st) λ written _. Keeps-if written (ended _) (ended _)))

  pub IsStored-Rules : Rules env (Holds k) (IsStored k) IsPlain
  IsStored-Rules = record {
    entry_name = λ d held. held.1;
    entry = λ d name storage held plain. (held.0, plain);
    of_contents = of_contents;
    of_write_dentry = of_write_dentry;
    of_close = of_close;
    of_lseek = of_lseek;
    of_read_next = of_read_next;
    of_open_table = of_open_table;
    of_strcpy_name = of_strcpy_name;
    of_full_path = of_full_path;
    of_clock_gettime = of_clock_gettime;
    of_errno_result = of_errno_result;
    of_get_errno = of_get_errno;
    of_mark_outside = of_mark_outside;
    of_open_data = of_open_data;
    of_read_data = of_read_data;
    of_write_data = of_write_data;
    of_unlink_file = of_unlink_file;
    of_unlink_temporary = of_unlink_temporary;
    of_rename_directory = of_rename_directory;
    of_read_inode = of_read_inode;
    of_write_inode = of_write_inode;
  }
