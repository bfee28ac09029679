-- ===== src/Safs/Rules.antt =====
-- Invariants of the handlers of safs.c, whichever system calls fail: what an invariant has to
-- promise of each call, so that every handler keeps it.
pub mod Named
pub mod Held
use safs.Base.{
  zero, suc, put_at, ℕ, ◌+◌, true, false, Bool, Option, none, some, List, [], ◌∷◌, ◌≡◌, Name, codes,
  not, if◌then◌else◌,
}
use safs.Disk.{blank_dentry, Dentry, Stat}
use safs.Posix.{
  Env, World, Cmd, pure, ◌>>=◌, ◌>>◌, close, clock_gettime, errno_result, get_errno, mark_outside,
}
use safs.Posix.Tables.{
  Table, live, contents, lseek, read_next, open_table, write_dentry, rename_directory,
}
use safs.Posix.Data.{strcpy_name, full_path, open_data, read_data, write_data, unlink_file}
use safs.Posix.Keeps.{
  Keeps, Anything, Keeps-pure, Keeps-bind, Keeps-then, Keeps-if, Keeps-elim_Bool, Keeps-elim_Option,
}
use safs.Safs.Find.{find_loop, matches}
use safs.Safs.Inode.{read_inode, write_inode}

abbrev pub EveryEntry : (Dentry → Type 0) → List Dentry → Type 0
EveryEntry E [] = Unit
EveryEntry E (d ∷ ds) = E d × EveryEntry E ds

pub EveryEntry-put_at :
    (E : Dentry → Type 0) (i : ℕ) (d : Dentry) (ds : List Dentry)
    → E blank_dentry
    → E d
    → EveryEntry E ds
    → EveryEntry E (put_at blank_dentry i d ds)
unfolding put_at
EveryEntry-put_at E zero d [] blank held every = (held, tt)
EveryEntry-put_at E zero d (e ∷ ds) blank held every = (held, every.1)
EveryEntry-put_at E (suc i) d [] blank held every =
    (blank, EveryEntry-put_at E i d [] blank held tt)
EveryEntry-put_at E (suc i) d (e ∷ ds) blank held every =
    (every.0, EveryEntry-put_at E i d ds blank held every.1)

-- `P` is the invariant, `E` what it says of each entry in the tables, `N` which names may be given
-- to an entry.
pub record Rules (env : Env) (P : World → Type 0) (E : Dentry → Type 0) (N : Name → Type 0)
    : Type 0 where
  pub entry_name : (d : Dentry) → E d → N d.name
  pub entry :
      (d : Dentry) (name storage : Name)
      → E d
      → N name
      → E (record { name = name; storage = storage; inum = d.inum })
  pub of_contents : (t : Table) → Keeps P (EveryEntry E) (contents t)
  pub of_write_dentry :
      (t : Table) (i : ℕ) (d : Dentry) → E d → Keeps P Anything (write_dentry env t i d)
  pub of_close : Keeps P Anything (close env)
  pub of_lseek : Keeps P Anything (lseek env)
  pub of_read_next : Keeps P Anything (read_next env)
  pub of_open_table : (t : Table) (creat : Bool) → Keeps P Anything (open_table env t creat)
  pub of_strcpy_name : (s : Name) → Keeps P (λ r. r ≡ s) (strcpy_name s)
  pub of_full_path : (s : Name) → Keeps P (λ r. r ≡ s) (full_path s)
  pub of_clock_gettime : Keeps P Anything (clock_gettime env)
  pub of_errno_result : Keeps P Anything errno_result
  pub of_get_errno : Keeps P Anything get_errno
  pub of_mark_outside : (b : Bool) → Keeps P Anything (mark_outside b)
  pub of_open_data : (s : Name) → Keeps P Anything (open_data env s)
  pub of_read_data : (s : Name) (offset size : ℕ) → Keeps P Anything (read_data env s offset size)
  pub of_write_data :
      (s : Name) (offset : ℕ) (bytes : List ℕ) → Keeps P Anything (write_data env s offset bytes)
  pub of_unlink_file : (s : Name) → N s → Keeps P Anything (unlink_file env s)
  pub of_unlink_temporary : Keeps P Anything (unlink_file env (codes ".Directory~"))
  pub of_rename_directory : Keeps P Anything (rename_directory env)
  pub of_read_inode : (i : ℕ) (st : Stat) → Keeps P Anything (read_inode env i st)
  pub of_write_inode : (i : ℕ) (st : Stat) → Keeps P Anything (write_inode env i st)

abbrev pub FoundEntry : (Dentry → Type 0) → Option (ℕ × Dentry) → Type 0
FoundEntry E none = Unit
FoundEntry E (some (i, d)) = E d

module _ {env : Env} {P : World → Type 0} {E : Dentry → Type 0} {N : Name → Type 0}
    (r : Rules env P E N) where
  pub find_loop-Keeps :
      (name : Name) (dirs : List Dentry) (index : ℕ)
      → EveryEntry E dirs
      → Keeps P (FoundEntry E) (find_loop env name dirs index)
  unfolding find_loop
  find_loop-Keeps name [] index every = Keeps-then r.of_read_next (Keeps-pure tt)
  find_loop-Keeps name (d ∷ ds) index every = Keeps-bind r.of_read_next λ got _.
      Keeps-elim_Bool got
        (Keeps-if (matches name d) (Keeps-pure every.0)
          (find_loop-Keeps name ds (index + 1) every.1))
        (Keeps-pure tt)

  pub done-Keeps : {A : Type 0} (a : A) → Keeps P Anything (close env >> pure a)
  done-Keeps a = Keeps-then r.of_close (Keeps-pure tt)

  -- The start that the handlers share: Directory~ is opened and searched.
  pub search-Keeps :
      {A : Type 0} (name : Name) (failed : A) {missing : Cmd A}
      {f : List Dentry → ℕ × Dentry → Cmd A}
      → Keeps P Anything missing
      → ((dirs : List Dentry) (found : ℕ × Dentry) → E found.1 → Keeps P Anything (f dirs found))
      → Keeps P Anything (do
        fd ← open_table env live false
        if not fd then pure failed else do
          dirs ← contents live
          found ← find_loop env name dirs 0
          elim found [ none ↦ missing | some entry ↦ f dirs entry ])
  search-Keeps name failed km kf = Keeps-bind (r.of_open_table live false) λ fd _.
      Keeps-if (not fd) (Keeps-pure tt) (
        Keeps-bind (r.of_contents live) λ dirs every.
          Keeps-bind (find_loop-Keeps _ dirs 0 every)
            λ found held. Keeps-elim_Option (FoundEntry E) found held km (kf dirs))
