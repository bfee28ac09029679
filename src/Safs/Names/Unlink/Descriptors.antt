-- ===== src/Safs/Names/Unlink/Descriptors.antt =====
-- The descriptors that safs_unlink opens and closes.
use safs.Base.{
  ℕ, ◌+◌, ◌≤◌, ◌≡◌, ◌⊎◌, ◌∙◌, refl, ap, arith, Bool, true, false, not, Option, none, some, List, [],
  ◌∷◌, pos, ℤ, Name, rest, codes, same_name,
}
use safs.Disk.{Dentry, Stat}
use safs.Posix.{Env, World, Cmd, pure, ◌>>◌, close, errno_result}
use safs.Posix.Tables.{
  Table, live, temporary, contents, lseek, read_next, open_table, write_dentry, rename_directory,
}
use safs.Posix.Data.{full_path, unlink_file}
use safs.Posix.Kept.{Kept}
use safs.Posix.Keeps.{
  Keeps, Anything, Ends, Ends-bind, Ends-then, Ends-if, Ends-follow, Ends-seq, Ends-test,
  Ends-elim_Option,
}
use safs.Posix.Syscalls.{syscalls}
use safs.Safs.Inode.{read_inode, write_inode}
use safs.Safs.Inode.Frame.{read_inode-kept, write_inode-kept}
use safs.Safs.Names.{unlink_loop, safs_unlink, return_errno}

module _ (env : Env) (n : ℕ) where
  -- `k` descriptors more are open than at first.
  abbrev HasOpen : ℕ → World → Type 0
  HasOpen k w = w.fds ≡ n + k

  Keeps-open :
      {A : Type 0} (k : ℕ) (m : Cmd A)
      → ((w : World) → (m w).1.fds ≡ w.fds)
      → Keeps (HasOpen k) Anything m
  Keeps-open k m still = record { at = λ w open'. (still w ∙ open', tt) }

  read_inode-HasOpen : (k i : ℕ) (st : Stat) → Keeps (HasOpen k) Anything (read_inode env i st)
  read_inode-HasOpen k i st =
      Keeps-open k _ (λ w. ap (λ (k : Kept). k.fds) (read_inode-kept env i st w))

  write_inode-HasOpen : (k i : ℕ) (st : Stat) → Keeps (HasOpen k) Anything (write_inode env i st)
  write_inode-HasOpen k i st =
      Keeps-open k _ (λ w. ap (λ (k : Kept). k.fds) (write_inode-kept env i st w))

  lseek-HasOpen : (k : ℕ) → Keeps (HasOpen k) Anything (lseek env)
  unfolding syscalls
  lseek-HasOpen k = Keeps-open k _ (λ w. ground arith)

  read_next-HasOpen : (k : ℕ) → Keeps (HasOpen k) Anything (read_next env)
  unfolding syscalls
  read_next-HasOpen k = Keeps-open k _ (λ w. ground arith)

  write_dentry-HasOpen :
      (k i : ℕ) (d : Dentry) → Keeps (HasOpen k) Anything (write_dentry env live i d)
  unfolding syscalls
  write_dentry-HasOpen k i d = Keeps-open k _ (λ w. ground arith)

  full_path-HasOpen : (k : ℕ) (s : Name) → Keeps (HasOpen k) Anything (full_path s)
  unfolding syscalls
  full_path-HasOpen k s = Keeps-open k _ (λ w. refl)

  unlink_file-HasOpen : (k : ℕ) (s : Name) → Keeps (HasOpen k) Anything (unlink_file env s)
  unfolding syscalls
  unlink_file-HasOpen k s = Keeps-open k _ (λ w. ground arith)

  contents-HasOpen : (k : ℕ) → Keeps (HasOpen k) Anything (contents temporary)
  unfolding syscalls
  contents-HasOpen k = Keeps-open k _ (λ w. refl)

  rename_directory-HasOpen : (k : ℕ) → Keeps (HasOpen k) Anything (rename_directory env)
  unfolding syscalls
  rename_directory-HasOpen k = Keeps-open k _ (λ w. ground arith)

  -- At most two descriptors more are open than at first.
  abbrev IsBounded : World → Type 0
  IsBounded w = (n ≤ w.fds) × (w.fds ≤ n + 2)

  -- Both tables are open where the loop ends by itself.
  abbrev LoopEnd : Option ℤ → World → Type 0
  LoopEnd none w = HasOpen 2 w
  LoopEnd (some r) w = IsBounded w

  stop-LoopEnd : Ends (HasOpen 2) LoopEnd (close env >> return_errno)
  unfolding return_errno syscalls
  stop-LoopEnd = record { at = λ w open'. ground arith }

  return_errno-LoopEnd : Ends (HasOpen 2) LoopEnd return_errno
  unfolding return_errno syscalls
  return_errno-LoopEnd = record { at = λ w open'. ground arith }

  unlink_loop-LoopEnd :
      (name : Name) (dirs : List Dentry) (metadata : Stat) (slot : ℕ)
      → Ends (HasOpen 2) LoopEnd (unlink_loop env name dirs metadata slot)
  unfolding unlink_loop
  unlink_loop-LoopEnd name [] metadata slot =
      Ends-then (read_next-HasOpen 2) (record { at = λ w open'. open' })
  unlink_loop-LoopEnd name (d ∷ ds) metadata slot = Ends-bind (read_next-HasOpen 2) λ got _.
      Ends-if (not got) (record { at = λ w open'. open' })
        (Ends-if (same_name d.name []) (unlink_loop-LoopEnd name ds metadata slot) (
          Ends-if (same_name name d.name)
            (Ends-bind (read_inode-HasOpen 2 d.inum metadata) λ (rtn, st) _.
              Ends-bind (write_inode-HasOpen 2 d.inum _) λ rtn' _.
                Ends-bind (full_path-HasOpen 2 d.name) λ file_path _.
                  Ends-bind (unlink_file-HasOpen 2 file_path) λ removed _.
                    Ends-if (not removed) return_errno-LoopEnd (unlink_loop-LoopEnd name ds _ slot))
            (Ends-bind (lseek-HasOpen 2) λ sought _. Ends-if (not sought) stop-LoopEnd (
              Ends-bind (write_dentry-HasOpen 2 slot d) λ written _.
                Ends-if (not written) stop-LoopEnd
                  (unlink_loop-LoopEnd name ds metadata (slot + 1))))))

  open_table-cases :
      (k : ℕ) (t : Table) (creat : Bool) (w : World)
      → HasOpen k w
      → (((open_table env t creat w).0 ≡ true) × HasOpen (k + 1) (open_table env t creat w).1)
        ⊎ (((open_table env t creat w).0 ≡ false) × HasOpen k (open_table env t creat w).1)
  unfolding syscalls
  open_table-cases k live creat w open' = ground arith
  open_table-cases k temporary creat w open' = ground arith

  failed : (k : ℕ) → k ≤ 2 → Ends (HasOpen k) (λ a. IsBounded) errno_result
  unfolding syscalls
  failed k le = record { at = λ w open'. ground arith }

  close-Ends : (k : ℕ) → Ends (HasOpen (k + 1)) (λ a. HasOpen k) (close env)
  unfolding syscalls
  close-Ends k = record { at = λ w open'. ground arith }

  finished : Ends (HasOpen 0) (λ a. IsBounded) (pure (pos 0))
  finished = record { at = λ w open'. ground arith }

  returned : (r : ℤ) → Ends (LoopEnd (some r)) (λ a. IsBounded) (pure r)
  returned r = record { at = λ w bounded. bounded }

  unlink-Ends : (path : Name) → Ends (HasOpen 0) (λ a. IsBounded) (safs_unlink env path)
  unfolding safs_unlink
  unlink-Ends path = Ends-bind (rename_directory-HasOpen 0) λ renamed _.
      Ends-if (not renamed) (failed 0 (omega arith)) (
        Ends-test (open_table env temporary false) _ (open_table-cases 0 temporary false)
          (Ends-test (open_table env live true) _ (open_table-cases 1 live true)
            (Ends-bind (contents-HasOpen 2) λ dirs _.
              Ends-seq (unlink_loop-LoopEnd (rest path) dirs env.junk 2) λ early.
                Ends-elim_Option LoopEnd early
                  (Ends-follow (close-Ends 1) (
                    Ends-follow (close-Ends 0) (
                      Ends-bind (unlink_file-HasOpen 0 (codes ".Directory~"))
                        λ removed _. Ends-if removed finished (failed 0 (omega arith)))))
                  returned)
            (failed 1 (omega arith)))
          (failed 0 (omega arith)))

pub safs_unlink-fds :
    (env : Env) (path : Name) (w : World)
    → (w.fds ≤ (safs_unlink env path w).1.fds) × ((safs_unlink env path w).1.fds ≤ w.fds + 2)
safs_unlink-fds env path w = (unlink-Ends env w.fds path).at w (omega arith)
