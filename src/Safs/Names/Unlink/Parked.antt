-- ===== src/Safs/Names/Unlink/Parked.antt =====
-- The entries of Directory~ through a safs_unlink whose calls may fail.
use safs.Base.{
  ℕ, ◌+◌, ◌≡◌, ◌⊎◌, ◌∙◌, inl, inr, refl, ap, arith, Bool, true, false, not, some, List, [], ◌∷◌,
  pos, ℤ, Name, rest, codes, same_name, same_name_iff,
}
use safs.Disk.{Dentry, Stat, tmp_directory_name}
use safs.Posix.{Env, World, Cmd, close, errno_result}
use safs.Posix.Tables.{
  live, temporary, contents, lseek, read_next, open_table, write_dentry, rename_directory,
}
use safs.Posix.Data.{full_path, unlink_file}
use safs.Posix.Kept.{Kept}
use safs.Posix.Keeps.{
  Keeps, Anything, Keeps-pure, Keeps-bind, Keeps-then, Keeps-if, Keeps-if_tested, Ends, Ends-bind,
  Ends-then, Ends-if, Ends-test, Ends-elim_Option, Ends-Keeps,
}
use safs.Posix.Syscalls.{syscalls}
use safs.Safs.Inode.{read_inode, write_inode}
use safs.Safs.Inode.Frame.{read_inode-kept, write_inode-kept}
use safs.Safs.Names.{unlink_loop, safs_unlink, return_errno}

not_parked :
    (name : Name) (d : Dentry) (s : Name)
    → same_name name tmp_directory_name ≡ false
    → same_name name d.name ≡ true
    → s ≡ d.name
    → same_name s tmp_directory_name ≡ false
not_parked name d s other hit same = ground (arith, other, same_name_iff name d.name)

module _ (env : Env) (ds : List Dentry) where
  -- The old Directory~ is .Directory~ now.
  abbrev IsParked : World → Type 0
  IsParked w = w.disk.tmp_directory ≡ some ds

  Keeps-still :
      {A : Type 0} (m : Cmd A)
      → ((w : World) → (m w).1.disk.tmp_directory ≡ w.disk.tmp_directory)
      → Keeps IsParked Anything m
  Keeps-still m still = record { at = λ w parked. (still w ∙ parked, tt) }

  read_inode-IsParked : (i : ℕ) (st : Stat) → Keeps IsParked Anything (read_inode env i st)
  read_inode-IsParked i st =
      Keeps-still _ (λ w. ap (λ (k : Kept). k.tmp_directory) (read_inode-kept env i st w))

  write_inode-IsParked : (i : ℕ) (st : Stat) → Keeps IsParked Anything (write_inode env i st)
  write_inode-IsParked i st =
      Keeps-still _ (λ w. ap (λ (k : Kept). k.tmp_directory) (write_inode-kept env i st w))

  close-IsParked : Keeps IsParked Anything (close env)
  unfolding syscalls
  close-IsParked = Keeps-still _ (λ w. ground arith)

  lseek-IsParked : Keeps IsParked Anything (lseek env)
  unfolding syscalls
  lseek-IsParked = Keeps-still _ (λ w. ground arith)

  read_next-IsParked : Keeps IsParked Anything (read_next env)
  unfolding syscalls
  read_next-IsParked = Keeps-still _ (λ w. ground arith)

  write_dentry-IsParked : (i : ℕ) (d : Dentry) → Keeps IsParked Anything (write_dentry env live i d)
  unfolding syscalls
  write_dentry-IsParked i d = Keeps-still _ (λ w. ground arith)

  full_path-IsParked : (s : Name) → Keeps IsParked (λ r. r ≡ s) (full_path s)
  unfolding syscalls
  full_path-IsParked s = record { at = λ w parked. (parked, refl) }

  return_errno-IsParked : Keeps IsParked Anything return_errno
  unfolding return_errno syscalls
  return_errno-IsParked = Keeps-still _ (λ w. refl)

  unlink_file-IsParked :
      (s : Name)
      → same_name s tmp_directory_name ≡ false
      → Keeps IsParked Anything (unlink_file env s)
  unfolding syscalls
  unlink_file-IsParked s other = Keeps-still _ (λ w. ground (arith, other))

  unlink_loop-IsParked :
      (name : Name) (dirs : List Dentry) (metadata : Stat) (slot : ℕ)
      → same_name name tmp_directory_name ≡ false
      → Keeps IsParked Anything (unlink_loop env name dirs metadata slot)
  unfolding unlink_loop
  unlink_loop-IsParked name [] metadata slot other = Keeps-then read_next-IsParked (Keeps-pure tt)
  unlink_loop-IsParked name (d ∷ ds) metadata slot other =
      let stop = Keeps-then close-IsParked return_errno-IsParked in
      Keeps-bind read_next-IsParked λ got _. Keeps-if (not got) (Keeps-pure tt) (
        Keeps-if (same_name d.name []) (unlink_loop-IsParked name ds metadata slot other) (
          Keeps-if_tested (same_name name d.name)
            (λ hit. Keeps-bind (read_inode-IsParked d.inum metadata) λ (rtn, st) _.
              Keeps-bind (write_inode-IsParked d.inum _) λ rtn' _.
                Keeps-bind (full_path-IsParked d.name) λ file_path same.
                  Keeps-bind
                    (unlink_file-IsParked file_path (not_parked name d file_path other hit same))
                    λ removed _.
                      Keeps-if (not removed) return_errno-IsParked
                        (unlink_loop-IsParked name ds _ slot other))
            (Keeps-bind lseek-IsParked λ sought _. Keeps-if (not sought) stop (
              Keeps-bind (write_dentry-IsParked slot d) λ written _.
                Keeps-if (not written) stop
                  (unlink_loop-IsParked name ds metadata (slot + 1) other)))))

  -- 0 is returned, or the old entries are in Directory~ or in .Directory~.
  abbrev pub IsRecoverable : ℤ → World → Type 0
  IsRecoverable rtn w =
      (rtn ≡ pos 0) ⊎ (w.disk.directory ≡ some ds) ⊎ (w.disk.tmp_directory ≡ some ds)

  errno_result-IsParked : Keeps IsParked Anything errno_result
  unfolding syscalls
  errno_result-IsParked = Keeps-still _ (λ w. refl)

  open_table-IsParked : (creat : Bool) → Keeps IsParked Anything (open_table env live creat)
  unfolding syscalls
  open_table-IsParked creat = Keeps-still _ (λ w. ground arith)

  reopen-IsParked : Keeps IsParked Anything (open_table env temporary false)
  unfolding syscalls
  reopen-IsParked = Keeps-still _ (λ w. ground arith)

  contents-IsParked : Keeps IsParked Anything (contents temporary)
  unfolding syscalls
  contents-IsParked = Keeps-still _ (λ w. refl)

  parked : {m : Cmd ℤ} → Keeps IsParked Anything m → Ends IsParked IsRecoverable m
  parked keeps = Ends-Keeps keeps (λ _ w there. inr (inr there))

  abbrev IsListed : World → Type 0
  IsListed w = w.disk.directory ≡ some ds

  rename_directory-cases :
      (w : World)
      → IsListed w
      → (((rename_directory env w).0 ≡ true) × IsParked (rename_directory env w).1)
        ⊎ (((rename_directory env w).0 ≡ false) × IsListed (rename_directory env w).1)
  unfolding syscalls
  rename_directory-cases w listed = ground (arith, listed)

  unlink_file-cases :
      (w : World)
      → IsParked w
      → (((unlink_file env (codes ".Directory~") w).0 ≡ true) × Unit {0})
        ⊎ (((unlink_file env (codes ".Directory~") w).0 ≡ false)
            × IsParked (unlink_file env (codes ".Directory~") w).1)
  unfolding syscalls
  unlink_file-cases w there = ground (arith, there)

  errno_result-IsListed : Ends IsListed IsRecoverable errno_result
  unfolding syscalls
  errno_result-IsListed = record { at = λ w listed. inr (inl listed) }

  module _ (path : Name) (other : same_name (rest path) tmp_directory_name ≡ false) where
    unlink-Ends : Ends IsListed IsRecoverable (safs_unlink env path)
    unfolding safs_unlink
    unlink-Ends =
        let failed = parked errno_result-IsParked in
        Ends-test _ _ rename_directory-cases
          (Ends-bind reopen-IsParked λ fd _. Ends-if (not fd) failed (
            Ends-bind (open_table-IsParked true) λ fd' _. Ends-if (not fd') failed (
              Ends-bind contents-IsParked λ dirs _.
                Ends-bind (unlink_loop-IsParked (rest path) dirs env.junk 2 other) λ early _.
                  Ends-elim_Option (λ o. IsParked) early
                    (Ends-then close-IsParked (
                      Ends-then close-IsParked (
                        Ends-test {Y = λ _. Unit} _ _ unlink_file-cases
                          (record { at = λ w _. inl refl }) failed)))
                    (λ r. parked (Keeps-pure tt)))))
          errno_result-IsListed

  -- Whichever system calls of an unlink fail, where Directory~ is there and the name is not
  -- ".Directory~": the result is 0, or the entries that were in Directory~ before are,
  -- unchanged, in Directory~ or in .Directory~.
  pub safs_unlink-IsRecoverable :
      (path : Name) (w : World)
      → w.disk.directory ≡ some ds
      → same_name (rest path) tmp_directory_name ≡ false
      → IsRecoverable (safs_unlink env path w).0 (safs_unlink env path w).1
  safs_unlink-IsRecoverable path w listed other = (unlink-Ends path other).at w listed
