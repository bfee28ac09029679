-- ===== src/Safs/Stored/Mknod.antt =====
-- The inode of the entry that safs_mknod makes, whichever calls fail.
use mathlib.Core.Path.{subst}
use safs.Base.{
  ℕ, zero, suc, ◌<◌, ◌≤◌, ◌≡◌, inr, refl, sym, not, ◌==◌, false, [], ℤ, pos, negsuc, Name, rest,
  arith, bit_and, length,
}
use safs.Disk.{Dentry, Stat}
use safs.Posix.{Env, World, ◌>>=◌}
use safs.Posix.Tables.{live}
use safs.Posix.Data.{create_data, truncated, is_table}
use safs.Posix.Syscalls.{syscalls}
use safs.Posix.Errno.{s_ifmt, s_ifreg}
use safs.Posix.Keeps.{
  Keeps, Anything, Keeps-bind, Keeps-if, Keeps-pure, Keeps-then, Leads, Ends-bind, Ends-if,
  Ends-Keeps,
}
use safs.Safs.Inode.{write_inode}
use safs.Safs.Names.{
  safs_mknod, create_node, make_node, add_unless, add_entry, get_inode_number, next_inode_number,
}
use safs.Safs.Rules.{Rules, done-Keeps}
use safs.Safs.Stored.Calls.{IsStored-Rules, of_write_inode}
use safs.Safs.Stored.{
  IsPlain, IsStored, Holds, AreStored, AreStored-Holds, inodes_of, length-put_at_above,
}

-- An inode that was written without a failure is in the table.
write_inode_above :
    (env : Env) (i : ℕ) (st : Stat) (w : World)
    → (write_inode env i st w).0 ≡ pos 0
    → i < length (inodes_of (write_inode env i st w).1)
unfolding write_inode syscalls
write_inode_above env i st w ok =
    ground (arith, ok, length-put_at_above i st (inodes_of w), length-put_at_above i st [])

module _ (k : ℕ) (env : Env) where
  rules : Rules env (Holds k) (IsStored k) IsPlain
  rules = IsStored-Rules k env

  next_inode_number-Holds : Keeps (Holds k) Anything next_inode_number
  unfolding next_inode_number
  next_inode_number-Holds = record { at = λ w u. ground (arith, u.enough, u.listed, u.parked) }

  add_entry-Holds :
      (number : ℕ) (dentry : Dentry)
      → IsStored k dentry
      → Keeps (Holds k) Anything (add_entry env number dentry)
  unfolding add_entry
  add_entry-Holds number dentry held = Keeps-bind rules.of_lseek λ sought _.
      Keeps-if (not sought) (done-Keeps rules _) (
        Keeps-bind (rules.of_write_dentry live number dentry held) λ written _.
          Keeps-if (not written) (done-Keeps rules _)
            (Keeps-then next_inode_number-Holds (done-Keeps rules _)))

-- The end of mknod, where the inode `number` has been written if `rtn` is 0.
add_unless-AreStored :
    (env : Env) (rtn : ℤ) (number : ℕ) (dentry : Dentry) (w : World)
    → IsPlain dentry.name
    → dentry.inum ≤ number
    → (rtn ≡ pos 0 → number < length (inodes_of w))
    → AreStored w
    → AreStored (add_unless env rtn number dentry w).1
unfolding add_unless
add_unless-AreStored env (negsuc n) number dentry w plain least above u =
    AreStored-Holds _ _ ((done-Keeps (rules _ env) _).at w u).0
add_unless-AreStored env (pos (suc n)) number dentry w plain least above u =
    AreStored-Holds _ _ ((done-Keeps (rules _ env) _).at w u).0
add_unless-AreStored env (pos zero) number dentry w plain least above u =
    let stored : IsStored (length (inodes_of w)) dentry =
      (inr (ground (arith, above refl)), plain) in
    AreStored-Holds _ _ ((add_entry-Holds _ env number dentry stored).at w u).0

module _ (env : Env) where
  write_then :
      (k number : ℕ) (st : Stat) (dentry : Dentry)
      → IsPlain dentry.name
      → dentry.inum ≤ number
      → Leads
          (Holds k)
          AreStored
          (write_inode env number st >>= λ rtn. add_unless env rtn number dentry)
  unfolding ◌>>=◌
  write_then k number st dentry plain least = record {
    at = λ w u.
        let v = write_inode env number st w in
        let held = AreStored-Holds k v.1 ((of_write_inode k env number st).at w u).0 in
        add_unless-AreStored env v.0 number dentry v.1 plain least
          (write_inode_above env number st w) held;
  }

  get_inode_number-Holds : (k : ℕ) → Keeps (Holds k) Anything get_inode_number
  unfolding get_inode_number
  get_inode_number-Holds k = record { at = λ w u. (u, tt) }

  make_node-AreStored :
      (k : ℕ) (name : Name) (mode : ℕ)
      → IsPlain name
      → Leads (Holds k) AreStored (make_node env name mode)
  unfolding make_node
  make_node-AreStored k name mode plain = Ends-bind (rules k env).of_clock_gettime λ timestamp _.
      Ends-bind (get_inode_number-Holds k) λ number _.
        Ends-bind ((rules k env).of_strcpy_name name) λ entry_name e.
          Ends-bind ((rules k env).of_strcpy_name name)
            λ storage _. write_then k number _ _ (subst IsPlain (sym e) plain) (omega arith)

  create_data-Holds :
      (k : ℕ) (name : Name) → IsPlain name → Keeps (Holds k) (λ b. Unit {0}) (create_data env name)
  unfolding syscalls truncated is_table
  create_data-Holds k name plain = record {
    at = λ w u. ground (arith, plain, u.enough, u.listed, u.parked);
  }

  stop :
      {A : Type 0} (k : ℕ) {m : World → A × World}
      → Keeps (Holds k) Anything m
      → Leads (Holds k) AreStored m
  stop k keeps = Ends-Keeps keeps (λ _. AreStored-Holds k)

  create_node-AreStored :
      (k : ℕ) (name : Name) (mode : ℕ)
      → IsPlain name
      → Leads (Holds k) AreStored (create_node env name mode)
  unfolding create_node
  create_node-AreStored k name mode plain =
      Ends-bind ((rules k env).of_full_path name) λ file_path e.
        Ends-bind (create_data-Holds k file_path (subst IsPlain (sym e) plain)) λ created _.
          Ends-if (not created) (stop k (done-Keeps (rules k env) _))
            (make_node-AreStored k name mode plain)

  pub safs_mknod-AreStored :
      (k : ℕ) (filename : Name) (mode : ℕ)
      → IsPlain (rest filename)
      → Leads (Holds k) AreStored (safs_mknod env filename mode)
  unfolding safs_mknod
  safs_mknod-AreStored k filename mode plain =
      Ends-if (not (bit_and mode s_ifmt == s_ifreg)) (stop k (Keeps-pure tt)) (
        Ends-bind ((rules k env).of_open_table live false) λ fd _.
          Ends-if (not fd) (stop k (Keeps-pure tt))
            (create_node-AreStored k (rest filename) mode plain))
