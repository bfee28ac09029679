-- ===== src/Safs/Stored.antt =====
-- Every entry in use has its inode in Inodes~, and no entry has the name of a table.
pub mod Calls
pub mod Mknod
pub mod Requests
use safs.Base.{
  ℕ, zero, suc, ◌+◌, ◌*◌, ◌<◌, ◌≤◌, ◌≡◌, ◌⊎◌, inl, inr, refl, not, Bool, true, false, List, [], ◌∷◌,
  Option, none, some, arith, Name, codes, put_at, length, ℤ, pos, neg, is_neg, to_int, same_name,
  if◌then◌else◌,
}
use safs.Disk.{Stat, Dentry, blank_dentry, blank_stat}
use safs.Posix.{
  pure, ◌>>◌, Env, World, list_of, close, clock_gettime, errno_result, get_errno, mark_outside,
}
use safs.Posix.Tables.{
  Table, live, temporary, contents, lseek, open_table, rename_directory, write_dentry, read_next,
  open_inodes, read_stat, write_stat,
}
use safs.Posix.Data.{
  is_table, strcpy_name, full_path, open_data, read_data, write_data, unlink_file,
}
use safs.Posix.Syscalls.{syscalls}
use safs.Posix.Keeps.{
  Keeps, Anything, Keeps-pure, Keeps-bind, Keeps-then, Keeps-if, Keeps-elim_Option,
}
use safs.Safs.Inode.{read_inode, write_inode}
use safs.Safs.Rules.{EveryEntry-put_at, Rules, EveryEntry}

-- A name that is none of a table's.
abbrev pub IsPlain : Name → Type 0
IsPlain name = is_table name ≡ false

-- An entry that is unused, or has one of the first `k` inodes.
abbrev pub IsStored : ℕ → Dentry → Type 0
IsStored k d = ((d.inum ≡ 0) ⊎ (d.inum < k)) × IsPlain d.name

abbrev pub inodes_of : World → List Stat
inodes_of w = list_of w.disk.inodes

-- While a command runs, Inodes~ has at least `k` inodes, and the entries of both tables are among
-- them.
pub record Holds (k : ℕ) (w : World) : Type 0 where
  pub enough : k ≤ length (inodes_of w)
  pub listed : EveryEntry (IsStored k) (list_of w.disk.directory)
  pub parked : EveryEntry (IsStored k) (list_of w.disk.tmp_directory)

pub IsStored-put_at :
    (k i : ℕ) (d : Dentry) (ds : List Dentry)
    → IsStored k d
    → EveryEntry (IsStored k) ds
    → EveryEntry (IsStored k) (put_at blank_dentry i d ds)
unfolding is_table same_name
IsStored-put_at k i d ds held every =
    EveryEntry-put_at (IsStored k) i d ds (inl refl, refl) held every

pub length-put_at_le :
    (i : ℕ) (st : Stat) (is : List Stat) → length is ≤ length (put_at blank_stat i st is)
unfolding put_at
length-put_at_le zero st [] = omega arith
length-put_at_le zero st (s ∷ is) = omega arith
length-put_at_le (suc i) st [] = omega arith
length-put_at_le (suc i) st (s ∷ is) = ground (arith, length-put_at_le i st is)

pub length-put_at_above :
    (i : ℕ) (st : Stat) (is : List Stat) → i < length (put_at blank_stat i st is)
unfolding put_at
length-put_at_above zero st [] = omega arith
length-put_at_above zero st (s ∷ is) = omega arith
length-put_at_above (suc i) st [] = ground (arith, length-put_at_above i st [])
length-put_at_above (suc i) st (s ∷ is) = ground (arith, length-put_at_above i st is)

-- Every entry in use has its inode, and no entry has the name of a table.
abbrev pub AreStored : World → Type 0
AreStored w = Holds (length (inodes_of w)) w

EveryEntry-le :
    (k l : ℕ) (ds : List Dentry) → k ≤ l → EveryEntry (IsStored k) ds → EveryEntry (IsStored l) ds
EveryEntry-le k l [] le every = tt
EveryEntry-le k l (d ∷ ds) le ((held, plain), every) =
    ((ground (arith, held), plain), EveryEntry-le k l ds le every)

pub AreStored-Holds : (k : ℕ) (w : World) → Holds k w → AreStored w
AreStored-Holds k w u =
    let n = length (inodes_of w) in
    record {
      enough = omega arith;
      listed = EveryEntry-le k n (list_of w.disk.directory) u.enough u.listed;
      parked = EveryEntry-le k n (list_of w.disk.tmp_directory) u.enough u.parked;
    }
