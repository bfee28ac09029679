-- ===== src/Safs/Apart/Spared.antt =====
-- When a name table, an inode and a data file are the same on two disks, and the handlers that
-- change no more than whether Inodes~ is there.
use mathlib.Core.Path.{subst}
use safs.Base.{
  ℕ, ◌+◌, ◌≡◌, ◌≢◌, refl, sym, ap, arith, some, false, Option, List, [], ◌∷◌, Name, same_name,
  lookup, lookup-erase, get_or,
}
use safs.Disk.{Disk, Dentry, Stat, blank_stat}
use safs.Posix.{Env, World, list_of}
use safs.Posix.Syscalls.{syscalls}
use safs.Safs.Apart.{others}
use safs.Safs.Attributes.{safs_getattr}
use safs.Safs.Find.{find_entry}
use safs.Safs.Find.Frame.{find_loop-disk}
use safs.Safs.Inode.{read_inode}
use safs.Safs.Listing.{readdir_loop, safs_readdir}
use safs.Safs.Spec.{file_of, view}
use safs.Safs.Spec.View.{get_or-put_at}

-- The names, and what belongs to the inode `i` and the data file `s`, are the same in both.
abbrev pub IsSpared : ℕ → Name → Disk → Disk → Type 0
IsSpared i s before after =
    ((view after).names ≡ (view before).names)
    × ((view after).stats i ≡ (view before).stats i)
    × ((view after).bytes s ≡ (view before).bytes s)

pub others-IsSpared :
    (i j : ℕ) (s t : Name) (before after : Disk)
    → i ≢ j
    → same_name t s ≡ false
    → others j t after ≡ others j t before
    → IsSpared i s before after
unfolding others
others-IsSpared i j s t before after number storage same =
    let directory : after.directory ≡ before.directory = ap (λ (d : Disk). d.directory) same in
    let inodes = ap (λ (d : Disk). get_or (list_of d.inodes) i blank_stat) same in
    let data_files = ap (λ (d : Disk). lookup s d.data_files) same in
    (
      ap (λ (ds : Option (List Dentry)). λ (name : Name). file_of (find_entry name (list_of ds) 0))
          directory,
      ground (
        arith,
        number,
        inodes,
        get_or-put_at j i blank_stat (list_of after.inodes),
        get_or-put_at j i blank_stat (list_of before.inodes),
      ),
      ground (
        arith,
        storage,
        data_files,
        lookup-erase t s after.data_files,
        lookup-erase t s before.data_files,
      ),
    )

pub same-IsSpared :
    (i : ℕ) (s : Name) (before after : Disk) → after ≡ before → IsSpared i s before after
same-IsSpared i s before after same =
    subst (λ (d : Disk). IsSpared i s before d) (sym same) (refl, refl, refl)

-- Inodes~, made if it was missing.
abbrev pub present : Disk → Disk
present disk = record disk { inodes = some (list_of disk.inodes) }

module _ (env : Env) where
  read_inode-present :
      (i : ℕ) (st : Stat) (w : World) → present (read_inode env i st w).1.disk ≡ present w.disk
  unfolding read_inode syscalls
  read_inode-present i st w = ground arith

  readdir_loop-present :
      (dirs : List Dentry) (st : Stat) (w : World)
      → present (readdir_loop env dirs st w).1.disk ≡ present w.disk
  unfolding readdir_loop syscalls
  readdir_loop-present [] st w = ground arith
  readdir_loop-present (d ∷ ds) st w =
      let v : World = record w { calls = w.calls + 1 } in
      let got = read_inode env d.inum st v in
      ground (
        arith,
        readdir_loop-present ds st v,
        readdir_loop-present ds got.0.1 got.1,
        read_inode-present d.inum st v,
      )

  pub safs_readdir-present :
      (path : Name) (w : World) → present (safs_readdir env path w).1.disk ≡ present w.disk
  unfolding safs_readdir syscalls
  safs_readdir-present path w = grind (arith, readdir_loop-present)

  pub safs_getattr-present :
      (path : Name) (st : Stat) (w : World)
      → present (safs_getattr env path st w).1.disk ≡ present w.disk
  unfolding safs_getattr syscalls
  safs_getattr-present path st w = grind (arith, read_inode-present, find_loop-disk)

pub present-IsSpared :
    (i : ℕ) (s : Name) (before later : Disk)
    → present later ≡ present before
    → IsSpared i s before later
present-IsSpared i s before later same = (
  ap (λ (d : Disk). (view d).names) same,
  ap (λ (d : Disk). (view d).stats i) same,
  ap (λ (d : Disk). (view d).bytes s) same,
)
