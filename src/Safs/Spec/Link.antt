-- ===== src/Safs/Spec/Link.antt =====
-- safs_link as a step of the specification.
use mathlib.Core.Path.{subst}
use safs.Base.{
  ℕ, ◌+◌, ◌*◌, ◌%◌, ◌^◌, ◌<◌, ◌≡◌, ◌∙◌, inl, inr, refl, sym, ap, arith, none, some, false, pos,
  List, [], ◌∷◌, Name, rest, same_name, get_or, length, put_at,
}
use safs.Disk.{Disk, Dentry, Stat, blank_stat}
use safs.Posix.{Env, World, calm, list_of}
use safs.Safs.Find.{find_entry}
use safs.Safs.Names.Move.{safs_link-calm, free_entry}
use safs.Safs.Rules.{EveryEntry}
use safs.Safs.Server.{link, safs_oper}
use safs.Safs.Spec.{view, file_of, set_stat, add_name}
use safs.Safs.Spec.Step.{Step, linked}
use safs.Safs.Spec.Outcome.{IsStep, lost, step_to}
use safs.Safs.Spec.Sound.{IsKept-put_at, IsSound-put_at, searched, not_found, IsUsed, kept_as}
use safs.Safs.Spec.Vacant.{IsVacant, free_entry-IsVacant, IsSound-add, view-add}
use safs.Safs.Spec.View.{
  IsKept, IsSound, Known, Known-cases, view-put_at, get_elem?_inside, get_or-get_elem?,
}

-- The inode whose link count link increments is there, at an offset that fits.
HasInode : Env → List Stat → Dentry → Type 0
HasInode env is d = (d.inum < length is) × (d.inum * env.sizeof_stat < 2 ^ 31)

module _ (env : Env) (disk : Disk) (is : List Stat) (table : disk.inodes ≡ some is) where
  free_entry-HasInode :
      (ds : List Dentry) (d : Dentry) (i : ℕ)
      → 0 < length is
      → EveryEntry (IsKept env disk) ds
      → HasInode env is d
      → HasInode env is (free_entry ds d i).1
  unfolding free_entry HasInode
  free_entry-HasInode [] d i some_inode every here = here
  free_entry-HasInode (e ∷ ds) d i some_inode (kept, every) here =
      let next : HasInode env is e = elim kept [
        | inl (unused, nameless) ↦ (ground (arith, unused, some_inode), rw unused (ground arith))
        | inr (below, fits, plain, stored, named) ↦ (ground (arith, below, table), fits)
      ] in
      let later = free_entry-HasInode ds e (i + 1) some_inode every next in
      ground (arith, next, later)

module _ (env : Env) (w : World) (sound : IsSound env w.disk) (path target : Name)
    (k : Known env w.disk path)
    (free : file_of (find_entry (rest target) (list_of w.disk.directory) 0) ≡ none)
    (named : same_name (rest target) [] ≡ false) where
  abbrev slot : ℕ × Dentry
  slot = free_entry k.named.dirs k.dir 0

  counted : HasInode env k.named.inodes slot.1
  unfolding HasInode
  counted =
      free_entry-HasInode env w.disk k.named.inodes k.named.has_inodes k.named.dirs k.dir 0
        (let inside = k.inside in omega arith) (searched env w.disk path sound k).every
        (k.inside, k.named.fits)

  vacant : IsVacant slot.0 k.named.dirs
  vacant =
      let (j, at', fine) = free_entry-IsVacant k.named.dirs k.dir 0 in
      let same : j ≡ slot.0 = omega (arith, at') in subst (λ i. IsVacant i k.named.dirs) same fine

  link_known : IsStep env (link path target) w.disk (safs_oper (calm env) (link path target) w)
  unfolding safs_oper HasInode
  link_known =
      let is : List Stat = k.named.inodes in
      let c : ℕ = slot.1.inum in
      let (st', inode) = get_elem?_inside is c counted.0 in
      let (e, d) = safs_link-calm env path target w k.named st' inode counted.1 in
      let bumped : Stat = record st' { st_nlink = (st'.st_nlink + 1) % 2 ^ 64 } in
      let entry : Dentry = record k.dir { name = rest target } in
      let between : Disk = record w.disk { inodes = some (put_at blank_stat c bumped is) } in
      let sound' =
        IsSound-put_at env w.disk is c bumped (searched env w.disk path sound k)
          k.named.has_inodes in
      let kept =
        IsKept-put_at env w.disk is c bumped entry k.named.has_inodes
          (kept_as env w.disk path k (rest target) named) in
      let used = IsUsed env w.disk path k in
      let unused = not_found env w.disk path k target free in
      let seen =
        view-add env between slot.0 entry used sound' vacant unused
        ∙ ap (add_name (rest target) (k.dir.inum, k.dir.storage))
            (view-put_at w.disk is c bumped k.named.has_inodes) in
      let at' : get_or (list_of w.disk.inodes) c blank_stat ≡ st' =
        ground (arith, k.named.has_inodes, get_or-get_elem? is c st' inode) in
      let step =
        subst
          (λ (old : Stat). Step (link path target) (pos 0) (view w.disk) (
            add_name (rest target) (k.dir.inum, k.dir.storage)
              (set_stat c (record old { st_nlink = (old.st_nlink + 1) % 2 ^ 64 }) (view w.disk))))
          at' (linked c k.names free) in
      step_to env (link path target) w.disk (safs_oper (calm env) (link path target) w) _ _ e d
        (subst (Step (link path target) (pos 0) (view w.disk)) (sym seen) step)
        (IsSound-add env between slot.0 entry used sound' vacant unused kept)

pub link-IsStep :
    (env : Env) (w : World) (sound : IsSound env w.disk) (path target : Name)
    → file_of (find_entry (rest target) (list_of w.disk.directory) 0) ≡ none
    → same_name (rest target) [] ≡ false
    → IsStep env (link path target) w.disk (safs_oper (calm env) (link path target) w)
link-IsStep env w sound path target free named = elim (Known-cases env w.disk path sound) [
  | inl unknown ↦ lost env w sound (link path target) path refl unknown
  | inr k ↦ link_known env w sound path target k free named
]
