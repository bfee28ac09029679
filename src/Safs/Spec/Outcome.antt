-- ===== src/Safs/Spec/Outcome.antt =====
-- From what a handler does to a disk, where no system call fails, to a step of the specification.
use mathlib.Core.Path.{subst}
use safs.Base.{ℕ, ◌≡◌, refl, sym, ap, ◌∙◌, arith, none, some, List, ℤ, Name, rest, put_at, insert}
use safs.Disk.{Disk, Stat, blank_stat}
use safs.Posix.{Env, World, calm, list_of}
use safs.Safs.Find.{find_entry}
use safs.Safs.Server.{Request, safs_oper}
use safs.Safs.Server.Unknown.{subject, safs_oper_unknown}
use safs.Safs.Spec.{view, set_stat, set_bytes}
use safs.Safs.Spec.Step.{Step, refused}
use safs.Safs.Spec.View.{IsSound, Known, view-put_at, view-insert}
use safs.Safs.Spec.Sound.{IsSound-put_at, IsSound-insert}

-- The result and the world after a request are a step's, and the disk is sound.
abbrev pub IsStep : Env → Request → Disk → ℤ × World → Type 0
IsStep env r disk (rtn, w) = Step r rtn (view disk) (view w.disk) × IsSound env w.disk

-- The same from what is known of the result and of the disk.
pub step_to :
    (env : Env) (r : Request) (disk : Disk) (result : ℤ × World) (rtn : ℤ) (disk' : Disk)
    → result.0 ≡ rtn
    → result.1.disk ≡ disk'
    → Step r rtn (view disk) (view disk')
    → IsSound env disk'
    → IsStep env r disk result
step_to env r disk (rtn', w) rtn disk' e d step sound = (
  subst (λ k. Step r k (view disk) (view w.disk)) (sym e)
      (subst (λ k. Step r rtn (view disk) (view k)) (sym d) step),
  subst (IsSound env) (sym d) sound,
)

module _ (env : Env) (w : World) (sound : IsSound env w.disk) where
  pub lost :
      (r : Request) (path : Name)
      → subject r ≡ some path
      → find_entry (rest path) (list_of w.disk.directory) 0 ≡ none
      → IsStep env r w.disk (safs_oper (calm env) r w)
  lost r path of' free =
      let (result, same) = safs_oper_unknown (calm env) r path w of' free in
      step_to env r w.disk (safs_oper (calm env) r w) _ w.disk refl same
        (refused path of' (ground (arith, free)) result) sound

  -- A handler that overwrites the inode of the file.
  pub wrote_inode :
      (r : Request) (path : Name) (k : Known env w.disk path) (rtn : ℤ) (st : Stat)
      → (safs_oper (calm env) r w).0 ≡ rtn
      → (safs_oper (calm env) r w).1.disk
        ≡ record w.disk { inodes = some (put_at blank_stat k.dir.inum st k.named.inodes) }
      → Step r rtn (view w.disk) (set_stat k.dir.inum st (view w.disk))
      → IsStep env r w.disk (safs_oper (calm env) r w)
  wrote_inode r path k rtn st e d step =
      step_to env r w.disk (safs_oper (calm env) r w) rtn _ e d
        (subst (Step r rtn (view w.disk))
          (sym (view-put_at w.disk k.named.inodes k.dir.inum st k.named.has_inodes)) step)
        (IsSound-put_at env w.disk k.named.inodes k.dir.inum st sound k.named.has_inodes)

  -- A handler that overwrites the inode of the file and its data.
  pub wrote_both :
      (r : Request) (path : Name) (k : Known env w.disk path) (rtn : ℤ) (st : Stat) (bytes : List ℕ)
      → (safs_oper (calm env) r w).0 ≡ rtn
      → (safs_oper (calm env) r w).1.disk ≡ record w.disk {
        inodes = some (put_at blank_stat k.dir.inum st k.named.inodes);
        data_files = insert k.dir.storage bytes w.disk.data_files;
      }
      → Step r rtn
          (view w.disk)
          (set_bytes k.dir.storage bytes (set_stat k.dir.inum st (view w.disk)))
      → IsStep env r w.disk (safs_oper (calm env) r w)
  wrote_both r path k rtn st bytes e d step =
      let is : List Stat = put_at blank_stat k.dir.inum st k.named.inodes in
      let between : Disk = record w.disk { inodes = some is } in
      let stats = view-put_at w.disk k.named.inodes k.dir.inum st k.named.has_inodes in
      let seen =
        view-insert between k.dir.storage bytes ∙ ap (set_bytes k.dir.storage bytes) stats in
      step_to env r w.disk (safs_oper (calm env) r w) rtn _ e d
        (subst (Step r rtn (view w.disk)) (sym seen) step)
        (IsSound-insert env between k.dir.storage bytes
          (IsSound-put_at env w.disk k.named.inodes k.dir.inum st sound k.named.has_inodes))

  -- A handler that leaves the disk alone.
  pub stayed :
      (r : Request) (rtn : ℤ)
      → (safs_oper (calm env) r w).0 ≡ rtn
      → (safs_oper (calm env) r w).1.disk ≡ w.disk
      → Step r rtn (view w.disk) (view w.disk)
      → IsStep env r w.disk (safs_oper (calm env) r w)
  stayed r rtn e d step = step_to env r w.disk (safs_oper (calm env) r w) rtn w.disk e d step sound
