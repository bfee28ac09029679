-- ===== src/Safs/Spec/Mknod.antt =====
-- safs_mknod as a step of the specification.
use mathlib.Core.Path.{subst}
use safs.Base.{
  ℕ, zero, suc, Option, ◌*◌, ◌%◌, ◌^◌, ◌<◌, ◌≡◌, ◌≢◌, ◌∙◌, inl, inr, refl, sym, ap, arith, none,
  some, false, neg, pos, List, [], ◌∷◌, Name, rest, same_name, same_name_refl, bit_and, insert,
  lookup-insert, length, put_at, Bool-cases, ◌==◌,
}
use safs.Disk.{Disk, Dentry, Stat, blank_stat}
use safs.Posix.{Env, World, calm, list_of}
use safs.Posix.Data.{is_table}
use safs.Posix.Errno.{eperm, s_ifmt, s_ifreg}
use safs.Safs.Find.{find_entry, matches}
use safs.Safs.Names.{safs_mknod}
use safs.Safs.Names.Create.{safs_mknod-calm, made_stat}
use safs.Safs.Numbers.{IsFresh, Below}
use safs.Safs.Server.{mknod, safs_oper}
use safs.Safs.Spec.{view, file_of, set_bytes, add_name}
use safs.Safs.Spec.Step.{Step, made, mknod_refused}
use safs.Safs.Spec.Outcome.{IsStep, stayed, step_to}
use safs.Safs.Spec.Sound.{IsSound-put_at, IsSound-insert}
use safs.Safs.Spec.Unique.{file_found, file_of-find_entry}
use safs.Safs.Spec.Vacant.{IsVacant, IsSound-add, view-add}
use safs.Safs.Spec.View.{IsKept, IsSound, view-put_at, view-insert}

file_found-Below :
    (n : ℕ) (name t : Name) (ds : List Dentry) → Below n ds → file_found name ds ≢ some (n, t)
unfolding file_found
file_found-Below n name t [] below = λ h. cc
file_found-Below n name t (d ∷ ds) (small, below) = λ h. elim (Bool-cases (matches name d)) [
  | inl hit ↦ ground (arith, small, rw hit at h)
  | inr miss ↦ file_found-Below n name t ds below (rw miss at h)
]

length-put_at-above : (i : ℕ) (st : Stat) (is : List Stat) → i < length (put_at blank_stat i st is)
unfolding put_at
length-put_at-above zero st [] = omega arith
length-put_at-above zero st (x ∷ is) = omega arith
length-put_at-above (suc i) st [] = omega (arith, length-put_at-above i st [])
length-put_at-above (suc i) st (x ∷ is) = omega (arith, length-put_at-above i st is)

module _ (env : Env) (w : World) (sound : IsSound env w.disk) (path : Name) (mode : ℕ)
    (free : file_of (find_entry (rest path) (list_of w.disk.directory) 0) ≡ none)
    (named : same_name (rest path) [] ≡ false) (plain : is_table (rest path) ≡ false)
    (vacant : IsVacant w.inode_number sound.dirs) (fresh : IsFresh w)
    (fits : w.inode_number * env.sizeof_stat < 2 ^ 31) (narrow : w.inode_number < 2 ^ 32) where
  module _ (regular : bit_and mode s_ifmt ≡ s_ifreg) where
    abbrev entry : Dentry
    entry = record { name = rest path; storage = rest path; inum = w.inode_number }

    abbrev stat : Stat
    stat =
        made_stat env path mode w sound.dirs sound.inodes regular plain sound.has_directory
          sound.has_inodes fits

    number_kept : w.inode_number % 2 ^ 32 ≡ w.inode_number
    number_kept = omega arith

    abbrev numbered : Disk
    numbered = record w.disk { inodes = some (put_at blank_stat w.inode_number stat sound.inodes) }

    abbrev filled : Disk
    filled = record numbered { data_files = insert (rest path) [] w.disk.data_files }

    abbrev filled_sound : IsSound env filled
    filled_sound =
        IsSound-insert env numbered (rest path) []
          (IsSound-put_at env w.disk sound.inodes w.inode_number stat sound sound.has_inodes)

    unused : file_found (rest path) sound.dirs ≡ none
    unused = ground (arith, free, sound.has_directory, file_of-find_entry (rest path) sound.dirs 0)

    kept : IsKept env filled entry
    kept = inr (
      length-put_at-above w.inode_number stat sound.inodes,
      fits,
      plain,
      (
        [],
        ground (
          arith,
          lookup-insert (rest path) (rest path) [] w.disk.data_files,
          same_name_refl (rest path),
        ),
      ),
      (fresh.positive, named),
    )

    is_new :
        (name t : Name)
        → file_of (find_entry name (list_of w.disk.directory) 0) ≢ some (w.inode_number, t)
    is_new name t =
        let below : Below w.inode_number sound.dirs =
          subst (λ (ds : Option (List Dentry)). Below w.inode_number (list_of ds))
            sound.has_directory fresh.listed in
        λ h.
          file_found-Below w.inode_number name t sound.dirs below
            (ground (arith, h, sound.has_directory, file_of-find_entry name sound.dirs 0))

    mknod_made : IsStep env (mknod path mode) w.disk (safs_oper (calm env) (mknod path mode) w)
    unfolding safs_oper
    mknod_made =
        let (e, d, n) =
          safs_mknod-calm env path mode w sound.dirs sound.inodes regular plain sound.has_directory
            sound.has_inodes fits in
        let used : w.inode_number ≢ 0 = let positive = fresh.positive in λ none_yet. omega arith in
        let seen =
          view-add env filled w.inode_number entry used filled_sound vacant unused
          ∙ ap (add_name (rest path) (w.inode_number, rest path)) (
              view-insert numbered (rest path) []
              ∙ ap (set_bytes (rest path) [])
                  (view-put_at w.disk sound.inodes w.inode_number stat sound.has_inodes)) in
        step_to env (mknod path mode) w.disk (safs_oper (calm env) (mknod path mode) w) _ _ e
          (rw number_kept at d)
          (subst (Step (mknod path mode) (pos 0) (view w.disk)) (sym seen)
            (made stat free is_new (refl, refl, refl, refl)))
          (IsSound-add env filled w.inode_number entry used filled_sound vacant unused kept)

  pub mknod-IsStep : IsStep env (mknod path mode) w.disk (safs_oper (calm env) (mknod path mode) w)
  unfolding safs_oper safs_mknod
  mknod-IsStep = elim (Bool-cases (bit_and mode s_ifmt == s_ifreg)) [
    | inl regular ↦ mknod_made (ground (arith, regular))
    | inr other ↦
        stayed env w sound (mknod path mode) (neg eperm) (ground (arith, other))
          (ground (arith, other)) (mknod_refused other)
  ]
