-- ===== src/Safs/Spec/Rename.antt =====
-- safs_rename as a step of the specification.
use mathlib.Core.Path.{subst}
use safs.Base.{◌≡◌, inl, inr, refl, sym, none, false, pos, Name, rest, same_name, []}
use safs.Posix.{Env, World, calm, list_of}
use safs.Safs.Find.{find_entry}
use safs.Safs.Names.Move.{safs_rename-calm}
use safs.Safs.Server.{rename, safs_oper}
use safs.Safs.Spec.{view, file_of}
use safs.Safs.Spec.Step.{Step, renamed}
use safs.Safs.Spec.Outcome.{IsStep, lost, step_to}
use safs.Safs.Spec.Sound.{IsSound-rename, view-rename, searched, not_found, Known-IsFirst, kept_as}
use safs.Safs.Spec.View.{IsSound, Known, Known-cases}

module _ (env : Env) (w : World) (sound : IsSound env w.disk) (path target : Name)
    (k : Known env w.disk path)
    (free : file_of (find_entry (rest target) (list_of w.disk.directory) 0) ≡ none)
    (named : same_name (rest target) [] ≡ false) where
  rename_known :
      IsStep env (rename path target) w.disk (safs_oper (calm env) (rename path target) w)
  unfolding safs_oper
  rename_known =
      let (e, d) = safs_rename-calm env path target w k.named in
      let sound' = searched env w.disk path sound k in
      let first = Known-IsFirst env w.disk path k in
      let unused = not_found env w.disk path k target free in
      let seen =
        view-rename env w.disk (rest path) (rest target) k.named.index k.dir sound' first unused in
      step_to env (rename path target) w.disk (safs_oper (calm env) (rename path target) w) _ _ e d
        (subst (Step (rename path target) (pos 0) (view w.disk)) (sym seen) (renamed k.names free))
        (IsSound-rename env w.disk (rest path) (rest target) k.named.index k.dir sound' first unused
          (kept_as env w.disk path k (rest target) named))

pub rename-IsStep :
    (env : Env) (w : World) (sound : IsSound env w.disk) (path target : Name)
    → file_of (find_entry (rest target) (list_of w.disk.directory) 0) ≡ none
    → same_name (rest target) [] ≡ false
    → IsStep env (rename path target) w.disk (safs_oper (calm env) (rename path target) w)
rename-IsStep env w sound path target free named = elim (Known-cases env w.disk path sound) [
  | inl unknown ↦ lost env w sound (rename path target) path refl unknown
  | inr k ↦ rename_known env w sound path target k free named
]
