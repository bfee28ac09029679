-- ===== src/Safs/Spec/Nothing.antt =====
-- safs_unlink of a name that is not in use, as a step of the specification.
use mathlib.Core.Path.{fun_ext, subst}
use safs.Base.{
  ◌≡◌, inl, refl, sym, ap, arith, false, none, some, Option, pos, [], Name, rest, same_name,
}
use safs.Disk.{Disk}
use safs.Posix.{Env, World, calm, list_of}
use safs.Safs.Find.{find_entry}
use safs.Safs.Names.Unlink.{survivors, packed}
use safs.Safs.Names.Unlink.Nothing.{safs_unlink_nothing}
use safs.Safs.Rules.{EveryEntry}
use safs.Safs.Server.{unlink, safs_oper}
use safs.Safs.Spec.{File, view, file_of}
use safs.Safs.Spec.Step.{Step, unlinked_nothing}
use safs.Safs.Spec.LeftOut.{
  IsTidy, Absent-file_found, file_found-survivors, file_found-packed, IsUnique-survivors,
  IsUnique-packed, EveryEntry-survivors, EveryEntry-packed,
}
use safs.Safs.Spec.Outcome.{IsStep, step_to}
use safs.Safs.Spec.Sound.{EveryEntry-map}
use safs.Safs.Spec.Unique.{file_of-find_entry}
use safs.Safs.Spec.View.{IsKept, IsSound}
use safs.Safs.Spec.Beside.{IsKept-IsTidy}

module _ (env : Env) (w : World) (sound : IsSound env w.disk) (path : Name)
    (named : same_name (rest path) [] ≡ false)
    (free : file_of (find_entry (rest path) (list_of w.disk.directory) 0) ≡ none) where
  dirs-IsTidy : EveryEntry IsTidy sound.dirs
  dirs-IsTidy =
      EveryEntry-map (IsKept env w.disk) IsTidy sound.dirs (IsKept-IsTidy env w.disk) sound.every

  abbrev laid_out : Disk
  laid_out = record w.disk {
    directory = some (packed (survivors sound.dirs));
    tmp_directory = none;
  }

  view-laid_out : view laid_out ≡ view w.disk
  view-laid_out =
      let each : (name : Name)
          → file_of (find_entry name (packed (survivors sound.dirs)) 0)
            ≡ file_of (find_entry name (list_of w.disk.directory) 0) =
        λ name. ground (
          arith,
          sound.has_directory,
          file_of-find_entry name (packed (survivors sound.dirs)) 0,
          file_of-find_entry name sound.dirs 0,
          file_found-packed name (survivors sound.dirs),
          file_found-survivors name sound.dirs dirs-IsTidy,
        ) in
      ap (λ (names : Name → Option File). record (view w.disk) { names = names }) (fun_ext each)

  pub unlink_nothing-IsStep : IsStep env (unlink path) w.disk (safs_oper (calm env) (unlink path) w)
  unfolding safs_oper
  unlink_nothing-IsStep =
      let absent =
        Absent-file_found (rest path) named sound.dirs dirs-IsTidy (
          ground (arith, free, sound.has_directory, file_of-find_entry (rest path) sound.dirs 0)) in
      let (e, d) = safs_unlink_nothing env path w sound.dirs sound.has_directory absent in
      step_to env (unlink path) w.disk (safs_oper (calm env) (unlink path) w) _ laid_out e d
        (subst (Step (unlink path) (pos 0) (view w.disk)) (sym view-laid_out)
          (unlinked_nothing free))
        (record {
          dirs = packed (survivors sound.dirs);
          inodes = sound.inodes;
          has_directory = refl;
          has_inodes = sound.has_inodes;
          every =
              EveryEntry-packed (IsKept env w.disk) (survivors sound.dirs) (inl (refl, refl))
                (EveryEntry-survivors (IsKept env w.disk) sound.dirs sound.every);
          unique =
              IsUnique-packed (survivors sound.dirs)
                (IsUnique-survivors sound.dirs dirs-IsTidy sound.unique);
        })
