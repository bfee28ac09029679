-- ===== src/Safs/Spec/Boot.antt =====
-- safs from its first start on: safs_init in an empty directory, and then requests.
use mathlib.Core.Path.{subst}
use safs.Base.{◌<◌, ◌≡◌, ◌∙◌, refl, sym, ap, arith, none, some, Option, List, [], lookup, pos}
use safs.Disk.{Disk, Dentry, blank_stat}
use safs.Posix.{Env, World, calm, list_of}
use safs.Safs.Find.{find_entry}
use safs.Safs.Numbers.{IsFresh, Below}
use safs.Safs.Server.{Request, serve}
use safs.Safs.Spec.{Abstract, view}
use safs.Safs.Spec.Refines.{AreServed, results, serve-Steps}
use safs.Safs.Spec.Step.{Steps}
use safs.Safs.Spec.View.{IsSound}
use safs.Safs.Start.{safs_init}
use safs.Safs.Start.Calm.{safs_init-calm, highest}

-- No name is in use; the data files are those that lie there.
abbrev pub no_names : Disk → Abstract
no_names disk = record {
  names = λ name. none;
  stats = λ i. blank_stat;
  bytes = λ storage. lookup storage disk.data_files;
}

module _ (env : Env) (w : World) (no_directory : w.disk.directory ≡ none)
    (no_tmp : w.disk.tmp_directory ≡ none) (no_inodes : w.disk.inodes ≡ none)
    (numbered : 0 < w.inode_number) where
  abbrev started : World
  started = (safs_init (calm env) w).1

  abbrev tables : Disk
  tables = record w.disk { directory = some []; inodes = some [] }

  started_disk : started.disk ≡ tables
  started_disk = ground (arith, safs_init-calm env w, no_directory, no_inodes)

  started_number : started.inode_number ≡ w.inode_number
  unfolding highest
  started_number = ground (arith, safs_init-calm env w, no_directory)

  tables-IsSound : IsSound env tables
  tables-IsSound = record {
    dirs = [];
    inodes = [];
    has_directory = refl;
    has_inodes = refl;
    every = tt;
    unique = tt;
  }

  started-IsFresh : IsFresh started
  started-IsFresh = record {
    number = refl;
    positive = ground (arith, started_number);
    listed =
        subst (λ (disk : Disk). Below started.inode_number (list_of disk.directory))
          (sym started_disk) tt;
    parked =
        subst (λ (disk : Disk). Below started.inode_number (list_of disk.tmp_directory))
          (sym started_disk)
          (subst (λ (ds : Option (List Dentry)). Below started.inode_number (list_of ds))
            (sym no_tmp) tt);
  }

  tables-view : view tables ≡ no_names w.disk
  unfolding find_entry
  tables-view = refl

  -- Where no system call fails and /tmp/safs holds no table, with inode_number positive: init
  -- returns 0, and requests one after another, each of the kind that `IsServed` names when its
  -- turn comes, are then steps of the specification from the state in which no name is in use,
  -- with the results that the handlers return.
  pub serve-safs_init :
      (requests : List Request)
      → AreServed env requests (safs_init (calm env) w).1
      → ((safs_init (calm env) w).0 ≡ pos 0)
        × Steps requests
            (results (calm env) requests (safs_init (calm env) w).1)
            (no_names w.disk)
            (view (serve (calm env) requests (safs_init (calm env) w).1).disk)
  serve-safs_init requests served =
      let sound = subst (IsSound env) (sym started_disk) tables-IsSound in
      let steps = (serve-Steps env requests started served started-IsFresh sound).0 in
      (
        (safs_init-calm env w).0,
        subst
            (λ a.
              Steps requests (results (calm env) requests started) a
                (view (serve (calm env) requests started).disk))
            (ap view started_disk ∙ tables-view) steps,
      )
