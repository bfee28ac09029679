-- ===== src/Safs/Spec/Refines.antt =====
-- Requests against the specification, where no system call fails.
use mathlib.Core.Path.{subst}
use safs.Base.{
  ◌+◌, ◌*◌, ◌^◌, ◌<◌, ◌≡◌, ◌⊎◌, inl, inr, arith, false, none, Option, List, [], ◌∷◌, ℤ, Name, rest,
  length, same_name,
}
use safs.Disk.{Dentry}
use safs.Posix.{Env, World, calm, list_of}
use safs.Posix.Data.{is_table}
use safs.Safs.Names.Bounds.{Plain}
use safs.Safs.Numbers.{IsFresh}
use safs.Safs.Server.Fresh.{safs_oper-IsFresh}
use safs.Safs.Spec.Link.{link-IsStep}
use safs.Safs.Spec.Mknod.{mknod-IsStep}
use safs.Safs.Spec.Unlink.{IsAlone, unlink-IsStep}
use safs.Safs.Spec.Nothing.{unlink_nothing-IsStep}
use safs.Safs.Spec.Vacant.{IsVacant}
use safs.Safs.Attributes.{safs_chown, safs_setattr}
use safs.Safs.Server.{
  Request, getattr, readdir, open_file, read, write, mknod, setxattr, chmod, chown, utimens,
  truncate, ftruncate, unlink, link, rename, safs_oper, serve,
}
use safs.Safs.Spec.{Abstract, view}
use safs.Safs.Spec.Step.{Steps, ignored_chown, ignored_setxattr, stop, next}
use safs.Safs.Spec.View.{IsSound}
use safs.Safs.Spec.Outcome.{IsStep}
use safs.Safs.Spec.Rename.{rename-IsStep}
use safs.Safs.Spec.Handlers.{
  getattr-IsStep, open-IsStep, read-IsStep, write-IsStep, chmod-IsStep, utimens-IsStep,
  ftruncate-IsStep, truncate-IsStep,
}
use safs.Safs.Spec.Listing.{readdir-IsStep}

-- A name that is not in use, and that the arrays of an entry and of a path can hold.
abbrev IsNewName : Name → Abstract → Type 0
IsNewName name a = (length name < 32) × Plain name × (a.names name ≡ none)

-- The slot and the number that mknod gives out are free, and fit an `int` and an offset.
abbrev HasRoom : Env → World → Type 0
HasRoom env w =
    IsVacant w.inode_number (list_of w.disk.directory)
    × (w.inode_number * env.sizeof_stat < 2 ^ 31)
    × (w.inode_number + 1 < 2 ^ 31)

-- mknod, link and rename give a new name, mknod where it has room, and unlink takes a name that is
-- not in use, or a file whose data file has its name and is its own. Of the other requests nothing
-- is asked.
abbrev pub IsServed : Env → Request → World → Type 0
IsServed env (mknod path mode) w =
    IsNewName (rest path) (view w.disk) × (is_table (rest path) ≡ false) × HasRoom env w
IsServed env (unlink path) w =
    Plain (rest path)
    × (((view w.disk).names (rest path) ≡ none) ⊎ IsAlone (view w.disk) (rest path))
IsServed env (link path1 path2) w = IsNewName (rest path2) (view w.disk)
IsServed env (rename oldname newname) w = IsNewName (rest newname) (view w.disk)
IsServed env request w = Unit

module _ (env : Env) where
  named : (s : Name) → Plain s → same_name s [] ≡ false
  named s plain = ground (arith, plain)

  safs_oper-IsStep :
      (r : Request) (w : World)
      → IsServed env r w
      → IsFresh w
      → IsSound env w.disk
      → IsStep env r w.disk (safs_oper (calm env) r w)
  unfolding safs_oper safs_chown safs_setattr
  safs_oper-IsStep (getattr path metadata) w ok fresh sound =
      getattr-IsStep env w sound path metadata
  safs_oper-IsStep (readdir path) w ok fresh sound = readdir-IsStep env w sound path
  safs_oper-IsStep (open_file path flags) w ok fresh sound = open-IsStep env w sound path flags
  safs_oper-IsStep (read path size offset) w ok fresh sound =
      read-IsStep env w sound path size offset
  safs_oper-IsStep (write path buf size offset) w ok fresh sound =
      write-IsStep env w sound path buf size offset
  safs_oper-IsStep (setxattr path name value size flag) w ok fresh sound = (ignored_setxattr, sound)
  safs_oper-IsStep (chmod path mode) w ok fresh sound = chmod-IsStep env w sound path mode
  safs_oper-IsStep (chown path uid gid) w ok fresh sound = (ignored_chown, sound)
  safs_oper-IsStep (utimens path t u) w ok fresh sound = utimens-IsStep env w sound path t u
  safs_oper-IsStep (truncate path off) w ok fresh sound = truncate-IsStep env w sound path off
  safs_oper-IsStep (ftruncate path off) w ok fresh sound = ftruncate-IsStep env w sound path off
  safs_oper-IsStep (mknod path mode) w ((short, fine, free), plain, (vacant, fits, narrow)) fresh
        sound =
      mknod-IsStep env w sound path mode free (named (rest path) fine) plain
        (subst (λ (ds : Option (List Dentry)). IsVacant w.inode_number (list_of ds))
          sound.has_directory vacant)
        fresh fits (omega arith)
  safs_oper-IsStep (unlink path) w (fine, inl free) fresh sound =
      unlink_nothing-IsStep env w sound path (named (rest path) fine) free
  safs_oper-IsStep (unlink path) w (fine, inr alone) fresh sound =
      unlink-IsStep env w sound path (named (rest path) fine) alone
  safs_oper-IsStep (link path1 path2) w (short, fine, free) fresh sound =
      link-IsStep env w sound path1 path2 free (named (rest path2) fine)
  safs_oper-IsStep (rename oldname newname) w (short, fine, free) fresh sound =
      rename-IsStep env w sound oldname newname free (named (rest newname) fine)

  -- Each request is of that kind when its turn comes.
  abbrev pub AreServed : List Request → World → Type 0
  AreServed [] w = Unit
  AreServed (r ∷ rs) w = IsServed env r w × AreServed rs (safs_oper (calm env) r w).1

  -- The results of requests one after another.
  unfoldable pub results : List Request → World → List ℤ
  results [] w = []
  results (r ∷ rs) w = (safs_oper env r w).0 ∷ results rs (safs_oper env r w).1

module _ (env : Env) where
  -- Where no system call fails, inode_number is above every number in use, both tables exist,
  -- every entry in use has a name, its inode, at an offset that fits, and its data file, which
  -- is none of the tables, no two entries in use have one name, and unused entries have none:
  -- requests one after another are steps of the specification `Step`, from the state that the
  -- disk stands for before to the one that it stands for after, with the results that the
  -- handlers return, and the disk stays of that kind. The requests can be all, but that a new
  -- name of mknod, link and rename is plain, shorter than 32 bytes and not in use, that the slot
  -- of mknod is not in use and its number fits, and that the data file of an unlinked name, if
  -- that is in use, has the name itself and is no other name's.
  pub serve-Steps :
      (requests : List Request) (w : World)
      → AreServed env requests w
      → IsFresh w
      → IsSound env w.disk
      → Steps requests
          (results (calm env) requests w)
          (view w.disk)
          (view (serve (calm env) requests w).disk)
        × IsSound env (serve (calm env) requests w).disk
  unfolding serve results
  serve-Steps [] w ok fresh sound = (stop, sound)
  serve-Steps (r ∷ rs) w (ok, others) fresh sound =
      let (step, sound') = safs_oper-IsStep env r w ok fresh sound in
      let fresh' = safs_oper-IsFresh (calm env) r w fresh in
      let (steps, sound'') = serve-Steps rs (safs_oper (calm env) r w).1 others fresh' sound' in
      (next step steps, sound'')
