-- ===== src/Safs/Find/Frame.antt =====
-- What the search leaves alone, whether its reads fail or not.
use safs.Base.{ℕ, ◌+◌, ◌≡◌, List, [], ◌∷◌, Name, arith}
use safs.Disk.{Dentry}
use safs.Posix.{Env, World}
use safs.Posix.Syscalls.{syscalls}
use safs.Posix.Kept.{kept}
use safs.Safs.Find.{matches, find_loop}

module _ (env : Env) (name : Name) where
  pub find_loop-disk :
      (dirs : List Dentry) (index : ℕ) (w : World)
      → (find_loop env name dirs index w).1.disk ≡ w.disk
  unfolding find_loop matches syscalls
  find_loop-disk [] index w = ground arith
  find_loop-disk (dir ∷ dirs) index w =
      ground (arith, find_loop-disk dirs (index + 1) (record w { calls = w.calls + 1 }))

  pub find_loop-kept :
      (dirs : List Dentry) (index : ℕ) (w : World)
      → kept (find_loop env name dirs index w).1 ≡ kept w
  unfolding find_loop matches syscalls
  find_loop-kept [] index w = ground arith
  find_loop-kept (dir ∷ dirs) index w =
      ground (arith, find_loop-kept dirs (index + 1) (record w { calls = w.calls + 1 }))
