-- ===== src/Safs/Find/Calm.antt =====
-- With no failing read the search gives the first match, and counts its reads.
use safs.Base.{ℕ, ◌+◌, ◌≡◌, refl, List, [], ◌∷◌, Name, arith, if◌then◌else◌}
use safs.Disk.{Dentry}
use safs.Posix.{Env, World, calm}
use safs.Posix.Syscalls.{syscalls}
use safs.Safs.Find.{matches, find_loop, find_entry}

-- The reads of the search.
unfoldable pub find_reads : Name → List Dentry → ℕ
find_reads name [] = 1
find_reads name (dir ∷ dirs) = if matches name dir then 1 else 1 + find_reads name dirs

module _ (env : Env) (name : Name) where
  pub find_loop-calm :
      (dirs : List Dentry) (index : ℕ) (w : World)
      → find_loop (calm env) name dirs index w
        ≡ (find_entry name dirs index, record w { calls = w.calls + find_reads name dirs })
  unfolding find_loop find_entry find_reads syscalls
  find_loop-calm [] index w = refl
  find_loop-calm (dir ∷ dirs) index w =
      ground (arith, find_loop-calm dirs (index + 1) (record w { calls = w.calls + 1 }))
