-- ===== src/Safs/Find.antt =====
-- The loop by which the handlers of safs.c look a name up in Directory~, and its specification.
pub mod Calm
pub mod Frame
pub mod Laws
use safs.Base.{
  ℕ, ◌+◌, not, ◌&&◌, Bool, true, false, Option, none, some, List, [], ◌∷◌, ◌==◌, Name, same_name,
  if◌then◌else◌,
}
use safs.Disk.{Dentry}
use safs.Posix.{Env, Cmd, pure, ◌>>=◌, ◌>>◌}
use safs.Posix.Tables.{read_next}

-- strcmp(name, dir.name) == 0 && dir.inum != 0
unfoldable pub matches : Name → Dentry → Bool
matches name dir = same_name name dir.name && not (dir.inum == 0)

-- while (read(fd, &dir, sizeof(dir)) == sizeof(dir)) { if (…) …; index++; }
-- The loop ends at a match, at the end of the file, or at a read that fails.
unfoldable pub find_loop : Env → Name → List Dentry → ℕ → Cmd (Option (ℕ × Dentry))
find_loop env name [] index = read_next env >> pure none
find_loop env name (dir ∷ dirs) index = do
  got ← read_next env
  elim got [
    | false ↦ pure none
    | true ↦
        if matches name dir then pure (some (index, dir)) else find_loop env name dirs (index + 1)
  ]

-- The first match and its slot.
unfoldable pub find_entry : Name → List Dentry → ℕ → Option (ℕ × Dentry)
find_entry name [] index = none
find_entry name (dir ∷ dirs) index =
    if matches name dir then some (index, dir) else find_entry name dirs (index + 1)
