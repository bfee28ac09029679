-- ===== src/Posix/Frame.antt =====
-- What building a path does: the path is the name, and no more than `outside` may change.
use safs.Base.{◌≡◌, refl, Name}
use safs.Posix.{World}
use safs.Posix.Data.{full_path}
use safs.Posix.Syscalls.{syscalls}
use safs.Posix.Kept.{kept}

module _ (s : Name) (w : World) where
  pub full_path-kept : kept (full_path s w).1 ≡ kept w
  unfolding full_path syscalls
  full_path-kept = refl

  pub full_path-disk : (full_path s w).1.disk ≡ w.disk
  unfolding full_path syscalls
  full_path-disk = refl

  pub full_path-name : (full_path s w).0 ≡ s
  unfolding full_path syscalls
  full_path-name = refl
