-- ===== src/Safs/Server/Descriptors.antt =====
-- The descriptors that the requests open and close.
use safs.Base.{ℕ, ◌+◌, ◌≡◌, List, [], ◌∷◌, ap, Bool, true, false, refl}
use safs.Posix.{Env, World, ◌>>=◌}
use safs.Posix.Kept.{Kept}
use safs.Safs.Attributes.{safs_chown, safs_setattr}
use safs.Safs.Attributes.Frame.{safs_getattr-kept, safs_chmod-kept, safs_utimens-kept}
use safs.Safs.Contents.{safs_truncate}
use safs.Safs.Contents.Frame.{safs_open-kept, safs_read-kept, safs_write-kept, safs_ftruncate-kept}
use safs.Safs.Listing.Frame.{safs_readdir-kept}
use safs.Safs.Names.Descriptors.{safs_rename-fds, safs_link-fds}
use safs.Safs.Server.{
  Request, getattr, readdir, open_file, read, write, mknod, setxattr, chmod, chown, utimens,
  truncate, ftruncate, unlink, link, rename, safs_oper,
}

-- Requests that close what they open.
abbrev pub closes : Request → Bool
closes (mknod path mode) = false
closes (unlink path) = false
closes r = true

module _ (env : Env) where
  -- Each request but mknod and unlink leaves as many descriptors open as there were before,
  -- whichever of its system calls fail.
  pub safs_oper-fds :
      (r : Request) (w : World) → closes r ≡ true → (safs_oper env r w).1.fds ≡ w.fds
  unfolding safs_oper ◌>>=◌ safs_chown safs_setattr safs_truncate
  safs_oper-fds (getattr path st) w c = ap (λ (k : Kept). k.fds) (safs_getattr-kept env path st w)
  safs_oper-fds (readdir path) w c = ap (λ (k : Kept). k.fds) (safs_readdir-kept env path w)
  safs_oper-fds (open_file path flags) w c =
      ap (λ (k : Kept). k.fds) (safs_open-kept env path flags w)
  safs_oper-fds (read path size offset) w c =
      ap (λ (k : Kept). k.fds) (safs_read-kept env path size offset w)
  safs_oper-fds (write path buf size offset) w c =
      ap (λ (k : Kept). k.fds) (safs_write-kept env path buf size offset w)
  safs_oper-fds (mknod path mode) w c = cc c
  safs_oper-fds (setxattr path name value size flag) w c = refl
  safs_oper-fds (chmod path mode) w c = ap (λ (k : Kept). k.fds) (safs_chmod-kept env path mode w)
  safs_oper-fds (chown path uid gid) w c = refl
  safs_oper-fds (utimens path s t) w c = ap (λ (k : Kept). k.fds) (safs_utimens-kept env path s t w)
  safs_oper-fds (truncate path off) w c =
      ap (λ (k : Kept). k.fds) (safs_ftruncate-kept env path off w)
  safs_oper-fds (ftruncate path off) w c =
      ap (λ (k : Kept). k.fds) (safs_ftruncate-kept env path off w)
  safs_oper-fds (unlink path) w c = cc c
  safs_oper-fds (link path1 path2) w c = safs_link-fds env path1 path2 w
  safs_oper-fds (rename oldname newname) w c = safs_rename-fds env oldname newname w

-- How many descriptors a request may leave open.
abbrev pub leaks : Request → ℕ
leaks (mknod path mode) = 1
leaks (unlink path) = 2
leaks r = 0

abbrev pub all_leaks : List Request → ℕ
all_leaks [] = 0
all_leaks (r ∷ rs) = leaks r + all_leaks rs
