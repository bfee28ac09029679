-- ===== src/Safs/Server/Fresh.antt =====
-- Inode numbers through any sequence of requests.
use safs.Base.{◌≡◌, List, [], ◌∷◌, arith, false}
use safs.Posix.{Env, World, ◌>>=◌}
use safs.Posix.Kept.{kept}
use safs.Safs.Attributes.{safs_chown, safs_setattr}
use safs.Safs.Attributes.Frame.{safs_getattr-kept, safs_chmod-kept, safs_utimens-kept}
use safs.Safs.Contents.{safs_truncate}
use safs.Safs.Contents.Frame.{safs_open-kept, safs_read-kept, safs_write-kept, safs_ftruncate-kept}
use safs.Safs.Listing.Frame.{safs_readdir-kept}
use safs.Safs.Numbers.{IsFresh, IsFresh-Under, Under-Rules}
use safs.Safs.Rules.Named.{safs_rename-Keeps, safs_link-Keeps, safs_unlink-Keeps}
use safs.Safs.Numbers.Mknod.{safs_mknod-IsFresh}
use safs.Safs.Server.{
  Request, getattr, readdir, open_file, read, write, mknod, setxattr, chmod, chown, utimens,
  truncate, ftruncate, unlink, link, rename, safs_oper, serve,
}

module _ (env : Env) where
  same : {w v : World} → kept v ≡ kept w → IsFresh w → IsFresh v
  same e u = ground (arith, e, u.positive, u.listed, u.parked)

  -- One request, whichever of its system calls fail, leaves every entry's number below
  -- inode_number.
  pub safs_oper-IsFresh : (r : Request) (w : World) → IsFresh w → IsFresh (safs_oper env r w).1
  unfolding safs_oper ◌>>=◌ safs_chown safs_setattr safs_truncate
  safs_oper-IsFresh (getattr path st) w u = same (safs_getattr-kept env path st w) u
  safs_oper-IsFresh (readdir path) w u = same (safs_readdir-kept env path w) u
  safs_oper-IsFresh (open_file path flags) w u = same (safs_open-kept env path flags w) u
  safs_oper-IsFresh (read path size offset) w u = same (safs_read-kept env path size offset w) u
  safs_oper-IsFresh (write path buf size offset) w u =
      same (safs_write-kept env path buf size offset w) u
  safs_oper-IsFresh (mknod path mode) w u = (safs_mknod-IsFresh w.inode_number env path mode).at w u
  safs_oper-IsFresh (setxattr path name value size flag) w u = u
  safs_oper-IsFresh (chmod path mode) w u = same (safs_chmod-kept env path mode w) u
  safs_oper-IsFresh (chown path uid gid) w u = u
  safs_oper-IsFresh (utimens path s t) w u = same (safs_utimens-kept env path s t w) u
  safs_oper-IsFresh (truncate path off) w u = same (safs_ftruncate-kept env path off w) u
  safs_oper-IsFresh (ftruncate path off) w u = same (safs_ftruncate-kept env path off w) u
  safs_oper-IsFresh (unlink path) w u =
      IsFresh-Under _ _ ((safs_unlink-Keeps (Under-Rules w.inode_number env) path).at w u).0
  safs_oper-IsFresh (link path1 path2) w u =
      IsFresh-Under _ _ ((safs_link-Keeps (Under-Rules w.inode_number env) path1 path2 tt).at w u).0
  safs_oper-IsFresh (rename oldname newname) w u =
      IsFresh-Under _ _
        ((safs_rename-Keeps (Under-Rules w.inode_number env) oldname newname tt).at w u).0

  -- Through any sequence of requests, whichever of their system calls fail, where `outside` is
  -- not set at the end, so that no name overflowed its array and no table was opened as a data
  -- file: if at first every number in Directory~ and .Directory~ is below a positive
  -- inode_number, then so it is at the end, so no entry has a number that mknod has still to
  -- give out.
  pub serve-IsFresh :
      (rs : List Request) (w : World)
      → (serve env rs w).outside ≡ false
      → IsFresh w
      → IsFresh (serve env rs w)
  unfolding serve
  serve-IsFresh [] w inside u = u
  serve-IsFresh (r ∷ rs) w inside u = serve-IsFresh rs _ inside (safs_oper-IsFresh r w u)
