-- ===== src/Safs/Stored/Requests.antt =====
-- Entries and inodes through any sequence of requests, and what a listing shows then.
use mathlib.Core.Path.{subst}
use safs.Base.{
  ℕ, zero, suc, ◌<◌, ◌≡◌, ◌⊎◌, inl, inr, refl, arith, ◌==◌, true, false, List, [], ◌∷◌, none, some,
  pos, codes, rest, length, get_elem?,
}
use safs.Disk.{Dentry, Stat}
use safs.Posix.{Env, World, Cmd, calm, ◌>>=◌, list_of}
use safs.Posix.Keeps.{Keeps, Anything}
use safs.Safs.Attributes.{safs_chown, safs_setattr}
use safs.Safs.Contents.{safs_truncate}
use safs.Safs.Listing.{safs_readdir}
use safs.Safs.Listing.Calm.{listing, HasInodes, safs_readdir_lem}
use safs.Safs.Rules.{Rules, EveryEntry}
use safs.Safs.Rules.Named.{safs_rename-Keeps, safs_link-Keeps, safs_unlink-Keeps}
use safs.Safs.Rules.Held.{
  safs_getattr-Keeps, safs_chmod-Keeps, safs_utimens-Keeps, safs_open-Keeps, safs_read-Keeps,
  safs_write-Keeps, safs_ftruncate-Keeps, safs_readdir-Keeps,
}
use safs.Safs.Server.{
  Request, getattr, readdir, open_file, read, write, mknod, setxattr, chmod, chown, utimens,
  truncate, ftruncate, unlink, link, rename, safs_oper, serve,
}
use safs.Safs.Stored.Calls.{IsStored-Rules}
use safs.Safs.Stored.{IsPlain, IsStored, Holds, AreStored, AreStored-Holds, inodes_of}
use safs.Safs.Stored.Mknod.{safs_mknod-AreStored}

-- A request that gives no file the name of a table.
abbrev pub IsAllowed : Request → Type 0
IsAllowed (mknod path mode) = IsPlain (rest path)
IsAllowed (link path1 path2) = IsPlain (rest path2)
IsAllowed (rename oldname newname) = IsPlain (rest newname)
IsAllowed request = Unit

abbrev pub AreAllowed : List Request → Type 0
AreAllowed [] = Unit
AreAllowed (request ∷ requests) = IsAllowed request × AreAllowed requests

module _ (env : Env) where
  rules :
      (w : World)
      → Rules env (Holds (length (inodes_of w))) (IsStored (length (inodes_of w))) IsPlain
  rules w = IsStored-Rules (length (inodes_of w)) env

  after :
      {A : Type 0} {m : Cmd A} (w : World)
      → Keeps (Holds (length (inodes_of w))) Anything m
      → AreStored w
      → AreStored (m w).1
  after w keeps u = AreStored-Holds _ _ (keeps.at w u).0

  safs_oper-AreStored :
      (request : Request) (w : World)
      → IsAllowed request
      → AreStored w
      → AreStored (safs_oper env request w).1
  unfolding safs_oper ◌>>=◌ safs_chown safs_setattr safs_truncate
  safs_oper-AreStored (getattr path st) w ok u = after w (safs_getattr-Keeps (rules w) path st) u
  safs_oper-AreStored (readdir path) w ok u = after w (safs_readdir-Keeps (rules w) path) u
  safs_oper-AreStored (open_file path flags) w ok u =
      after w (safs_open-Keeps (rules w) path flags) u
  safs_oper-AreStored (read path size offset) w ok u =
      after w (safs_read-Keeps (rules w) path size offset) u
  safs_oper-AreStored (write path buf size offset) w ok u =
      after w (safs_write-Keeps (rules w) path buf size offset) u
  safs_oper-AreStored (mknod path mode) w ok u = (safs_mknod-AreStored env _ path mode ok).at w u
  safs_oper-AreStored (setxattr path name value size flag) w ok u = u
  safs_oper-AreStored (chmod path mode) w ok u = after w (safs_chmod-Keeps (rules w) path mode) u
  safs_oper-AreStored (chown path uid gid) w ok u = u
  safs_oper-AreStored (utimens path s t) w ok u = after w (safs_utimens-Keeps (rules w) path s t) u
  safs_oper-AreStored (truncate path off) w ok u =
      after w (safs_ftruncate-Keeps (rules w) path off) u
  safs_oper-AreStored (ftruncate path off) w ok u =
      after w (safs_ftruncate-Keeps (rules w) path off) u
  safs_oper-AreStored (unlink path) w ok u = after w (safs_unlink-Keeps (rules w) path) u
  safs_oper-AreStored (link path1 path2) w ok u =
      after w (safs_link-Keeps (rules w) path1 path2 ok) u
  safs_oper-AreStored (rename oldname newname) w ok u =
      after w (safs_rename-Keeps (rules w) oldname newname ok) u

  -- Through any sequence of requests that give no file the name of a table, whichever of their
  -- system calls fail, where `outside` is not set at the end, so that no name overflowed its
  -- array and no table was opened as a data file: if at first every entry in use, in Directory~
  -- and .Directory~, has its inode in Inodes~, and no entry has the name of a table, then so it
  -- is at the end.
  pub serve-AreStored :
      (requests : List Request) (w : World)
      → (serve env requests w).outside ≡ false
      → AreAllowed requests
      → AreStored w
      → AreStored (serve env requests w)
  unfolding serve
  serve-AreStored [] w inside ok u = u
  serve-AreStored (request ∷ requests) w inside (ok, others) u =
      serve-AreStored requests _ inside others (safs_oper-AreStored request w ok u)

get_elem?_below :
    (is : List Stat) (i : ℕ) → i < length is → (st : Stat) × (get_elem? is i ≡ some st)
get_elem?_below [] i below = ground arith
get_elem?_below (st ∷ is) zero below = (st, refl)
get_elem?_below (st ∷ is) (suc i) below = get_elem?_below is i (omega arith)

has_inode :
    (is : List Stat) (d : Dentry)
    → IsStored (length is) d
    → ((d.inum == 0) ≡ true) ⊎ ((st : Stat) × (get_elem? is d.inum ≡ some st))
has_inode is d (inl unused, plain) = inl (ground (arith, unused))
has_inode is d (inr below, plain) = inr (get_elem?_below is d.inum below)

HasInodes-stored :
    (is : List Stat) (ds : List Dentry) → EveryEntry (IsStored (length is)) ds → HasInodes is ds
HasInodes-stored is [] every = tt
HasInodes-stored is (d ∷ ds) (held, every) = (has_inode is d held, HasInodes-stored is ds every)

module _ (env : Env) (requests : List Request) (w : World) (dirs : List Dentry)
    (is : List Stat) where
  -- After any sequence of requests that give no file the name of a table, whichever of their
  -- system calls fail, where `outside` is not set at its end, so that no name overflowed its
  -- array and no table was opened as a data file, on a disk where at first every entry in use,
  -- in Directory~ and .Directory~, has its inode and no entry has the name of a table: if both
  -- tables are there then, a listing of the root in which no call fails gives "." and "..", and
  -- then exactly the entries in use, in order, each with the attributes of its inode, and it
  -- changes nothing on the disk.
  pub safs_readdir-serve :
      (serve env requests w).outside ≡ false
      → AreAllowed requests
      → AreStored w
      → (serve env requests w).disk.directory ≡ some dirs
      → (serve env requests w).disk.inodes ≡ some is
      → let (reply, v) = safs_readdir (calm env) (codes "/") (serve env requests w) in
        (reply ≡ (pos 0, (codes ".", none) ∷ (codes "..", none) ∷ listing is dirs))
        × (v.disk ≡ (serve env requests w).disk)
  safs_readdir-serve inside ok u listed table =
      let v = serve env requests w in
      let held : AreStored v = serve-AreStored env requests w inside ok u in
      let stored : EveryEntry (IsStored (length is)) dirs =
        subst (λ o. EveryEntry (IsStored (length (list_of o))) dirs) table
          (subst (λ o. EveryEntry (IsStored (length (inodes_of v))) (list_of o)) listed
            held.listed) in
      safs_readdir_lem env is v dirs listed table (HasInodes-stored is dirs stored)
