-- ===== src/Safs/Server/Inside.antt =====
-- The mark of the runs that leave the model, through any sequence of requests.
use safs.Base.{
  ℕ, zero, suc, ◌+◌, ◌≡◌, inl, inr, refl, arith, Bool-cases, true, false, List, [], ◌∷◌, Name, pos,
  negsuc, ℤ, rest,
}
use safs.Disk.{Dentry, Stat}
use safs.Posix.{Env, World, Cmd, ◌>>=◌}
use safs.Posix.Tables.{contents}
use safs.Posix.Data.{full_path, truncated}
use safs.Posix.Keeps.{Keeps, Anything}
use safs.Posix.Syscalls.{syscalls}
use safs.Safs.Attributes.{safs_chown, safs_setattr}
use safs.Safs.Contents.{safs_truncate}
use safs.Safs.Inode.{read_inode, write_inode}
use safs.Safs.Names.{
  add_entry, add_unless, get_inode_number, next_inode_number, make_node, create_node, safs_mknod,
}
use safs.Safs.Rules.{Rules, EveryEntry}
use safs.Safs.Rules.Named.{safs_rename-Keeps, safs_link-Keeps, safs_unlink-Keeps}
use safs.Safs.Rules.Held.{
  safs_getattr-Keeps, safs_chmod-Keeps, safs_utimens-Keeps, safs_open-Keeps, safs_read-Keeps,
  safs_write-Keeps, safs_ftruncate-Keeps, safs_readdir-Keeps,
}
use safs.Safs.Server.{
  Request, getattr, readdir, open_file, read, write, mknod, setxattr, chmod, chown, utimens,
  truncate, ftruncate, unlink, link, rename, safs_oper, serve,
}

abbrev IsOutside : World → Type 0
IsOutside w = w.outside ≡ true

every : (ds : List Dentry) → EveryEntry (λ d. Unit {0}) ds
every [] = tt
every (d ∷ ds) = (tt, every ds)

module _ (env : Env) where
  stays :
      {A : Type 0} {m : Cmd A}
      → ((w : World) → IsOutside w → IsOutside (m w).1)
      → Keeps IsOutside Anything m
  stays still = record { at = λ w out. (still w out, tt) }

  IsOutside-Rules : Rules env IsOutside (λ d. Unit {0}) (λ name. Unit {0})
  unfolding read_inode write_inode syscalls
  IsOutside-Rules = record {
    entry_name = λ d held. tt;
    entry = λ d name storage held allowed. tt;
    of_contents = λ t. record { at = λ w out. (out, every (contents t w).0) };
    of_write_dentry = λ t i d held. stays (λ w out. ground (arith, out));
    of_close = stays (λ w out. ground (arith, out));
    of_lseek = stays (λ w out. ground (arith, out));
    of_read_next = stays (λ w out. ground (arith, out));
    of_open_table = λ t creat. stays (λ w out. ground (arith, out));
    of_strcpy_name = λ s. record { at = λ w out. (ground (arith, out), refl) };
    of_full_path = λ s. record { at = λ w out. (ground (arith, out), refl) };
    of_clock_gettime = stays (λ w out. ground (arith, out));
    of_errno_result = stays (λ w out. out);
    of_get_errno = stays (λ w out. out);
    of_mark_outside = λ b. stays (λ w out. ground (arith, out));
    of_open_data = λ s. stays (λ w out. ground (arith, out));
    of_read_data = λ s offset size. stays (λ w out. ground (arith, out));
    of_write_data = λ s offset bytes. stays (λ w out. ground (arith, out));
    of_unlink_file = λ s allowed. stays (λ w out. ground (arith, out));
    of_unlink_temporary = stays (λ w out. ground (arith, out));
    of_rename_directory = stays (λ w out. ground (arith, out));
    of_read_inode = λ i st. stays (λ w out. ground (arith, out));
    of_write_inode = λ i st. stays (λ w out. ground (arith, out));
  }

  add_unless-IsOutside :
      (rtn : ℤ) (number : ℕ) (d : Dentry) (w : World)
      → IsOutside w
      → IsOutside (add_unless env rtn number d w).1
  unfolding add_unless add_entry next_inode_number syscalls
  add_unless-IsOutside (negsuc n) number d w out = ground (arith, out)
  add_unless-IsOutside (pos (suc n)) number d w out = ground (arith, out)
  add_unless-IsOutside (pos zero) number d w out = ground (arith, out)

  write_inode-IsOutside :
      (i : ℕ) (st : Stat) (w : World) → IsOutside w → IsOutside (write_inode env i st w).1
  write_inode-IsOutside i st w out = ((IsOutside-Rules.of_write_inode i st).at w out).0

  make_node-IsOutside :
      (name : Name) (mode : ℕ) (w : World) → IsOutside w → IsOutside (make_node env name mode w).1
  unfolding make_node get_inode_number syscalls
  make_node-IsOutside name mode w out =
      add_unless-IsOutside _ _ _ _ (write_inode-IsOutside _ _ _ (ground (arith, out)))

  create_node-IsOutside :
      (name : Name) (mode : ℕ) (w : World) → IsOutside w → IsOutside (create_node env name mode w).1
  unfolding create_node syscalls
  create_node-IsOutside name mode w out =
      let u : World = (full_path name w).1 in
      let v : World = record u {
        disk = truncated name u.disk;
        fds = u.fds + 1;
        calls = u.calls + 1;
      } in
      let marked : IsOutside v = ground (arith, out) in
      ground (arith, out, make_node-IsOutside name mode v marked)

  safs_mknod-IsOutside :
      (path : Name) (mode : ℕ) (w : World) → IsOutside w → IsOutside (safs_mknod env path mode w).1
  unfolding safs_mknod syscalls
  safs_mknod-IsOutside path mode w out =
      let v : World = record w { fds = w.fds + 1; calls = w.calls + 1 } in
      ground (arith, out, create_node-IsOutside (rest path) mode v out)

  safs_oper-IsOutside : (r : Request) (w : World) → IsOutside w → IsOutside (safs_oper env r w).1
  unfolding safs_oper ◌>>=◌ safs_chown safs_setattr safs_truncate
  safs_oper-IsOutside (getattr path st) w u =
      ((safs_getattr-Keeps IsOutside-Rules path st).at w u).0
  safs_oper-IsOutside (readdir path) w u = ((safs_readdir-Keeps IsOutside-Rules path).at w u).0
  safs_oper-IsOutside (open_file path flags) w u =
      ((safs_open-Keeps IsOutside-Rules path flags).at w u).0
  safs_oper-IsOutside (read path size offset) w u =
      ((safs_read-Keeps IsOutside-Rules path size offset).at w u).0
  safs_oper-IsOutside (write path buf size offset) w u =
      ((safs_write-Keeps IsOutside-Rules path buf size offset).at w u).0
  safs_oper-IsOutside (mknod path mode) w u = safs_mknod-IsOutside path mode w u
  safs_oper-IsOutside (setxattr path name value size flag) w u = u
  safs_oper-IsOutside (chmod path mode) w u =
      ((safs_chmod-Keeps IsOutside-Rules path mode).at w u).0
  safs_oper-IsOutside (chown path uid gid) w u = u
  safs_oper-IsOutside (utimens path s t) w u =
      ((safs_utimens-Keeps IsOutside-Rules path s t).at w u).0
  safs_oper-IsOutside (truncate path off) w u =
      ((safs_ftruncate-Keeps IsOutside-Rules path off).at w u).0
  safs_oper-IsOutside (ftruncate path off) w u =
      ((safs_ftruncate-Keeps IsOutside-Rules path off).at w u).0
  safs_oper-IsOutside (unlink path) w u = ((safs_unlink-Keeps IsOutside-Rules path).at w u).0
  safs_oper-IsOutside (link path1 path2) w u =
      ((safs_link-Keeps IsOutside-Rules path1 path2 tt).at w u).0
  safs_oper-IsOutside (rename oldname newname) w u =
      ((safs_rename-Keeps IsOutside-Rules oldname newname tt).at w u).0

  -- A request never takes the mark back: where it is not set after a request, it was not before.
  safs_oper_inside :
      (r : Request) (w : World) → (safs_oper env r w).1.outside ≡ false → w.outside ≡ false
  safs_oper_inside r w inside = elim (Bool-cases w.outside) [
    | inl out ↦ cc (safs_oper-IsOutside r w out, inside)
    | inr e ↦ e
  ]

  -- Where the mark is not set after a sequence of requests, no part of it has left the model.
  pub serve_inside :
      (before after : List Request) (w : World)
      → (serve env after (serve env before w)).outside ≡ false
      → (serve env before w).outside ≡ false
  unfolding serve
  serve_inside before [] w inside = inside
  serve_inside before (r ∷ rs) w inside =
      safs_oper_inside r (serve env before w)
        (serve_inside [] rs (safs_oper env r (serve env before w)).1 inside)
