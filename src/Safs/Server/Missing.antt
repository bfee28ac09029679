-- ===== src/Safs/Server/Missing.antt =====
-- Requests while there is no Directory~, as after an unlink that failed between its rename and its
-- open of the new table.
use safs.Base.{
  ◌≡◌, ◌∙◌, refl, arith, Bool, Bool-cases, inl, inr, true, false, not, none, List, [], ◌∷◌, codes,
  same_name, neg, bit_and, ◌==◌,
}
use safs.Posix.{Env, World}
use safs.Posix.Syscalls.{syscalls}
use safs.Posix.Errno.{eio, s_ifmt, s_ifreg}
use safs.Safs.Attributes.{safs_getattr, safs_chmod, safs_chown, safs_setattr, safs_utimens}
use safs.Safs.Contents.{safs_open, safs_read, safs_write, safs_ftruncate, safs_truncate}
use safs.Safs.Listing.{safs_readdir}
use safs.Safs.Names.{safs_mknod, safs_link, safs_rename, safs_unlink}
use safs.Safs.Server.{
  Request, getattr, readdir, open_file, read, write, mknod, setxattr, chmod, chown, utimens,
  truncate, ftruncate, unlink, link, rename, safs_oper, serve,
}

-- Whether the handler of a request opens Directory~ before anything else.
abbrev pub opens_directory : Request → Bool
opens_directory (getattr path st) = not (same_name path (codes "/"))
opens_directory (readdir path) = same_name path (codes "/")
opens_directory (mknod path mode) = bit_and mode s_ifmt == s_ifreg
opens_directory (setxattr path name value size flag) = false
opens_directory (chown path uid gid) = false
opens_directory (unlink path) = false
opens_directory r = true

module _ (env : Env) (w : World) (missing : w.disk.directory ≡ none) where
  safs_oper_missing :
      (r : Request)
      → opens_directory r ≡ true
      → ((safs_oper env r w).0 ≡ neg eio) × ((safs_oper env r w).1.disk ≡ w.disk)
  unfolding safs_oper safs_getattr safs_readdir safs_open safs_read safs_write safs_mknod safs_chmod
      safs_utimens safs_truncate safs_ftruncate safs_link safs_rename syscalls
  safs_oper_missing (getattr path st) opens = ground (arith, missing, opens)
  safs_oper_missing (readdir path) opens = ground (arith, missing, opens)
  safs_oper_missing (open_file path flags) opens = ground (arith, missing)
  safs_oper_missing (read path size offset) opens = ground (arith, missing)
  safs_oper_missing (write path buf size offset) opens = ground (arith, missing)
  safs_oper_missing (mknod path mode) opens = ground (arith, missing, opens)
  safs_oper_missing (chmod path mode) opens = ground (arith, missing)
  safs_oper_missing (utimens path s t) opens = ground (arith, missing)
  safs_oper_missing (truncate path off) opens = ground (arith, missing)
  safs_oper_missing (ftruncate path off) opens = ground (arith, missing)
  safs_oper_missing (link path1 path2) opens = ground (arith, missing)
  safs_oper_missing (rename oldname newname) opens = ground (arith, missing)
  safs_oper_missing (setxattr path name value size flag) opens = cc opens
  safs_oper_missing (chown path uid gid) opens = cc opens
  safs_oper_missing (unlink path) opens = cc opens

  at_rest : (r : Request) → opens_directory r ≡ false → (safs_oper env r w).1.disk ≡ w.disk
  unfolding safs_oper safs_getattr safs_readdir safs_mknod safs_setattr safs_chown safs_unlink
      syscalls
  at_rest (getattr path st) closed = ground (arith, missing, closed)
  at_rest (readdir path) closed = ground (arith, missing, closed)
  at_rest (mknod path mode) closed = ground (arith, missing, closed)
  at_rest (setxattr path name value size flag) closed = refl
  at_rest (chown path uid gid) closed = refl
  at_rest (unlink path) closed = ground (arith, missing)
  at_rest (open_file path flags) closed = cc closed
  at_rest (read path size offset) closed = cc closed
  at_rest (write path buf size offset) closed = cc closed
  at_rest (chmod path mode) closed = cc closed
  at_rest (utimens path s t) closed = cc closed
  at_rest (truncate path off) closed = cc closed
  at_rest (ftruncate path off) closed = cc closed
  at_rest (link path1 path2) closed = cc closed
  at_rest (rename oldname newname) closed = cc closed

  safs_oper-disk : (r : Request) → (safs_oper env r w).1.disk ≡ w.disk
  safs_oper-disk r = elim (Bool-cases (opens_directory r)) [
    | inl opens ↦ (safs_oper_missing r opens).1
    | inr closed ↦ at_rest r closed
  ]

module _ (env : Env) where
  serve-disk :
      (requests : List Request) (w : World)
      → w.disk.directory ≡ none
      → (serve env requests w).disk ≡ w.disk
  unfolding serve
  serve-disk [] w missing = refl
  serve-disk (r ∷ rs) w missing =
      let still = safs_oper-disk env w missing r in
      serve-disk rs (safs_oper env r w).1 (cc (still, missing)) ∙ still

  -- While there is no Directory~, whichever system calls fail, any sequence of requests leaves
  -- the disk as it is, and a request after it that opens Directory~ before anything else is
  -- refused with -EIO, and leaves the disk as it is too: getattr below the root, readdir of the
  -- root, mknod of a regular file, open, read, write, chmod, utimens, truncate, ftruncate, link
  -- and rename.
  pub serve_missing :
      (requests : List Request) (r : Request) (w : World)
      → w.disk.directory ≡ none
      → opens_directory r ≡ true
      → ((serve env requests w).disk ≡ w.disk)
        × ((safs_oper env r (serve env requests w)).0 ≡ neg eio)
        × ((safs_oper env r (serve env requests w)).1.disk ≡ w.disk)
  serve_missing requests r w missing opens =
      let still = serve-disk requests w missing in
      let refused = safs_oper_missing env (serve env requests w) (cc (still, missing)) r opens in
      (still, refused.0, refused.1 ∙ still)
