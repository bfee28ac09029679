-- ===== src/Safs/Spec/Handlers.antt =====
-- The handlers of the requests that change no name, but for the listing, as steps of the
-- specification.
use safs.Base.{
  ℕ, ◌≡◌, inl, inr, refl, ap, arith, false, Bool-cases, List, pos, neg, ℤ, off_lt, ◌==◌, Name,
  codes, same_name, bit_and,
}
use safs.Disk.{Stat, Timespec}
use safs.Posix.{Env, World, calm, ◌>>=◌}
use safs.Posix.Syscalls.{syscalls}
use safs.Posix.Errno.{eperm, o_trunc}
use safs.Safs.Attributes.{safs_getattr}
use safs.Safs.Attributes.Calm.{safs_chmod-calm, safs_utimens-calm}
use safs.Safs.Contents.{safs_truncate}
use safs.Safs.Contents.Calm.{safs_write-calm, safs_read-calm}
use safs.Safs.Contents.Checks.{refuses, safs_open-calm}
use safs.Safs.Contents.Resize.{safs_ftruncate_shrinks, safs_ftruncate_extends}
use safs.Safs.Inode.Calm.{read_inode-calm}
use safs.Safs.Named.{searched, find_loop-named}
use safs.Safs.Server.{
  getattr, open_file, read, write, chmod, utimens, truncate, ftruncate, safs_oper,
}
use safs.Safs.Spec.{view}
use safs.Safs.Spec.Step.{
  shown_root, shown, chmod_step, utimens_step, open_refused, opened, read_step, write_step, resized,
  extended, truncated,
}
use safs.Safs.Spec.View.{IsSound, Known, Known-cases}
use safs.Safs.Spec.Outcome.{IsStep, lost, wrote_inode, wrote_both, stayed}

module _ (env : Env) (w : World) (path : Name) where
  -- getattr changes nothing on a disk that has both tables.
  safs_getattr-stays :
      (k : Known env w.disk path) (metadata : Stat)
      → same_name path (codes "/") ≡ false
      → ((safs_getattr (calm env) path metadata w).0.0 ≡ pos 0)
        × ((safs_getattr (calm env) path metadata w).1.disk ≡ w.disk)
  unfolding safs_getattr syscalls
  safs_getattr-stays k metadata below =
      let f = k.named in
      ground (
        arith,
        f.has_directory,
        find_loop-named env path w f,
        read_inode-calm env k.dir.inum metadata (searched env path w f) f.inodes f.has_inodes k.st
            f.inode,
      )

module _ (env : Env) (w : World) (sound : IsSound env w.disk) (path : Name) where
  pub chmod-IsStep :
      (mode : ℕ) → IsStep env (chmod path mode) w.disk (safs_oper (calm env) (chmod path mode) w)
  unfolding safs_oper
  chmod-IsStep mode = elim (Known-cases env w.disk path sound) [
    | inl free ↦ lost env w sound (chmod path mode) path refl free
    | inr k ↦
        let (e, d) = safs_chmod-calm env path w k.named mode in
        wrote_inode env w sound (chmod path mode) path k _ _ e d (chmod_step k.names)
  ]

  pub utimens-IsStep :
      (t u : Timespec)
      → IsStep env (utimens path t u) w.disk (safs_oper (calm env) (utimens path t u) w)
  unfolding safs_oper
  utimens-IsStep t u = elim (Known-cases env w.disk path sound) [
    | inl free ↦ lost env w sound (utimens path t u) path refl free
    | inr k ↦
        let (e, d) = safs_utimens-calm env path w k.named t u in
        wrote_inode env w sound (utimens path t u) path k _ _ e d (utimens_step k.names)
  ]

  pub read-IsStep :
      (size offset : ℕ)
      → IsStep env (read path size offset) w.disk (safs_oper (calm env) (read path size offset) w)
  unfolding safs_oper ◌>>=◌
  read-IsStep size offset = elim (Known-cases env w.disk path sound) [
    | inl free ↦ lost env w sound (read path size offset) path refl free
    | inr k ↦
        let (e, d) = safs_read-calm env path w k.named k.held k.plain k.stored size offset in
        wrote_inode env w sound (read path size offset) path k _ _ (ap (λ (x : ℤ × List ℕ). x.0) e)
          d (read_step _ k.names)
  ]

  pub write-IsStep :
      (buf : List ℕ) (size offset : ℕ)
      → IsStep env
          (write path buf size offset)
          w.disk
          (safs_oper (calm env) (write path buf size offset) w)
  unfolding safs_oper
  write-IsStep buf size offset = elim (Known-cases env w.disk path sound) [
    | inl free ↦ lost env w sound (write path buf size offset) path refl free
    | inr k ↦
        let (e, d) = safs_write-calm env path w k.named k.held k.plain k.stored buf size offset in
        wrote_both env w sound (write path buf size offset) path k _ _ _ e d
          (write_step _ _ k.names)
  ]

  pub getattr-IsStep :
      (metadata : Stat)
      → IsStep env (getattr path metadata) w.disk (safs_oper (calm env) (getattr path metadata) w)
  unfolding safs_oper ◌>>=◌ safs_getattr
  getattr-IsStep metadata = elim (Bool-cases (same_name path (codes "/"))) [
    | inl root ↦
        stayed env w sound (getattr path metadata) _ (ground (arith, root)) (ground (arith, root))
          (shown_root root)
    | inr below ↦ elim (Known-cases env w.disk path sound) [
      | inl free ↦ lost env w sound (getattr path metadata) path (ground (arith, below)) free
      | inr k ↦
          let (e, d) = safs_getattr-stays env w path k metadata below in
          stayed env w sound (getattr path metadata) _ e d (shown k.names)
    ]
  ]

  pub open-IsStep :
      (flags : ℕ)
      → IsStep env (open_file path flags) w.disk (safs_oper (calm env) (open_file path flags) w)
  unfolding safs_oper
  open-IsStep flags = elim (Known-cases env w.disk path sound) [
    | inl free ↦ lost env w sound (open_file path flags) path refl free
    | inr k ↦
        let (e, d) = safs_open-calm env path w k.named flags in
        elim (Bool-cases (refuses flags k.st)) [
          | inl bad ↦
              stayed env w sound (open_file path flags) (neg eperm) (rw bad at e) (rw bad at d)
                (open_refused k.names bad)
          | inr fine ↦
              let step = opened {a = view w.disk} {path = path} {flags = flags} k.names fine in
              elim (Bool-cases (bit_and flags o_trunc == 0)) [
                | inl keep ↦
                    stayed env w sound (open_file path flags) (pos 0) (rw fine at e)
                      (rw (fine, keep) at d) (rw keep at step)
                | inr cut ↦
                    wrote_inode env w sound (open_file path flags) path k (pos 0) _ (rw fine at e)
                      (rw (fine, cut) at d) (rw cut at step)
              ]
        ]
  ]

  pub ftruncate-IsStep :
      (off : ℕ)
      → IsStep env (ftruncate path off) w.disk (safs_oper (calm env) (ftruncate path off) w)
  unfolding safs_oper
  ftruncate-IsStep off = elim (Known-cases env w.disk path sound) [
    | inl free ↦ lost env w sound (ftruncate path off) path refl free
    | inr k ↦ elim (Bool-cases (off_lt k.st.st_size off)) [
      | inl short ↦
          let (e, d) =
            safs_ftruncate_extends env path w k.named off k.held k.plain k.stored short in
          wrote_both env w sound (ftruncate path off) path k _ _ _ e d (extended k.names short)
      | inr long ↦
          let (e, d) = safs_ftruncate_shrinks env path w k.named off long in
          let step = resized {a = view w.disk} {path = path} {off = off} k.names long in
          elim (Bool-cases (k.st.st_size == off)) [
            | inl same ↦
                stayed env w sound (ftruncate path off) _ e (rw same at d) (rw same at step)
            | inr other ↦
                wrote_inode env w sound (ftruncate path off) path k _ _ e (rw other at d)
                  (rw other at step)
          ]
    ]
  ]

  pub truncate-IsStep :
      (off : ℕ) → IsStep env (truncate path off) w.disk (safs_oper (calm env) (truncate path off) w)
  unfolding safs_oper safs_truncate
  truncate-IsStep off = let (step, kept) = ftruncate-IsStep off in (truncated step, kept)
