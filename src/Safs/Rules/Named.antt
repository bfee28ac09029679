-- ===== src/Safs/Rules/Named.antt =====
-- Invariants through the handlers that change names, but safs_mknod.
use mathlib.Core.Path.{subst}
use safs.Base.{
  ℕ, ◌+◌, sym, not, true, false, ◌||◌, ◌==◌, codes, List, [], ◌∷◌, Name, rest, same_name,
}
use safs.Disk.{Dentry, Stat}
use safs.Posix.{Env, World}
use safs.Posix.Tables.{live, temporary}
use safs.Posix.Keeps.{
  Keeps, Anything, Keeps-pure, Keeps-bind, Keeps-then, Keeps-if, Keeps-elim_Bool, Keeps-elim_Option,
}
use safs.Safs.Names.{
  safs_rename, free_loop, add_link, safs_link, unlink_loop, safs_unlink, return_errno,
}
use safs.Safs.Rules.{Rules, EveryEntry, search-Keeps, done-Keeps}

module _ {env : Env} {P : World → Type 0} {E : Dentry → Type 0} {N : Name → Type 0}
    (r : Rules env P E N) where
  pub safs_rename-Keeps :
      (oldname newname : Name)
      → N (rest newname)
      → Keeps P Anything (safs_rename env oldname newname)
  unfolding safs_rename
  safs_rename-Keeps oldname newname allowed =
      search-Keeps r _ _ (done-Keeps r _) λ dirs (i, d) held'.
        Keeps-bind (r.of_strcpy_name (rest newname)) λ name e. Keeps-bind r.of_lseek λ sought _.
          Keeps-bind
            (r.of_write_dentry live _ _ (r.entry d name d.storage held' (subst N (sym e) allowed)))
            λ written _. done-Keeps r _

  free_loop-Keeps :
      (dirs : List Dentry) (dir : Dentry) (index : ℕ)
      → Keeps P Anything (free_loop env dirs dir index)
  unfolding free_loop
  free_loop-Keeps [] dir index = Keeps-then r.of_read_next (Keeps-pure tt)
  free_loop-Keeps (next ∷ dirs) dir index = Keeps-bind r.of_read_next λ got _.
      let later = free_loop-Keeps dirs next (index + 1) in
      let dot = same_name next.name (codes ".") || same_name next.name (codes "..") in
      Keeps-elim_Bool got (Keeps-if dot later (Keeps-if (next.inum == 0) (Keeps-pure tt) later))
        (Keeps-pure tt)

  add_link-Keeps :
      (index : ℕ) (new_dir : Dentry) (inum : ℕ)
      → E new_dir
      → Keeps P Anything (add_link env index new_dir inum)
  unfolding add_link
  add_link-Keeps index new_dir inum held = Keeps-bind r.of_lseek λ sought _.
      Keeps-if (not sought) (done-Keeps r _) (
        Keeps-bind (r.of_write_dentry live index new_dir held) λ written _.
          Keeps-if (not written) (done-Keeps r _) (
            Keeps-bind (r.of_read_inode inum _)
              λ (rtn, st) _. Keeps-bind (r.of_write_inode inum _) λ rtn' _. done-Keeps r _))

  pub safs_link-Keeps :
      (path1 path2 : Name) → N (rest path2) → Keeps P Anything (safs_link env path1 path2)
  unfolding safs_link
  safs_link-Keeps path1 path2 allowed = search-Keeps r _ _ (done-Keeps r _) λ dirs (i, d) held'.
      Keeps-bind (r.of_strcpy_name (rest path2)) λ name e.
        Keeps-bind (r.of_strcpy_name d.storage) λ storage _. Keeps-bind r.of_lseek λ rewound _.
          Keeps-bind (free_loop-Keeps _ d 0) λ (index, dir') _.
            add_link-Keeps index _ _ (r.entry d name storage held' (subst N (sym e) allowed))

  return_errno-Keeps : Keeps P Anything return_errno
  unfolding return_errno
  return_errno-Keeps = Keeps-bind r.of_get_errno λ e _. Keeps-pure tt

  unlink_loop-Keeps :
      (name : Name) (dirs : List Dentry) (metadata : Stat) (slot : ℕ)
      → EveryEntry E dirs
      → Keeps P Anything (unlink_loop env name dirs metadata slot)
  unfolding unlink_loop
  unlink_loop-Keeps name [] metadata slot every = Keeps-then r.of_read_next (Keeps-pure tt)
  unlink_loop-Keeps name (d ∷ ds) metadata slot every =
      let stop = Keeps-then r.of_close return_errno-Keeps in
      Keeps-bind r.of_read_next λ got _. Keeps-if (not got) (Keeps-pure tt) (
        Keeps-if (same_name d.name []) (unlink_loop-Keeps name ds metadata slot every.1) (
          Keeps-if (same_name name d.name)
            (Keeps-bind (r.of_read_inode d.inum metadata) λ (rtn, st) _.
              Keeps-bind (r.of_write_inode d.inum _) λ rtn' _.
                Keeps-bind (r.of_full_path d.name) λ file_path e.
                  Keeps-bind (r.of_unlink_file file_path (subst N (sym e) (r.entry_name d every.0)))
                    λ removed _.
                      Keeps-if (not removed) return_errno-Keeps
                        (unlink_loop-Keeps name ds _ slot every.1))
            (Keeps-bind r.of_lseek λ sought _. Keeps-if (not sought) stop (
              Keeps-bind (r.of_write_dentry live slot d every.0) λ written _.
                Keeps-if (not written) stop
                  (unlink_loop-Keeps name ds metadata (slot + 1) every.1)))))

  pub safs_unlink-Keeps : (path : Name) → Keeps P Anything (safs_unlink env path)
  unfolding safs_unlink
  safs_unlink-Keeps path =
      let failed = r.of_errno_result in
      Keeps-bind r.of_rename_directory λ renamed _. Keeps-if (not renamed) failed (
        Keeps-bind (r.of_open_table temporary false) λ fd _. Keeps-if (not fd) failed (
          Keeps-bind (r.of_open_table live true) λ fd' _. Keeps-if (not fd') failed (
            Keeps-bind (r.of_contents temporary) λ dirs every.
              Keeps-bind (unlink_loop-Keeps (rest path) dirs env.junk 2 every) λ early _.
                Keeps-elim_Option Anything early tt
                  (Keeps-then r.of_close (
                    Keeps-then r.of_close (
                      Keeps-bind r.of_unlink_temporary
                        λ removed _. Keeps-if removed (Keeps-pure tt) failed)))
                  (λ result _. Keeps-pure tt))))
