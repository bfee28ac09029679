-- ===== src/Safs/Start/Calm.antt =====
-- safs_init where no system call fails.
use mathlib.Core.Path.{subst}
use safs.Base.{
  ℕ, ◌+◌, ◌≤◌, ◌≡◌, ◌⊎◌, inl, inr, refl, sym, leb, ◌^◌, ◌||◌, Bool-cases, true, false, some, List,
  [], ◌∷◌, arith, pos, ltb, if◌then◌else◌,
}
use safs.Disk.{Dentry}
use safs.Posix.{Env, World, calm, list_of}
use safs.Posix.Syscalls.{syscalls}
use safs.Safs.Numbers.{Below}
use safs.Safs.Start.{raise_number, number_loop, safs_init}

-- The highest number of the entries, or `n` if none is higher.
unfoldable pub highest : List Dentry → ℕ → ℕ
highest [] n = n
highest (d ∷ ds) n = highest ds (if ltb n d.inum then d.inum else n)

abbrev pub Lists : ℕ → List Dentry → Type 0
Lists n [] = ⊥
Lists n (d ∷ ds) = (d.inum ≡ n) ⊎ Lists n ds

highest_le : (dirs : List Dentry) (n : ℕ) → n ≤ highest dirs n
unfolding highest
highest_le [] n = omega arith
highest_le (d ∷ ds) n = ground (arith, highest_le ds d.inum, highest_le ds n)

Below-mono : (a b : ℕ) (ds : List Dentry) → a ≤ b → Below a ds → Below b ds
Below-mono a b [] le below = tt
Below-mono a b (d ∷ ds) le (here, below) = (omega arith, Below-mono a b ds le below)

highest_nil : (n : ℕ) → highest [] n ≡ n
unfolding highest
highest_nil n = refl

highest_above :
    (d : Dentry) (ds : List Dentry) (n : ℕ)
    → ltb n d.inum ≡ true
    → highest (d ∷ ds) n ≡ highest ds d.inum
unfolding highest
highest_above d ds n above = rw above

highest_under :
    (d : Dentry) (ds : List Dentry) (n : ℕ)
    → ltb n d.inum ≡ false
    → highest (d ∷ ds) n ≡ highest ds n
unfolding highest
highest_under d ds n under = rw under

-- No entry has a higher number than the result.
highest-Below : (dirs : List Dentry) (n : ℕ) → Below (highest dirs n + 1) dirs
highest-Below [] n = tt
highest-Below (d ∷ ds) n = elim (Bool-cases (ltb n d.inum)) [
  | inl above ↦
      subst (λ k. Below (k + 1) (d ∷ ds)) (sym (highest_above d ds n above))
        (ground (arith, highest_le ds d.inum), highest-Below ds d.inum)
  | inr under ↦
      subst (λ k. Below (k + 1) (d ∷ ds)) (sym (highest_under d ds n under))
        (ground (arith, highest_le ds n, under), highest-Below ds n)
]

-- The result is `n` or some entry's number.
highest-Lists : (dirs : List Dentry) (n : ℕ) → (highest dirs n ≡ n) ⊎ Lists (highest dirs n) dirs
highest-Lists [] n = inl (highest_nil n)
highest-Lists (d ∷ ds) n = elim (Bool-cases (ltb n d.inum)) [
  | inl above ↦
      subst (λ k. (k ≡ n) ⊎ Lists k (d ∷ ds)) (sym (highest_above d ds n above))
        (inr (elim (highest-Lists ds d.inum) [ inl e ↦ inl (sym e) | inr later ↦ inr later ]))
  | inr under ↦
      subst (λ k. (k ≡ n) ⊎ Lists k (d ∷ ds)) (sym (highest_under d ds n under))
        (elim (highest-Lists ds n) [ inl e ↦ inl e | inr later ↦ inr (inr later) ])
]

number_loop-calm :
    (env : Env) (dirs : List Dentry) (w : World)
    → ((number_loop (calm env) dirs w).1.inode_number ≡ highest dirs w.inode_number)
      × ((number_loop (calm env) dirs w).1.disk ≡ w.disk)
unfolding number_loop raise_number highest syscalls
number_loop-calm env [] w = ground arith
number_loop-calm env (d ∷ ds) w =
    let v : World = record w { calls = w.calls + 1 } in
    let u : World = record v {
      inode_number = d.inum;
      outside = leb (2 ^ 31) d.inum || w.outside;
    } in
    ground (arith, number_loop-calm env ds u, number_loop-calm env ds v)

module _ (env : Env) (w : World) where
  pub safs_init-calm :
      ((safs_init (calm env) w).0 ≡ pos 0)
      × ((safs_init (calm env) w).1.disk ≡ record w.disk {
        directory = some (list_of w.disk.directory);
        inodes = some (list_of w.disk.inodes);
      })
      × ((safs_init (calm env) w).1.inode_number
          ≡ highest (list_of w.disk.directory) w.inode_number)
  unfolding safs_init syscalls
  safs_init-calm =
      let v : World = record w {
        disk = record w.disk {
          directory = some (list_of w.disk.directory);
          inodes = some (list_of w.disk.inodes);
        };
        fds = w.fds + 1 + 1;
        calls = w.calls + 1 + 1 + 1;
      } in
      ground (arith, number_loop-calm env (list_of w.disk.directory) v)

  -- Where no system call fails, init returns 0, makes both tables if they are missing and keeps
  -- their contents, and raises inode_number to the highest number that an entry has: no entry
  -- has a higher number, and if inode_number is not what it was, it is a number in use.
  pub safs_init_lem :
      ((safs_init (calm env) w).0 ≡ pos 0)
      × ((safs_init (calm env) w).1.disk ≡ record w.disk {
        directory = some (list_of w.disk.directory);
        inodes = some (list_of w.disk.inodes);
      })
      × Below ((safs_init (calm env) w).1.inode_number + 1) (list_of w.disk.directory)
      × (((safs_init (calm env) w).1.inode_number ≡ w.inode_number)
          ⊎ Lists (safs_init (calm env) w).1.inode_number (list_of w.disk.directory))
  safs_init_lem =
      let (ok, disk, number) = safs_init-calm in
      (
        ok,
        disk,
        rw number (highest-Below (list_of w.disk.directory) w.inode_number),
        rw number (highest-Lists (list_of w.disk.directory) w.inode_number),
      )
