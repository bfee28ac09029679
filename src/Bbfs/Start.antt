-- ===== src/Bbfs/Start.antt =====
-- main of bbfs.c with log_open of log.c, and bb_readdir of bbfs.c.
use safs.Base.{
  ℕ, zero, suc, ◌+◌, ◌-◌, ◌<◌, ◌≤◌, ◌≡◌, ◌≢◌, refl, ap, ◌++◌, Bool, true, false, not, ◌||◌, Option,
  none, some, List, [], ◌∷◌, arith, pos, neg, ℤ, ◌==◌, ltb, Name, length, take, get_elem?,
  if◌then◌else◌,
}

-- How a run of main ends: by abort(), or with an exit status.
pub data Exit : Type 0 where
  aborted : Exit
  exited : ℤ → Exit

-- argv[i][0] == '-'
abbrev pub has_hyphen : Option Name → Bool
has_hyphen none = false
has_hyphen (some []) = false
has_hyphen (some (c ∷ cs)) = c == b'-'

abbrev pub argument : Option Name → List Name
argument none = []
argument (some a) = a ∷ []

-- What main needs of its surroundings: fopen of the log file and malloc may fail, realpath gives
-- `none` for NULL, and fuse_main gets the arguments and the root directory.
pub record Surroundings : Type 0 where
  pub uid : ℕ
  pub euid : ℕ
  pub allocated : Bool
  pub log_opened : Bool
  pub realpath : Name → Option Name
  pub fuse_main : List Name → Option Name → ℤ

unfoldable pub log_open : Surroundings → Exit → Exit
log_open env next = if not env.log_opened then exited (pos 1) else next

unfoldable pub bbfs_main : Surroundings → List Name → Exit
bbfs_main env argv =
    let argc = length argv in
    let root_arg = get_elem? argv (argc - 2) in
    let mount_arg = get_elem? argv (argc - 1) in
    if (env.uid == 0) || (env.euid == 0)
    then exited (pos 1)
    else if ltb argc 3 || has_hyphen root_arg || has_hyphen mount_arg
    then aborted
    else if not env.allocated
    then aborted
    else (let rootdir : Option Name = elim root_arg [ none ↦ none | some a ↦ env.realpath a ] in
        log_open env (exited (env.fuse_main (take (argc - 2) argv ++ argument mount_arg) rootdir)))

abbrev pub enomem : ℕ
enomem = 12

-- The loop of bb_readdir over the names that readdir gives, the first of which has been read.
-- `full k` says whether `filler` finds the buffer full when it holds `k` names. The second result
-- are the names that `filler` was called with.
unfoldable pub fill_loop : (ℕ → Bool) → ℕ → List Name → ℤ × List Name
fill_loop full k [] = (pos 0, [])
fill_loop full k (name ∷ names) =
    let (rtn, later) = fill_loop full (k + 1) names in
    if full k then (neg enomem, name ∷ []) else (rtn, name ∷ later)

-- `errno` is that of a readdir that gives NULL at once.
unfoldable pub bb_readdir : ℕ → (ℕ → Bool) → List Name → ℤ × List Name
bb_readdir errno full [] = (neg errno, [])
bb_readdir errno full (name ∷ names) = fill_loop full 0 (name ∷ names)

get_elem?-append :
    (front : List Name) (a b : Name) → get_elem? (front ++ a ∷ b ∷ []) (length front) ≡ some a
get_elem?-append [] a b = refl
get_elem?-append (x ∷ xs) a b = get_elem?-append xs a b

get_elem?-append_next :
    (front : List Name) (a b : Name) → get_elem? (front ++ a ∷ b ∷ []) (suc (length front)) ≡ some b
get_elem?-append_next [] a b = refl
get_elem?-append_next (x ∷ xs) a b = get_elem?-append_next xs a b

length-append : (front : List Name) (a b : Name) → length (front ++ a ∷ b ∷ []) ≡ length front + 2
length-append [] a b = refl
length-append (x ∷ xs) a b = ground (arith, length-append xs a b)

take-append : (front : List Name) (a b : Name) → take (length front) (front ++ a ∷ b ∷ []) ≡ front
take-append [] a b = refl
take-append (x ∷ xs) a b = ap (λ ys. x ∷ ys) (take-append xs a b)

module _ (env : Surroundings) (front : List Name) (a b : Name) where
  -- Run by a user who is not root, with at least one argument before the last two, neither of
  -- which begins with a hyphen, and where malloc and fopen succeed, main calls fuse_main with
  -- all arguments but the last one but one, and with the real path of that one as the root
  -- directory, and exits with its result.
  pub bbfs_main_lem :
      env.uid ≢ 0
      → env.euid ≢ 0
      → 1 ≤ length front
      → has_hyphen (some a) ≡ false
      → has_hyphen (some b) ≡ false
      → env.allocated ≡ true
      → env.log_opened ≡ true
      → bbfs_main env (front ++ a ∷ b ∷ [])
        ≡ exited (env.fuse_main (front ++ b ∷ []) (env.realpath a))
  unfolding bbfs_main log_open
  bbfs_main_lem user effective enough root mount allocated logged =
      let n : length (front ++ a ∷ b ∷ []) ≡ length front + 2 = length-append front a b in
      let at_root : length (front ++ a ∷ b ∷ []) - 2 ≡ length front = omega arith in
      let at_mount : length (front ++ a ∷ b ∷ []) - 1 ≡ suc (length front) = omega arith in
      rw
        (
          at_root,
          at_mount,
          get_elem?-append front a b,
          get_elem?-append_next front a b,
          take-append front a b,
        )
        (ground arith)

zero_right : (k : ℕ) → k + 0 ≡ k
zero_right k = omega arith

zero_left : (j : ℕ) → 0 + j ≡ j
zero_left j = omega arith

step : (k j : ℕ) → k + suc j ≡ k + 1 + j
step k j = omega arith

module _ (full : ℕ → Bool) where
  fill_loop_empty :
      (k : ℕ) (names : List Name)
      → ((i : ℕ) → full i ≡ false)
      → fill_loop full k names ≡ (pos 0, names)
  unfolding fill_loop
  fill_loop_empty k [] room = refl
  fill_loop_empty k (name ∷ names) room = ground (arith, room k, fill_loop_empty (k + 1) names room)

  fill_loop_full :
      (k j : ℕ) (names : List Name)
      → ((i : ℕ) → i < k + j → full i ≡ false)
      → full (k + j) ≡ true
      → j < length names
      → fill_loop full k names ≡ (neg enomem, take (j + 1) names)
  unfolding fill_loop
  fill_loop_full k j [] room end enough = absurd (omega arith)
  fill_loop_full k zero (name ∷ names) room end enough =
      let e : full k ≡ true = rw (zero_right k) at end in rw e refl
  fill_loop_full k (suc j) (name ∷ names) room end enough =
      let here : full k ≡ false = room k (omega arith) in
      let later =
        fill_loop_full (k + 1) j names (λ i lt. room i (omega arith)) (rw (step k j) at end)
          (omega arith) in
      rw here (ground (arith, later))

  -- If the buffer has room for the first `j` names of a directory with more names, and then is
  -- full, readdir returns -ENOMEM after it has called filler with the first `j + 1` names.
  pub bb_readdir_full :
      (errno j : ℕ) (names : List Name)
      → ((i : ℕ) → i < j → full i ≡ false)
      → full j ≡ true
      → j < length names
      → bb_readdir errno full names ≡ (neg enomem, take (j + 1) names)
  unfolding bb_readdir
  bb_readdir_full errno j [] room end enough = absurd (omega arith)
  bb_readdir_full errno j (name ∷ names) room end enough =
      fill_loop_full 0 j (name ∷ names) (λ i lt. room i (omega arith)) (rw (zero_left j) end) enough

  -- Where the buffer always has room, readdir of a directory that is not empty returns 0 after
  -- it has called filler with every name, in order.
  pub bb_readdir_lem :
      (errno : ℕ) (name : Name) (names : List Name)
      → ((i : ℕ) → full i ≡ false)
      → bb_readdir errno full (name ∷ names) ≡ (pos 0, name ∷ names)
  unfolding bb_readdir
  bb_readdir_lem errno name names room = fill_loop_empty 0 (name ∷ names) room
