-- ===== src/Safs/Find/Laws.antt =====
-- The search against its specification, whether its reads fail or not, and the search after an
-- entry was written.
use safs.Base.{
  ℕ, zero, suc, ◌+◌, ◌≡◌, ◌≢◌, ◌⊎◌, inl, inr, true, false, Option, refl, none, some, List, [], ◌∷◌,
  Name, arith, same_name_iff, ◌≤◌, put_at, Bool-cases,
}
use safs.Disk.{Dentry, blank_dentry}
use safs.Posix.{Env, World, calm}
use safs.Posix.Syscalls.{syscalls}
use safs.Safs.Find.Calm.{find_loop-calm}
use safs.Safs.Find.{matches, find_loop, find_entry}

-- `d` stands in slot `k` of `dirs`, matches, and no entry before it does.
abbrev pub IsFirst : Name → List Dentry → ℕ → Dentry → Type 0
IsFirst name [] k d = ⊥
IsFirst name (e ∷ es) zero d = (e ≡ d) × (matches name e ≡ true)
IsFirst name (e ∷ es) (suc k) d = (matches name e ≡ false) × IsFirst name es k d

module _ (name : Name) where
  -- The specification finds exactly the first match.
  pub find_entry-first :
      (dirs : List Dentry) (i k : ℕ) (d : Dentry)
      → IsFirst name dirs k d
      → find_entry name dirs i ≡ some (i + k, d)
  unfolding find_entry
  find_entry-first [] i k d h = elim h [ ]
  find_entry-first (e ∷ es) i zero d (same, hit) = rw (hit, same) (ground arith)
  find_entry-first (e ∷ es) i (suc k) d (miss, later) =
      rw miss (ground (arith, find_entry-first es (i + 1) k d later))

  pub IsFirst-find_entry :
      (dirs : List Dentry) (i j : ℕ) (d : Dentry)
      → find_entry name dirs i ≡ some (j, d)
      → (k : ℕ) × (j ≡ i + k) × IsFirst name dirs k d
  unfolding find_entry
  IsFirst-find_entry [] i j d h = cc
  IsFirst-find_entry (e ∷ es) i j d h = elim (Bool-cases (matches name e)) [
    | inl hit ↦ (0, ground arith, (ground arith, hit))
    | inr miss ↦
        let (k, at', later) = IsFirst-find_entry es (i + 1) j d (rw miss at h) in
        (suc k, omega arith, (miss, later))
  ]

module _ (env : Env) (name : Name) where
  -- What the loop gives, whichever of its reads fail: nothing, or what `find_entry` gives.
  pub find_loop-find_entry :
      (dirs : List Dentry) (index : ℕ) (w : World)
      → ((find_loop env name dirs index w).0 ≡ none)
        ⊎ ((find_loop env name dirs index w).0 ≡ find_entry name dirs index)
  unfolding find_loop find_entry syscalls
  find_loop-find_entry [] index w = ground arith
  find_loop-find_entry (d ∷ ds) index w =
      ground (arith, find_loop-find_entry ds (index + 1) (record w { calls = w.calls + 1 }))

-- An entry that is unused, or has another name.
abbrev pub Passed : Name → Dentry → Type 0
Passed name d = (d.inum ≡ 0) ⊎ (name ≢ d.name)

-- `d` stands in slot `k` of `dirs`, is in use and has the name, and no entry before it has both.
abbrev pub IsFirstInUse : Name → List Dentry → ℕ → Dentry → Type 0
IsFirstInUse name [] k d = ⊥
IsFirstInUse name (e ∷ es) zero d = (e ≡ d) × (d.inum ≢ 0) × (name ≡ d.name)
IsFirstInUse name (e ∷ es) (suc k) d = Passed name e × IsFirstInUse name es k d

matches_used : (name : Name) (d : Dentry) → d.inum ≢ 0 → name ≡ d.name → matches name d ≡ true
unfolding matches
matches_used name d used same = ground (arith, used, same, same_name_iff name d.name)

matches-Passed : (name : Name) (d : Dentry) → Passed name d → matches name d ≡ false
unfolding matches
matches-Passed name d (inl unused) = ground (arith, unused)
matches-Passed name d (inr other) = ground (arith, other, same_name_iff name d.name)

IsFirst-used :
    (name : Name) (dirs : List Dentry) (k : ℕ) (d : Dentry)
    → IsFirstInUse name dirs k d
    → IsFirst name dirs k d
IsFirst-used name [] k d first = first
IsFirst-used name (e ∷ es) zero d (same, used, named) =
    (same, matches_used name e (rw same used) (rw same named))
IsFirst-used name (e ∷ es) (suc k) d (passed, later) =
    (matches-Passed name e passed, IsFirst-used name es k d later)

abbrev pub NoneInUse : Name → List Dentry → Type 0
NoneInUse name [] = Unit
NoneInUse name (e ∷ es) = Passed name e × NoneInUse name es

-- What a search for `name` has to give: the first entry in use that has it, or nothing where none
-- has.
abbrev pub IsAnswer : Name → List Dentry → Option (ℕ × Dentry) → Type 0
IsAnswer name dirs none = NoneInUse name dirs
IsAnswer name dirs (some (k, d)) = IsFirstInUse name dirs k d

find_entry-NoneInUse :
    (name : Name) (dirs : List Dentry) (i : ℕ) → NoneInUse name dirs → find_entry name dirs i ≡ none
unfolding find_entry
find_entry-NoneInUse name [] i free = refl
find_entry-NoneInUse name (e ∷ es) i (passed, free) =
    rw (matches-Passed name e passed) (find_entry-NoneInUse name es (i + 1) free)

find_entry-IsAnswer :
    (name : Name) (dirs : List Dentry) (answer : Option (ℕ × Dentry))
    → IsAnswer name dirs answer
    → find_entry name dirs 0 ≡ answer
find_entry-IsAnswer name dirs none free = find_entry-NoneInUse name dirs 0 free
find_entry-IsAnswer name dirs (some (k, d)) first =
    ground (arith, find_entry-first name dirs 0 k d (IsFirst-used name dirs k d first))

module _ (env : Env) (name : Name) (dirs : List Dentry) (answer : Option (ℕ × Dentry))
    (w : World) where
  -- Where `answer` is what a search for the name has to give, which is the first entry with that
  -- name whose inode number is not 0, with its slot, or nothing where there is none: the loop
  -- over Directory~ gives it if no read fails, and whichever of its reads fail, it or nothing,
  -- so a failing read can hide a file but never give another.
  pub find_loop-IsAnswer :
      IsAnswer name dirs answer
      → ((find_loop (calm env) name dirs 0 w).0 ≡ answer)
        × (((find_loop env name dirs 0 w).0 ≡ none) ⊎ ((find_loop env name dirs 0 w).0 ≡ answer))
  find_loop-IsAnswer right =
      let found = find_entry-IsAnswer name dirs answer right in
      (
        ground (arith, find_loop-calm env name dirs 0 w, found),
        ground (arith, find_loop-find_entry env name dirs 0 w, found),
      )

pub matches_name : (name : Name) (d : Dentry) → matches name d ≡ true → name ≡ d.name
unfolding matches
matches_name name d hit = ground (arith, same_name_iff name d.name)

blank-matches : (name : Name) → matches name blank_dentry ≡ false
unfolding matches
blank-matches name = ground arith

module _ (name : Name) where
  -- An entry that is written is found under its name, if the name was not in use.
  pub find_entry-put_at :
      (dirs : List Dentry) (i k : ℕ) (d : Dentry)
      → find_entry name dirs i ≡ none
      → matches name d ≡ true
      → find_entry name (put_at blank_dentry k d dirs) i ≡ some (i + k, d)
  unfolding find_entry put_at
  find_entry-put_at [] i zero d free hit = rw hit (ground arith)
  find_entry-put_at [] i (suc k) d free hit =
      let none_yet : matches name blank_dentry ≡ false = blank-matches name in
      ground (arith, none_yet, find_entry-put_at [] (i + 1) k d refl hit)
  find_entry-put_at (e ∷ es) i zero d free hit = rw hit (ground arith)
  find_entry-put_at (e ∷ es) i (suc k) d free hit = elim (Bool-cases (matches name e)) [
    | inl same ↦ cc (rw same at free)
    | inr differ ↦
        rw differ (ground (arith, find_entry-put_at es (i + 1) k d (rw differ at free) hit))
  ]

  -- Writing an entry of another name keeps the first match, unless it takes that entry's slot.
  pub find_entry-put_at_ne :
      (dirs : List Dentry) (i k j : ℕ) (d e : Dentry)
      → matches name d ≡ false
      → find_entry name dirs i ≡ some (j, e)
      → i + k ≢ j
      → find_entry name (put_at blank_dentry k d dirs) i ≡ some (j, e)
  unfolding find_entry put_at
  find_entry-put_at_ne [] i k j d e other found apart = cc
  find_entry-put_at_ne (x ∷ xs) i zero j d e other found apart =
      elim (Bool-cases (matches name x)) [
        | inl hit ↦ ground (arith, rw hit at found)
        | inr miss ↦ rw other (rw miss at found)
      ]
  find_entry-put_at_ne (x ∷ xs) i (suc k) j d e other found apart =
      elim (Bool-cases (matches name x)) [
        | inl hit ↦ rw hit (rw hit at found)
        | inr miss ↦
            rw miss
              (find_entry-put_at_ne xs (i + 1) k j d e other (rw miss at found) (ground arith))
      ]

  pub find_entry-matches :
      (dirs : List Dentry) (i j : ℕ) (d : Dentry)
      → find_entry name dirs i ≡ some (j, d)
      → matches name d ≡ true
  unfolding find_entry
  find_entry-matches [] i j d found = cc
  find_entry-matches (x ∷ xs) i j d found = elim (Bool-cases (matches name x)) [
    | inl hit ↦ ground (arith, rw hit at found)
    | inr miss ↦ find_entry-matches xs (i + 1) j d (rw miss at found)
  ]

  pub find_entry-after :
      (dirs : List Dentry) (i j : ℕ) (d : Dentry) → find_entry name dirs i ≡ some (j, d) → i ≤ j
  unfolding find_entry
  find_entry-after [] i j d found = cc
  find_entry-after (x ∷ xs) i j d found = elim (Bool-cases (matches name x)) [
    | inl hit ↦ ground (arith, rw hit at found)
    | inr miss ↦ ground (arith, find_entry-after xs (i + 1) j d (rw miss at found))
  ]

-- Two names that are found in the same slot have the same entry there.
pub find_entry-slot :
    (a b : Name) (dirs : List Dentry) (i j : ℕ) (d e : Dentry)
    → find_entry a dirs i ≡ some (j, d)
    → find_entry b dirs i ≡ some (j, e)
    → d ≡ e
unfolding find_entry
find_entry-slot a b [] i j d e found found' = cc
find_entry-slot a b (x ∷ xs) i j d e found found' = elim (Bool-cases (matches a x)) [
  | inl hit ↦ elim (Bool-cases (matches b x)) [
    | inl hit' ↦ cc (rw hit at found, rw hit' at found')
    | inr miss' ↦
        ground (arith, rw hit at found, find_entry-after b xs (i + 1) j e (rw miss' at found'))
  ]
  | inr miss ↦ elim (Bool-cases (matches b x)) [
    | inl hit' ↦
        ground (arith, rw hit' at found', find_entry-after a xs (i + 1) j d (rw miss at found))
    | inr miss' ↦ find_entry-slot a b xs (i + 1) j d e (rw miss at found) (rw miss' at found')
  ]
]

-- Different names are found in different slots.
pub find_entry_apart :
    (a b : Name) (dirs : List Dentry) (i j k : ℕ) (d e : Dentry)
    → a ≢ b
    → find_entry a dirs i ≡ some (j, d)
    → find_entry b dirs i ≡ some (k, e)
    → j ≢ k
find_entry_apart a b dirs i j k d e differ found found' same =
    let one = find_entry-slot a b dirs i j d e found (rw same found') in
    let hit = find_entry-matches a dirs i j d found in
    let hit' = find_entry-matches b dirs i k e found' in
    differ (ground (arith, matches_name a d hit, matches_name b e hit'))
