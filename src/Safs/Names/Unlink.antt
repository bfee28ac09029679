-- ===== src/Safs/Names/Unlink.antt =====
-- What safs_unlink makes of the entries of Directory~.
pub mod Loop
pub mod After
pub mod Entries
pub mod Calm
pub mod Nothing
pub mod Parked
pub mod Descriptors
use safs.Base.{
  ℕ, suc, zero, ◌+◌, ◌≡◌, refl, true, false, inl, inr, Bool-cases, List, [], ◌∷◌, ◌++◌, Name, arith,
  same_name, put_at, length, if◌then◌else◌,
}
use safs.Disk.{Dentry, blank_dentry}

-- No entry has the name.
abbrev pub Absent : Name → List Dentry → Type 0
Absent name [] = Unit
Absent name (d ∷ ds) = (same_name name d.name ≡ false) × Absent name ds

-- The entries that the loop copies: those with a name.
unfoldable pub survivors : List Dentry → List Dentry
survivors [] = []
survivors (d ∷ ds) = let later = survivors ds in if same_name d.name [] then later else d ∷ later

-- The entries `xs` written one after the other from a slot on.
unfoldable pub write_from : ℕ → List Dentry → List Dentry → List Dentry
write_from slot [] es = es
write_from slot (x ∷ xs) es = write_from (slot + 1) xs (put_at blank_dentry slot x es)

-- A table of the entries `xs` as unlink lays it out: two unused slots, and then the entries.
abbrev pub packed : List Dentry → List Dentry
packed [] = []
packed (x ∷ xs) = blank_dentry ∷ blank_dentry ∷ x ∷ xs

pub survivors_append : (xs ys : List Dentry) → survivors (xs ++ ys) ≡ survivors xs ++ survivors ys
unfolding survivors
survivors_append [] ys = refl
survivors_append (x ∷ xs) ys = ground (arith, survivors_append xs ys)

pub write_from-write_from :
    (slot : ℕ) (xs ys es : List Dentry)
    → write_from (slot + length xs) ys (write_from slot xs es) ≡ write_from slot (xs ++ ys) es
unfolding write_from
write_from-write_from slot [] ys es = ground arith
write_from-write_from slot (x ∷ xs) ys es =
    ground (arith, write_from-write_from (slot + 1) xs ys (put_at blank_dentry slot x es))

write_from_cons :
    (slot : ℕ) (xs : List Dentry) (e : Dentry) (es : List Dentry)
    → write_from (suc slot) xs (e ∷ es) ≡ e ∷ write_from slot xs es
unfolding write_from put_at
write_from_cons slot [] e es = refl
write_from_cons slot (x ∷ xs) e es =
    ground (arith, write_from_cons (slot + 1) xs e (put_at blank_dentry slot x es))

write_from_start : (xs : List Dentry) → write_from 0 xs [] ≡ xs
unfolding write_from put_at
write_from_start [] = refl
write_from_start (x ∷ xs) = ground (arith, write_from_cons 0 xs x [], write_from_start xs)

pub write_from-packed : (xs : List Dentry) → write_from 2 xs [] ≡ packed xs
unfolding write_from put_at
write_from-packed [] = refl
write_from-packed (x ∷ xs) = ground (
  arith,
  write_from_cons 2 xs blank_dentry (blank_dentry ∷ x ∷ []),
  write_from_cons 1 xs blank_dentry (x ∷ []),
  write_from_cons 0 xs x [],
  write_from_start xs,
)
