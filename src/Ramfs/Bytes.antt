-- ===== src/Ramfs/Bytes.antt =====
-- Lengths and parts of lists of bytes, for the files without gaps.
use safs.Base.{
  ℕ, zero, suc, ◌+◌, ◌-◌, ◌≤◌, ◌≡◌, refl, ap, arith, List, [], ◌∷◌, ◌++◌, length, take, drop,
  write_at,
}
use safs.Ramfs.Numbered.{zeros, resize_bytes}

pub length-take : (n : ℕ) (bs : List ℕ) → n ≤ length bs → length (take n bs) ≡ n
length-take zero bs le = refl
length-take (suc n) [] le = ground arith
length-take (suc n) (b ∷ bs) le = ground (arith, length-take n bs)

pub length-drop : (k : ℕ) (bs : List ℕ) → length (drop k bs) ≡ length bs - k
length-drop zero bs = omega arith
length-drop (suc k) [] = omega arith
length-drop (suc k) (b ∷ bs) = ground (arith, length-drop k bs)

pub take_all : (n : ℕ) (bs : List ℕ) → length bs ≤ n → take n bs ≡ take (length bs) bs
take_all zero [] le = refl
take_all zero (b ∷ bs) le = ground arith
take_all (suc n) [] le = refl
take_all (suc n) (b ∷ bs) le = ground (arith, take_all n bs)

pub take_whole : (bs : List ℕ) → take (length bs) bs ≡ bs
take_whole [] = refl
take_whole (b ∷ bs) = ap (λ cs. b ∷ cs) (take_whole bs)

pub length-write_at :
    (bound k : ℕ) (vs bs : List ℕ)
    → length bs ≤ bound
    → k + length vs ≤ bound
    → length (write_at 0 k vs bs) ≤ bound
unfolding write_at
length-write_at bound zero [] bs held fits = held
length-write_at bound zero (v ∷ vs) [] held fits = omega arith
length-write_at zero zero (v ∷ vs) (b ∷ bs) held fits = ground arith
length-write_at (suc bound) zero (v ∷ vs) (b ∷ bs) held fits =
    ground (arith, length-write_at bound zero vs bs)
length-write_at bound (suc k) [] bs held fits = held
length-write_at zero (suc k) (v ∷ vs) bs held fits = ground arith
length-write_at (suc bound) (suc k) (v ∷ vs) [] held fits =
    ground (arith, length-write_at bound k (v ∷ vs) [])
length-write_at (suc bound) (suc k) (v ∷ vs) (b ∷ bs) held fits =
    ground (arith, length-write_at bound k (v ∷ vs) bs)

pub length-zeros : (n : ℕ) → length (zeros n) ≡ n
length-zeros zero = refl
length-zeros (suc n) = ap suc (length-zeros n)

pub length-append : (bs cs : List ℕ) → length (bs ++ cs) ≡ length bs + length cs
length-append [] cs = omega arith
length-append (b ∷ bs) cs = ground (arith, length-append bs cs)

pub length-resize_bytes : (n : ℕ) (bs : List ℕ) → length (resize_bytes n bs) ≡ n
unfolding resize_bytes
length-resize_bytes n bs = ground (
  arith,
  length-take n bs,
  length-append bs (zeros (n - length bs)),
  length-zeros (n - length bs),
)
