-- ===== src/Ramfs/Numbered.antt =====
-- Files without gaps: the bytes of a list at the positions from 0 on, and what the loops of
-- fuse-test.cpp do to them.
use safs.Base.{
  ℕ, zero, suc, ◌+◌, ◌-◌, ◌^◌, ◌≤◌, ◌<◌, ◌≡◌, Bool-cases, inl, inr, true, false, refl, sym, ap,
  arith, some, List, [], ◌∷◌, ◌++◌, pos, to_int, length, take, drop, get_elem?, put_at, write_at,
  ltb, if◌then◌else◌,
}
use safs.Ramfs.{FileContents, fetch, read_loop, write_loop, enlarge_loop, resize}
use safs.Ramfs.Keys.{int_order}
use safs.Ramfs.StdMap.{find, assign, erase_from}

abbrev pub numbered_from : ℕ → List ℕ → FileContents
numbered_from i [] = []
numbered_from i (b ∷ bs) = (pos i, b) ∷ numbered_from (i + 1) bs

abbrev pub numbered : List ℕ → FileContents
numbered bs = numbered_from 0 bs

abbrev pub zeros : ℕ → List ℕ
zeros zero = []
zeros (suc n) = 0 ∷ zeros n

pub length-numbered_from : (i : ℕ) (bs : List ℕ) → length (numbered_from i bs) ≡ length bs
length-numbered_from i [] = refl
length-numbered_from i (b ∷ bs) = ap suc (length-numbered_from (i + 1) bs)

assign-numbered_from :
    (i k b : ℕ) (bs : List ℕ)
    → k ≤ length bs
    → assign (pos (i + k)) b (numbered_from i bs) ≡ numbered_from i (put_at 0 k b bs)
unfolding assign put_at
assign-numbered_from i zero b [] le = ground arith
assign-numbered_from i (suc k) b [] le = ground arith
assign-numbered_from i zero b (c ∷ cs) le = ground arith
assign-numbered_from i (suc k) b (c ∷ cs) le = ground (arith, assign-numbered_from (i + 1) k b cs)

find-numbered_from :
    (i k : ℕ) (bs : List ℕ) → find (pos (i + k)) (numbered_from i bs) ≡ get_elem? bs k
unfolding find
find-numbered_from i k [] = refl
find-numbered_from i zero (b ∷ bs) = ground arith
find-numbered_from i (suc k) (b ∷ bs) = ground (arith, find-numbered_from (i + 1) k bs)

erase_from-numbered_from :
    (i k : ℕ) (bs : List ℕ)
    → k ≤ length bs
    → erase_from (pos (i + k)) (numbered_from i bs) ≡ numbered_from i (take k bs)
unfolding erase_from
erase_from-numbered_from i zero [] le = refl
erase_from-numbered_from i (suc k) [] le = ground arith
erase_from-numbered_from i zero (b ∷ bs) le = ground arith
erase_from-numbered_from i (suc k) (b ∷ bs) le =
    ground (arith, erase_from-numbered_from (i + 1) k bs)

pub to_int_small : (n : ℕ) → n < 2 ^ 31 → to_int n ≡ pos n
unfolding to_int
to_int_small n small = ground arith

length-put_at : (k b : ℕ) (bs : List ℕ) → k ≤ length bs → k < length (put_at 0 k b bs)
unfolding put_at
length-put_at zero b [] le = omega arith
length-put_at (suc k) b [] le = ground arith
length-put_at zero b (c ∷ cs) le = omega arith
length-put_at (suc k) b (c ∷ cs) le = ground (arith, length-put_at k b cs)

-- A write byte by byte.
write_at_cons :
    (k b : ℕ) (vs bs : List ℕ)
    → k ≤ length bs
    → write_at 0 (k + 1) vs (put_at 0 k b bs) ≡ write_at 0 k (b ∷ vs) bs
unfolding put_at write_at
write_at_cons zero b [] [] le = refl
write_at_cons zero b (v ∷ vs) [] le = refl
write_at_cons zero b [] (c ∷ cs) le = ground arith
write_at_cons zero b (v ∷ vs) (c ∷ cs) le = refl
write_at_cons (suc k) b vs [] le = ground arith
write_at_cons (suc k) b [] (c ∷ cs) le = ground (arith, write_at_cons k b [] cs)
write_at_cons (suc k) b (v ∷ vs) (c ∷ cs) le = ground (arith, write_at_cons k b (v ∷ vs) cs)

pub write_at_nil : (k : ℕ) (bs : List ℕ) → write_at 0 k [] bs ≡ bs
unfolding write_at
write_at_nil zero bs = refl
write_at_nil (suc k) bs = refl

pub write_loop-numbered :
    (k : ℕ) (vs bs : List ℕ)
    → k ≤ length bs
    → k + length vs ≤ 2 ^ 31
    → write_loop k vs (numbered bs) ≡ numbered (write_at 0 k vs bs)
unfolding write_loop
write_loop-numbered k [] bs le small = ground (arith, write_at_nil k bs)
write_loop-numbered k (v ∷ vs) bs le small = ground (
  arith,
  to_int_small k,
  assign-numbered_from 0 k v bs le,
  length-put_at k v bs le,
  write_at_cons k v vs bs le,
  write_loop-numbered (k + 1) vs (put_at 0 k v bs),
)

drop_suc :
    (k : ℕ) (bs : List ℕ)
    → k < length bs
    → (b : ℕ) × ((get_elem? bs k ≡ some b) × (drop k bs ≡ b ∷ drop (k + 1) bs))
drop_suc k [] below = ground arith
drop_suc zero (b ∷ bs) below = (b, (refl, refl))
drop_suc (suc k) (b ∷ bs) below = ground (arith, drop_suc k bs)

pub read_loop-numbered :
    (n k : ℕ) (bs : List ℕ)
    → k + n ≤ length bs
    → length bs ≤ 2 ^ 31
    → read_loop n k (numbered bs) ≡ (take n (drop k bs), numbered bs)
unfolding read_loop fetch
read_loop-numbered zero k bs le small = refl
read_loop-numbered (suc n) k bs le small = ground (
  arith,
  to_int_small k,
  find-numbered_from 0 k bs,
  drop_suc k bs,
  read_loop-numbered n (k + 1) bs,
)

put_at_end : (b : ℕ) (bs cs : List ℕ) → put_at 0 (length bs) b bs ++ cs ≡ bs ++ (b ∷ cs)
unfolding put_at
put_at_end b [] cs = refl
put_at_end b (c ∷ bs) cs = ap (λ ds. c ∷ ds) (put_at_end b bs cs)

length-put_at_end : (b : ℕ) (bs : List ℕ) → length (put_at 0 (length bs) b bs) ≡ suc (length bs)
unfolding put_at
length-put_at_end b [] = refl
length-put_at_end b (c ∷ bs) = ap suc (length-put_at_end b bs)

append_nil : (bs : List ℕ) → bs ++ [] ≡ bs
append_nil [] = refl
append_nil (b ∷ bs) = ap (λ cs. b ∷ cs) (append_nil bs)

enlarge_loop-numbered :
    (n k : ℕ) (bs : List ℕ)
    → k ≡ length bs
    → k + n ≤ 2 ^ 31
    → enlarge_loop n k (numbered bs) ≡ numbered (bs ++ zeros n)
unfolding enlarge_loop
enlarge_loop-numbered zero k bs e small = ap numbered (sym (append_nil bs))
enlarge_loop-numbered (suc n) k bs e small = ground (
  arith,
  to_int_small k,
  assign-numbered_from 0 k 0 bs,
  put_at_end 0 bs (zeros n),
  length-put_at_end 0 bs,
  enlarge_loop-numbered n (k + 1) (put_at 0 k 0 bs),
)

-- The bytes of a file that is cut or filled up to `new_length`.
unfoldable pub resize_bytes : ℕ → List ℕ → List ℕ
resize_bytes new_length bs =
    if ltb new_length (length bs) then take new_length bs else bs ++ zeros (new_length - length bs)

resize-numbered_longer :
    (new_length : ℕ) (bs : List ℕ)
    → length bs ≤ new_length
    → new_length < 2 ^ 31
    → resize new_length (numbered bs) ≡ some (numbered (bs ++ zeros (new_length - length bs)))
unfolding resize
resize-numbered_longer new_length bs longer small =
    rw (length-numbered_from 0 bs) (elim (Bool-cases (ltb (length bs) new_length)) [
      | inl above ↦
          let below : ltb new_length (length bs) ≡ false = ground (arith, longer) in
          let fits : ltb new_length (2 ^ 31) ≡ true = ground (arith, small) in
          rw (below, above, fits)
            (ap some
              (enlarge_loop-numbered (new_length - length bs) (length bs) bs refl (omega arith)))
      | inr equal ↦
          let below : ltb new_length (length bs) ≡ false = ground (arith, longer) in
          let none_left : new_length - length bs ≡ 0 = ground (arith, equal) in
          rw (below, equal, none_left) (ap (λ cs. some (numbered cs)) (sym (append_nil bs)))
    ])

pub resize-numbered :
    (new_length : ℕ) (bs : List ℕ)
    → length bs ≤ 2 ^ 31
    → new_length < 2 ^ 31
    → resize new_length (numbered bs) ≡ some (numbered (resize_bytes new_length bs))
unfolding resize resize_bytes
resize-numbered new_length bs held small = elim (Bool-cases (ltb new_length (length bs))) [
  | inl shorter ↦ ground (
    arith,
    shorter,
    length-numbered_from 0 bs,
    to_int_small new_length,
    erase_from-numbered_from 0 new_length bs,
  )
  | inr longer ↦ rw longer (resize-numbered_longer new_length bs (ground (arith, longer)) small)
]
