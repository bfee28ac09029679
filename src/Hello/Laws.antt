-- ===== src/Hello/Laws.antt =====
-- The reads of hello.c, and its handlers beside each other.
use mathlib.Core.Path.{subst}
use safs.Base.{
  sym, ◌∙◌, same_name_iff, zero, suc, ap, inl, inr, ◌⊎◌, ℕ, ◌+◌, ◌-◌, ◌%◌, ◌^◌, ◌<◌, ◌≤◌, ◌≡◌, refl,
  some, List, [], ◌∷◌, arith, pos, to_int, Name, same_name, length, take, drop,
}
use safs.Hello.{hello_str, hello_path, hello_read, hello_open, hello_getattr, copy_hello}

to_int_zero : to_int 0 ≡ pos 0
unfolding to_int
to_int_zero = refl

nat_cases : (a b : ℕ) → (a < b) ⊎ (b ≤ a)
nat_cases a b = omega arith

take_over : (xs : List ℕ) (n : ℕ) → length xs ≤ n → take n xs ≡ xs
take_over [] zero le = refl
take_over [] (suc n) le = refl
take_over (x ∷ xs) zero le = absurd (omega arith)
take_over (x ∷ xs) (suc n) le = ap (λ ys. x ∷ ys) (take_over xs n (omega arith))

drop_over : (xs : List ℕ) (n : ℕ) → length xs ≤ n → drop n xs ≡ []
drop_over [] zero le = refl
drop_over [] (suc n) le = refl
drop_over (x ∷ xs) zero le = absurd (omega arith)
drop_over (x ∷ xs) (suc n) le = drop_over xs n (omega arith)

length-drop : (xs : List ℕ) (n : ℕ) → length (drop n xs) ≡ length xs - n
length-drop [] zero = refl
length-drop [] (suc n) = omega arith
length-drop (x ∷ xs) zero = omega arith
length-drop (x ∷ xs) (suc n) = ground (arith, length-drop xs n)

length-take : (xs : List ℕ) (n : ℕ) → n ≤ length xs → length (take n xs) ≡ n
length-take xs zero le = refl
length-take [] (suc n) le = absurd (omega arith)
length-take (x ∷ xs) (suc n) le = ground (arith, length-take xs n (omega arith))

module _ (size offset : ℕ) where
  abbrev left : List ℕ
  left = drop offset hello_str

  word : offset + size < 2 ^ 64 → (offset + size) % 2 ^ 64 ≡ offset + size
  word fits = omega arith

  -- hello_read of the file, where `offset + size` does not pass the range of size_t: the result
  -- is the bytes of the string from `offset` on, at most `size` of them, and their number; no
  -- byte beyond the string is copied.
  pub hello_read_lem :
      offset + size < 2 ^ 64
      → hello_read hello_path size offset
        ≡ (to_int (length (take size left)), some (take size left))
  unfolding hello_read copy_hello same_name
  hello_read_lem fits = elim (nat_cases offset 13) [
    | inl inside ↦ ground (
      arith,
      inside,
      fits,
      word,
      length-drop hello_str offset,
      take_over left size,
      take_over left (13 - offset),
      length-take left size,
    )
    | inr past ↦
        ground (arith, past, drop_over hello_str offset past, take_over [] size, to_int_zero)
  ]

open-path : (path : Name) (flags : ℕ) → hello_open path flags ≡ pos 0 → path ≡ hello_path
unfolding hello_open
open-path path flags accepted = ground (arith, same_name_iff path hello_path)

to_int_hello : to_int 13 ≡ pos 13
unfolding to_int
to_int_hello = refl

read_whole :
    (size : ℕ)
    → (hello_getattr hello_path).1.st_size ≤ size
    → size < 2 ^ 64
    → ((hello_getattr hello_path).0 ≡ pos 0)
      × (hello_read hello_path size 0 ≡ (pos (hello_getattr hello_path).1.st_size, some hello_str))
unfolding hello_getattr same_name
read_whole size enough fits = (
  refl,
  hello_read_lem size 0 (omega arith)
      ∙ ground (arith, take_over hello_str size enough, to_int_hello),
)

-- A path that hello_open accepts is a file to hello_getattr, and one read from 0 of at least as
-- many bytes as the size given there, within the range of size_t, returns that size and the
-- whole string.
pub hello_open_lem :
    (path : Name) (flags size : ℕ)
    → hello_open path flags ≡ pos 0
    → (hello_getattr path).1.st_size ≤ size
    → size < 2 ^ 64
    → ((hello_getattr path).0 ≡ pos 0)
      × (hello_read path size 0 ≡ (pos (hello_getattr path).1.st_size, some hello_str))
hello_open_lem path flags size accepted enough fits =
    subst
      (λ p.
        (hello_getattr p).1.st_size ≤ size
        → ((hello_getattr p).0 ≡ pos 0)
          × (hello_read p size 0 ≡ (pos (hello_getattr p).1.st_size, some hello_str)))
      (sym (open-path path flags accepted)) (λ le. read_whole size le fits) enough
