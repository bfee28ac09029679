-- ===== src/Base/Lists.antt =====
-- Lists measured and indexed by native numbers, under the library's names, and files as lists:
-- a write beyond the end leaves a gap of blanks.
use Prim.Native.Nat.{ℕ, zero, suc}
use mathlib.Core.Path.{◌≡◌, refl, ap}
use mathlib.Core.Logic.{◌≢◌}
use mathlib.Core.List.{List, [], ◌∷◌}
use mathlib.Core.Option.{Option, none, some}

module _ {ℓ} {A : Type ℓ} where
  abbrev pub length : List A → ℕ
  length [] = 0
  length (x ∷ xs) = suc (length xs)

  abbrev pub get_elem? : List A → ℕ → Option A
  get_elem? [] i = none
  get_elem? (x ∷ xs) zero = some x
  get_elem? (x ∷ xs) (suc i) = get_elem? xs i

  abbrev pub get_or : List A → ℕ → A → A
  get_or [] i v = v
  get_or (x ∷ xs) zero v = x
  get_or (x ∷ xs) (suc i) v = get_or xs i v

  abbrev pub take : ℕ → List A → List A
  take zero xs = []
  take (suc n) [] = []
  take (suc n) (x ∷ xs) = x ∷ take n xs

  abbrev pub drop : ℕ → List A → List A
  drop zero xs = xs
  drop (suc n) [] = []
  drop (suc n) (x ∷ xs) = drop n xs

  -- The cell `i` is set to `v`; cells that the list lacks below it read `blank`.
  unfoldable pub put_at : A → ℕ → A → List A → List A
  put_at blank zero v [] = v ∷ []
  put_at blank zero v (x ∷ xs) = v ∷ xs
  put_at blank (suc i) v [] = blank ∷ put_at blank i v []
  put_at blank (suc i) v (x ∷ xs) = x ∷ put_at blank i v xs

  -- The cells from `i` on are overwritten by `vs`.
  unfoldable pub write_at : A → ℕ → List A → List A → List A
  write_at blank zero [] xs = xs
  write_at blank zero (v ∷ vs) [] = v ∷ vs
  write_at blank zero (v ∷ vs) (x ∷ xs) = v ∷ write_at blank zero vs xs
  write_at blank (suc i) [] xs = xs
  write_at blank (suc i) (v ∷ vs) [] = blank ∷ write_at blank i (v ∷ vs) []
  write_at blank (suc i) (v ∷ vs) (x ∷ xs) = x ∷ write_at blank i (v ∷ vs) xs

  pub get_elem?-put_at_self :
      (blank : A) (i : ℕ) (v : A) (xs : List A) → get_elem? (put_at blank i v xs) i ≡ some v
  unfolding put_at
  get_elem?-put_at_self blank zero v [] = refl
  get_elem?-put_at_self blank zero v (x ∷ xs) = refl
  get_elem?-put_at_self blank (suc i) v [] = get_elem?-put_at_self blank i v []
  get_elem?-put_at_self blank (suc i) v (x ∷ xs) = get_elem?-put_at_self blank i v xs

  pub get_elem?-put_at_ne :
      (blank : A) (i j : ℕ) (v w : A) (xs : List A)
      → i ≢ j
      → get_elem? xs j ≡ some w
      → get_elem? (put_at blank i v xs) j ≡ some w
  unfolding put_at
  get_elem?-put_at_ne blank i j v w [] ne h = cc
  get_elem?-put_at_ne blank zero zero v w (x ∷ xs) ne h = absurd (ne refl)
  get_elem?-put_at_ne blank zero (suc j) v w (x ∷ xs) ne h = h
  get_elem?-put_at_ne blank (suc i) zero v w (x ∷ xs) ne h = h
  get_elem?-put_at_ne blank (suc i) (suc j) v w (x ∷ xs) ne h =
      get_elem?-put_at_ne blank i j v w xs (λ e. ne (ap suc e)) h

  pub take-length : (xs : List A) → take (length xs) xs ≡ xs
  take-length [] = refl
  take-length (x ∷ xs) = ap (λ ys. x ∷ ys) (take-length xs)

  -- Reading back what was written, where the write lies.
  pub take-drop-write_at :
      (blank : A) (i : ℕ) (vs xs : List A) → take (length vs) (drop i (write_at blank i vs xs)) ≡ vs
  unfolding write_at
  take-drop-write_at blank zero [] xs = refl
  take-drop-write_at blank zero (v ∷ vs) [] = ap (λ ws. v ∷ ws) (take-length vs)
  take-drop-write_at blank zero (v ∷ vs) (x ∷ xs) =
      ap (λ ws. v ∷ ws) (take-drop-write_at blank zero vs xs)
  take-drop-write_at blank (suc i) [] xs = refl
  take-drop-write_at blank (suc i) (v ∷ vs) [] = take-drop-write_at blank i (v ∷ vs) []
  take-drop-write_at blank (suc i) (v ∷ vs) (x ∷ xs) = take-drop-write_at blank i (v ∷ vs) xs

module _ {ℓ} {A : Type ℓ} where
  pub put_at-put_at :
      (blank : A) (i : ℕ) (v w : A) (xs : List A)
      → put_at blank i v (put_at blank i w xs) ≡ put_at blank i v xs
  unfolding put_at
  put_at-put_at blank zero v w [] = refl
  put_at-put_at blank zero v w (x ∷ xs) = refl
  put_at-put_at blank (suc i) v w [] = ap (λ ys. blank ∷ ys) (put_at-put_at blank i v w [])
  put_at-put_at blank (suc i) v w (x ∷ xs) = ap (λ ys. x ∷ ys) (put_at-put_at blank i v w xs)
