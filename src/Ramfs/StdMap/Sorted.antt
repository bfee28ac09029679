-- ===== src/Ramfs/StdMap/Sorted.antt =====
-- The order of the keys of a map through its operations.
use Prim.Native.Nat.Ordering.{lt}
use safs.Base.{◌≡◌, refl, none, some, arith, [], ◌∷◌}
use safs.Ramfs.StdMap.{Order, Map, find, assign, erase_key, erase_from}

module _ {ℓ κ} {K : Type ℓ} {V : Type κ} ⦃o : Order K⦄ where
  -- Every key is above `k`.
  abbrev pub AllAbove : K → Map K V → Type 0
  AllAbove k [] = Unit
  AllAbove k ((j, v) ∷ m) = (o.compare_keys k j ≡ lt) × AllAbove k m

  abbrev pub IsSorted : Map K V → Type 0
  IsSorted [] = Unit
  IsSorted ((k, v) ∷ m) = AllAbove k m × IsSorted m

  AllAbove-lt : (k j : K) (m : Map K V) → o.compare_keys k j ≡ lt → AllAbove j m → AllAbove k m
  AllAbove-lt k j [] less above = tt
  AllAbove-lt k j ((i, w) ∷ m) less (next, above) =
      (o.chain k j i less next, AllAbove-lt k j m less above)

  assign-AllAbove :
      (k j : K) (v : V) (m : Map K V)
      → o.compare_keys k j ≡ lt
      → AllAbove k m
      → AllAbove k (assign j v m)
  unfolding assign
  assign-AllAbove k j v [] less above = (less, tt)
  assign-AllAbove k j v ((i, w) ∷ m) less (next, above) =
      ground (arith, assign-AllAbove k j v m less above, o.only_self j i)

  pub assign-IsSorted : (k : K) (v : V) (m : Map K V) → IsSorted m → IsSorted (assign k v m)
  unfolding assign
  assign-IsSorted k v [] sorted = (tt, tt)
  assign-IsSorted k v ((j, w) ∷ m) (above, sorted) = ground (
    arith,
    o.only_self k j,
    o.flip k j,
    AllAbove-lt k j m,
    assign-AllAbove j k v m,
    assign-IsSorted k v m sorted,
  )

  erase_key-AllAbove : (k j : K) (m : Map K V) → AllAbove k m → AllAbove k (erase_key j m)
  unfolding erase_key
  erase_key-AllAbove k j [] above = tt
  erase_key-AllAbove k j ((i, w) ∷ m) (next, above) = ground (arith, erase_key-AllAbove k j m above)

  pub erase_key-IsSorted : (k : K) (m : Map K V) → IsSorted m → IsSorted (erase_key k m)
  unfolding erase_key
  erase_key-IsSorted k [] sorted = tt
  erase_key-IsSorted k ((j, w) ∷ m) (above, sorted) =
      ground (arith, erase_key-AllAbove j k m above, erase_key-IsSorted k m sorted)

  erase_from-AllAbove : (k j : K) (m : Map K V) → AllAbove k m → AllAbove k (erase_from j m)
  unfolding erase_from
  erase_from-AllAbove k j [] above = tt
  erase_from-AllAbove k j ((i, w) ∷ m) (next, above) =
      ground (arith, erase_from-AllAbove k j m above)

  pub erase_from-IsSorted : (k : K) (m : Map K V) → IsSorted m → IsSorted (erase_from k m)
  unfolding erase_from
  erase_from-IsSorted k [] sorted = tt
  erase_from-IsSorted k ((j, w) ∷ m) (above, sorted) =
      ground (arith, erase_from-AllAbove j k m above, erase_from-IsSorted k m sorted)

  -- A key below all others is not found.
  find-AllAbove : (k j : K) (m : Map K V) → o.compare_keys k j ≡ lt → AllAbove j m → find k m ≡ none
  unfolding find
  find-AllAbove k j [] less above = refl
  find-AllAbove k j ((i, w) ∷ m) less (next, above) =
      ground (arith, o.chain k j i less next, find-AllAbove k j m less above)

  pub assign_found :
      (k : K) (v : V) (m : Map K V) → IsSorted m → find k m ≡ some v → assign k v m ≡ m
  unfolding find assign
  assign_found k v [] sorted found = ground (arith, found)
  assign_found k v ((j, w) ∷ m) (above, sorted) found =
      ground (arith, o.only_self k j, find-AllAbove k j m, assign_found k v m sorted)
