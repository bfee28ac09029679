-- ===== src/Ramfs/StdMap.antt =====
-- std::map, as far as fuse-examples/ramfs/fuse-test.cpp uses it: a list of its entries in the order
-- of their keys.
pub mod Laws
pub mod Sorted
pub mod Values
pub mod Every
use Prim.Native.Nat.{Ordering}
use Prim.Native.Nat.Ordering.{lt, eq, gt}
use safs.Base.{ℕ, ◌≡◌, Bool, true, false, Option, none, some, List, [], ◌∷◌}

-- The order of the keys, as operator< gives it, in one test with three results.
pub record Order {ℓ} (K : Type ℓ) : Type ℓ where
  pub compare_keys : K → K → Ordering
  pub self : (k : K) → compare_keys k k ≡ eq
  pub only_self : (k j : K) → compare_keys k j ≡ eq → k ≡ j
  pub flip : (k j : K) → compare_keys k j ≡ gt → compare_keys j k ≡ lt
  pub chain : (k j i : K) → compare_keys k j ≡ lt → compare_keys j i ≡ lt → compare_keys k i ≡ lt

abbrev pub Map {ℓ κ} : Type ℓ → Type κ → Type (ℓ ⊔ κ)
Map K V = List (K × V)

module _ {ℓ κ} {K : Type ℓ} {V : Type κ} ⦃o : Order K⦄ where
  -- m.find(k), with the value that its iterator points to; `none` is m.end().
  unfoldable pub find : K → Map K V → Option V
  find k [] = none
  find k ((j, v) ∷ m) = elim (o.compare_keys k j) [ eq ↦ some v | _ ↦ find k m ]

  -- m[k] = v
  unfoldable pub assign : K → V → Map K V → Map K V
  assign k v [] = (k, v) ∷ []
  assign k v ((j, w) ∷ m) = elim (o.compare_keys k j) [
    | lt ↦ (k, v) ∷ (j, w) ∷ m
    | eq ↦ (k, v) ∷ m
    | gt ↦ (j, w) ∷ assign k v m
  ]

  -- m.erase(k)
  unfoldable pub erase_key : K → Map K V → Map K V
  erase_key k [] = []
  erase_key k ((j, w) ∷ m) = elim (o.compare_keys k j) [ eq ↦ m | _ ↦ (j, w) ∷ erase_key k m ]

  -- m.erase(m.find(k), m.end())
  unfoldable pub erase_from : K → Map K V → Map K V
  erase_from k [] = []
  erase_from k ((j, w) ∷ m) = elim (o.compare_keys k j) [ eq ↦ [] | _ ↦ (j, w) ∷ erase_from k m ]
