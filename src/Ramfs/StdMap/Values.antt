-- ===== src/Ramfs/StdMap/Values.antt =====
-- The operations and a function on the values.
use mathlib.Core.Option
use safs.Base.{◌≡◌, refl, arith, [], ◌∷◌}
use safs.Ramfs.StdMap.{Order, Map, find, assign, erase_key}

module _ {ℓ κ μ} {K : Type ℓ} {V : Type κ} {W : Type μ} (f : V → W) where
  abbrev pub map_values : Map K V → Map K W
  map_values [] = []
  map_values ((k, v) ∷ m) = (k, f v) ∷ map_values m

module _ {ℓ κ μ} {K : Type ℓ} {V : Type κ} {W : Type μ} (f : V → W) ⦃o : Order K⦄ where
  pub find-map_values : (k : K) (m : Map K V) → find k (map_values f m) ≡ Option.map f (find k m)
  unfolding find
  find-map_values k [] = refl
  find-map_values k ((j, v) ∷ m) = ground (arith, find-map_values k m)

  pub assign-map_values :
      (k : K) (v : V) (m : Map K V) → assign k (f v) (map_values f m) ≡ map_values f (assign k v m)
  unfolding assign
  assign-map_values k v [] = refl
  assign-map_values k v ((j, w) ∷ m) = ground (arith, assign-map_values k v m)

  pub erase_key-map_values :
      (k : K) (m : Map K V) → erase_key k (map_values f m) ≡ map_values f (erase_key k m)
  unfolding erase_key
  erase_key-map_values k [] = refl
  erase_key-map_values k ((j, w) ∷ m) = ground (arith, erase_key-map_values k m)
