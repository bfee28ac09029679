-- ===== src/Ramfs/StdMap/Every.antt =====
-- A predicate that all values of a map satisfy.
use safs.Base.{◌≡◌, arith, some, [], ◌∷◌}
use safs.Ramfs.StdMap.{Order, Map, find, assign, erase_key}

module _ {ℓ κ μ} {K : Type ℓ} {V : Type κ} (P : V → Type μ) where
  abbrev pub Every : Map K V → Type μ
  Every [] = Unit
  Every ((k, v) ∷ m) = P v × Every m

module _ {ℓ κ μ} {K : Type ℓ} {V : Type κ} (P : V → Type μ) ⦃o : Order K⦄ where
  pub find-Every : (k : K) (v : V) (m : Map K V) → Every P m → find k m ≡ some v → P v
  unfolding find
  find-Every k v [] all found = ground (arith, found)
  find-Every k v ((j, w) ∷ m) (held, all) found = ground (arith, find-Every k v m all)

  pub assign-Every : (k : K) (v : V) (m : Map K V) → P v → Every P m → Every P (assign k v m)
  unfolding assign
  assign-Every k v [] holds all = (holds, tt)
  assign-Every k v ((j, w) ∷ m) holds (held, all) = ground (arith, assign-Every k v m holds all)

  pub erase_key-Every : (k : K) (m : Map K V) → Every P m → Every P (erase_key k m)
  unfolding erase_key
  erase_key-Every k [] all = tt
  erase_key-Every k ((j, w) ∷ m) (held, all) = ground (arith, erase_key-Every k m all)
