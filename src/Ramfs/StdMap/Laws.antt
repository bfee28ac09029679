-- ===== src/Ramfs/StdMap/Laws.antt =====
-- What find gives after the map was changed.
use Prim.Native.Nat.Ordering.{eq}
use safs.Base.{◌≡◌, refl, arith, some, [], ◌∷◌}
use safs.Ramfs.StdMap.{Order, Map, find, assign}

module _ {ℓ κ} {K : Type ℓ} {V : Type κ} ⦃o : Order K⦄ where
  pub find-assign :
      (j k : K) (v : V) (m : Map K V)
      → find j (assign k v m) ≡ elim (o.compare_keys j k) [ eq ↦ some v | _ ↦ find j m ]
  unfolding find assign
  find-assign j k v [] = refl
  find-assign j k v ((i, w) ∷ m) =
      ground (arith, o.only_self k i, o.only_self j k, o.self k, find-assign j k v m)
