-- ===== src/Base/Dict.antt =====
-- Files by name: a dictionary in insertion order.
use mathlib.Core.Path.{◌≡◌, refl}
use mathlib.Core.Option.{Option, none, some}
use mathlib.Core.List.{List, [], ◌∷◌}
use native.Mathlib.Omega.{arith}
use safs.Base.Tests.{if◌then◌else◌}
use safs.Base.Text.{Name, same_name, same_name_iff}

module _ {ℓ} {V : Type ℓ} where
  unfoldable pub lookup : Name → List (Name × V) → Option V
  unfolding same_name
  lookup k [] = none
  lookup k ((j, v) ∷ d) = if same_name j k then some v else lookup k d

  unfoldable pub insert : Name → V → List (Name × V) → List (Name × V)
  unfolding same_name
  insert k v [] = (k, v) ∷ []
  insert k v ((j, w) ∷ d) = if same_name j k then (k, v) ∷ d else (j, w) ∷ insert k v d

  unfoldable pub erase : Name → List (Name × V) → List (Name × V)
  unfolding same_name
  erase k [] = []
  erase k ((j, w) ∷ d) = let others = erase k d in if same_name j k then others else (j, w) ∷ others

  pub lookup-insert :
      (k j : Name) (v : V) (d : List (Name × V))
      → lookup j (insert k v d) ≡ (if same_name k j then some v else lookup j d)
  unfolding lookup insert
  lookup-insert k j v [] = refl
  lookup-insert k j v ((i, w) ∷ d) =
      ground (arith, same_name_iff k j, same_name_iff i k, same_name_iff i j, lookup-insert k j v d)

  pub lookup-erase :
      (k j : Name) (d : List (Name × V))
      → lookup j (erase k d) ≡ (if same_name k j then none else lookup j d)
  unfolding lookup erase
  lookup-erase k j [] = ground arith
  lookup-erase k j ((i, w) ∷ d) =
      ground (arith, same_name_iff k j, same_name_iff i k, same_name_iff i j, lookup-erase k j d)

  pub erase-insert : (k : Name) (v : V) (d : List (Name × V)) → erase k (insert k v d) ≡ erase k d
  unfolding erase insert
  erase-insert k v [] = ground (arith, same_name_iff k k)
  erase-insert k v ((i, w) ∷ d) =
      ground (arith, same_name_iff i k, same_name_iff k k, erase-insert k v d)
