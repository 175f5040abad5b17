-- ===== src/Common/Maps.antt =====
-- `Map` as an association list in insertion order: `set` keeps the place of a key that is there.
use mathlib.Core.Path.{◌≡◌, refl}
use mathlib.Core.List.{List, [], ◌∷◌}
use mathlib.Core.Option.{Option, none, some}
use native.Mathlib.Omega.{arith}
use messaging_poc.Common.Tests.{if◌then◌else◌}
use messaging_poc.Common.Equality.{StrictEq, ◌==◌}

module _ {ℓ κ} {K : Type ℓ} {V : Type κ} ⦃e : StrictEq K⦄ where
  abbrev pub lookup : List (K × V) → K → Option V
  lookup [] k = none
  lookup ((j, v) ∷ m) k = if j == k then some v else lookup m k

  abbrev pub insert : List (K × V) → K → V → List (K × V)
  insert [] k v = (k, v) ∷ []
  insert ((j, w) ∷ m) k v = if j == k then (j, v) ∷ m else (j, w) ∷ insert m k v

  -- `Map.delete`
  abbrev pub delete : List (K × V) → K → List (K × V)
  delete [] k = []
  delete ((j, w) ∷ m) k = if j == k then delete m k else (j, w) ∷ delete m k

  pub lookup-insert :
      (m : List (K × V)) (k j : K) (v : V)
      → lookup (insert m k v) j ≡ (if k == j then some v else lookup m j)
  lookup-insert [] k j v = refl
  lookup-insert ((i, w) ∷ m) k j v =
      ground (arith, e.test_iff k j, e.test_iff i k, e.test_iff i j, lookup-insert m k j v)

  pub lookup-delete :
      (m : List (K × V)) (k j : K) → lookup (delete m k) j ≡ (if k == j then none else lookup m j)
  lookup-delete [] k j = ground arith
  lookup-delete ((i, w) ∷ m) k j =
      ground (arith, e.test_iff k j, e.test_iff i k, e.test_iff i j, lookup-delete m k j)
