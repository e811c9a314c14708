-- ===== src/Prelude/Dicts.antt =====
-- A Python `dict` as an association list in insertion order.
use mathlib.Core.Path.{◌≡◌, refl}
use mathlib.Core.List.{List, [], ◌∷◌}
use mathlib.Core.Option.{Option, none, some}
use native.Mathlib.Omega.{arith}
use astacus.Prelude.Tests.{if◌then◌else◌}
use astacus.Prelude.Keys.{Eq, ◌==◌}

module _ {ℓ κ} {K : Type ℓ} {V : Type κ} ⦃e : Eq K⦄ where
  -- `d.get(k)`
  abbrev pub lookup : List (K × V) → K → Option V
  lookup [] k = none
  lookup ((j, v) ∷ d) k = if j == k then some v else lookup d k

  -- `d[k] = v`: an existing key keeps its place, a new one goes to the end.
  abbrev pub insert : List (K × V) → K → V → List (K × V)
  insert [] k v = (k, v) ∷ []
  insert ((j, w) ∷ d) k v = if j == k then (j, v) ∷ d else (j, w) ∷ insert d k v

  -- `d.pop(k)`, `del d[k]`, for a key that is there
  abbrev pub remove : List (K × V) → K → List (K × V)
  remove [] k = []
  remove ((j, w) ∷ d) k = let rest = remove d k in if j == k then rest else (j, w) ∷ rest

  pub lookup-insert :
      (d : List (K × V)) (k : K) (v : V) (j : K)
      → lookup (insert d k v) j ≡ (if k == j then some v else lookup d j)
  lookup-insert [] k v j = refl
  lookup-insert ((i, w) ∷ d) k v j =
      ground (arith, lookup-insert d k v j, e.beq_iff i k, e.beq_iff k j, e.beq_iff i j)

  pub lookup-remove :
      (d : List (K × V)) (k j : K) → lookup (remove d k) j ≡ (if k == j then none else lookup d j)
  lookup-remove [] k j = ground arith
  lookup-remove ((i, w) ∷ d) k j =
      ground (arith, lookup-remove d k j, e.beq_iff i k, e.beq_iff k j, e.beq_iff i j)
