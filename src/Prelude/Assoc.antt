-- ===== src/Prelude/Assoc.antt =====
-- A Python `dict` with text keys: pairs in insertion order, where the first match counts.
use Prim.Native.String.{String}
use text.Mathlib.Text.{◌==◌}
use text.Mathlib.TextEquality.{eq_iff}
use mathlib.Core.Path.{◌≡◌, refl}
use mathlib.Core.Option.{Option, none, some}
use mathlib.Core.List.{List, [], ◌∷◌, map}
use native.Mathlib.Omega.{arith}
use perpetua_core.Prelude.Tests.{if◌then◌else◌}

abbrev pub Dict {ℓ} : Type ℓ → Type ℓ
Dict V = List (String × V)

module _ {ℓ} {V : Type ℓ} where
  -- `d.get(k)`
  unfoldable pub lookup : String → Dict V → Option V
  lookup k [] = none
  lookup k ((j, v) ∷ d) = if j == k then some v else lookup k d

  -- `d[k] = v`: an existing key keeps its place.
  unfoldable pub assign : String → V → Dict V → Dict V
  assign k v [] = (k, v) ∷ []
  assign k v ((j, w) ∷ d) = if j == k then (j, v) ∷ d else (j, w) ∷ assign k v d

  -- `d.update(e)`, and `{**d, **e}`
  unfoldable pub update : Dict V → Dict V → Dict V
  update d [] = d
  update d ((k, v) ∷ e) = update (assign k v d) e

  abbrev pub keys : Dict V → List String
  keys d = map (λ p. p.0) d

  pub lookup-assign :
      (k j : String) (v : V) (d : Dict V)
      → lookup j (assign k v d) ≡ (if k == j then some v else lookup j d)
  unfolding lookup assign
  lookup-assign k j v [] = refl
  lookup-assign k j v ((i, w) ∷ d) =
      ground (arith, eq_iff k j, eq_iff i k, eq_iff i j, lookup-assign k j v d)

-- `none` where the right operand has the key decides nothing: the last write wins.
module _ {ℓ} {V : Type ℓ} where
  abbrev pub or_else : Option V → Option V → Option V
  or_else none o = o
  or_else (some v) o = some v

  -- The value under `k` after the writes of `e`, where `o` was there before.
  abbrev pub last_write : String → Dict V → Option V → Option V
  last_write k [] o = o
  last_write k ((j, v) ∷ e) o = last_write k e (if j == k then some v else o)

  pub lookup-update :
      (k : String) (d e : Dict V) → lookup k (update d e) ≡ last_write k e (lookup k d)
  unfolding update
  lookup-update k d [] = refl
  lookup-update k d ((j, v) ∷ e) = rw (lookup-update k (assign j v d) e) (rw lookup-assign)
