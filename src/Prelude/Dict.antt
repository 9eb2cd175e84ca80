-- ===== src/Prelude/Dict.antt =====
-- Python dictionaries with text keys, as association lists in insertion order.
use Prim.Native.String.{String}
use mathlib.Core.Path.{◌≡◌, refl}
use mathlib.Core.Option.{Option, none, some}
use mathlib.Core.List.{List, [], ◌∷◌}
use native.Mathlib.Omega.{arith}
use text.Mathlib.TextEquality.{eq_iff}
use data_nexus.Prelude.Tests.{◌==◌, if◌then◌else◌, get_or, string_eq}

abbrev pub Dict {ℓ} : Type ℓ → Type ℓ
Dict V = List (String × V)

module _ {ℓ} {V : Type ℓ} where
  -- `d.get(k)`
  unfoldable pub lookup : String → Dict V → Option V
  lookup k [] = none
  lookup k ((j, v) ∷ d) = if j == k then some v else lookup k d

  -- `d[k] = v`
  unfoldable pub insert : String → V → Dict V → Dict V
  insert k v [] = (k, v) ∷ []
  insert k v ((j, w) ∷ d) = if j == k then (k, v) ∷ d else (j, w) ∷ insert k v d

  -- `d.get(k, default)`, and the read of a `defaultdict`
  abbrev pub lookup_or : V → String → Dict V → V
  lookup_or default k d = get_or (lookup k d) default

  -- a change of every value
  unfoldable pub map_values : (V → V) → Dict V → Dict V
  map_values f [] = []
  map_values f ((j, v) ∷ d) = (j, f v) ∷ map_values f d

  pub lookup-insert :
      (k j : String) (v : V) (d : Dict V)
      → lookup j (insert k v d) ≡ (if k == j then some v else lookup j d)
  unfolding lookup insert
  lookup-insert k j v [] = refl
  lookup-insert k j v ((i, w) ∷ d) =
      ground (arith, eq_iff k j, eq_iff i k, eq_iff i j, lookup-insert k j v d)

  pub lookup_or-map_values :
      (f : V → V) (default : V) (k : String) (d : Dict V)
      → f default ≡ default
      → lookup_or default k (map_values f d) ≡ f (lookup_or default k d)
  unfolding lookup map_values
  lookup_or-map_values f default k [] h = ground arith
  lookup_or-map_values f default k ((j, v) ∷ d) h =
      ground (arith, lookup_or-map_values f default k d)
