-- ===== src/Base/Dicts.antt =====
-- Python's `dict` with text keys: an association list in insertion order. A write to a key that
-- is there keeps its place.
use Prim.Native.String.{String}
use mathlib.Core.Path.{◌≡◌, refl}
use mathlib.Core.List.{List, [], ◌∷◌, ◌++◌}
use mathlib.Core.Option.{Option, none, some}
use native.Mathlib.Omega.{arith}
use text.Mathlib.TextEquality.{eq_iff}
use scooling_lab.Base.Tests.{str_eq, if◌then◌else◌}

abbrev pub Dict {ℓ} : Type ℓ → Type ℓ
Dict V = List (String × V)

module _ {ℓ} {V : Type ℓ} where
  -- `d.get(k)`
  unfoldable pub lookup : String → Dict V → Option V
  lookup k [] = none
  lookup k ((j, v) ∷ d) = let rest = lookup k d in if str_eq j k then some v else rest

  -- `d[k] = v`
  unfoldable pub insert : String → V → Dict V → Dict V
  insert k v [] = (k, v) ∷ []
  insert k v ((j, w) ∷ d) =
      let rest = insert k v d in if str_eq j k then (j, v) ∷ d else (j, w) ∷ rest

  -- `d.values()`
  abbrev pub values : Dict V → List V
  values [] = []
  values ((j, v) ∷ d) = v ∷ values d

  pub lookup-insert :
      (k j : String) (v : V) (d : Dict V)
      → lookup j (insert k v d) ≡ (if str_eq k j then some v else lookup j d)
  unfolding lookup insert
  lookup-insert k j v [] = refl
  lookup-insert k j v ((i, w) ∷ d) =
      ground (arith, lookup-insert k j v d, eq_iff i k, eq_iff i j, eq_iff k j)

  -- a new key goes to the end
  pub insert_new :
      (k : String) (v : V) (d : Dict V) → lookup k d ≡ none → insert k v d ≡ d ++ (k, v) ∷ []
  unfolding lookup insert
  insert_new k v [] h = refl
  insert_new k v ((i, w) ∷ d) h = ground (arith, insert_new k v d)
