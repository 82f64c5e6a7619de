-- ===== src/Prelude/Maps.antt =====
-- A Go `map[string]V`, as an association list.

use Prim.Native.String.{String}
use mathlib.Core.List.{List, [], ◌∷◌}
use mathlib.Core.Option.{Option, none, some}
use mathlib.Core.Path.{◌≡◌, refl}
use native.Mathlib.Omega.{arith}
use text.Mathlib.Text.{◌==◌}
use text.Mathlib.TextEquality.{eq_iff}
use tracelab.Prelude.Tests.{if◌then◌else◌}

abbrev pub Assoc {ℓ} : Type ℓ → Type ℓ
Assoc V = List (String × V)

module _ {ℓ} {V : Type ℓ} where
  -- `m[k]`
  unfoldable pub lookup : String → Assoc V → Option V
  lookup k [] = none
  lookup k ((j, v) ∷ m) = if j == k then some v else lookup k m

  -- `m[k] = v`
  unfoldable pub put : String → V → Assoc V → Assoc V
  put k v [] = (k, v) ∷ []
  put k v ((j, w) ∷ m) = if j == k then (k, v) ∷ m else (j, w) ∷ put k v m

  -- `delete(m, k)`
  unfoldable pub remove : String → Assoc V → Assoc V
  remove key [] = []
  remove key ((name, v) ∷ m) =
      let others = remove key m in if name == key then others else (name, v) ∷ others

  pub lookup-put :
      (k j : String) (v : V) (m : Assoc V)
      → lookup j (put k v m) ≡ (if k == j then some v else lookup j m)
  unfolding lookup put
  lookup-put k j v [] = refl
  lookup-put k j v ((i, w) ∷ m) =
      ground (arith, eq_iff k j, eq_iff i j, eq_iff i k, lookup-put k j v m)

  pub lookup-remove :
      (key name : String) (m : Assoc V)
      → lookup name (remove key m) ≡ (if key == name then none else lookup name m)
  unfolding lookup remove
  lookup-remove key name [] = ground arith
  lookup-remove key name ((i, w) ∷ m) =
      let rest = lookup-remove key name m in
      ground (arith, rest, eq_iff key name, eq_iff i name, eq_iff i key)

  -- The values, in some order.
  abbrev pub values : Assoc V → List V
  values [] = []
  values ((j, v) ∷ m) = v ∷ values m
