-- ===== src/Common/Maps.antt =====
-- Python's `dict` under keys of any type with an equality test, as an association list in the order
-- of first insertion.
use mathlib.Core.Bool.{Bool}
use mathlib.Core.Option.{Option, none, some}
use mathlib.Core.List.{List, [], ◌∷◌}
use sahabino.Common.Tests.{if◌then◌else◌}

module _ {ℓ κ} {K : Type ℓ} {V : Type κ} where
  -- `d.get(k)`
  unfoldable pub get : (K → K → Bool) → K → List (K × V) → Option V
  get same k [] = none
  get same k ((j, w) ∷ d) = if same j k then some w else get same k d

  -- `d[k] = f(d[k])` for a `defaultdict` with the default v.
  unfoldable pub update : (K → K → Bool) → V → (V → V) → K → List (K × V) → List (K × V)
  update same v f k [] = (k, f v) ∷ []
  update same v f k ((j, w) ∷ d) = if same j k then (j, f w) ∷ d else (j, w) ∷ update same v f k d

  -- `d.setdefault(k, v)`
  abbrev pub set_default : (K → K → Bool) → K → V → List (K × V) → List (K × V)
  set_default same k v d = update same v (λ w. w) k d

  -- `d[k] = v`
  abbrev pub put : (K → K → Bool) → K → V → List (K × V) → List (K × V)
  put same k v d = update same v (λ w. v) k d

  -- `d.pop(k, None)`
  unfoldable pub delete : (K → K → Bool) → K → List (K × V) → List (K × V)
  delete same k [] = []
  delete same k ((j, w) ∷ d) = if same j k then d else (j, w) ∷ delete same k d

  -- `d.values()`
  unfoldable pub values : List (K × V) → List V
  values [] = []
  values ((j, w) ∷ d) = w ∷ values d
