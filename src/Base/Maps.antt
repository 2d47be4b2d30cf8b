-- ===== src/Base/Maps.antt =====
-- `std::map` and `std::unordered_map`, as far as the code uses them.
use mathlib.Core.Bool.{Bool}
use mathlib.Core.Option.{Option, none, some}
use mathlib.Core.List.{List, [], ◌∷◌}
use databento_cpp.Base.Tests.{if◌then◌else◌}

-- A `std::map` or a `std::unordered_map`: its pairs, where no two have the same key.
module _ {K V : Type 0} where
  -- `find`, and `none` for `end()`.
  unfoldable pub find : (K → K → Bool) → K → List (K × V) → Option V
  find same k [] = none
  find same k ((j, v) ∷ map) = if same j k then some v else find same k map

  -- `emplace`, which changes nothing where the key is there.
  abbrev pub unless_found : Option V → List (K × V) → List (K × V) → List (K × V)
  unless_found none changed map = changed
  unless_found (some v) changed map = map

  unfoldable pub emplace : (K → K → Bool) → K → V → List (K × V) → List (K × V)
  emplace same k v map = unless_found (find same k map) ((k, v) ∷ map) map

  -- `it->second = v` for the pair that `find` found.
  unfoldable pub assign : (K → K → Bool) → K → V → List (K × V) → List (K × V)
  assign same k v [] = []
  assign same k v ((j, w) ∷ map) =
      let later = assign same k v map in if same j k then (j, v) ∷ map else (j, w) ∷ later
