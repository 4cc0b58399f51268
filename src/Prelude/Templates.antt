-- ===== src/Prelude/Templates.antt =====
-- Template literals, and `join`.
use Prim.Native.String
use Prim.Native.String.{String}
use mathlib.Core.List.{List, [], ◌∷◌}

-- The parts of a template literal, joined.
unfoldable pub template : List String → String
template [] = ""
template (s ∷ parts) = String.◌++◌ s (template parts)

-- `parts.join(separator)`.
unfoldable pub join : String → List String → String
join separator [] = ""
join separator (s ∷ []) = s
join separator (s ∷ t ∷ parts) = String.◌++◌ s (String.◌++◌ separator (join separator (t ∷ parts)))
