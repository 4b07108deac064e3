-- ===== src/Delta/Canonical.antt =====
-- `canonicalArchitecture` and `canonicalArchitectureJson` of architecture-delta.mjs, of diagrams that
-- name no repository: the text of a diagram that its hash is taken of.
pub mod Reordered
mod Tests
use salience.Base.{
  ℕ, Text, codes, text_eq, List, [], ◌∷◌, ◌++◌, Bool, true, false, map, if◌then◌else◌,
}
use salience.Json.{
  Value, undefined, null, boolean, integer, fraction, string, array, object, Items, nil, Fields,
  end, field, object_of, pos, get,
}
use salience.Json.Print.{to_text}
use salience.Delta.{sorted_by, canonical, as_items, sorted_sources, sorted_wraps}
use salience.Delta.Index.{Architecture, boundary_key}

-- `{ ...fields, [key]: value }`
unfoldable pub with_field : Text → Value → Fields → Fields
with_field key v end = field key v end
with_field key v (field k w fs) =
    let rest = with_field key v fs in if text_eq k key then field k v fs else field k w rest

-- `delete fields[key]`
unfoldable pub without_field : Text → Fields → Fields
without_field key end = end
without_field key (field k v fs) =
    let rest = without_field key fs in if text_eq k key then rest else field k v rest

-- The fields that `...value` spreads. A diagram's elements and its `meta` are objects.
abbrev pub spread : Value → Fields
spread (object fs) = fs
spread _ = end

-- Whether `value` holds in a condition; a fraction is not zero.
unfoldable pub is_truthy : Value → Bool
is_truthy undefined = false
is_truthy null = false
is_truthy (boolean b) = b
is_truthy (integer (pos ℕ.zero)) = false
is_truthy (string []) = false
is_truthy _ = true

-- `Array.isArray(component.sources) ? { sources: sortedObjects(component.sources) } : {}`
abbrev pub with_sources : Value → Fields → Fields
with_sources (array vs) fs = with_field (codes "sources") (sorted_sources (array vs)) fs
with_sources _ fs = fs

-- `normalizeComponent`
unfoldable pub normalize_component : Value → Value
normalize_component component =
    object (with_sources (get (codes "sources") component) (spread component))

-- `sorted(boundary.wraps || [])`; `wraps` is an array where it is there.
abbrev pub wraps_there : Value → Value
wraps_there (array vs) = sorted_wraps (array vs)
wraps_there _ = array nil

-- `normalizeBoundary`
unfoldable pub normalize_boundary : Value → Value
normalize_boundary boundary =
    object
      (with_field (codes "wraps") (wraps_there (get (codes "wraps") boundary)) (spread boundary))

-- `String(connection.id || '')`
unfoldable pub connection_key : Value → Text
connection_key connection =
    let id = get (codes "id") connection in if is_truthy id then to_text id else []

abbrev pub component_key : Value → Text
component_key component = to_text (get (codes "id") component)

abbrev pub sorted_components : List Value → Value
sorted_components components =
    array (as_items (sorted_by component_key (map normalize_component components)))

abbrev pub sorted_boundaries : List Value → Value
sorted_boundaries boundaries =
    array (as_items (sorted_by boundary_key (map normalize_boundary boundaries)))

abbrev pub sorted_connections : List Value → Value
sorted_connections connections = array (as_items (sorted_by connection_key connections))

-- `...(value ? { [key]: value } : {})`
abbrev pub entry_if : Bool → Text → Value → List (Text × Value)
entry_if true key v = (key, v) ∷ []
entry_if false key v = []

-- The object that `canonicalArchitecture` returns.
abbrev pub canonical_object :
    (version type meta layout cards components boundaries connections : Value) → Value
canonical_object version type meta layout cards components boundaries connections = object (
    object_of (
      (codes "schema_version", version)
      ∷ (codes "diagram_type", type)
      ∷ (codes "meta", object (without_field (codes "output") (spread meta)))
      ∷ (entry_if (is_truthy layout) (codes "layout") layout
          ++ ((codes "components", components)
              ∷ (codes "boundaries", boundaries)
              ∷ (codes "connections", connections)
              ∷ entry_if (is_truthy cards) (codes "cards") cards))))

-- `canonicalArchitecture`
unfoldable pub canonical_architecture : Architecture → Value
canonical_architecture diagram =
    canonical_object diagram.schema_version diagram.diagram_type diagram.meta diagram.layout
      diagram.cards (sorted_components diagram.components_there)
      (sorted_boundaries diagram.boundaries_there) (sorted_connections diagram.connections_there)

-- `canonicalArchitectureJson`
unfoldable pub canonical_architecture_json : Architecture → Text
canonical_architecture_json diagram = canonical (canonical_architecture diagram)
