-- ===== src/Delta/Tests.antt =====
-- Two architectures with a component that moved and one that was added.
use salience.Base.{
  ℕ, ◌≡◌, refl, ◌↔◌, Text, codes, List, [], ◌∷◌, ◌++◌, Bool, true, false, Option, none, some, map,
}
use salience.Base.Result.{Result, ok, err}
use salience.Json.{Value, undefined, integer, pos, string, object, object_of}
use salience.Delta.{
  Index, Kind, component, connection, Change, Status, moved, added, geometry, semantic, entity,
  compare_entities,
}
use salience.Delta.Unchanged.{IsUnchanged, compare_entities_iff}
use salience.Delta.Index.{
  DeltaError, components, Architecture, Indexes, Changes, duplicate_stable_id,
  boundary_key_ambiguous, stable_index, boundary_index, indexes_of, compared_changes,
}
use salience.Delta.Index.Map.{indexed}
use salience.Delta.Index.Refined.{
  to_option, stable_key, frame_key, stable_index-indexed, boundary_index-indexed,
}

abbrev element : Text → Text → ℕ → Value
element id label row = object (
    object_of (
      (codes "id", string id)
      ∷ (codes "label", string label)
      ∷ (codes "row", integer (pos row))
      ∷ []))

abbrev keyed : Text → Text → ℕ → Text × Value
keyed id label row = (id, element id label row)

abbrev base_index : Index
base_index = keyed (codes "b") (codes "B") 1 ∷ keyed (codes "a") (codes "A") 0 ∷ []

abbrev head_index : Index
head_index =
    keyed (codes "a") (codes "A") 0
    ∷ keyed (codes "b") (codes "B") 3
    ∷ keyed (codes "c") (codes "C") 0
    ∷ []

abbrev found : List (Text × Status)
found = map (λ c. (c.id, c.status)) (compare_entities base_index head_index component)

compare_entities_iff_example :
    (compare_entities base_index head_index component ≡ [])
    ↔ ((id : Text) → IsUnchanged component (entity base_index id) (entity head_index id))
compare_entities_iff_example = compare_entities_iff component base_index head_index

abbrev architecture : Architecture
architecture = record {
  schema_version = integer (pos 1);
  diagram_type = string (codes "architecture");
  meta = object (object_of ((codes "title", string (codes "T")) ∷ []));
  layout = undefined;
  cards = undefined;
  components_there = element (codes "b") (codes "B") 1 ∷ element (codes "a") (codes "A") 0 ∷ [];
  connections_there = element (codes "a-b") (codes "calls") 0 ∷ [];
  boundaries_there = [];
}

abbrev twice : Result DeltaError Index
twice =
    stable_index components
      (element (codes "a") (codes "A") 0 ∷ element (codes "a") (codes "B") 0 ∷ [])

abbrev own_indexes : Indexes
own_indexes = record {
  components = keyed (codes "b") (codes "B") 1 ∷ keyed (codes "a") (codes "A") 0 ∷ [];
  connections = keyed (codes "a-b") (codes "calls") 0 ∷ [];
  boundaries = [];
}

found_run : found ≡ (codes "b", moved) ∷ (codes "c", added) ∷ []
unfolding compare_entities salience.Delta.changes_of entity salience.Delta.field_changes
    salience.Delta.group_changes salience.Delta.normalized_field salience.Delta.are_equal
    salience.Delta.canonical salience.Delta.sorted_by salience.Delta.status_for
    salience.Base.text_eq salience.Base.includes salience.Base.Order.compare_list salience.Json.get
    salience.Json.get_field salience.Json.Print.stringify salience.Json.Print.quoted
    salience.Json.Print.decimal
found_run = refl

twice_run : twice ≡ err (duplicate_stable_id components (codes "a" ∷ []))
unfolding stable_index salience.Delta.Index.scan_items salience.Delta.sorted_by salience.Json.get
    salience.Json.as_text salience.Base.text_eq salience.Base.includes
    salience.Base.Order.compare_list
twice_run = refl

own_run : indexes_of architecture architecture ≡ ok (own_indexes, own_indexes)
unfolding indexes_of stable_index salience.Delta.Index.boundary_index
    salience.Delta.Index.scan_boundaries salience.Delta.Index.scan_items salience.Json.get
    salience.Json.as_text salience.Base.text_eq salience.Base.includes
own_run = refl

component_index_run :
    stable_index components architecture.components_there ≡ ok own_indexes.components
unfolding stable_index salience.Delta.Index.scan_items salience.Json.get salience.Json.as_text
    salience.Base.text_eq salience.Base.includes
component_index_run = refl

stable_index-indexed_example :
    to_option (stable_index components architecture.components_there)
    ≡ indexed stable_key architecture.components_there []
stable_index-indexed_example = stable_index-indexed components architecture.components_there

abbrev frame : Text → Value
frame label =
    object (object_of ((codes "kind", string (codes "zone")) ∷ (codes "label", string label) ∷ []))

boundary_index-indexed_example :
    to_option (boundary_index (frame (codes "X") ∷ frame (codes "Y") ∷ []))
    ≡ indexed frame_key (frame (codes "X") ∷ frame (codes "Y") ∷ []) []
boundary_index-indexed_example = boundary_index-indexed (frame (codes "X") ∷ frame (codes "Y") ∷ [])

abbrev doubled : Result DeltaError Index
doubled = boundary_index (frame (codes "X") ∷ frame (codes "X") ∷ [])

doubled_run : doubled ≡ err (boundary_key_ambiguous (codes "zone:X" ∷ []))
unfolding boundary_index salience.Delta.Index.scan_boundaries salience.Delta.sorted_by
    salience.Json.get salience.Json.get_field salience.Json.Print.to_text salience.Base.text_eq
    salience.Base.includes salience.Base.Order.compare_list
doubled_run = refl
