-- ===== src/Delta/Canonical/Tests.antt =====
-- Canonical texts of two diagrams.
use salience.Base.{◌≡◌, refl, Text, codes, List, [], ◌∷◌}
use salience.Base.Result.{ok}
use salience.Json.{Value, string, array, array_of, object, object_of}
use salience.Delta.{Index}
use salience.Delta.Index.{stable_index, boundary_index, components, connections}
use salience.Delta.Samples.{a0, element, before, before_reordered, before-IsReordering, compare_run}
use salience.Delta.Canonical.{
  normalize_component, normalize_boundary, canonical_architecture, canonical_architecture_json,
}
use salience.Delta.Canonical.Reordered.{canonical_architecture_json_reordered}

components_run :
    stable_index components before.components_there
    ≡ ok ((codes "b", element (codes "b") (codes "B") 1) ∷ (codes "a", a0) ∷ [])
unfolding compare_run
components_run = refl

connections_run :
    stable_index connections before.connections_there
    ≡ ok ((codes "a-b", element (codes "a-b") (codes "calls") 0) ∷ [])
unfolding compare_run
connections_run = refl

boundaries_run : boundary_index before.boundaries_there ≡ ok []
unfolding compare_run
boundaries_run = refl

canonical_architecture_json_reordered_example :
    canonical_architecture_json before ≡ canonical_architecture_json before_reordered
canonical_architecture_json_reordered_example =
    canonical_architecture_json_reordered before before_reordered
      ((codes "b", element (codes "b") (codes "B") 1) ∷ (codes "a", a0) ∷ [])
      ((codes "a-b", element (codes "a-b") (codes "calls") 0) ∷ []) [] before-IsReordering
      components_run connections_run boundaries_run

abbrev frame : List Text → Value
frame wraps = object (
    object_of (
      (codes "kind", string (codes "zone"))
      ∷ (codes "wraps", array (array_of wraps))
      ∷ (codes "label", string (codes "Z"))
      ∷ []))

-- What a boundary wraps is sorted.
wraps_run :
    normalize_boundary (frame (codes "b" ∷ codes "a" ∷ [])) ≡ frame (codes "a" ∷ codes "b" ∷ [])
unfolding compare_run normalize_boundary salience.Delta.Canonical.with_field salience.Json.items
    salience.Json.Print.to_text
wraps_run = refl
