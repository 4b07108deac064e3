-- ===== src/Delta/Samples.antt =====
-- A diagram with two components, and the same with its components in another order, or moved.
use mathlib.Core.List.{Permᴰ}
use salience.Base.{ℕ, refl, Text, codes, List, [], ◌∷◌}
use salience.Base.Result.{Result}
use salience.Json.{Value, undefined, integer, pos, string, object, object_of}
use salience.Delta.{compare_entities}
use salience.Delta.Index.{DeltaError, Architecture}
use salience.Delta.Compare.{Receipt, compare_architecture}
use salience.Delta.Compare.Reordered.{IsReordering}

abbrev pub element : Text → Text → ℕ → Value
element id label row = object (
    object_of (
      (codes "id", string id)
      ∷ (codes "label", string label)
      ∷ (codes "row", integer (pos row))
      ∷ []))

abbrev pub a0 : Value
a0 = element (codes "a") (codes "A") 0

abbrev pub architecture : List Value → Architecture
architecture elements = record {
  schema_version = integer (pos 1);
  diagram_type = string (codes "architecture");
  meta = object (object_of ((codes "title", string (codes "T")) ∷ []));
  layout = undefined;
  cards = undefined;
  components_there = elements;
  connections_there = element (codes "a-b") (codes "calls") 0 ∷ [];
  boundaries_there = [];
}

abbrev pub before : Architecture
before = architecture (element (codes "b") (codes "B") 1 ∷ a0 ∷ [])

abbrev pub before_reordered : Architecture
before_reordered = architecture (a0 ∷ element (codes "b") (codes "B") 1 ∷ [])

abbrev pub after : Architecture
after = architecture (a0 ∷ element (codes "b") (codes "B") 3 ∷ [])

pub before-IsReordering : IsReordering before before_reordered
before-IsReordering = record {
  schema_version = refl;
  diagram_type = refl;
  meta = refl;
  layout = refl;
  cards = refl;
  components = Permᴰ.swap refl refl;
  connections = Permᴰ.cons refl Permᴰ.nil;
  boundaries = Permᴰ.nil;
}

-- To run `compare_architecture` in a test, unfold this.
unfoldable pub compare_run : Architecture → Architecture → Result DeltaError Receipt
unfolding compare_architecture salience.Delta.Compare.require_comparable_shape
    salience.Delta.Compare.presentation_changed salience.Delta.Compare.tally
    salience.Delta.Compare.bump salience.Delta.Index.indexes_of salience.Delta.Index.stable_index
    salience.Delta.Index.boundary_index salience.Delta.Index.scan_boundaries
    salience.Delta.Index.scan_items salience.Delta.Index.compared_changes compare_entities
    salience.Delta.changes_of salience.Delta.entity salience.Delta.field_changes
    salience.Delta.group_changes salience.Delta.normalized_field salience.Delta.are_equal
    salience.Delta.canonical salience.Delta.sorted_by salience.Delta.status_for
    salience.Base.text_eq salience.Base.includes salience.Base.Order.compare_list salience.Json.get
    salience.Json.get_field salience.Json.as_text salience.Json.is_one salience.Json.is_text
    salience.Json.Print.stringify salience.Json.Print.quoted salience.Json.Print.decimal
compare_run = compare_architecture
