-- ===== src/Delta/Compare/Tests.antt =====
-- Receipts of two architectures.
use mathlib.Core.List.{Permᴰ}
use salience.Base.{some, ◌≡◌, refl, codes, [], ◌∷◌, false, length}
use salience.Base.Result.{ok, err}
use salience.Json.{Value, undefined, integer, pos, string, object, object_of}
use salience.Delta.{
  Index, Kind, component, connection, boundary, Status, geometry, added, changed, evidence_changed,
  rerouted, moved, geometry_changed, removed, Change, compare_entities,
}
use salience.Delta.Index.{base_side, schema_version_mismatch}
use salience.Delta.Samples.{
  a0, element, before, before_reordered, after, before-IsReordering, compare_run,
}
use salience.Delta.Compare.{Receipt, Summary, compare_architecture, summary_for, shape_of}
use salience.Delta.Compare.Summary.{total, count_at, occurrences, summary_for-total}
use salience.Delta.Compare.Unvaried.{unvaried, compare_architecture_self}
use salience.Delta.Compare.Reordered.{compare_architecture_reordered}

abbrev move : Change
move = record {
  id = codes "b";
  base = some (element (codes "b") (codes "B") 1);
  head = some (element (codes "b") (codes "B") 3);
  status = moved;
  classifications = geometry ∷ [];
  changed_fields = codes "/row" ∷ [];
}

abbrev zero_counts : Summary
zero_counts = (added, 0) ∷ (changed, 0) ∷ (removed, 0) ∷ (rerouted, 0) ∷ []

abbrev move_receipt : Receipt
move_receipt = record {
  changes = record { components = move ∷ []; connections = []; boundaries = [] };
  component_summary =
      (added, 0) ∷ (changed, 0) ∷ (evidence_changed, 0) ∷ (removed, 0) ∷ (moved, 1) ∷ [];
  connection_summary = zero_counts;
  boundary_summary = (added, 0) ∷ (changed, 0) ∷ (removed, 0) ∷ (geometry_changed, 0) ∷ [];
  presentation_differs = false;
}

move_run : compare_architecture before after ≡ ok move_receipt
unfolding compare_architecture compare_run
move_run = refl

compare_architecture_reordered_example :
    compare_architecture before_reordered after ≡ ok move_receipt
compare_architecture_reordered_example =
    compare_architecture_reordered before before_reordered after after move_receipt
      before-IsReordering
      (record {
        schema_version = refl;
        diagram_type = refl;
        meta = refl;
        layout = refl;
        cards = refl;
        components = Permᴰ.cons refl (Permᴰ.cons refl Permᴰ.nil);
        connections = Permᴰ.cons refl Permᴰ.nil;
        boundaries = Permᴰ.nil;
      })
      move_run

-- A diagram of another version is refused before anything else.
old_run :
    compare_architecture (record before { schema_version = integer (pos 2) }) after
    ≡ err (schema_version_mismatch base_side (integer (pos 2)))
unfolding compare_architecture salience.Delta.Compare.require_comparable_shape salience.Json.is_one
old_run = refl

abbrev base_index : Index
base_index = (codes "a", a0) ∷ []

summary_for-total_example :
    ((status : Status)
      → count_at status
          (summary_for (compare_entities base_index [] component) (shape_of component))
        ≡ occurrences status (compare_entities base_index [] component))
    × (total (summary_for (compare_entities base_index [] component) (shape_of component))
        ≡ length (compare_entities base_index [] component))
summary_for-total_example = summary_for-total component base_index []

same_run : compare_architecture before before ≡ ok unvaried
unfolding compare_architecture compare_run
same_run = refl

compare_architecture_self_example : unvaried ≡ unvaried
compare_architecture_self_example = compare_architecture_self before unvaried same_run
