-- ===== src/Delta/Rows.antt =====
-- The rows of a review, `architectureDeltaChangeRows` of architecture-delta.mjs.
pub mod Sorted
pub mod Ordered
mod Tests
use salience.Base.{Text, codes, List, [], ◌∷◌, ◌++◌, Option, none, some, map}
use salience.Json.{Value, undefined}
use salience.Delta.{
  sorted_by, Kind, component, connection, boundary, Status, same, changed, evidence_changed,
  rerouted, moved, geometry_changed, added, removed, Change,
}
use salience.Delta.Index.{Changes, boundary_name}

abbrev pub status_text : Status → Text
status_text same = codes "same"
status_text changed = codes "changed"
status_text evidence_changed = codes "evidence-changed"
status_text rerouted = codes "rerouted"
status_text moved = codes "moved"
status_text geometry_changed = codes "geometry-changed"
status_text added = codes "added"
status_text removed = codes "removed"

-- The fields `kind` and `kindKey`.
abbrev pub kind_name : Kind → Text
kind_name component = codes "Component"
kind_name connection = codes "Relationship"
kind_name boundary = codes "Boundary"

abbrev pub kind_key : Kind → Text
kind_key component = codes "component"
kind_key connection = codes "relationship"
kind_key boundary = codes "boundary"

-- `after || before`
abbrev pub either_there : Option Value → Option Value → Value
either_there base (some head) = head
either_there (some base) none = base
either_there none none = undefined

pub record Row : Type 0 where
  pub change : Change
  pub kind : Kind
  pub key : Text
  pub id : Text

-- A boundary is shown by its kind and label, any other element by its identifier.
abbrev pub shown_id : Kind → Change → Text
shown_id component change = change.id
shown_id connection change = change.id
shown_id boundary change = boundary_name (either_there change.base change.head)

unfoldable pub row_of : Kind → Change → Row
row_of kind change = record {
  change = change;
  kind = kind;
  key = kind_key kind ++ (b':' ∷ shown_id kind change);
  id = shown_id kind change;
}

abbrev pub unsorted_rows : Changes → List Row
unsorted_rows changes =
    map (row_of component) changes.components
    ++ (map (row_of connection) changes.connections ++ map (row_of boundary) changes.boundaries)

-- `${status}:${kind}:${id}`
abbrev pub order_key : Row → Text
order_key row = status_text row.change.status ++ (b':' ∷ kind_name row.kind ++ (b':' ∷ row.id))

-- `architectureDeltaChangeRows`
unfoldable pub architecture_delta_change_rows : Changes → List Row
architecture_delta_change_rows changes = sorted_by order_key (unsorted_rows changes)
