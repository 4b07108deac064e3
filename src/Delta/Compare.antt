-- ===== src/Delta/Compare.antt =====
-- `compareArchitecture`, of diagrams that name no repository: the tests of their shapes, the changes,
-- their summary, and whether the presentation changed.
pub mod Summary
pub mod Reordered
pub mod Unvaried
mod Tests
use salience.Base.{
  ℕ, suc, Text, codes, List, [], ◌∷◌, ◌++◌, Bool, true, false, not, ◌==◌, if◌then◌else◌,
}
use salience.Base.Result.{Result, ok, err, ◌>>=◌}
use salience.Json.{Value, object, object_of, is_one, is_text, get}
use salience.Delta.{
  Kind, component, connection, boundary, Status, same, changed, evidence_changed, rerouted, moved,
  geometry_changed, added, removed, Change, are_equal,
}
use salience.Delta.Index.{
  DeltaError, DiagramSide, base_side, head_side, schema_version_mismatch, type_mismatch,
  Architecture, Changes, indexes_of, compared_changes,
}

abbrev pub require_type : Bool → DiagramSide → Value → Result DeltaError Bool
require_type true side actual = ok true
require_type false side actual = err (type_mismatch side actual)

abbrev pub require_shape : Bool → DiagramSide → (version type : Value) → Result DeltaError Bool
require_shape true side version type = require_type (is_text (codes "architecture") type) side type
require_shape false side version type = err (schema_version_mismatch side version)

-- `requireComparableShape`
unfoldable pub require_comparable_shape : Architecture → DiagramSide → Result DeltaError Bool
require_comparable_shape a side =
    require_shape (is_one a.schema_version) side a.schema_version a.diagram_type

-- The object that `presentationChanged` makes of a diagram.
abbrev pub presentation : (meta layout cards : Value) → Value
presentation meta layout cards = object (
    object_of (
      (codes "title", get (codes "title") meta)
      ∷ (codes "subtitle", get (codes "subtitle") meta)
      ∷ (codes "animation", get (codes "animation") meta)
      ∷ (codes "visual_preset", get (codes "visual_preset") meta)
      ∷ (codes "quality_profile", get (codes "quality_profile") meta)
      ∷ (codes "engineering_profile", get (codes "engineering_profile") meta)
      ∷ (codes "legend", get (codes "legend") meta)
      ∷ (codes "views", get (codes "views") meta)
      ∷ (codes "viewBox", get (codes "viewBox") meta)
      ∷ (codes "layout", layout)
      ∷ (codes "cards", cards)
      ∷ []))

unfoldable pub presentation_changed : Architecture → Architecture → Bool
presentation_changed base head = not (
    are_equal (presentation base.meta base.layout base.cards)
      (presentation head.meta head.layout head.cards))

-- The number of a status, to tell two apart.
abbrev pub status_number : Status → ℕ
status_number same = 0
status_number changed = 1
status_number evidence_changed = 2
status_number rerouted = 3
status_number moved = 4
status_number geometry_changed = 5
status_number added = 6
status_number removed = 7

abbrev pub Summary : Type 0
Summary = List (Status × ℕ)

-- `summary[key] += 1`, for a key that is there.
unfoldable pub bump : Status → Summary → Summary
bump status [] = []
bump status ((s, n) ∷ summary) =
    if status_number s == status_number status
    then (s, suc n) ∷ summary
    else (s, n) ∷ bump status summary

abbrev pub zeros : List Status → Summary
zeros [] = []
zeros (s ∷ shape) = (s, 0) ∷ zeros shape

unfoldable pub tally : List Change → Summary → Summary
tally [] summary = summary
tally (c ∷ changes) summary = tally changes (bump c.status summary)

-- `summaryFor`
abbrev pub summary_for : List Change → List Status → Summary
summary_for changes shape = tally changes (zeros shape)

-- The statuses that the summary of a kind counts.
abbrev pub shape_of : Kind → List Status
shape_of component = added ∷ changed ∷ evidence_changed ∷ removed ∷ moved ∷ []
shape_of connection = added ∷ changed ∷ removed ∷ rerouted ∷ []
shape_of boundary = added ∷ changed ∷ removed ∷ geometry_changed ∷ []

pub record Receipt : Type 0 where
  pub changes : Changes
  pub component_summary : Summary
  pub connection_summary : Summary
  pub boundary_summary : Summary
  pub presentation_differs : Bool

abbrev pub receipt : Changes → Bool → Receipt
receipt changes differs = record {
  changes = changes;
  component_summary = summary_for changes.components (shape_of component);
  connection_summary = summary_for changes.connections (shape_of connection);
  boundary_summary = summary_for changes.boundaries (shape_of boundary);
  presentation_differs = differs;
}

unfoldable pub compare_architecture : Architecture → Architecture → Result DeltaError Receipt
compare_architecture base head = do
  base_shape ← require_comparable_shape base base_side
  head_shape ← require_comparable_shape head head_side
  indexes ← indexes_of base head
  ok (receipt (compared_changes indexes.0 indexes.1) (presentation_changed base head))
