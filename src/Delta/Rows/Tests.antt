-- ===== src/Delta/Rows/Tests.antt =====
-- Rows of a component that moved and a boundary that was added.
use mathlib.Core.List.{Permᴰ}
use salience.Base.{◌≡◌, refl, codes, map, [], ◌∷◌, some, none}
use salience.Json.{Value, string, object, object_of}
use salience.Delta.{Change, component, boundary, moved, added, scope, geometry}
use salience.Delta.Index.{Changes}
use salience.Delta.Samples.{a0, compare_run}
use salience.Delta.Rows.{row_of, architecture_delta_change_rows}
use salience.Delta.Rows.Ordered.{
  IsOrdered, shown_of, all_shown, architecture_delta_change_rows-IsOrdered,
}

abbrev frame : Value
frame =
    object
      (object_of ((codes "kind", string (codes "zone")) ∷ (codes "label", string (codes "Z")) ∷ []))

abbrev move : Change
move = record {
  id = codes "a";
  base = some a0;
  head = some a0;
  status = moved;
  classifications = geometry ∷ [];
  changed_fields = [];
}

abbrev addition : Change
addition = record {
  id = codes "zone-Z";
  base = none;
  head = some frame;
  status = added;
  classifications = scope ∷ [];
  changed_fields = [];
}

abbrev changes : Changes
changes = record { components = move ∷ []; connections = []; boundaries = addition ∷ [] }

rows_run :
    architecture_delta_change_rows changes ≡ row_of boundary addition ∷ row_of component move ∷ []
unfolding architecture_delta_change_rows compare_run row_of salience.Json.Print.to_text
rows_run = refl

architecture_delta_change_rows-IsOrdered_example :
    Permᴰ (all_shown changes) (map shown_of (architecture_delta_change_rows changes))
    × IsOrdered (architecture_delta_change_rows changes)
architecture_delta_change_rows-IsOrdered_example = architecture_delta_change_rows-IsOrdered changes
