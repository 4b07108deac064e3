-- ===== src/Delta/Rows/Ordered.antt =====
-- The order of the rows of a review: by status, then by kind, and then by identifier.
use mathlib.Core.List.{Permᴰ}
use mathlib.Core.Path.{subst}
use salience.Base.{
  ℕ, ◌≡◌, refl, ◌∙◌, ap, ap₂, map, ◌++◌, Text, List, [], ◌∷◌, Bool, false, ltb, ◌==◌, ◌||◌, ◌&&◌,
  sym,
}
use salience.Base.Order.{compare_list}
use salience.Delta.{
  sorted_by, Kind, component, connection, boundary, Status, same, changed, evidence_changed,
  rerouted, moved, geometry_changed, added, removed, Change,
}
use salience.Base.Alphabet.{lower}
use salience.Delta.Index.{Changes, boundary_name}
use salience.Delta.Rows.{
  Row, row_of, status_text, kind_name, shown_id, either_there, unsorted_rows, order_key,
  architecture_delta_change_rows,
}
use salience.Delta.Rows.Sorted.{
  NoneBelow, IsSorted, sorted_by-IsSorted, sorted_by-Permᴰ, map-Permᴰ, map-append,
}

-- The places of the statuses and of the kinds in the order of the alphabet.
abbrev pub status_rank : Status → ℕ
status_rank added = 0
status_rank changed = 1
status_rank evidence_changed = 2
status_rank geometry_changed = 3
status_rank moved = 4
status_rank removed = 5
status_rank rerouted = 6
status_rank same = 7

abbrev pub kind_rank : Kind → ℕ
kind_rank boundary = 0
kind_rank component = 1
kind_rank connection = 2

abbrev pub ranked : ℕ → ℕ → Bool → Bool
ranked m n later = ltb m n || (m == n && later)

-- Whether a row belongs before another one.
abbrev pub is_before_row : Row → Row → Bool
is_before_row a b =
    ranked (status_rank a.change.status) (status_rank b.change.status)
      (ranked (kind_rank a.kind) (kind_rank b.kind) (lower a.id b.id))

status_lem :
    (s t : Status) (u v : Text)
    → lower (status_text s ++ u) (status_text t ++ v)
      ≡ ranked (status_rank s) (status_rank t) (lower u v)
unfolding compare_list
status_lem same same u v = refl
status_lem changed changed u v = refl
status_lem evidence_changed evidence_changed u v = refl
status_lem rerouted rerouted u v = refl
status_lem moved moved u v = refl
status_lem geometry_changed geometry_changed u v = refl
status_lem added added u v = refl
status_lem removed removed u v = refl
status_lem _ _ u v = refl

kind_lem :
    (k l : Kind) (u v : Text)
    → lower (kind_name k ++ u) (kind_name l ++ v) ≡ ranked (kind_rank k) (kind_rank l) (lower u v)
unfolding compare_list
kind_lem component component u v = refl
kind_lem connection connection u v = refl
kind_lem boundary boundary u v = refl
kind_lem _ _ u v = refl

colon_lem : (u v : Text) → lower (b':' ∷ u) (b':' ∷ v) ≡ lower u v
unfolding compare_list
colon_lem u v = refl

order_key_lem : (a b : Row) → lower (order_key a) (order_key b) ≡ is_before_row a b
order_key_lem a b =
    status_lem a.change.status b.change.status _ _
    ∙ ap (ranked (status_rank a.change.status) (status_rank b.change.status)) (
        colon_lem (kind_name a.kind ++ (b':' ∷ a.id)) (kind_name b.kind ++ (b':' ∷ b.id))
        ∙ kind_lem a.kind b.kind _ _
        ∙ ap (ranked (kind_rank a.kind) (kind_rank b.kind)) (colon_lem a.id b.id))

-- No row belongs before one that stands above it.
abbrev pub IsTop : Row → List Row → Type 0
IsTop a [] = Unit
IsTop a (b ∷ rows) = (is_before_row b a ≡ false) × IsTop a rows

abbrev pub IsOrdered : List Row → Type 0
IsOrdered [] = Unit
IsOrdered (a ∷ rows) = IsTop a rows × IsOrdered rows

NoneBelow-IsTop : (a : Row) (rows : List Row) → NoneBelow order_key a rows → IsTop a rows
NoneBelow-IsTop a [] h = tt
NoneBelow-IsTop a (b ∷ rows) (e, h) = (sym (order_key_lem b a) ∙ e, NoneBelow-IsTop a rows h)

IsSorted-IsOrdered : (rows : List Row) → IsSorted order_key rows → IsOrdered rows
IsSorted-IsOrdered [] h = tt
IsSorted-IsOrdered (a ∷ rows) (e, h) = (NoneBelow-IsTop a rows e, IsSorted-IsOrdered rows h)

-- What a row shows: the kind of its change, the identifier and the change.
abbrev pub Shown : Type 0
Shown = Kind × Text × Change

abbrev pub shown_of : Row → Shown
shown_of row = (row.kind, row.id, row.change)

-- What is to be shown: components and connections by their identifiers, and boundaries by their kind
-- and label.
abbrev pub all_shown : Changes → List Shown
all_shown changes =
    map (λ c. (component, c.id, c)) changes.components
    ++ (map (λ c. (connection, c.id, c)) changes.connections
        ++ map (λ c. (boundary, boundary_name (either_there c.base c.head), c)) changes.boundaries)

map-row_of :
    (kind : Kind) (l : List Change)
    → map shown_of (map (row_of kind) l) ≡ map (λ c. (kind, shown_id kind c, c)) l
unfolding row_of
map-row_of kind [] = refl
map-row_of kind (c ∷ l) = ap (λ t. (kind, shown_id kind c, c) ∷ t) (map-row_of kind l)

map-unsorted_rows : (changes : Changes) → map shown_of (unsorted_rows changes) ≡ all_shown changes
map-unsorted_rows changes =
    map-append shown_of (map (row_of component) changes.components) _
    ∙ ap₂ (λ l m. l ++ m) (map-row_of component changes.components)
        (map-append shown_of (map (row_of connection) changes.connections) _
          ∙ ap₂ (λ l m. l ++ m) (map-row_of connection changes.connections)
              (map-row_of boundary changes.boundaries))

-- A review shows each change of a comparison in one row of its own, with its kind and the identifier
-- that it is shown by, and has no other rows. The rows stand in the order of the alphabet of their
-- status, those of one status in that of their kind, and those of one kind in that of the identifier.
pub architecture_delta_change_rows-IsOrdered :
    (changes : Changes)
    → Permᴰ (all_shown changes) (map shown_of (architecture_delta_change_rows changes))
      × IsOrdered (architecture_delta_change_rows changes)
unfolding architecture_delta_change_rows
architecture_delta_change_rows-IsOrdered changes =
    let rows = unsorted_rows changes in
    (
      subst (λ l. Permᴰ l (map shown_of (sorted_by order_key rows))) (map-unsorted_rows changes)
          (map-Permᴰ shown_of (sorted_by-Permᴰ order_key rows)),
      IsSorted-IsOrdered (sorted_by order_key rows) (sorted_by-IsSorted order_key rows),
    )
