-- ===== src/Delta/Index.antt =====
-- The indexes of entities, `stableIndex` and `boundaryIndex`, and the comparison of two collections.
pub mod Keyed
pub mod Map
pub mod Refined
use salience.Base.{
  ℕ, suc, Text, codes, includes, List, [], ◌∷◌, ◌++◌, Bool, true, false, ◌||◌, Option, none, some,
  if◌then◌else◌,
}
use salience.Base.Result.{Result, ok, err, ◌>>=◌}
use salience.Json.{Value, get, as_text}
use salience.Json.Print.{decimal, to_text}
use salience.Delta.{
  Index, index_keys, sorted, distinct_ids, component, connection, boundary, Change,
  compare_entities,
}

pub data Collection : Type 0 where
  components connections : Collection

-- The diagram that an error is about.
pub data DiagramSide : Type 0 where
  base_side head_side : DiagramSide

-- The errors, with what their details name.
pub data DeltaError : Type 0 where
  schema_version_mismatch type_mismatch : DiagramSide → Value → DeltaError
  stable_id_required relationship_id_required : List Text → DeltaError
  duplicate_stable_id : Collection → List Text → DeltaError
  boundary_key_ambiguous : List Text → DeltaError
  no_shared_component_id : DeltaError

abbrev pub collection_text : Collection → Text
collection_text components = codes "components"
collection_text connections = codes "connections"

-- The variables of the loop: the map, `missing` and `duplicates`.
pub record Scan : Type 0 where
  pub index : Index
  pub missing : List Text
  pub duplicates : List Text

abbrev pub id_path : Collection → ℕ → Text
id_path collection index =
    b'/' ∷ collection_text collection ++ (b'/' ∷ decimal index ++ codes "/id")

abbrev pub scan_keyed : Scan → Text → Value → Scan
scan_keyed s key item =
    if includes (index_keys s.index) key
    then record s { duplicates = s.duplicates ++ (key ∷ []) }
    else record s { index = s.index ++ ((key, item) ∷ []) }

-- An identifier is a text by the schema; where it is none, or empty, it is missing.
abbrev pub scan_item : Collection → ℕ → Value → Option Text → Scan → Scan
scan_item collection i item none s = record s { missing = s.missing ++ (id_path collection i ∷ []) }
scan_item collection i item (some []) s = record s {
  missing = s.missing ++ (id_path collection i ∷ []);
}
scan_item collection i item (some (c ∷ id)) s = scan_keyed s (c ∷ id) item

unfoldable pub scan_items : Collection → ℕ → List Value → Scan → Scan
scan_items collection i [] s = s
scan_items collection i (item ∷ items) s =
    scan_items collection (suc i) items
      (scan_item collection i item (as_text (get (codes "id") item)) s)

abbrev pub missing_error : Collection → List Text → DeltaError
missing_error components paths = stable_id_required paths
missing_error connections paths = relationship_id_required paths

abbrev pub scanned : Collection → List Text → List Text → Index → Result DeltaError Index
scanned collection (path ∷ missing) duplicates index =
    err (missing_error collection (sorted (path ∷ missing)))
scanned collection [] (id ∷ duplicates) index =
    err (duplicate_stable_id collection (sorted (distinct_ids [] (id ∷ duplicates))))
scanned collection [] [] index = ok index

abbrev pub empty_scan : Scan
empty_scan = record { index = []; missing = []; duplicates = [] }

-- `stableIndex`
unfoldable pub stable_index : Collection → List Value → Result DeltaError Index
stable_index collection items =
    let s = scan_items collection 0 items empty_scan in
    scanned collection s.missing s.duplicates s.index

-- `boundaryKey`, with U+001F between the two texts.
abbrev pub boundary_key : Value → Text
boundary_key b = to_text (get (codes "kind") b) ++ (0x1f ∷ to_text (get (codes "label") b))

abbrev pub boundary_name : Value → Text
boundary_name b = to_text (get (codes "kind") b) ++ (b':' ∷ to_text (get (codes "label") b))

abbrev pub ambiguous_or : Value → Index × List Text → Index × List Text
ambiguous_or b (index, ambiguous) =
    if includes (index_keys index) (boundary_key b)
    then (index, ambiguous ++ (boundary_name b ∷ []))
    else (index ++ ((boundary_key b, b) ∷ []), ambiguous)

unfoldable pub scan_boundaries : List Value → Index × List Text → Index × List Text
scan_boundaries [] s = s
scan_boundaries (b ∷ boundaries) s = scan_boundaries boundaries (ambiguous_or b s)

abbrev pub unambiguous : Index → List Text → Result DeltaError Index
unambiguous index [] = ok index
unambiguous index (name ∷ ambiguous) =
    err (boundary_key_ambiguous (sorted (distinct_ids [] (name ∷ ambiguous))))

-- `boundaryIndex`
unfoldable pub boundary_index : List Value → Result DeltaError Index
boundary_index boundaries = let s = scan_boundaries boundaries ([], []) in unambiguous s.0 s.1

-- What the comparison reads of a diagram. A list that is missing is empty.
pub record Architecture : Type 0 where
  pub schema_version : Value
  pub diagram_type : Value
  pub meta : Value
  pub layout : Value
  pub cards : Value
  pub components_there : List Value
  pub connections_there : List Value
  pub boundaries_there : List Value

pub record Indexes : Type 0 where
  pub components : Index
  pub connections : Index
  pub boundaries : Index

abbrev pub share_id : Index → Index → Bool
share_id [] head = false
share_id ((key, v) ∷ base) head = includes (index_keys head) key || share_id base head

abbrev pub require_shared : Bool → Result DeltaError Bool
require_shared true = ok true
require_shared false = err no_shared_component_id

abbrev pub other_indexes :
    Index
    → Index
    → (base_connections head_connections base_boundaries head_boundaries : Result DeltaError Index)
    → Result DeltaError (Indexes × Indexes)
other_indexes base head base_connections head_connections base_boundaries head_boundaries = do
  m ← base_connections
  n ← head_connections
  b ← base_boundaries
  c ← head_boundaries
  ok (
    record { components = base; connections = m; boundaries = b },
    record { components = head; connections = n; boundaries = c },
  )

-- The first part of `compareArchitecture`, the indexes in the order in which they are made.
unfoldable pub indexes_of : Architecture → Architecture → Result DeltaError (Indexes × Indexes)
indexes_of base head = do
  base_components ← stable_index components base.components_there
  head_components ← stable_index components head.components_there
  shared ← require_shared (share_id base_components head_components)
  other_indexes base_components head_components (stable_index connections base.connections_there)
      (stable_index connections head.connections_there) (boundary_index base.boundaries_there)
      (boundary_index head.boundaries_there)

pub record Changes : Type 0 where
  pub components : List Change
  pub connections : List Change
  pub boundaries : List Change

unfoldable pub compared_changes : Indexes → Indexes → Changes
compared_changes base head = record {
  components = compare_entities base.components head.components component;
  connections = compare_entities base.connections head.connections connection;
  boundaries = compare_entities base.boundaries head.boundaries boundary;
}
