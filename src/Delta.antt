-- ===== src/Delta.antt =====
-- The comparison of two architectures, .agents/skills/archify/delta/architecture-delta.mjs: canonical
-- texts, the fields that differ, and the changes of components, connections and boundaries.
pub mod Index
pub mod Sorted
pub mod Compared
pub mod Unchanged
pub mod Unordered
pub mod Self
pub mod Compare
pub mod Canonical
pub mod Escape
pub mod Rows
mod Samples
mod Tests
use Prim.Native.Nat.{compare}
use salience.Base.{
  ℕ, Text, text_eq, codes, includes, List, [], ◌∷◌, ◌++◌, Bool, true, false, ◌&&◌, ◌||◌, Option,
  none, some, any, keep, map, if◌then◌else◌,
}
use salience.Base.Order.{compare_list, is_lt}
use salience.Json.{
  Value, undefined, null, boolean, integer, fraction, string, array, object, Items, nil, cons,
  Fields, end, field, items, get,
}
use salience.Json.Print.{stringify, to_text}

-- `sortedBy`, with the order `codepointOrder`.
module _ {A : Type 0} (key_for : A → Text) where
  abbrev pub insert_by : A → List A → List A
  insert_by x [] = x ∷ []
  insert_by x (y ∷ ys) =
      let rest = insert_by x ys in
      if is_lt (compare_list compare (key_for y) (key_for x)) then y ∷ rest else x ∷ y ∷ ys

  unfoldable pub sorted_by : List A → List A
  sorted_by [] = []
  sorted_by (x ∷ xs) = insert_by x (sorted_by xs)

-- `sorted`, of texts.
abbrev pub sorted : List Text → List Text
sorted = sorted_by (λ t. t)

abbrev pub comma_joined : List Text → Text
comma_joined [] = []
comma_joined (t ∷ []) = t
comma_joined (t ∷ u ∷ ts) = t ++ (b',' ∷ comma_joined (u ∷ ts))

abbrev pub entry_text : Text × Text → Text
entry_text (key, text) = stringify (string key) ++ (b':' ∷ text)

-- `canonical`, with `undefined` as a template literal writes it; `join` leaves it out in an array.
unfoldable mutual
  pub canonical : Value → Text
  canonical undefined = codes "undefined"
  canonical null = stringify null
  canonical (boolean b) = stringify (boolean b)
  canonical (integer n) = stringify (integer n)
  canonical (fraction t) = stringify (fraction t)
  canonical (string t) = stringify (string t)
  canonical (array vs) = b'[' ∷ comma_joined (canonical_items vs) ++ (b']' ∷ [])
  canonical (object fs) =
      b'{' ∷ comma_joined (map entry_text (sorted_by (λ e. e.0) (canonical_fields fs)))
      ++ (b'}' ∷ [])

  canonical_items : Items → List Text
  canonical_items nil = []
  canonical_items (cons undefined vs) = [] ∷ canonical_items vs
  canonical_items (cons v vs) = canonical v ∷ canonical_items vs

  canonical_fields : Fields → List (Text × Text)
  canonical_fields end = []
  canonical_fields (field k v fs) = (k, canonical v) ∷ canonical_fields fs

-- `equal`
unfoldable pub are_equal : Value → Value → Bool
are_equal left right = text_eq (canonical left) (canonical right)

abbrev pub as_items : List Value → Items
as_items [] = nil
as_items (v ∷ vs) = cons v (as_items vs)

-- `sortedObjects`
abbrev pub sorted_objects : List Value → List Value
sorted_objects = sorted_by canonical

abbrev pub sorted_sources : Value → Value
sorted_sources (array vs) = array (as_items (sorted_objects (items vs)))
sorted_sources v = v

abbrev pub sorted_wraps : Value → Value
sorted_wraps (array vs) = array (as_items (sorted_by to_text (items vs)))
sorted_wraps v = v

unfoldable pub normalized_field : Value → Text → Value
normalized_field item name =
    let value = get name item in
    if text_eq name (codes "sources")
    then sorted_sources value
    else (if text_eq name (codes "wraps") then sorted_wraps value else value)

pub data Classification : Type 0 where
  topology semantic scope evidence geometry : Classification

abbrev pub classification_text : Classification → Text
classification_text topology = codes "topology"
classification_text semantic = codes "semantic"
classification_text scope = codes "scope"
classification_text evidence = codes "evidence"
classification_text geometry = codes "geometry"

abbrev pub Groups : Type 0
Groups = List (Classification × List Text)

pub record FieldChanges : Type 0 where
  pub classifications : List Classification
  pub changed_fields : List Text

abbrev pub is_changed : Value → Value → Text → Bool
is_changed before after name =
    if are_equal (normalized_field before name) (normalized_field after name) then false else true

abbrev pub with_class : Classification → List Text → List Classification → List Classification
with_class c [] classifications = classifications
with_class c (name ∷ names) classifications = c ∷ classifications

-- The two arrays that the loop over the groups fills.
unfoldable pub group_changes : Value → Value → Groups → FieldChanges
group_changes before after [] = record { classifications = []; changed_fields = [] }
group_changes before after ((c, fields) ∷ groups) =
    let rest = group_changes before after groups in
    let changed = keep (is_changed before after) fields in
    record {
      classifications = with_class c changed rest.classifications;
      changed_fields = map (λ name. b'/' ∷ name) changed ++ rest.changed_fields;
    }

unfoldable pub field_changes : Value → Value → Groups → FieldChanges
field_changes before after groups =
    let changes = group_changes before after groups in
    record {
      classifications = sorted_by classification_text changes.classifications;
      changed_fields = sorted changes.changed_fields;
    }

pub data Kind : Type 0 where
  component connection boundary : Kind

abbrev pub groups_of : Kind → Groups
groups_of component =
    (semantic, codes "type" ∷ codes "label" ∷ codes "sublabel" ∷ codes "tag" ∷ [])
    ∷ (evidence, codes "sources" ∷ [])
    ∷ (geometry, codes "row" ∷ codes "col" ∷ codes "pos" ∷ codes "size" ∷ [])
    ∷ []
groups_of connection =
    (topology, codes "from" ∷ codes "to" ∷ [])
    ∷ (semantic, codes "label" ∷ codes "variant" ∷ [])
    ∷ (
      geometry,
      codes "fromSide"
          ∷ codes "toSide"
          ∷ codes "route"
          ∷ codes "via"
          ∷ codes "labelAt"
          ∷ codes "labelDx"
          ∷ codes "labelDy"
          ∷ codes "labelSegment"
          ∷ codes "width"
          ∷ [],
    )
    ∷ []
groups_of boundary = (scope, codes "wraps" ∷ []) ∷ (geometry, codes "pad" ∷ []) ∷ []

pub data Status : Type 0 where
  same changed evidence_changed rerouted moved geometry_changed added removed : Status

abbrev pub is_meaning : Classification → Bool
is_meaning topology = true
is_meaning semantic = true
is_meaning scope = true
is_meaning evidence = false
is_meaning geometry = false

abbrev pub is_evidence : Classification → Bool
is_evidence c = elim c [ evidence ↦ true | _ ↦ false ]

abbrev pub is_geometry : Classification → Bool
is_geometry c = elim c [ geometry ↦ true | _ ↦ false ]

abbrev pub moved_status : Kind → Status
moved_status connection = rerouted
moved_status component = moved
moved_status boundary = geometry_changed

unfoldable pub status_for : List Classification → Kind → Status
status_for classifications kind =
    if any is_meaning classifications
    then changed
    else (if any is_evidence classifications
        then evidence_changed
        else (if any is_geometry classifications then moved_status kind else same))

abbrev pub identity_classification : Kind → Classification
identity_classification connection = topology
identity_classification boundary = scope
identity_classification component = semantic

-- A change, with the entities that `describe` takes its texts from.
pub record Change : Type 0 where
  pub id : Text
  pub base : Option Value
  pub head : Option Value
  pub status : Status
  pub classifications : List Classification
  pub changed_fields : List Text

abbrev pub Index : Type 0
Index = List (Text × Value)

-- `index.get(id)`
unfoldable pub entity : Index → Text → Option Value
entity [] id = none
entity ((key, v) ∷ index) id = if text_eq key id then some v else entity index id

abbrev pub unless_same : Text → Value → Value → Status → FieldChanges → List Change
unless_same id base head same fields = []
unless_same id base head status fields =
    record {
      id = id;
      base = some base;
      head = some head;
      status = status;
      classifications = fields.classifications;
      changed_fields = fields.changed_fields;
    }
    ∷ []

abbrev pub lone_change : Kind → Text → Option Value → Option Value → Status → List Change
lone_change kind id base head status =
    record {
      id = id;
      base = base;
      head = head;
      status = status;
      classifications = identity_classification kind ∷ [];
      changed_fields = [];
    }
    ∷ []

-- The body of the loop of `compareEntities`. An identifier of neither index does not occur there.
abbrev pub entity_changes : Kind → Text → Option Value → Option Value → List Change
entity_changes kind id none none = []
entity_changes kind id none (some head) = lone_change kind id none (some head) added
entity_changes kind id (some base) none = lone_change kind id (some base) none removed
entity_changes kind id (some base) (some head) =
    let fields = field_changes base head (groups_of kind) in
    unless_same id base head (status_for fields.classifications kind) fields

unfoldable pub changes_of : Kind → Index → Index → List Text → List Change
changes_of kind base head [] = []
changes_of kind base head (id ∷ ids) =
    entity_changes kind id (entity base id) (entity head id) ++ changes_of kind base head ids

-- `new Set`, of texts.
abbrev pub distinct_ids : List Text → List Text → List Text
distinct_ids seen [] = []
distinct_ids seen (id ∷ ids) =
    let skipped = distinct_ids seen ids in
    let kept = distinct_ids (id ∷ seen) ids in if includes seen id then skipped else id ∷ kept

abbrev pub index_keys : Index → List Text
index_keys [] = []
index_keys ((key, v) ∷ index) = key ∷ index_keys index

unfoldable pub compare_entities : Index → Index → Kind → List Change
compare_entities base head kind =
    changes_of kind base head (sorted (distinct_ids [] (index_keys base ++ index_keys head)))
