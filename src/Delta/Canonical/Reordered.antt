-- ===== src/Delta/Canonical/Reordered.antt =====
-- The canonical text of a diagram does not depend on the order of its elements.
use mathlib.Core.List.{Permᴰ}
use salience.Base.{
  ◌≡◌, refl, sym, ◌∙◌, ap, ap₂, Text, codes, text_eq, text_eq_iff, List, [], ◌∷◌, ◌++◌, map, true,
  false, Option, some, some_inj, arith,
}
use salience.Base.Result.{ok}
use salience.Json.{
  Value, undefined, null, boolean, integer, fraction, string, array, object, Fields, end, field,
  get, get_field, as_text,
}
use salience.Json.Print.{to_text}
use salience.Delta.{Index, as_items, insert_by, sorted_by, canonical}
use salience.Base.Alphabet.{lower_total, lower_trans, lower_irrefl}
use salience.Delta.Index.{
  Architecture, stable_index, boundary_index, boundary_key, components, connections,
}
use salience.Delta.Index.Map.{HasKeys, missed, HasKeys-reordered, indexed-HasKeys}
use salience.Delta.Index.Refined.{
  to_option, nonempty, stable_key, frame_key, stable_index-indexed, boundary_index-indexed,
}
use salience.Delta.Compare.Reordered.{IsReordering}
use salience.Delta.Canonical.{
  with_field, spread, is_truthy, with_sources, normalize_component, wraps_there, normalize_boundary,
  connection_key, component_key, sorted_components, sorted_boundaries, sorted_connections,
  canonical_object, canonical_architecture, canonical_architecture_json,
}

-- Two elements with different keys can be inserted in either order.
insert_by_comm :
    (key : Value → Text) (x y : Value) (l : List Value)
    → text_eq (key x) (key y) ≡ false
    → insert_by key x (insert_by key y l) ≡ insert_by key y (insert_by key x l)
insert_by_comm key x y [] apart = ground (
  arith,
  apart,
  text_eq_iff (key x) (key y),
  lower_total (key x) (key y),
  lower_trans (key x) (key y) (key x),
  lower_irrefl (key x),
)
insert_by_comm key x y (z ∷ l) apart = ground (
  arith,
  apart,
  text_eq_iff (key x) (key y),
  lower_total (key x) (key y),
  lower_trans (key x) (key y) (key x),
  lower_irrefl (key x),
  lower_trans (key z) (key x) (key y),
  lower_trans (key z) (key y) (key x),
  insert_by_comm key x y l apart,
)

module _ (index_key : Value → Option Text) (normalize : Value → Value) (key : Value → Text) where
  abbrev SortsByKey : Type 0
  SortsByKey = (v : Value) (k : Text) → index_key v ≡ some k → key (normalize v) ≡ k

  -- Elements with keys of their own are sorted in the same way whatever their order.
  sorted_by_reordered :
      {l m : List Value}
      → SortsByKey
      → Permᴰ l m
      → HasKeys index_key l
      → sorted_by key (map normalize l) ≡ sorted_by key (map normalize m)
  unfolding sorted_by
  sorted_by_reordered s Permᴰ.nil h = refl
  sorted_by_reordered s (Permᴰ.cons {a} {b} {l₁ = l} {l₂ = m} e p) ((k, found), h) =
      ap₂ (λ v t. insert_by key (normalize v) t) e (sorted_by_reordered s p h)
  sorted_by_reordered s (Permᴰ.swap {a} {b} {a'} {b'} {l} e f)
        ((j, (aj, later)), ((k, (bk, last)), h)) =
      let unlike : text_eq k j ≡ false = (missed index_key b l j k bk later).0 in
      let apart : text_eq (key (normalize b)) (key (normalize a)) ≡ false =
        rw (s a j aj, s b k bk) unlike in
      sym (insert_by_comm key (normalize b) (normalize a) (sorted_by key (map normalize l)) apart)
      ∙ ap₂
          (λ v w.
            insert_by key (normalize v)
              (insert_by key (normalize w) (sorted_by key (map normalize l))))
          f e
  sorted_by_reordered s (Permᴰ.trans p q) h =
      sorted_by_reordered s p h ∙ sorted_by_reordered s q (HasKeys-reordered index_key p h)

get_field-with_field :
    (key name : Text) (v : Value) (fs : Fields)
    → text_eq key name ≡ false
    → get_field name (with_field key v fs) ≡ get_field name fs
unfolding get_field with_field
get_field-with_field key name v end apart = ground (arith, apart)
get_field-with_field key name v (field k w fs) apart = ground (
  arith,
  apart,
  text_eq_iff k key,
  text_eq_iff k name,
  text_eq_iff key name,
  get_field-with_field key name v fs apart,
)

get_field-spread : (name : Text) (v : Value) → get_field name (spread v) ≡ get name v
unfolding get_field get
get_field-spread name undefined = refl
get_field-spread name null = refl
get_field-spread name (boolean b) = refl
get_field-spread name (integer n) = refl
get_field-spread name (fraction t) = refl
get_field-spread name (string t) = refl
get_field-spread name (array vs) = refl
get_field-spread name (object fs) = refl

get_field-with_sources :
    (name : Text) (sources : Value) (fs : Fields)
    → text_eq (codes "sources") name ≡ false
    → get_field name (with_sources sources fs) ≡ get_field name fs
get_field-with_sources name (array vs) fs apart =
    get_field-with_field (codes "sources") name _ fs apart
get_field-with_sources name undefined fs apart = refl
get_field-with_sources name null fs apart = refl
get_field-with_sources name (boolean b) fs apart = refl
get_field-with_sources name (integer n) fs apart = refl
get_field-with_sources name (fraction t) fs apart = refl
get_field-with_sources name (string t) fs apart = refl
get_field-with_sources name (object gs) fs apart = refl

-- Normalising keeps the other fields.
get-normalize_component :
    (name : Text) (v : Value)
    → text_eq (codes "sources") name ≡ false
    → get name (normalize_component v) ≡ get name v
unfolding get normalize_component
get-normalize_component name v apart =
    get_field-with_sources name (get (codes "sources") v) (spread v) apart ∙ get_field-spread name v

get-normalize_boundary :
    (name : Text) (v : Value)
    → text_eq (codes "wraps") name ≡ false
    → get name (normalize_boundary v) ≡ get name v
unfolding get normalize_boundary
get-normalize_boundary name v apart =
    get_field-with_field (codes "wraps") name (wraps_there (get (codes "wraps") v)) (spread v) apart
    ∙ get_field-spread name v

id_text :
    (id : Value) (k : Text)
    → nonempty (as_text id) ≡ some k
    → (is_truthy id ≡ true) × (to_text id ≡ k)
unfolding as_text is_truthy to_text
id_text undefined k e = cc
id_text null k e = cc
id_text (boolean b) k e = cc
id_text (integer n) k e = cc
id_text (fraction t) k e = cc
id_text (string []) k e = cc
id_text (string (c ∷ t)) k e = (refl, some_inj e)
id_text (array vs) k e = cc
id_text (object fs) k e = cc

component_key-normalize_component : SortsByKey stable_key normalize_component component_key
unfolding text_eq
component_key-normalize_component v k e =
    ap to_text (get-normalize_component (codes "id") v refl) ∙ (id_text (get (codes "id") v) k e).1

connection_key_lem : SortsByKey stable_key (λ v. v) connection_key
unfolding connection_key
connection_key_lem v k e = let (t, same) = id_text (get (codes "id") v) k e in rw t same

boundary_key-normalize_boundary : SortsByKey frame_key normalize_boundary boundary_key
unfolding text_eq
boundary_key-normalize_boundary v k e =
    ap₂ (λ kind label. to_text kind ++ (0x1f ∷ to_text label))
      (get-normalize_boundary (codes "kind") v refl) (get-normalize_boundary (codes "label") v refl)
    ∙ some_inj e

map_id : (l : List Value) → map (λ v. v) l ≡ l
map_id [] = refl
map_id (v ∷ l) = ap (λ t. v ∷ t) (map_id l)

module _ {l m : List Value} {i : Index} (p : Permᴰ l m) where
  sorted_components_reordered :
      stable_index components l ≡ ok i → sorted_components l ≡ sorted_components m
  sorted_components_reordered e =
      ap (λ vs. array (as_items vs))
        (sorted_by_reordered stable_key normalize_component component_key
          component_key-normalize_component p
          (indexed-HasKeys stable_key l i
            (sym (stable_index-indexed components l) ∙ ap to_option e)))

  sorted_boundaries_reordered : boundary_index l ≡ ok i → sorted_boundaries l ≡ sorted_boundaries m
  sorted_boundaries_reordered e =
      ap (λ vs. array (as_items vs))
        (sorted_by_reordered frame_key normalize_boundary boundary_key
          boundary_key-normalize_boundary p
          (indexed-HasKeys frame_key l i (sym (boundary_index-indexed l) ∙ ap to_option e)))

  sorted_connections_reordered :
      stable_index connections l ≡ ok i → sorted_connections l ≡ sorted_connections m
  sorted_connections_reordered e =
      ap (λ vs. array (as_items (sorted_by connection_key vs))) (sym (map_id l))
      ∙ ap (λ vs. array (as_items vs))
          (sorted_by_reordered stable_key (λ v. v) connection_key connection_key_lem p
            (indexed-HasKeys stable_key l i
              (sym (stable_index-indexed connections l) ∙ ap to_option e)))
      ∙ ap (λ vs. array (as_items (sorted_by connection_key vs))) (map_id m)

-- The canonical text of a diagram that can be indexed is the same whatever the order of its
-- components, connections and boundaries.
pub canonical_architecture_json_reordered :
    (a b : Architecture) (i j k : Index)
    → IsReordering a b
    → stable_index components a.components_there ≡ ok i
    → stable_index connections a.connections_there ≡ ok j
    → boundary_index a.boundaries_there ≡ ok k
    → canonical_architecture_json a ≡ canonical_architecture_json b
unfolding canonical_architecture_json canonical_architecture
canonical_architecture_json_reordered a b i j k r e f g =
    let c = sorted_components_reordered r.components e in
    let d = sorted_connections_reordered r.connections f in
    let w = sorted_boundaries_reordered r.boundaries g in
    λ t. canonical (
      canonical_object (r.schema_version t) (r.diagram_type t) (r.meta t) (r.layout t) (r.cards t)
        (c t) (w t) (d t))
