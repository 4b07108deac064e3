-- ===== src/Geometry/Spread.antt =====
-- Ports that relationships share on a side of a node, `automaticPortSpread`.
pub mod Items
pub mod Within
mod Tests
use salience.Base.{
  ℕ, zero, suc, ◌+◌, ◌*◌, ◌-◌, ◌==◌, Text, text_eq, List, [], ◌∷◌, ◌++◌, Bool, true, false, not,
  ◌&&◌, ◌||◌, Option, none, some, leb, length, if◌then◌else◌,
}
use Prim.Native.Nat.{compare}
use salience.Base.Order.{compare_list, is_lt}
use salience.Geometry.Number.{Number, ◌⊖◌, of_units, le, lt, max_of}
use salience.Geometry.Segments.{Point}
use salience.Geometry.Route.{
  Side, left, right, top, bottom, is_horizontal_side, Endpoint, source, target,
}
use salience.Geometry.Sides.{
  Node, anchor, default_from_side, default_to_side, Authored, chosen_side,
}

-- What the routine reads of a relationship: whether its `route` is written and not `auto`, and
-- whether one of `via`, `channelX`, `channelY` and `labelAt` is there.
pub record PortRelation : Type 0 where
  pub id : Text
  pub from : Text
  pub to : Text
  pub label : Text
  pub from_side : Authored
  pub to_side : Authored
  pub has_route : Bool
  pub has_control : Bool

pub record PortBox : Type 0 where
  pub id : Text
  pub rect : Node

pub record Item : Type 0 where
  pub relation_index : ℕ
  pub relation : PortRelation
  pub endpoint : Endpoint
  pub rect : Node
  pub side : Side
  pub counterpart : Node

-- A value of `groups`, with its key.
pub record PortGroup : Type 0 where
  pub id : Text
  pub side : Side
  pub items : List Item

abbrev pub number_of : Side → ℕ
number_of left = 0
number_of right = 1
number_of top = 2
number_of bottom = 3

abbrev pub has_key : Text → Side → PortGroup → Bool
has_key id side g = text_eq g.id id && number_of g.side == number_of side

-- The function `add`.
abbrev pub add_item : Text → Item → List PortGroup → List PortGroup
add_item id item [] = record { id = id; side = item.side; items = item ∷ [] } ∷ []
add_item id item (g ∷ groups) =
    let rest = add_item id item groups in
    if has_key id item.side g
    then record g { items = g.items ++ (item ∷ []) } ∷ groups
    else g ∷ rest

-- `boxes.get`
abbrev pub box_of : List (Text × PortBox) → Text → Option PortBox
box_of [] id = none
box_of ((key, box) ∷ boxes) id =
    let rest = box_of boxes id in if text_eq key id then some box else rest

abbrev pub or_default : Option Side → Side → Side
or_default none fallback = fallback
or_default (some s) fallback = s

-- The boxes, and `sideFor`, which gives no side where it is not there.
module _ (boxes : List (Text × PortBox)) (side_for : PortRelation → Endpoint → Option Side) where
  abbrev pub item_at : ℕ → PortRelation → Endpoint → Authored → Side → Node → Node → Item
  item_at index relation endpoint written fallback rect counterpart = record {
    relation_index = index;
    relation = relation;
    endpoint = endpoint;
    rect = rect;
    side = chosen_side written (or_default (side_for relation endpoint) fallback);
    counterpart = counterpart;
  }

  abbrev pub add_ends :
      ℕ → PortRelation → Option PortBox → Option PortBox → List PortGroup → List PortGroup
  add_ends index relation (some from) (some to) groups =
      add_item to.id
        (item_at index relation target relation.to_side (default_to_side from.rect to.rect) to.rect
          from.rect)
        (add_item from.id
          (item_at index relation source relation.from_side (default_from_side from.rect to.rect)
            from.rect to.rect)
          groups)
  add_ends index relation _ _ groups = groups

  abbrev pub add_relation : ℕ → Option PortRelation → List PortGroup → List PortGroup
  add_relation index none groups = groups
  add_relation index (some relation) groups =
      if relation.has_route || relation.has_control
      then groups
      else add_ends index relation (box_of boxes relation.from) (box_of boxes relation.to) groups

  -- `groups` behind the loop over the relationships, from an index on.
  unfoldable pub port_groups : ℕ → List (Option PortRelation) → List PortGroup → List PortGroup
  port_groups index [] groups = groups
  port_groups index (relation ∷ relations) groups =
      port_groups (suc index) relations (add_relation index relation groups)

-- The order of `sort`: by the coordinate of the counterpart, and then by the key.
abbrev pub port_coordinate : Bool → Node → Number
port_coordinate vertical_side n = if vertical_side then n.cy else n.cx

abbrev pub port_key : PortRelation → Text
port_key r = r.id ++ (0 ∷ r.from) ++ (0 ∷ r.to) ++ (0 ∷ r.label)

abbrev pub is_before_item : Bool → Item → Item → Bool
is_before_item vertical_side a b =
    let x = port_coordinate vertical_side a.counterpart in
    let y = port_coordinate vertical_side b.counterpart in
    lt x y
    || (not (lt y x) && is_lt (compare_list compare (port_key a.relation) (port_key b.relation)))

abbrev pub insert_item : Bool → Item → List Item → List Item
insert_item vertical_side i [] = i ∷ []
insert_item vertical_side i (j ∷ items) =
    let rest = insert_item vertical_side i items in
    if is_before_item vertical_side j i then j ∷ rest else i ∷ j ∷ items

unfoldable pub sort_items : Bool → List Item → List Item
sort_items vertical_side [] = []
sort_items vertical_side (i ∷ items) = insert_item vertical_side i (sort_items vertical_side items)

-- A quotient, of a length by a number.
pub record Quotient : Type 0 where
  pub amount : Number
  pub parts : ℕ

abbrev pub times : ℕ → Number → Number
times n a = record { up = n * a.up; down = n * a.down }

-- `spacing`, of one item less than there are.
unfoldable pub spacing_of : Number → Number → ℕ → Quotient
spacing_of max_spacing usable gaps =
    if le (times gaps max_spacing) usable
    then record { amount = max_spacing; parts = 1 }
    else record { amount = usable; parts = gaps }

-- `offset`, with half the distance of the index from the middle.
unfoldable pub offset_of : ℕ → ℕ → Quotient → Quotient
offset_of index gaps spacing = record {
  amount = times (2 * index) spacing.amount ⊖ times gaps spacing.amount;
  parts = 2 * spacing.parts;
}

-- An end of a relationship in `spread`: the anchor, and what is added to its `y` on a left or right
-- side, and to its `x` on another one.
pub record Port : Type 0 where
  pub relation_index : ℕ
  pub endpoint : Endpoint
  pub point : Point
  pub offset : Quotient

unfoldable pub ports_from : ℕ → ℕ → Quotient → List Item → List Port
ports_from index gaps spacing [] = []
ports_from index gaps spacing (i ∷ items) =
    record {
      relation_index = i.relation_index;
      endpoint = i.endpoint;
      point = anchor i.rect i.side;
      offset = offset_of index gaps spacing;
    }
    ∷ ports_from (suc index) gaps spacing items

abbrev pub extent_of : Bool → Node → Number
extent_of vertical_side rect = if vertical_side then rect.height else rect.width

abbrev pub usable_of : Number → Number → Number
usable_of gutter extent = max_of (of_units 0) (extent ⊖ times 2 gutter)

module _ (gutter max_spacing : Number) where
  abbrev pub sorted_ports : Bool → List Item → List Port
  sorted_ports vertical_side [] = []
  sorted_ports vertical_side (i ∷ items) =
      let gaps = length items in
      let spacing =
        spacing_of max_spacing (usable_of gutter (extent_of vertical_side i.rect)) gaps in
      if lt (of_units 0) spacing.amount then ports_from 0 gaps spacing (i ∷ items) else []

  -- The body of the loop over the groups.
  unfoldable pub group_ports : PortGroup → List Port
  group_ports g =
      let vertical_side = is_horizontal_side g.side in
      if leb 2 (length g.items)
      then sorted_ports vertical_side (sort_items vertical_side g.items)
      else []

  unfoldable pub groups_ports : List PortGroup → List Port
  groups_ports [] = []
  groups_ports (g ∷ groups) = group_ports g ++ groups_ports groups

  -- `automaticPortSpread`, with the entries of the maps in the order in which they are set.
  unfoldable pub automatic_port_spread :
      List (Text × PortBox)
      → (PortRelation → Endpoint → Option Side)
      → List (Option PortRelation)
      → List Port
  automatic_port_spread boxes side_for relations =
      groups_ports (port_groups boxes side_for 0 relations [])
