-- ===== src/Geometry/Spread/Tests.antt =====
-- Two relationships that leave a node on the same side.
use salience.Base.{
  ℕ, ◌+◌, ◌≡◌, refl, Text, codes, List, [], ◌∷◌, Bool, true, false, Option, none, some,
}
use salience.Geometry.Number.{px}
use salience.Geometry.Segments.{at}
use salience.Geometry.Route.{Side, right, Endpoint, source}
use salience.Geometry.Sides.{Node, unset}
use salience.Geometry.Spread.{
  PortRelation, PortBox, Item, PortGroup, Port, Quotient, group_ports, usable_of,
  automatic_port_spread,
}
use salience.Geometry.Spread.Within.{IsSpread, group_ports-IsSpread}

abbrev node : ℕ → ℕ → Node
node x y = record {
  x = px x;
  y = px y;
  width = px 40;
  height = px 40;
  cx = px (x + 20);
  cy = px (y + 20);
}

abbrev box : Text → ℕ → ℕ → Text × PortBox
box id x y = (id, record { id = id; rect = node x y })

abbrev boxes : List (Text × PortBox)
boxes = box (codes "a") 0 50 ∷ box (codes "b") 100 90 ∷ box (codes "c") 100 0 ∷ []

abbrev relation : Text → PortRelation
relation to = record {
  id = [];
  from = codes "a";
  to = to;
  label = [];
  from_side = unset;
  to_side = unset;
  has_route = false;
  has_control = false;
}

abbrev no_side : PortRelation → Endpoint → Option Side
no_side r e = none

abbrev spread : List Port
spread =
    automatic_port_spread (px 16) (px 14) boxes no_side
      (some (relation (codes "b")) ∷ none ∷ some (relation (codes "c")) ∷ [])

abbrev port : ℕ → Quotient → Port
port index offset = record {
  relation_index = index;
  endpoint = source;
  point = at (px 40) (px 70);
  offset = offset;
}

abbrev item : ℕ → Text → Node → Item
item index to counterpart = record {
  relation_index = index;
  relation = relation to;
  endpoint = source;
  rect = node 0 50;
  side = right;
  counterpart = counterpart;
}

abbrev group : PortGroup
group = record {
  id = codes "a";
  side = right;
  items = item 0 (codes "b") (node 100 90) ∷ item 2 (codes "c") (node 100 0) ∷ [];
}

group_ports-IsSpread_example :
    IsSpread (usable_of (px 16) (px 40)) true group.items (group_ports (px 16) (px 14) group)
group_ports-IsSpread_example =
    group_ports-IsSpread (px 16) (px 14) group (node 0 50) refl (refl, (refl, tt)) refl refl

-- The one whose counterpart is higher leaves higher.
spread_run :
    spread
    ≡ port 2 (record { amount = record { up = 320000; down = 400000 }; parts = 2 })
      ∷ port 0 (record { amount = record { up = 1120000; down = 1040000 }; parts = 2 })
      ∷ []
unfolding automatic_port_spread group_ports salience.Geometry.Spread.groups_ports
    salience.Geometry.Spread.port_groups salience.Geometry.Spread.sort_items
    salience.Geometry.Spread.spacing_of salience.Geometry.Spread.offset_of
    salience.Geometry.Spread.ports_from salience.Geometry.Sides.anchor
    salience.Geometry.Sides.default_from_side salience.Geometry.Sides.default_to_side
    salience.Base.text_eq salience.Base.Order.compare_list
spread_run = refl
