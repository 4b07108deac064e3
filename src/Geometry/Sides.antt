-- ===== src/Geometry/Sides.antt =====
-- The sides of a node that a relationship leaves and enters: `anchor`, `defaultFromSide`,
-- `defaultToSide`, `chosenSide`, and the sides that `cleanEndpointSideProblems` checks.
pub mod Facing
use salience.Base.{
  ℕ, zero, suc, Text, text_eq, codes, List, [], ◌∷◌, ◌++◌, Bool, true, false, not, ◌&&◌, ◌||◌,
  Option, none, some, includes, leb, length, if◌then◌else◌,
}
use salience.Geometry.Number.{Number, ◌⊕◌, le, lt}
use salience.Geometry.Segments.{Point, at}
use salience.Geometry.Route.{
  Side, left, right, top, bottom, Endpoint, source, target, endpoint_side_issue,
}

-- A measured rectangle, with its centre.
pub record Node : Type 0 where
  pub x : Number
  pub y : Number
  pub width : Number
  pub height : Number
  pub cx : Number
  pub cy : Number

unfoldable pub anchor : Node → Side → Point
anchor rect left = at rect.x rect.cy
anchor rect right = at (rect.x ⊕ rect.width) rect.cy
anchor rect top = at rect.cx rect.y
anchor rect bottom = at rect.cx (rect.y ⊕ rect.height)

unfoldable pub default_from_side : Node → Node → Side
default_from_side from to =
    if lt to.cx from.cx
    then left
    else (if lt from.cx to.cx then right else (if lt from.cy to.cy then bottom else top))

unfoldable pub default_to_side : Node → Node → Side
default_to_side from to =
    if lt to.cx from.cx
    then right
    else (if lt from.cx to.cx then left else (if lt from.cy to.cy then top else bottom))

-- A side that an author wrote: none, `auto`, or one of the table.
pub data Authored : Type 0 where
  unset auto : Authored
  side : Side → Authored

-- `chosenSide(side, fallback)`
abbrev pub chosen_side : Authored → Side → Side
chosen_side unset fallback = fallback
chosen_side auto fallback = fallback
chosen_side (side s) fallback = s

-- The part of a relationship that the check of its sides reads: whether its `route` is written and
-- not `auto`, or its `via` is there.
pub record SidedRelation : Type 0 where
  pub from : Text
  pub to : Text
  pub from_side : Authored
  pub to_side : Authored
  pub has_route : Bool
  pub has_via : Bool

pub data Origin : Type 0 where
  authored inferred : Origin

-- The side that is checked, with its origin.
abbrev pub checked_side : Authored → Bool → Option Side → Option (Side × Origin)
checked_side (side s) has_geometry inferred_side = some (s, authored)
checked_side _ true inferred_side = none
checked_side _ false none = none
checked_side _ false (some s) = some (s, inferred)

pub record SideProblem : Type 0 where
  pub relation_index : ℕ
  pub endpoint : Endpoint
  pub side : Side
  pub origin : Origin

unfoldable pub side_problems :
    ℕ → List (Option Point) → Endpoint → Option (Side × Origin) → List SideProblem
side_problems index points endpoint none = []
side_problems index points endpoint (some (s, origin)) =
    if endpoint_side_issue points endpoint (some s)
    then record { relation_index = index; endpoint = endpoint; side = s; origin = origin } ∷ []
    else []

module _ (endpoint_ids : List Text) (path_for : SidedRelation → Option (List (Option Point)))
    (from_side_for to_side_for : SidedRelation → Option Side)
    (should_check_relation : SidedRelation → ℕ → Bool) where
  abbrev pub has_route_geometry : SidedRelation → Bool
  has_route_geometry relation = relation.has_route || relation.has_via

  unfoldable pub path_side_problems :
      ℕ → SidedRelation → Option (List (Option Point)) → List SideProblem
  path_side_problems index relation none = []
  path_side_problems index relation (some points) =
      if leb 2 (length points)
      then side_problems index points source
          (checked_side relation.from_side (has_route_geometry relation) (from_side_for relation))
        ++ side_problems index points target
            (checked_side relation.to_side (has_route_geometry relation) (to_side_for relation))
      else []

  abbrev pub is_checked : SidedRelation → ℕ → Bool
  is_checked relation index =
      includes endpoint_ids relation.from
      && includes endpoint_ids relation.to
      && should_check_relation relation index

  -- `cleanEndpointSideProblems`, from an index on.
  unfoldable pub clean_endpoint_side_problems : ℕ → List SidedRelation → List SideProblem
  clean_endpoint_side_problems index [] = []
  clean_endpoint_side_problems index (relation ∷ relations) =
      (if is_checked relation index
        then path_side_problems index relation (path_for relation)
        else [])
      ++ clean_endpoint_side_problems (suc index) relations
