-- ===== src/Geometry/Flow.antt =====
-- Relationships that run through unrelated nodes: `cleanFlowProblems`. A problem is what its
-- diagnostic names; the text of the message is not modelled.
pub mod Clear
use salience.Base.{
  ℕ, zero, suc, Text, text_eq, includes, List, [], ◌∷◌, ◌++◌, Bool, true, false, ◌&&◌, ◌||◌, Option,
  none, some, leb, length, map, if◌then◌else◌,
}
use salience.Geometry.Number.{Number}
use salience.Geometry.Segments.{Point, Rect, segment_intersects_rect}

-- The ends are absent where they are no texts.
pub record Relation : Type 0 where
  pub from : Option Text
  pub to : Option Text
  pub id : Option Text

-- The rectangle is absent where it is not finite.
pub record Obstacle : Type 0 where
  pub id : Text
  pub rect : Option Rect

pub record FlowProblem : Type 0 where
  pub relation_index : ℕ
  pub obstacle_id : Text
  pub segment_index : ℕ
  pub from : Point
  pub to : Point

-- `points.every(…)`, with the points where all are finite.
abbrev pub cons_point : Point → Option (List Point) → Option (List Point)
cons_point p none = none
cons_point p (some ps) = some (p ∷ ps)

unfoldable pub all_finite : List (Option Point) → Option (List Point)
all_finite [] = some []
all_finite (none ∷ points) = none
all_finite (some p ∷ points) = cons_point p (all_finite points)

-- The first segment that hits a rectangle, from an index on.
unfoldable pub hit_segment : Rect → Number → ℕ → List Point → Option (ℕ × Point × Point)
hit_segment rect clearance index [] = none
hit_segment rect clearance index (a ∷ []) = none
hit_segment rect clearance index (a ∷ b ∷ points) =
    let rest = hit_segment rect clearance (suc index) (b ∷ points) in
    if segment_intersects_rect a b rect clearance then some (index, a, b) else rest

abbrev pub problem_of : ℕ → Text → Option (ℕ × Point × Point) → List FlowProblem
problem_of relation_index obstacle_id none = []
problem_of relation_index obstacle_id (some (segment, a, b)) =
    record {
      relation_index = relation_index;
      obstacle_id = obstacle_id;
      segment_index = segment;
      from = a;
      to = b;
    }
    ∷ []

abbrev pub rect_problem : Number → ℕ → List Point → Text → Option Rect → List FlowProblem
rect_problem clearance relation_index points obstacle_id none = []
rect_problem clearance relation_index points obstacle_id (some rect) =
    problem_of relation_index obstacle_id (hit_segment rect clearance 0 points)

-- The loop over the obstacles, for a relationship with its ends.
unfoldable pub obstacle_problems :
    Number → ℕ → Text → Text → List Point → List Obstacle → List FlowProblem
obstacle_problems clearance relation_index from to points [] = []
obstacle_problems clearance relation_index from to points (o ∷ obstacles) =
    (if text_eq o.id from || text_eq o.id to
      then []
      else rect_problem clearance relation_index points o.id o.rect)
    ++ obstacle_problems clearance relation_index from to points obstacles

-- The ends of a relationship that is checked, with its points.
abbrev pub checked_points : Option (List (Option Point)) → Option (List Point)
checked_points none = none
checked_points (some points) = if leb 2 (length points) then all_finite points else none

abbrev pub known_ends : List Text → Option Text → Option Text → Option (Text × Text)
known_ends ids (some from) (some to) =
    if includes ids from && includes ids to then some (from, to) else none
known_ends ids _ _ = none

module _ (obstacles : List Obstacle) (path_for : Relation → Option (List (Option Point)))
    (clearance : Number) where
  abbrev pub path_problems : ℕ → Text → Text → Option (List Point) → List FlowProblem
  path_problems index from to none = []
  path_problems index from to (some points) =
      obstacle_problems clearance index from to points obstacles

  abbrev pub ends_problems : ℕ → Option (Text × Text) → Option (List Point) → List FlowProblem
  ends_problems index none points = []
  ends_problems index (some (from, to)) points = path_problems index from to points

  unfoldable pub relation_problems : ℕ → Relation → List FlowProblem
  relation_problems index relation =
      ends_problems index (known_ends (map (λ o. o.id) obstacles) relation.from relation.to)
        (checked_points (path_for relation))

  -- `cleanFlowProblems`, from an index on.
  unfoldable pub clean_flow_problems : ℕ → List Relation → List FlowProblem
  clean_flow_problems index [] = []
  clean_flow_problems index (relation ∷ relations) =
      relation_problems index relation ++ clean_flow_problems (suc index) relations
