-- ===== src/Geometry/Route.antt =====
-- Routes: `normalizeRoutePoints`, `segmentPosition`, `collectRouteRhythmIssues`, and the sides at
-- the ends of a route, `endpointSideIssue` and `routeHonorsEndpointSides`.
pub mod Straight
pub mod Rhythm
pub mod Budget
use mathlib.Core.List.{reverse}
use salience.Base.{
  ℕ, zero, suc, ◌+◌, ◌-◌, List, [], ◌∷◌, ◌++◌, Bool, true, false, not, ◌&&◌, ◌||◌, Option, none,
  some, ltb, ◌==◌, length, if◌then◌else◌,
}
use salience.Geometry.Number.{Number, ◌⊕◌, ◌⊖◌, ◌⊗◌, of_units, le, lt, abs, epsilon, square_epsilon}
use salience.Geometry.Segments.{Point, cross_product}

unfoldable pub collinear_forward : Point → Point → Point → Bool
collinear_forward a b c =
    if lt square_epsilon (abs (cross_product a b c))
    then false
    else le (of_units 0 ⊖ square_epsilon) ((b.x ⊖ a.x) ⊗ (c.x ⊖ b.x) ⊕ (b.y ⊖ a.y) ⊗ (c.y ⊖ b.y))

-- The points of a route, where they are pairs of finite numbers.
abbrev pub finite_points : List (Option Point) → List Point
finite_points [] = []
finite_points (none ∷ points) = finite_points points
finite_points (some p ∷ points) = p ∷ finite_points points

abbrev pub differs : Point → Point → Bool
differs p q = lt epsilon (abs (p.x ⊖ q.x)) || lt epsilon (abs (p.y ⊖ q.y))

abbrev pub is_new : Option Point → Point → Bool
is_new none p = true
is_new (some q) p = differs p q

-- The loop over `deduped`, with the point that was pushed last.
unfoldable pub dedupe_after : Option Point → List Point → List Point
dedupe_after previous [] = []
dedupe_after previous (p ∷ points) =
    let kept = dedupe_after (some p) points in
    let skipped = dedupe_after previous points in if is_new previous p then p ∷ kept else skipped

-- `normalized`, with the last point first: the points that `while` pops, and the loop.
unfoldable pub drop_straight : Point → List Point → List Point
drop_straight p [] = []
drop_straight p (b ∷ []) = b ∷ []
drop_straight p (b ∷ a ∷ stack) =
    let rest = drop_straight p (a ∷ stack) in
    if collinear_forward a b p then rest else b ∷ a ∷ stack

unfoldable pub straighten_onto : List Point → List Point → List Point
straighten_onto stack [] = stack
straighten_onto stack (p ∷ points) = straighten_onto (p ∷ drop_straight p stack) points

unfoldable pub normalize_route_points : List (Option Point) → List Point
normalize_route_points points =
    reverse (straighten_onto [] (dedupe_after none (finite_points points)))

pub data Position : Type 0 where
  source_stub target_stub interior : Position

unfoldable pub segment_position : ℕ → ℕ → Position
segment_position index segment_count =
    if index == 0
    then source_stub
    else (if suc index == segment_count then target_stub else interior)

pub data RhythmCode : Type 0 where
  micro_segment short_interior_segment : RhythmCode

pub record RhythmIssue : Type 0 where
  pub code : RhythmCode
  pub relation_index : ℕ
  pub segment_index : ℕ
  pub position : Position
  pub length : Number
  pub start : Point
  pub end : Point

abbrev pub segment_length : Point → Point → Number
segment_length start end = abs (end.x ⊖ start.x) ⊕ abs (end.y ⊖ start.y)

abbrev pub is_interior : Position → Bool
is_interior p = elim p [ interior ↦ true | _ ↦ false ]

-- The floors `interiorSegmentPx` and `microSegmentPx`.
module _ (interior_segment_px micro_segment_px : Number) where
  abbrev pub rhythm_code : Position → Number → Option RhythmCode
  rhythm_code position length =
      if lt length (micro_segment_px ⊖ epsilon)
      then some micro_segment
      else (if is_interior position && lt length (interior_segment_px ⊖ epsilon)
          then some short_interior_segment
          else none)

  abbrev pub issue_of :
      ℕ → ℕ → Position → Number → Point → Point → Option RhythmCode → List RhythmIssue
  issue_of relation_index segment_index position length start end none = []
  issue_of relation_index segment_index position length start end (some code) =
      record {
        code = code;
        relation_index = relation_index;
        segment_index = segment_index;
        position = position;
        length = length;
        start = start;
        end = end;
      }
      ∷ []

  unfoldable pub segment_issues : ℕ → ℕ → ℕ → Point → Point → List RhythmIssue
  segment_issues relation_index segment_count segment_index start end =
      let length = segment_length start end in
      let position = segment_position segment_index segment_count in
      if le length epsilon
      then []
      else issue_of relation_index segment_index position length start end
          (rhythm_code position length)

  unfoldable pub route_issues : ℕ → ℕ → ℕ → List Point → List RhythmIssue
  route_issues relation_index segment_count segment_index [] = []
  route_issues relation_index segment_count segment_index (start ∷ []) = []
  route_issues relation_index segment_count segment_index (start ∷ end ∷ points) =
      segment_issues relation_index segment_count segment_index start end
      ++ route_issues relation_index segment_count (suc segment_index) (end ∷ points)

  abbrev pub index_or : Option ℕ → ℕ → ℕ
  index_or none fallback = fallback
  index_or (some index) fallback = index

  -- `collectRouteRhythmIssues`, from an index on, of routes with their `relationIndex`.
  unfoldable pub collect_route_rhythm_issues :
      ℕ → List (Option ℕ × List (Option Point)) → List RhythmIssue
  collect_route_rhythm_issues fallback_index [] = []
  collect_route_rhythm_issues fallback_index ((relation_index, points) ∷ routes) =
      let normalized = normalize_route_points points in
      route_issues (index_or relation_index fallback_index) (length normalized - 1) 0 normalized
      ++ collect_route_rhythm_issues (suc fallback_index) routes

-- `ENDPOINT_SIDE_RULES`
pub data Side : Type 0 where
  left right top bottom : Side

abbrev pub is_horizontal_side : Side → Bool
is_horizontal_side s = elim s [ left ↦ true | right ↦ true | _ ↦ false ]

abbrev pub source_is_positive : Side → Bool
source_is_positive s = elim s [ right ↦ true | bottom ↦ true | _ ↦ false ]

pub data Endpoint : Type 0 where
  source target : Endpoint

-- Whether `expectedSign` is 1.
abbrev pub expects_positive : Endpoint → Side → Bool
expects_positive source side = source_is_positive side
expects_positive target side = not (source_is_positive side)

abbrev pub signed : Bool → Number → Number
signed true n = n
signed false n = of_units 0 ⊖ n

abbrev pub runs_along : Bool → Number → Number → Bool
runs_along positive along across = le (abs across) epsilon && lt epsilon (signed positive along)

abbrev pub honors : Side → Bool → Point → Point → Bool
honors side positive start end =
    if is_horizontal_side side
    then runs_along positive (end.x ⊖ start.x) (end.y ⊖ start.y)
    else runs_along positive (end.y ⊖ start.y) (end.x ⊖ start.x)

-- The first and the last segment of a route.
abbrev pub first_segment : List Point → Option (Point × Point)
first_segment (a ∷ b ∷ points) = some (a, b)
first_segment _ = none

unfoldable pub last_segment : List Point → Option (Point × Point)
last_segment [] = none
last_segment (a ∷ []) = none
last_segment (a ∷ b ∷ []) = some (a, b)
last_segment (a ∷ b ∷ c ∷ points) = last_segment (b ∷ c ∷ points)

abbrev pub endpoint_segment : Endpoint → List Point → Option (Point × Point)
endpoint_segment source points = first_segment points
endpoint_segment target points = last_segment points

abbrev pub has_issue : Endpoint → Side → Option (Point × Point) → Bool
has_issue endpoint side none = false
has_issue endpoint side (some (start, end)) =
    not (honors side (expects_positive endpoint side) start end)

-- `endpointSideIssue`, whether there is one; `none` is no side of the table.
unfoldable pub endpoint_side_issue : List (Option Point) → Endpoint → Option Side → Bool
endpoint_side_issue points endpoint none = false
endpoint_side_issue points endpoint (some side) =
    has_issue endpoint side (endpoint_segment endpoint (normalize_route_points points))

unfoldable pub route_honors_endpoint_sides : List (Option Point) → Option Side → Option Side → Bool
route_honors_endpoint_sides points from_side to_side =
    not (endpoint_side_issue points source from_side)
    && not (endpoint_side_issue points target to_side)
