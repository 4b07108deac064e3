-- ===== src/Geometry/Borders/Runs.antt =====
-- Routes that run along the borders of frames: `frameBorderSegments` and `collectBorderRuns`.
pub mod Off
use salience.Base.{
  ℕ, suc, List, [], ◌∷◌, ◌++◌, Bool, true, false, not, ◌&&◌, ◌||◌, Option, none, some, leb, map,
  if◌then◌else◌,
}
use salience.Geometry.Number.{Number, ◌⊕◌, ◌⊖◌, of_units, le, lt, max_of, min_of, epsilon}
use salience.Geometry.Segments.{Point, AxisOverlap, at, near, collinear_axis_overlap}
use salience.Geometry.Route.{segment_length}
use salience.Geometry.Borders.{axis_of, merge_border_overlaps}

-- A rectangle, whose width and height are given by their halves. A radius that is no number is 0.
pub record RectFrame : Type 0 where
  pub x : Number
  pub y : Number
  pub half_width : Number
  pub half_height : Number
  pub radius : Number

pub data Frame : Type 0 where
  line_frame : Point → Point → Frame
  rect_frame : RectFrame → Frame

pub data BorderSide : Type 0 where
  line_side top_side right_side bottom_side left_side : BorderSide

pub record Border : Type 0 where
  pub side : BorderSide
  pub start : Point
  pub end : Point

abbrev pub border : BorderSide → Point → Point → Border
border side start end = record { side = side; start = start; end = end }

-- The sides that are longer than the epsilon. They are parallel to an axis, so their length is the
-- sum of the distances along both.
abbrev pub long_borders : List Border → List Border
long_borders [] = []
long_borders (b ∷ borders) =
    if lt epsilon (segment_length b.start b.end)
    then b ∷ long_borders borders
    else long_borders borders

abbrev pub corner_radius : RectFrame → Number
corner_radius f = max_of (of_units 0) (min_of (min_of f.radius f.half_width) f.half_height)

abbrev pub rect_borders : Number → Number → Number → Number → Number → List Border
rect_borders left right top bottom radius =
    border top_side (at (left ⊕ radius) top) (at (right ⊖ radius) top)
    ∷ border right_side (at right (top ⊕ radius)) (at right (bottom ⊖ radius))
    ∷ border bottom_side (at (right ⊖ radius) bottom) (at (left ⊕ radius) bottom)
    ∷ border left_side (at left (bottom ⊖ radius)) (at left (top ⊕ radius))
    ∷ []

-- `frameBorderSegments`; `none` is no frame, or one that is not finite.
unfoldable pub frame_border_segments : Option Frame → List Border
frame_border_segments none = []
frame_border_segments (some (line_frame start end)) = border line_side start end ∷ []
frame_border_segments (some (rect_frame f)) =
    let width = f.half_width ⊕ f.half_width in
    let height = f.half_height ⊕ f.half_height in
    if le width (of_units 0) || le height (of_units 0)
    then []
    else long_borders (rect_borders f.x (f.x ⊕ width) f.y (f.y ⊕ height) (corner_radius f))

-- A routed relationship, with its segments if it has some. A point is absent where it is no pair of
-- finite numbers.
pub record RunRoute : Type 0 where
  pub relation_index : ℕ
  pub segments : Option (List (Option Point × Option Point))
  pub points : List (Option Point)

abbrev pub pairs_of : List (Option Point) → List (Option Point × Option Point)
pairs_of [] = []
pairs_of (a ∷ []) = []
pairs_of (a ∷ b ∷ points) = (a, b) ∷ pairs_of (b ∷ points)

abbrev pub route_segments :
    Option (List (Option Point × Option Point))
    → List (Option Point)
    → List (Option Point × Option Point)
route_segments (some segments) points = segments
route_segments none points = pairs_of points

abbrev pub cons_segment :
    Option Point → Option Point → Option (List (Point × Point)) → Option (List (Point × Point))
cons_segment (some a) (some b) (some segments) = some ((a, b) ∷ segments)
cons_segment _ _ _ = none

-- The segments, if all their ends are finite.
unfoldable pub finite_segments : List (Option Point × Option Point) → Option (List (Point × Point))
finite_segments [] = some []
finite_segments ((a, b) ∷ segments) = cons_segment a b (finite_segments segments)

abbrev pub long_part : ℕ → Option AxisOverlap → List (ℕ × AxisOverlap)
long_part index none = []
long_part index (some o) = if le o.length epsilon then [] else (index, o) ∷ []

-- The array `overlaps` behind the loop over the segments.
unfoldable pub border_overlaps : Border → ℕ → List (Point × Point) → List (ℕ × AxisOverlap)
border_overlaps b index [] = []
border_overlaps b index ((start, end) ∷ segments) =
    long_part index (collinear_axis_overlap start end b.start b.end)
    ++ border_overlaps b (suc index) segments

-- The order of `sort`: the longer part first, and then the lower one.
abbrev pub is_before_run : Bool → AxisOverlap → AxisOverlap → Bool
is_before_run horizontal a b =
    lt b.length a.length
    || (not (lt a.length b.length) && lt (axis_of horizontal a.start) (axis_of horizontal b.start))

abbrev pub insert_run : Bool → AxisOverlap → List AxisOverlap → List AxisOverlap
insert_run horizontal o [] = o ∷ []
insert_run horizontal o (p ∷ runs) =
    let rest = insert_run horizontal o runs in
    if is_before_run horizontal p o then p ∷ rest else o ∷ p ∷ runs

unfoldable pub sort_runs : Bool → List AxisOverlap → List AxisOverlap
sort_runs horizontal [] = []
sort_runs horizontal (o ∷ runs) = insert_run horizontal o (sort_runs horizontal runs)

unfoldable pub total_length : List AxisOverlap → Number
total_length [] = of_units 0
total_length (o ∷ runs) = o.length ⊕ total_length runs

-- `Math.min` of the indices.
unfoldable pub least_index : ℕ → List (ℕ × AxisOverlap) → ℕ
least_index index [] = index
least_index index ((i, o) ∷ overlaps) = least_index (if leb index i then index else i) overlaps

pub record BorderRun : Type 0 where
  pub route : RunRoute
  pub frame_index : ℕ
  pub side : BorderSide
  pub segment_index : ℕ
  pub overlap_length : Number
  pub overlap_start : Point
  pub overlap_end : Point

module _ (route : RunRoute) (frame_index : ℕ) where
  -- The hit, with the merged parts in their order; the first one is `longest`.
  abbrev pub hit_of : BorderSide → ℕ → Number → List AxisOverlap → List BorderRun
  hit_of side segment_index total [] = []
  hit_of side segment_index total (longest ∷ runs) =
      record {
        route = route;
        frame_index = frame_index;
        side = side;
        segment_index = segment_index;
        overlap_length = total;
        overlap_start = longest.start;
        overlap_end = longest.end;
      }
      ∷ []

  abbrev pub border_run : Border → List (ℕ × AxisOverlap) → List BorderRun
  border_run b [] = []
  border_run b ((i, o) ∷ overlaps) =
      let merged = merge_border_overlaps (o ∷ map (λ p. p.1) overlaps) b.start b.end in
      hit_of b.side (least_index i overlaps) (total_length merged)
        (sort_runs (near b.start.y b.end.y) merged)

  unfoldable pub frame_runs : List (Point × Point) → List Border → List BorderRun
  frame_runs segments [] = []
  frame_runs segments (b ∷ borders) =
      border_run b (border_overlaps b 0 segments) ++ frame_runs segments borders

unfoldable pub route_runs :
    RunRoute → List (Point × Point) → ℕ → List (Option Frame) → List BorderRun
route_runs route segments frame_index [] = []
route_runs route segments frame_index (frame ∷ frames) =
    frame_runs route frame_index segments (frame_border_segments frame)
    ++ route_runs route segments (suc frame_index) frames

abbrev pub finite_runs :
    RunRoute → List (Option Frame) → Option (List (Point × Point)) → List BorderRun
finite_runs route frames none = []
finite_runs route frames (some segments) = route_runs route segments 0 frames

-- `collectBorderRuns`
unfoldable pub collect_border_runs : List (Option Frame) → List RunRoute → List BorderRun
collect_border_runs frames [] = []
collect_border_runs frames (route ∷ routes) =
    finite_runs route frames (finite_segments (route_segments route.segments route.points))
    ++ collect_border_runs frames routes
