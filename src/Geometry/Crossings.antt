-- ===== src/Geometry/Crossings.antt =====
-- Proper crossings of relationships: `properSegmentIntersection`, `forwardCollinearAnalysisSegments`,
-- `authoredAnalysisSegments`, `qualityProfileForGate` and `cleanCrossingProblems`. The segment of the
-- author that a diagnostic names for a point is not modelled.
pub mod Denominator
pub mod Uncrossed
use salience.Base.{
  ℕ, zero, suc, ◌*◌, Text, codes, text_eq, includes, List, [], ◌∷◌, ◌++◌, Bool, true, false, not,
  ◌&&◌, ◌||◌, Option, none, some, leb, length, if◌then◌else◌,
}
use salience.Geometry.Number.{Number, ◌⊕◌, ◌⊖◌, ◌⊗◌, of_units, le, lt, abs, epsilon, square_epsilon}
use salience.Geometry.Segments.{Point, crosses_properly}
use salience.Geometry.Flow.{all_finite}

-- A point by its two quotients.
pub record Crossing : Type 0 where
  pub x : Number
  pub y : Number
  pub denominator : Number

abbrev pub denominator_of : Point → Point → Point → Point → Number
denominator_of a b c d = (a.x ⊖ b.x) ⊗ (c.y ⊖ d.y) ⊖ (a.y ⊖ b.y) ⊗ (c.x ⊖ d.x)

abbrev pub product_of : Point → Point → Number
product_of a b = a.x ⊗ b.y ⊖ a.y ⊗ b.x

abbrev pub crossing_of : Point → Point → Point → Point → Crossing
crossing_of a b c d = record {
  x = product_of a b ⊗ (c.x ⊖ d.x) ⊖ (a.x ⊖ b.x) ⊗ product_of c d;
  y = product_of a b ⊗ (c.y ⊖ d.y) ⊖ (a.y ⊖ b.y) ⊗ product_of c d;
  denominator = denominator_of a b c d;
}

unfoldable pub proper_segment_intersection : Point → Point → Point → Point → Option Crossing
proper_segment_intersection a b c d =
    if not (crosses_properly a b c d)
    then none
    else (if lt (abs (denominator_of a b c d)) square_epsilon
        then none
        else some (crossing_of a b c d))

-- A segment with its index among those of the author.
pub record Segment : Type 0 where
  pub start : Point
  pub end : Point
  pub segment_index : ℕ

abbrev pub dot : Number → Number → Number → Number → Number
dot x1 y1 x2 y2 = x1 ⊗ x2 ⊕ y1 ⊗ y2

-- `Math.hypot(x, y) <= epsilon`, squared.
abbrev pub is_tiny : Number → Number → Bool
is_tiny x y = le (dot x y x y) (epsilon ⊗ epsilon)

abbrev pub continues : Number → Number → Number → Number → Bool
continues x1 y1 x2 y2 =
    not (is_tiny x1 y1)
    && not (is_tiny x2 y2)
    && le (abs (x1 ⊗ y2 ⊖ y1 ⊗ x2)) square_epsilon
    && lt square_epsilon (dot x1 y1 x2 y2)

-- `segmentsContinueForward`, of finite points.
unfoldable pub segments_continue_forward : Point → Point → Point → Point → Bool
segments_continue_forward first_start first_end second_start second_end =
    le (abs (first_end.x ⊖ second_start.x)) epsilon
    && le (abs (first_end.y ⊖ second_start.y)) epsilon
    && continues (first_end.x ⊖ first_start.x) (first_end.y ⊖ first_start.y)
        (second_end.x ⊖ second_start.x) (second_end.y ⊖ second_start.y)

unfoldable pub authored_segments : ℕ → List Point → List Segment
authored_segments index [] = []
authored_segments index (a ∷ []) = []
authored_segments index (a ∷ b ∷ points) =
    record { start = a; end = b; segment_index = index }
    ∷ authored_segments (suc index) (b ∷ points)

-- The loop of `forwardCollinearAnalysisSegments`, with the segment that was pushed last.
unfoldable pub merge_segments : Segment → List Segment → List Segment
merge_segments previous [] = previous ∷ []
merge_segments previous (s ∷ segments) =
    let joined = merge_segments (record previous { end = s.end }) segments in
    let apart = merge_segments s segments in
    if segments_continue_forward previous.start previous.end s.start s.end
    then joined
    else previous ∷ apart

abbrev pub merged_segments : List Segment → List Segment
merged_segments [] = []
merged_segments (s ∷ segments) = merge_segments s segments

unfoldable pub analysis_segments : Bool → List Point → List Segment
analysis_segments merge_forward points =
    if merge_forward
    then merged_segments (authored_segments 0 points)
    else authored_segments 0 points

pub record CrossingRelation : Type 0 where
  pub from : Text
  pub to : Text

pub record AnalysedRelation : Type 0 where
  pub from : Text
  pub to : Text
  pub index : ℕ
  pub segments : List Segment

pub record CrossingProblem : Type 0 where
  pub left_index : ℕ
  pub right_index : ℕ
  pub point : Crossing

-- The first crossing that the two inner loops find.
abbrev pub or_next : Option Crossing → Option Crossing → Option Crossing
or_next none next = next
or_next (some c) next = some c

unfoldable pub crossing_with : Segment → List Segment → Option Crossing
crossing_with left [] = none
crossing_with left (s ∷ right) =
    or_next (proper_segment_intersection left.start left.end s.start s.end)
      (crossing_with left right)

unfoldable pub crossing_between : List Segment → List Segment → Option Crossing
crossing_between [] right = none
crossing_between (s ∷ left) right = or_next (crossing_with s right) (crossing_between left right)

abbrev pub joins : AnalysedRelation → AnalysedRelation → Bool
joins left right =
    text_eq left.from right.from
    || text_eq left.from right.to
    || text_eq left.to right.from
    || text_eq left.to right.to

abbrev pub crossing_problem : ℕ → ℕ → Option Crossing → List CrossingProblem
crossing_problem left right none = []
crossing_problem left right (some c) =
    record { left_index = left; right_index = right; point = c } ∷ []

unfoldable pub pair_problems : AnalysedRelation → AnalysedRelation → List CrossingProblem
pair_problems left right =
    if joins left right
    then []
    else crossing_problem left.index right.index (crossing_between left.segments right.segments)

unfoldable pub problems_with : AnalysedRelation → List AnalysedRelation → List CrossingProblem
problems_with left [] = []
problems_with left (right ∷ routed) = pair_problems left right ++ problems_with left routed

unfoldable pub crossing_problems : List AnalysedRelation → List CrossingProblem
crossing_problems [] = []
crossing_problems (left ∷ routed) = problems_with left routed ++ crossing_problems routed

-- `qualityProfileForGate`, with the variable `ARCHIFY_QUALITY_PROFILE` where it is no empty text.
abbrev pub quality_profile_for_gate : Text → Bool → Option Text → Text
quality_profile_for_gate profile true variable = profile
quality_profile_for_gate profile false none = profile
quality_profile_for_gate profile false (some variable) = variable

module _ (endpoint_ids : List Text) (path_for : CrossingRelation → Option (List (Option Point)))
    (merge_forward : Bool) where
  abbrev pub analysed_points : CrossingRelation → ℕ → Option (List Point) → List AnalysedRelation
  analysed_points relation index none = []
  analysed_points relation index (some points) =
      record {
        from = relation.from;
        to = relation.to;
        index = index;
        segments = analysis_segments merge_forward points;
      }
      ∷ []

  abbrev pub analysed_path :
      CrossingRelation → ℕ → Option (List (Option Point)) → List AnalysedRelation
  analysed_path relation index none = []
  analysed_path relation index (some points) =
      if leb 2 (length points) then analysed_points relation index (all_finite points) else []

  unfoldable pub analysed_relations : ℕ → List CrossingRelation → List AnalysedRelation
  analysed_relations index [] = []
  analysed_relations index (relation ∷ relations) =
      (if includes endpoint_ids relation.from && includes endpoint_ids relation.to
        then analysed_path relation index (path_for relation)
        else [])
      ++ analysed_relations (suc index) relations

  -- `cleanCrossingProblems`, under a quality profile.
  unfoldable pub clean_crossing_problems : Text → List CrossingRelation → List CrossingProblem
  clean_crossing_problems profile relations =
      if text_eq profile (codes "showcase")
      then crossing_problems (analysed_relations 0 relations)
      else []
