-- ===== src/Geometry/Borders.antt =====
-- Runs along the borders of frames: `frameBorderSegments`, of rectangles, and `mergeBorderOverlaps`.
pub mod Merged
pub mod Runs
mod Tests
use salience.Base.{
  ℕ, ◌+◌, List, [], ◌∷◌, ◌++◌, Bool, true, false, not, ◌&&◌, ◌||◌, Option, none, some,
  if◌then◌else◌,
}
use salience.Geometry.Number.{Number, ◌⊕◌, ◌⊖◌, of_units, le, lt, abs, max_of, min_of, epsilon}
use salience.Geometry.Segments.{Point, Rect, at, AxisOverlap, near}

pub record Interval : Type 0 where
  pub low : Number
  pub high : Number

-- The order of `sort`, by the low end and then by the high end.
abbrev pub is_before : Interval → Interval → Bool
is_before a b = lt a.low b.low || (not (lt b.low a.low) && lt a.high b.high)

abbrev pub insert_interval : Interval → List Interval → List Interval
insert_interval i [] = i ∷ []
insert_interval i (j ∷ intervals) =
    let rest = insert_interval i intervals in if is_before j i then j ∷ rest else i ∷ j ∷ intervals

unfoldable pub sort_intervals : List Interval → List Interval
sort_intervals [] = []
sort_intervals (i ∷ intervals) = insert_interval i (sort_intervals intervals)

-- The loop over the sorted intervals, with the last one of `merged`.
unfoldable pub merge_from : Interval → List Interval → List Interval
merge_from previous [] = previous ∷ []
merge_from previous (i ∷ intervals) =
    let grown = record previous { high = max_of previous.high i.high } in
    let joined = merge_from grown intervals in
    let apart = merge_from i intervals in
    if le i.low (previous.high ⊕ epsilon) then joined else previous ∷ apart

abbrev pub merge_sorted : List Interval → List Interval
merge_sorted [] = []
merge_sorted (i ∷ intervals) = merge_from i intervals

unfoldable pub merge_intervals : List Interval → List Interval
merge_intervals intervals = merge_sorted (sort_intervals intervals)

abbrev pub axis_of : Bool → Point → Number
axis_of horizontal p = if horizontal then p.x else p.y

abbrev pub interval_of : Bool → AxisOverlap → Interval
interval_of horizontal o = record {
  low = min_of (axis_of horizontal o.start) (axis_of horizontal o.end);
  high = max_of (axis_of horizontal o.start) (axis_of horizontal o.end);
}

abbrev pub intervals_of : Bool → List AxisOverlap → List Interval
intervals_of horizontal [] = []
intervals_of horizontal (o ∷ overlaps) = interval_of horizontal o ∷ intervals_of horizontal overlaps

abbrev pub placed_at : Bool → Number → Number → Point
placed_at horizontal along fixed = if horizontal then at along fixed else at fixed along

abbrev pub overlaps_of : Bool → Number → List Interval → List AxisOverlap
overlaps_of horizontal fixed [] = []
overlaps_of horizontal fixed (i ∷ intervals) =
    record {
      length = i.high ⊖ i.low;
      start = placed_at horizontal i.low fixed;
      end = placed_at horizontal i.high fixed;
    }
    ∷ overlaps_of horizontal fixed intervals

-- `mergeBorderOverlaps`, of a border by its ends.
unfoldable pub merge_border_overlaps : List AxisOverlap → Point → Point → List AxisOverlap
merge_border_overlaps overlaps start end =
    let horizontal = near start.y end.y in
    overlaps_of horizontal (if horizontal then start.y else start.x)
      (merge_intervals (intervals_of horizontal overlaps))
