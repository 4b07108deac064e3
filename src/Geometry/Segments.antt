-- ===== src/Geometry/Segments.antt =====
-- Rectangles and segments: `rectsOverlap`, `segmentIntersectsRect`, `segmentsIntersect`,
-- `collinearAxisOverlap` and their helpers.
pub mod Symmetry
use salience.Base.{
  ℕ, Bool, true, false, not, ◌&&◌, ◌||◌, Option, none, some, ◌==◌, if◌then◌else◌, ◌>>=◌,
}
use salience.Geometry.Number.{
  Number, ◌⊕◌, ◌⊖◌, ◌⊗◌, of_units, le, lt, max_of, min_of, abs, epsilon, square_epsilon,
}

pub record Point : Type 0 where
  pub x : Number
  pub y : Number

pub record Rect : Type 0 where
  pub x : Number
  pub y : Number
  pub width : Number
  pub height : Number

-- `rectsOverlap`, of rectangles where they are finite.
abbrev pub finite_overlap : Rect → Rect → Number → Bool
finite_overlap a b gap = not (
    le (a.x ⊕ a.width ⊕ gap) b.x
    || le (b.x ⊕ b.width ⊕ gap) a.x
    || le (a.y ⊕ a.height ⊕ gap) b.y
    || le (b.y ⊕ b.height ⊕ gap) a.y)

unfoldable pub rects_overlap : Option Rect → Option Rect → Number → Bool
rects_overlap (some a) (some b) gap = finite_overlap a b gap
rects_overlap _ _ gap = false

pub record Box : Type 0 where
  pub x1 : Number
  pub y1 : Number
  pub x2 : Number
  pub y2 : Number

unfoldable pub point_in_box : Point → Box → Bool
point_in_box p box = le box.x1 p.x && le p.x box.x2 && le box.y1 p.y && le p.y box.y2

abbrev pub turn : Point → Point → Point → Number
turn a b c = (b.y ⊖ a.y) ⊗ (c.x ⊖ b.x) ⊖ (b.x ⊖ a.x) ⊗ (c.y ⊖ b.y)

-- The three results of `orientation`: 0, 1 and 2.
abbrev pub sign_of : Number → ℕ
sign_of value =
    if lt (abs value) square_epsilon then 0 else (if lt (of_units 0) value then 1 else 2)

unfoldable pub orientation : Point → Point → Point → ℕ
orientation a b c = sign_of (turn a b c)

unfoldable pub on_segment : Point → Point → Point → Bool
on_segment a b c =
    le b.x (max_of a.x c.x)
    && le (min_of a.x c.x) b.x
    && le b.y (max_of a.y c.y)
    && le (min_of a.y c.y) b.y

abbrev pub touches : ℕ → Bool → Bool
touches o on = o == 0 && on

abbrev pub crosses : ℕ → ℕ → ℕ → ℕ → Bool
crosses o1 o2 o3 o4 = not (o1 == o2) && not (o3 == o4)

unfoldable pub segments_intersect : Point → Point → Point → Point → Bool
segments_intersect a b c d =
    let o1 = orientation a b c in
    let o2 = orientation a b d in
    let o3 = orientation c d a in
    let o4 = orientation c d b in
    touches o1 (on_segment a c b)
    || touches o2 (on_segment a d b)
    || touches o3 (on_segment c a d)
    || touches o4 (on_segment c b d)
    || crosses o1 o2 o3 o4

abbrev pub at : Number → Number → Point
at x y = record { x = x; y = y }

abbrev pub grown_box : Rect → Number → Box
grown_box rect gap = record {
  x1 = rect.x ⊖ gap;
  y1 = rect.y ⊖ gap;
  x2 = rect.x ⊕ rect.width ⊕ gap;
  y2 = rect.y ⊕ rect.height ⊕ gap;
}

abbrev pub meets_sides : Point → Point → Box → Bool
meets_sides a b box =
    segments_intersect a b (at box.x1 box.y1) (at box.x2 box.y1)
    || segments_intersect a b (at box.x2 box.y1) (at box.x2 box.y2)
    || segments_intersect a b (at box.x2 box.y2) (at box.x1 box.y2)
    || segments_intersect a b (at box.x1 box.y2) (at box.x1 box.y1)

unfoldable pub segment_intersects_rect : Point → Point → Rect → Number → Bool
segment_intersects_rect a b rect gap =
    let box = grown_box rect gap in
    if point_in_box a box || point_in_box b box then true else meets_sides a b box

unfoldable pub cross_product : Point → Point → Point → Number
cross_product a b c = (b.x ⊖ a.x) ⊗ (c.y ⊖ a.y) ⊖ (b.y ⊖ a.y) ⊗ (c.x ⊖ a.x)

-- A part that two segments share on a horizontal or a vertical line.
pub record AxisOverlap : Type 0 where
  pub length : Number
  pub start : Point
  pub end : Point

abbrev pub near : Number → Number → Bool
near a b = le (abs (a ⊖ b)) epsilon

abbrev pub shared_low : Number → Number → Number → Number → Number
shared_low a b c d = max_of (min_of a b) (min_of c d)

abbrev pub shared_high : Number → Number → Number → Number → Number
shared_high a b c d = min_of (max_of a b) (max_of c d)

abbrev pub horizontal_part : Number → Number → Number → Option AxisOverlap
horizontal_part low high fixed =
    if le (high ⊖ low) epsilon
    then none
    else some (record { length = high ⊖ low; start = at low fixed; end = at high fixed })

abbrev pub vertical_part : Number → Number → Number → Option AxisOverlap
vertical_part low high fixed =
    if le (high ⊖ low) epsilon
    then none
    else some (record { length = high ⊖ low; start = at fixed low; end = at fixed high })

abbrev pub is_horizontal : Point → Point → Point → Point → Bool
is_horizontal a b c d = near a.y b.y && near c.y d.y && near a.y c.y

abbrev pub is_vertical : Point → Point → Point → Point → Bool
is_vertical a b c d = near a.x b.x && near c.x d.x && near a.x c.x

unfoldable pub collinear_axis_overlap : Point → Point → Point → Point → Option AxisOverlap
collinear_axis_overlap a b c d =
    if is_horizontal a b c d
    then horizontal_part (shared_low a.x b.x c.x d.x) (shared_high a.x b.x c.x d.x) a.y
    else (if is_vertical a b c d
        then vertical_part (shared_low a.y b.y c.y d.y) (shared_high a.y b.y c.y d.y) a.x
        else none)

-- The signs that `properSegmentIntersection` tests, before it computes the point.
abbrev pub are_opposite : Number → Number → Bool
are_opposite left right =
    (lt square_epsilon left && lt right (of_units 0 ⊖ square_epsilon))
    || (lt left (of_units 0 ⊖ square_epsilon) && lt square_epsilon right)

unfoldable pub crosses_properly : Point → Point → Point → Point → Bool
crosses_properly a b c d =
    are_opposite (cross_product a b c) (cross_product a b d)
    && are_opposite (cross_product c d a) (cross_product c d b)
