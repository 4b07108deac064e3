-- ===== src/Geometry/Segments/Symmetry.antt =====
-- The tests on segments and rectangles do not depend on the order of what they compare.
use salience.Base.{
  ℕ, ◌+◌, ◌≡◌, refl, Bool, true, false, ◌||◌, Option, none, some, arith, ◌==◌, if◌then◌else◌,
}
use salience.Geometry.Number.{Number, le, max_of, min_of}
use salience.Geometry.Segments.{
  Point, Rect, Box, rects_overlap, turn, sign_of, orientation, on_segment, touches, crosses,
  segments_intersect, point_in_box, segment_intersects_rect, meets_sides, grown_box,
}

-- `rectsOverlap` is symmetric.
pub rects_overlap_sym :
    (a b : Option Rect) (gap : Number) → rects_overlap a b gap ≡ rects_overlap b a gap
unfolding rects_overlap
rects_overlap_sym (some a) (some b) gap = ground arith
rects_overlap_sym (some a) none gap = refl
rects_overlap_sym none (some b) gap = refl
rects_overlap_sym none none gap = refl

-- `segmentsIntersect` does not depend on which segment comes first.
pub segments_intersect_swap :
    (a b c d : Point) → segments_intersect a b c d ≡ segments_intersect c d a b
unfolding segments_intersect
segments_intersect_swap a b c d =
    swapped (orientation a b c) (orientation a b d) (orientation c d a) (orientation c d b) _ _ _ _
  where
    swapped :
        (o1 o2 o3 o4 : ℕ) (s1 s2 s3 s4 : Bool)
        → (touches o1 s1 || touches o2 s2 || touches o3 s3 || touches o4 s4 || crosses o1 o2 o3 o4)
          ≡ (touches o3 s3
              || touches o4 s4
              || touches o1 s1
              || touches o2 s2
              || crosses o3 o4 o1 o2)
    swapped o1 o2 o3 o4 s1 s2 s3 s4 = ground arith

swapped_turn :
    (a b c : Point) → (turn b a c).up + (turn a b c).up ≡ (turn b a c).down + (turn a b c).down
swapped_turn a b c = omega arith

-- What `orientation` gives when the segment is reversed.
abbrev mirrored : ℕ → ℕ
mirrored o = if o == 1 then 2 else (if o == 2 then 1 else o)

sign_of-mirrored : (v w : Number) → v.up + w.up ≡ v.down + w.down → sign_of v ≡ mirrored (sign_of w)
sign_of-mirrored v w e = ground arith

orientation-mirrored : (a b c : Point) → orientation b a c ≡ mirrored (orientation a b c)
unfolding orientation
orientation-mirrored a b c = sign_of-mirrored (turn b a c) (turn a b c) (swapped_turn a b c)

le-max_of : (q r p : Number) → le p (max_of q r) ≡ le p (max_of r q)
le-max_of q r p = ground arith

le-min_of : (q r p : Number) → le (min_of q r) p ≡ le (min_of r q) p
le-min_of q r p = ground arith

on_segment-reversed : (a b c : Point) → on_segment a c b ≡ on_segment b c a
unfolding on_segment
on_segment-reversed a b c =
    rw (le-max_of a.x b.x c.x, le-min_of a.x b.x c.x, le-max_of a.y b.y c.y, le-min_of a.y b.y c.y)
      refl

reversed_crossing :
    (o1 o2 o3 o4 : ℕ) (s1 s2 s3 s4 : Bool)
    → (touches (mirrored o1) s1
        || touches (mirrored o2) s2
        || touches o4 s4
        || touches o3 s3
        || crosses (mirrored o1) (mirrored o2) o4 o3)
      ≡ (touches o1 s1 || touches o2 s2 || touches o3 s3 || touches o4 s4 || crosses o1 o2 o3 o4)
reversed_crossing o1 o2 o3 o4 s1 s2 s3 s4 = ground arith

-- `segmentsIntersect` does not depend on the direction of a segment.
pub segments_intersect_reversed :
    (a b c d : Point) → segments_intersect b a c d ≡ segments_intersect a b c d
unfolding segments_intersect
segments_intersect_reversed a b c d =
    rw
      (
        orientation-mirrored a b c,
        orientation-mirrored a b d,
        on_segment-reversed b a c,
        on_segment-reversed b a d,
      )
      (reversed_crossing (orientation a b c) (orientation a b d) (orientation c d a)
        (orientation c d b) (on_segment a c b) (on_segment a d b) (on_segment c a d)
        (on_segment c b d))

meets_sides-reversed : (a b : Point) (box : Box) → meets_sides b a box ≡ meets_sides a b box
meets_sides-reversed a b box =
    rw
      (
        segments_intersect_reversed a b _ _,
        segments_intersect_reversed a b _ _,
        segments_intersect_reversed a b _ _,
        segments_intersect_reversed a b _ _,
      )
      refl

-- `segmentIntersectsRect` does not depend on the direction of the segment.
pub segment_intersects_rect_reversed :
    (a b : Point) (rect : Rect) (gap : Number)
    → segment_intersects_rect b a rect gap ≡ segment_intersects_rect a b rect gap
unfolding segment_intersects_rect
segment_intersects_rect_reversed a b rect gap =
    let box = grown_box rect gap in
    rw (meets_sides-reversed a b box)
      (either (point_in_box a box) (point_in_box b box) (meets_sides a b box))
  where
    either : (p q m : Bool) → (if q || p then true else m) ≡ (if p || q then true else m)
    either true true m = refl
    either true false m = refl
    either false true m = refl
    either false false m = refl
