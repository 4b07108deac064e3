-- ===== src/Geometry/Crossings/Denominator.antt =====
-- The intersection of two segments that cross properly is never divided by a number near 0.
use salience.Base.{
  ◌+◌, ◌≡◌, refl, true, false, none, some, arith, Bool-cases, inl, inr, and-eq-true, if◌then◌else◌,
}
use salience.Geometry.Number.{Number, lt, abs, square_epsilon}
use salience.Geometry.Segments.{Point, cross_product, are_opposite, crosses_properly}
use salience.Geometry.Crossings.{denominator_of, crossing_of, proper_segment_intersection}

-- The denominator is the difference of the two products.
denominator-difference :
    (a b c d : Point)
    → (denominator_of a b c d).up + (cross_product a b c).up + (cross_product a b d).down
      ≡ (denominator_of a b c d).down + (cross_product a b c).down + (cross_product a b d).up
unfolding cross_product
denominator-difference a b c d = omega arith

apart_by :
    (n p q : Number)
    → n.up + p.up + q.down ≡ n.down + p.down + q.up
    → are_opposite p q ≡ true
    → lt (abs n) square_epsilon ≡ false
apart_by n p q e h = ground (arith, e, h)

denominator-away :
    (a b c d : Point)
    → crosses_properly a b c d ≡ true
    → lt (abs (denominator_of a b c d)) square_epsilon ≡ false
unfolding crosses_properly
denominator-away a b c d h =
    apart_by (denominator_of a b c d) (cross_product a b c) (cross_product a b d)
      (denominator-difference a b c d)
      (and-eq-true (are_opposite (cross_product a b c) (cross_product a b d))
        (are_opposite (cross_product c d a) (cross_product c d b)) h).0

-- Two segments have a proper intersection exactly when the ends of each lie on opposite sides of the
-- other: the guard on the denominator never holds then, and the quotient is that by a number of at
-- least the epsilon.
pub proper_segment_intersection_lem :
    (a b c d : Point)
    → proper_segment_intersection a b c d
      ≡ (if crosses_properly a b c d then some (crossing_of a b c d) else none)
unfolding proper_segment_intersection
proper_segment_intersection_lem a b c d = elim (Bool-cases (crosses_properly a b c d)) [
  | inl e ↦ rw (e, denominator-away a b c d e) refl
  | inr e ↦ rw e refl
]
