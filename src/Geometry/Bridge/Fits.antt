-- ===== src/Geometry/Bridge/Fits.antt =====
-- Which routes bridge two ports.
use mathlib.Core.Path.{subst}
use salience.Base.{
  ◌≡◌, refl, inl, inr, List, [], ◌∷◌, ◌++◌, Bool, true, false, ◌&&◌, and-eq-true, Bool-cases,
  some_inj, none, some, if◌then◌else◌,
}
use salience.Geometry.Number.{Number}
use salience.Geometry.Segments.{Point}
use salience.Geometry.Route.{
  Side, RhythmIssue, finite_points, normalize_route_points, route_honors_endpoint_sides,
  collect_route_rhythm_issues,
}
use salience.Geometry.Route.Straight.{normalize_route_points-start}
use salience.Geometry.Route.Rhythm.{AllRoutesWide, collect_route_rhythm_issues_iff}
use salience.Geometry.Bridge.{
  given, is_quiet, is_bridge, find_bridge, are_x_close, are_y_close, x_pair, y_pair, x_candidates,
  y_candidates, micro_segment_px, automatic_port_rhythm_bridge,
}

abbrev StartsAt : Point → List Point → Type 0
StartsAt start [] = ⊥
StartsAt start (p ∷ points) = p ≡ start

abbrev AllStart : Point → List (List Point) → Type 0
AllStart start [] = Unit
AllStart start (points ∷ candidates) = StartsAt start points × AllStart start candidates

AllStart-append :
    (start : Point) (l m : List (List Point))
    → AllStart start l
    → AllStart start m
    → AllStart start (l ++ m)
AllStart-append start [] m h k = k
AllStart-append start (points ∷ l) m (x, h) k = (x, AllStart-append start l m h k)

AllStart-if :
    (start : Point) (b : Bool) (l : List (List Point))
    → AllStart start l
    → AllStart start (if b then l else [])
AllStart-if start true l h = h
AllStart-if start false l h = tt

is_quiet-nil : (l : List RhythmIssue) → is_quiet l ≡ true → l ≡ []
is_quiet-nil [] e = refl
is_quiet-nil (i ∷ l) e = cc

module _ (endpoint_stub_px interior_segment_px : Number) (accept : List Point → Bool) where
  -- The points begin at a port, leave and enter on the sides, have no segment that is too short, and
  -- are accepted.
  abbrev pub IsFitting : Point → Side → Side → List Point → Type 0
  IsFitting start from_side to_side points =
      ((more : List Point) × (points ≡ start ∷ more))
      × ((route_honors_endpoint_sides (given points) (some from_side) (some to_side) ≡ true)
          × (AllRoutesWide interior_segment_px micro_segment_px ((none, given points) ∷ [])
              × (accept points ≡ true)))

  finite_points-given : (points : List Point) → finite_points (given points) ≡ points
  finite_points-given [] = refl
  finite_points-given (p ∷ points) = rw (finite_points-given points) refl

  normalized_start :
      (start : Point) (points : List Point)
      → StartsAt start points
      → (more : List Point) × (normalize_route_points (given points) ≡ start ∷ more)
  normalized_start start [] h = elim h [ ]
  normalized_start start (p ∷ points) h =
      let (more, e) =
        normalize_route_points-start (given (p ∷ points)) p points
          (finite_points-given (p ∷ points)) in
      (more, cc)

  is_bridge-IsFitting :
      (start : Point) (from_side to_side : Side) (points : List Point)
      → (more : List Point) × (points ≡ start ∷ more)
      → is_bridge endpoint_stub_px interior_segment_px accept from_side to_side points ≡ true
      → IsFitting start from_side to_side points
  unfolding is_bridge
  is_bridge-IsFitting start from_side to_side points h e =
      let routes = (none, given points) ∷ [] in
      let sides = route_honors_endpoint_sides (given points) (some from_side) (some to_side) in
      let issues = collect_route_rhythm_issues interior_segment_px micro_segment_px 0 routes in
      let (both, accepted) = and-eq-true (sides && is_quiet issues) (accept points) e in
      let (honored, quiet) = and-eq-true sides (is_quiet issues) both in
      let wide =
        (collect_route_rhythm_issues_iff interior_segment_px micro_segment_px 0 routes).0
          (is_quiet-nil issues quiet) in
      (h, (honored, (wide, accepted)))

  find_bridge-IsFitting :
      (start : Point) (from_side to_side : Side) (candidates : List (List Point))
      (points : List Point)
      → AllStart start candidates
      → find_bridge endpoint_stub_px interior_segment_px accept from_side to_side candidates
        ≡ some points
      → IsFitting start from_side to_side points
  unfolding find_bridge
  find_bridge-IsFitting start from_side to_side [] points h e = cc
  find_bridge-IsFitting start from_side to_side (c ∷ candidates) points (s, h) e =
      let normalized = normalize_route_points (given c) in
      elim (Bool-cases
        (is_bridge endpoint_stub_px interior_segment_px accept from_side to_side normalized)) [
          | inl t ↦
              let f : some normalized ≡ some points = cc in
              subst (IsFitting start from_side to_side) (some_inj f) (
                is_bridge-IsFitting start from_side to_side normalized (normalized_start start c s)
                  t)
          | inr t ↦ find_bridge-IsFitting start from_side to_side candidates points h cc
        ]

  -- A route that bridges two ports begins at the first port, leaves and enters on the given sides,
  -- has no segment below the floors of its position, and is accepted by the caller.
  pub automatic_port_rhythm_bridge-IsFitting :
      (start end : Point) (from_side to_side : Side) (points : List Point)
      → automatic_port_rhythm_bridge endpoint_stub_px interior_segment_px accept
          (some start)
          (some end)
          (some from_side)
          (some to_side)
        ≡ some points
      → IsFitting start from_side to_side points
  unfolding automatic_port_rhythm_bridge
  automatic_port_rhythm_bridge-IsFitting start end from_side to_side points e =
      find_bridge-IsFitting start from_side to_side
        (x_candidates endpoint_stub_px interior_segment_px accept start end from_side to_side
          ++ y_candidates endpoint_stub_px interior_segment_px accept start end from_side to_side)
        points
        (AllStart-append start
          (x_candidates endpoint_stub_px interior_segment_px accept start end from_side to_side)
          (y_candidates endpoint_stub_px interior_segment_px accept start end from_side to_side)
          (AllStart-if start
            (are_x_close endpoint_stub_px interior_segment_px accept start end from_side to_side)
            (x_pair endpoint_stub_px interior_segment_px accept start end from_side to_side)
            (refl, (refl, tt)))
          (AllStart-if start
            (are_y_close endpoint_stub_px interior_segment_px accept start end from_side to_side)
            (y_pair endpoint_stub_px interior_segment_px accept start end from_side to_side)
            (refl, (refl, tt))))
        e
