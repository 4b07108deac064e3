-- ===== src/Geometry/Bridge.antt =====
-- Routes around ports that lie close to each other, `automaticPortRhythmBridge`.
pub mod Fits
mod Tests
use salience.Base.{
  ℕ, List, [], ◌∷◌, ◌++◌, Bool, true, false, ◌&&◌, Option, none, some, if◌then◌else◌,
}
use salience.Geometry.Number.{Number, ◌⊕◌, ◌⊖◌, of_units, opposite, lt, abs, max_of, min_of, px}
use salience.Geometry.Segments.{Point, at}
use salience.Geometry.Route.{
  Side, left, right, top, bottom, is_horizontal_side, RhythmIssue, normalize_route_points,
  route_honors_endpoint_sides, collect_route_rhythm_issues,
}

-- `PORT_OUTWARD_VECTOR`, times a length.
abbrev pub outward : Side → Number → Point
outward left length = at (opposite length) (of_units 0)
outward right length = at length (of_units 0)
outward top length = at (of_units 0) (opposite length)
outward bottom length = at (of_units 0) length

abbrev pub stub : Point → Side → Number → Point
stub p side length = let v = outward side length in at (p.x ⊕ v.x) (p.y ⊕ v.y)

abbrev pub is_vertical_side : Side → Bool
is_vertical_side top = true
is_vertical_side bottom = true
is_vertical_side left = false
is_vertical_side right = false

-- The default of `microSegmentPx`.
abbrev pub micro_segment_px : Number
micro_segment_px = px 8

abbrev pub is_quiet : List RhythmIssue → Bool
is_quiet [] = true
is_quiet (issue ∷ issues) = false

abbrev pub given : List Point → List (Option Point)
given [] = []
given (p ∷ points) = some p ∷ given points

abbrev pub x_candidate : Point → Point → Point → Point → Number → List Point
x_candidate start end start_stub end_stub channel =
    start ∷ start_stub ∷ at channel start_stub.y ∷ at channel end_stub.y ∷ end_stub ∷ end ∷ []

abbrev pub y_candidate : Point → Point → Point → Point → Number → List Point
y_candidate start end start_stub end_stub channel =
    start ∷ start_stub ∷ at start_stub.x channel ∷ at end_stub.x channel ∷ end_stub ∷ end ∷ []

-- The options, with an `accept` that accepts all where there is none.
module _ (endpoint_stub_px interior_segment_px : Number) (accept : List Point → Bool) where
  abbrev pub are_x_close : Point → Point → Side → Side → Bool
  are_x_close start end from_side to_side =
      is_vertical_side from_side
      && is_vertical_side to_side
      && lt (abs (start.x ⊖ end.x)) interior_segment_px

  abbrev pub x_pair : Point → Point → Side → Side → List (List Point)
  x_pair start end from_side to_side =
      let start_stub = stub start from_side endpoint_stub_px in
      let end_stub = stub end to_side endpoint_stub_px in
      x_candidate start end start_stub end_stub (max_of start.x end.x ⊕ interior_segment_px)
      ∷ x_candidate start end start_stub end_stub (min_of start.x end.x ⊖ interior_segment_px)
      ∷ []

  -- The candidates between two upper or lower sides.
  abbrev pub x_candidates : Point → Point → Side → Side → List (List Point)
  x_candidates start end from_side to_side =
      if are_x_close start end from_side to_side then x_pair start end from_side to_side else []

  abbrev pub are_y_close : Point → Point → Side → Side → Bool
  are_y_close start end from_side to_side =
      is_horizontal_side from_side
      && is_horizontal_side to_side
      && lt (abs (start.y ⊖ end.y)) interior_segment_px

  abbrev pub y_pair : Point → Point → Side → Side → List (List Point)
  y_pair start end from_side to_side =
      let start_stub = stub start from_side endpoint_stub_px in
      let end_stub = stub end to_side endpoint_stub_px in
      y_candidate start end start_stub end_stub (max_of start.y end.y ⊕ interior_segment_px)
      ∷ y_candidate start end start_stub end_stub (min_of start.y end.y ⊖ interior_segment_px)
      ∷ []

  -- The candidates between two left or right sides.
  abbrev pub y_candidates : Point → Point → Side → Side → List (List Point)
  y_candidates start end from_side to_side =
      if are_y_close start end from_side to_side then y_pair start end from_side to_side else []

  -- The test of `find`, on normalized points.
  unfoldable pub is_bridge : Side → Side → List Point → Bool
  is_bridge from_side to_side points =
      route_honors_endpoint_sides (given points) (some from_side) (some to_side)
      && is_quiet (
          collect_route_rhythm_issues interior_segment_px micro_segment_px 0
            ((none, given points) ∷ []))
      && accept points

  unfoldable pub find_bridge : Side → Side → List (List Point) → Option (List Point)
  find_bridge from_side to_side [] = none
  find_bridge from_side to_side (points ∷ candidates) =
      let rest = find_bridge from_side to_side candidates in
      let normalized = normalize_route_points (given points) in
      if is_bridge from_side to_side normalized then some normalized else rest

  -- `automaticPortRhythmBridge`; a point is absent where it is no pair of finite numbers, and a side
  -- where it is no side of the table.
  unfoldable pub automatic_port_rhythm_bridge :
      Option Point → Option Point → Option Side → Option Side → Option (List Point)
  automatic_port_rhythm_bridge (some start) (some end) (some from_side) (some to_side) =
      find_bridge from_side to_side
        (x_candidates start end from_side to_side ++ y_candidates start end from_side to_side)
  automatic_port_rhythm_bridge _ _ _ _ = none
