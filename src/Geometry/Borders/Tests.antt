-- ===== src/Geometry/Borders/Tests.antt =====
-- A route along the border of a frame.
use salience.Base.{ℕ, ◌≡◌, refl, ◌↔◌, List, [], ◌∷◌, Option, none, some}
use salience.Geometry.Number.{px}
use salience.Geometry.Segments.{Point, at}
use salience.Geometry.Borders.Runs.{
  Frame, rect_frame, RunRoute, BorderRun, top_side, collect_border_runs,
}
use salience.Geometry.Borders.Runs.Off.{AllOffFrames, collect_border_runs_iff}

abbrev point : ℕ → ℕ → Point
point x y = at (px x) (px y)

abbrev frames : List (Option Frame)
frames =
    some (
      rect_frame
        (record { x = px 10; y = px 10; half_width = px 50; half_height = px 20; radius = px 4 }))
    ∷ []

abbrev route : RunRoute
route = record {
  relation_index = 0;
  segments = none;
  points = some (point 0 10) ∷ some (point 60 10) ∷ some (point 60 30) ∷ [];
}

abbrev broken_route : RunRoute
broken_route = record route { points = none ∷ route.points }

-- A route with a point that is not finite is not looked at.
broken_run : collect_border_runs frames (broken_route ∷ []) ≡ []
unfolding collect_border_runs salience.Geometry.Borders.Runs.finite_segments
broken_run = refl

collect_border_runs_iff_example :
    (collect_border_runs frames (route ∷ []) ≡ []) ↔ AllOffFrames frames (route ∷ [])
collect_border_runs_iff_example = collect_border_runs_iff frames (route ∷ [])

abbrev border_run : BorderRun
border_run = record {
  route = route;
  frame_index = 0;
  side = top_side;
  segment_index = 0;
  overlap_length = record { up = 600000; down = 140000 };
  overlap_start = point 14 10;
  overlap_end = point 60 10;
}

-- The run ends where the corner of the frame begins.
collected_run : collect_border_runs frames (route ∷ []) ≡ border_run ∷ []
unfolding collect_border_runs salience.Geometry.Borders.Runs.finite_segments
    salience.Geometry.Borders.Runs.route_runs salience.Geometry.Borders.Runs.frame_runs
    salience.Geometry.Borders.Runs.border_overlaps salience.Geometry.Borders.Runs.sort_runs
    salience.Geometry.Borders.Runs.total_length salience.Geometry.Borders.Runs.least_index
    salience.Geometry.Borders.Runs.frame_border_segments
    salience.Geometry.Borders.merge_border_overlaps salience.Geometry.Borders.merge_intervals
    salience.Geometry.Borders.sort_intervals salience.Geometry.Borders.merge_from
    salience.Geometry.Segments.collinear_axis_overlap
collected_run = refl
