-- ===== src/Geometry/Tests.antt =====
-- Runs of the geometry on small routes.
use salience.Base.{
  ℕ, ◌+◌, ◌≡◌, refl, ◌↔◌, Text, codes, List, [], ◌∷◌, ◌++◌, Bool, true, false, Option, none, some,
  length, text_eq, if◌then◌else◌,
}
use salience.Geometry.Number.{px}
use salience.Geometry.Segments.{Point, Rect, at, segment_intersects_rect, crosses_properly}
use salience.Geometry.Route.{
  normalize_route_points, finite_points, collinear_forward, collect_route_rhythm_issues, left,
}
use salience.Geometry.Route.Straight.{normalize_route_points-bends, normalize_route_points-start}
use salience.Geometry.Flow.{Relation, Obstacle, FlowProblem, clean_flow_problems}
use salience.Geometry.Flow.Clear.{AllClear, clean_flow_problems_iff}
use salience.Geometry.Corridors.{
  Routed, RoutedEntry, Corridor, Shared, pair_corridors, routed_entries, shares_end,
  shared_overlaps, collect_ambiguous_corridors,
}
use salience.Geometry.Crossings.{
  CrossingRelation, crossing_of, proper_segment_intersection, analysed_relations,
  clean_crossing_problems,
}
use salience.Geometry.Crossings.Uncrossed.{AllUncrossed, clean_crossing_problems_iff}
use salience.Geometry.Route.Budget.{Budget, route_budget_metrics}
use salience.Geometry.Borders.{Interval, merge_intervals}
use salience.Geometry.Borders.Merged.{LieApart, AllCovered, merge_intervals-LieApart}
use salience.Geometry.Sides.{Node}

abbrev point : ℕ → ℕ → Point
point x y = at (px x) (px y)

abbrev bent : List (Option Point)
bent = some (point 0 0) ∷ none ∷ some (point 5 0) ∷ some (point 9 0) ∷ some (point 9 20) ∷ []

-- The point in the middle of the first way is gone.
bent_run : normalize_route_points bent ≡ [] ++ (point 0 0 ∷ point 9 0 ∷ point 9 20 ∷ [])
unfolding normalize_route_points salience.Geometry.Route.straighten_onto
    salience.Geometry.Route.drop_straight salience.Geometry.Route.dedupe_after
    salience.Geometry.Route.collinear_forward salience.Geometry.Segments.cross_product
bent_run = refl

normalize_route_points-bends_example :
    collinear_forward (point 0 0) (point 9 0) (point 9 20) ≡ false
normalize_route_points-bends_example =
    normalize_route_points-bends bent [] [] (point 0 0) (point 9 0) (point 9 20) bent_run

normalize_route_points-start_example :
    (more : List Point) × (normalize_route_points bent ≡ point 0 0 ∷ more)
normalize_route_points-start_example =
    normalize_route_points-start bent (point 0 0) (point 5 0 ∷ point 9 0 ∷ point 9 20 ∷ []) refl

abbrev box : ℕ → ℕ → Rect
box x y = record { x = px x; y = px y; width = px 10; height = px 10 }

-- A segment that ends before the rectangle meets it with a clearance.
outside_run : segment_intersects_rect (point 0 5) (point 18 5) (box 20 0) (px 0) ≡ false
unfolding segment_intersects_rect salience.Geometry.Segments.segments_intersect
    salience.Geometry.Segments.orientation salience.Geometry.Segments.on_segment
    salience.Geometry.Segments.point_in_box
outside_run = refl

near_run : segment_intersects_rect (point 0 5) (point 18 5) (box 20 0) (px 2) ≡ true
unfolding segment_intersects_rect salience.Geometry.Segments.segments_intersect
    salience.Geometry.Segments.orientation salience.Geometry.Segments.on_segment
    salience.Geometry.Segments.point_in_box
near_run = refl

abbrev obstacle : Text → ℕ → Obstacle
obstacle id x = record { id = id; rect = some (box x 0) }

abbrev obstacles : List Obstacle
obstacles = obstacle (codes "a") 0 ∷ obstacle (codes "b") 20 ∷ obstacle (codes "c") 40 ∷ []

abbrev relation : Relation
relation = record { from = some (codes "a"); to = some (codes "c"); id = none }

abbrev path_for : Relation → Option (List (Option Point))
path_for r = some (some (point 10 5) ∷ some (point 40 5) ∷ [])

-- The relationship between the outer nodes runs through the inner one.
through_run :
    clean_flow_problems obstacles path_for (px 2) 0 (relation ∷ [])
    ≡ record {
      relation_index = 0;
      obstacle_id = codes "b";
      segment_index = 0;
      from = point 10 5;
      to = point 40 5;
    }
      ∷ []
unfolding clean_flow_problems salience.Geometry.Flow.relation_problems
    salience.Geometry.Flow.obstacle_problems salience.Geometry.Flow.hit_segment
    salience.Geometry.Flow.all_finite segment_intersects_rect
    salience.Geometry.Segments.segments_intersect salience.Geometry.Segments.orientation
    salience.Geometry.Segments.on_segment salience.Geometry.Segments.point_in_box
    salience.Base.text_eq salience.Base.includes
through_run = refl

clean_flow_problems_iff_example :
    (clean_flow_problems obstacles path_for (px 2) 0 (relation ∷ []) ≡ [])
    ↔ AllClear obstacles path_for (px 2) (relation ∷ [])
clean_flow_problems_iff_example =
    clean_flow_problems_iff obstacles path_for (px 2) 0 (relation ∷ [])

abbrev route : Text → Text → ℕ → ℕ → Routed
route from to start end = record {
  from = from;
  to = to;
  relation_index = 0;
  points = point start 5 ∷ point end 5 ∷ [];
}

abbrev first_route : Routed
first_route = route (codes "a") (codes "b") 0 40

abbrev second_route : Routed
second_route = route (codes "c") (codes "d") 20 60

abbrev shared_part : Shared
shared_part = record {
  left_segment = 0;
  right_segment = 0;
  overlap = record {
    length = record { up = 400000; down = 200000 };
    start = point 20 5;
    end = point 40 5;
  };
}

abbrev corridor : Corridor
corridor = record { left = first_route; right = second_route; shared = shared_part }

corridor_run : pair_corridors (px 8) first_route second_route ≡ corridor ∷ []
unfolding pair_corridors salience.Geometry.Corridors.longest_of
    salience.Geometry.Corridors.longest_from salience.Geometry.Corridors.route_overlaps
    salience.Geometry.Corridors.segment_overlaps salience.Geometry.Corridors.indexed_segments
    salience.Geometry.Segments.collinear_axis_overlap salience.Base.text_eq
corridor_run = refl

abbrev interval : ℕ → ℕ → Interval
interval low high = record { low = px low; high = px high }

abbrev intervals : List Interval
intervals = interval 10 12 ∷ interval 0 4 ∷ interval 3 8 ∷ []

merged_run : merge_intervals intervals ≡ interval 0 8 ∷ interval 10 12 ∷ []
unfolding merge_intervals salience.Geometry.Borders.sort_intervals
    salience.Geometry.Borders.merge_from
merged_run = refl

merge_intervals-LieApart_example :
    LieApart (merge_intervals intervals) × AllCovered intervals (merge_intervals intervals)
merge_intervals-LieApart_example = merge_intervals-LieApart intervals

abbrev node : ℕ → ℕ → Node
node x y = record {
  x = px x;
  y = px y;
  width = px 10;
  height = px 10;
  cx = px (x + 5);
  cy = px (y + 5);
}

abbrev ends : CrossingRelation → Option (List (Option Point))
ends r =
    if text_eq r.from (codes "a")
    then some (some (point 0 0) ∷ some (point 20 20) ∷ [])
    else some (some (point 0 20) ∷ some (point 20 0) ∷ [])

abbrev crossing_relations : List CrossingRelation
crossing_relations =
    record { from = codes "a"; to = codes "b" } ∷ record { from = codes "c"; to = codes "d" } ∷ []

abbrev names : List Text
names = codes "a" ∷ codes "b" ∷ codes "c" ∷ codes "d" ∷ []

crossing_run :
    length (clean_crossing_problems names ends true (codes "showcase") crossing_relations) ≡ 1
unfolding clean_crossing_problems salience.Geometry.Crossings.analysed_relations
    salience.Geometry.Crossings.analysis_segments salience.Geometry.Crossings.authored_segments
    salience.Geometry.Crossings.merge_segments salience.Geometry.Crossings.segments_continue_forward
    salience.Geometry.Crossings.crossing_problems salience.Geometry.Crossings.problems_with
    salience.Geometry.Crossings.pair_problems salience.Geometry.Crossings.crossing_between
    salience.Geometry.Crossings.crossing_with
    salience.Geometry.Crossings.proper_segment_intersection
    salience.Geometry.Segments.crosses_properly salience.Geometry.Segments.cross_product
    salience.Geometry.Flow.all_finite salience.Base.text_eq salience.Base.includes
crossing_run = refl

clean_crossing_problems_iff_example :
    (clean_crossing_problems names ends true (codes "showcase") crossing_relations ≡ [])
    ↔ AllUncrossed (analysed_relations names ends true 0 crossing_relations)
clean_crossing_problems_iff_example = clean_crossing_problems_iff names ends true crossing_relations

abbrev budget : Budget
budget = record {
  bends_per_relationship = 2;
  stretch = 13500;
  segment_px = px 16;
  micro_segment_px = px 8;
}

measured_run : (route_budget_metrics budget (bent ∷ [])).short_endpoint_segment_count ≡ 1
unfolding route_budget_metrics salience.Geometry.Route.Budget.metrics_from
    salience.Geometry.Route.Budget.route_metrics salience.Geometry.Route.Budget.segment_metrics
    normalize_route_points salience.Geometry.Route.straighten_onto
    salience.Geometry.Route.drop_straight salience.Geometry.Route.dedupe_after
    salience.Geometry.Route.collinear_forward salience.Geometry.Segments.cross_product
    salience.Geometry.Route.segment_position
measured_run = refl
