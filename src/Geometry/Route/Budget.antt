-- ===== src/Geometry/Route/Budget.antt =====
-- The measures of routes, `routeBudgetMetrics`.
pub mod Counts
use salience.Base.{
  ℕ, zero, suc, ◌+◌, ◌-◌, ◌*◌, max, List, [], ◌∷◌, Bool, true, false, not, ◌&&◌, ◌||◌, Option, none,
  some, ltb, length, if◌then◌else◌,
}
use salience.Geometry.Number.{Number, ◌⊕◌, ◌⊖◌, ◌⊗◌, of_units, px, le, lt, min_of, abs, epsilon}
use salience.Geometry.Segments.{Point}
use salience.Geometry.Route.{normalize_route_points, segment_position, segment_length, is_interior}

-- The quotient of the length of a route and the direct way.
pub record Stretch : Type 0 where
  pub route_length : Number
  pub direct : Number

pub record Metrics : Type 0 where
  pub max_bends : ℕ
  pub routes_over_suggested_bends : ℕ
  pub max_stretch : Option Stretch
  pub routes_over_suggested_stretch : ℕ
  pub min_segment_px : Option Number
  pub min_interior_segment_px : Option Number
  pub short_segment_count : ℕ
  pub short_endpoint_segment_count : ℕ
  pub short_interior_segment_count : ℕ
  pub micro_segment_count : ℕ

abbrev pub no_metrics : Metrics
no_metrics = record {
  max_bends = 0;
  routes_over_suggested_bends = 0;
  max_stretch = none;
  routes_over_suggested_stretch = 0;
  min_segment_px = none;
  min_interior_segment_px = none;
  short_segment_count = 0;
  short_endpoint_segment_count = 0;
  short_interior_segment_count = 0;
  micro_segment_count = 0;
}

abbrev pub counted : Bool → ℕ → ℕ
counted true n = suc n
counted false n = n

abbrev pub min_or : Option Number → Number → Option Number
min_or none n = some n
min_or (some m) n = some (min_of m n)

abbrev pub min_if : Bool → Option Number → Number → Option Number
min_if true m n = min_or m n
min_if false m n = m

-- `routeStretch > maxStretch`, for direct ways above 0.
abbrev pub is_more_stretched : Stretch → Stretch → Bool
is_more_stretched s t = lt (t.route_length ⊗ s.direct) (s.route_length ⊗ t.direct)

abbrev pub max_or : Option Stretch → Stretch → Option Stretch
max_or none s = some s
max_or (some t) s = some (if is_more_stretched s t then s else t)

-- `bendsPerRelationship`, `stretch` in units of 0.0001, `segmentPx` and `microSegmentPx`.
pub record Budget : Type 0 where
  pub bends_per_relationship : ℕ
  pub stretch : ℕ
  pub segment_px : Number
  pub micro_segment_px : Number

module _ (budget : Budget) where
  -- One round of the loop over the segments, for a segment that has a length.
  abbrev pub measured_segment : Metrics → Bool → Number → Metrics
  measured_segment m interior length =
      let short = lt length budget.segment_px in
      record m {
        min_segment_px = min_or m.min_segment_px length;
        min_interior_segment_px = min_if interior m.min_interior_segment_px length;
        short_segment_count = counted short m.short_segment_count;
        short_interior_segment_count = counted (short && interior) m.short_interior_segment_count;
        short_endpoint_segment_count =
            counted (short && not interior) m.short_endpoint_segment_count;
        micro_segment_count = counted (lt length budget.micro_segment_px) m.micro_segment_count;
      }

  abbrev pub measured : Metrics → Bool → Number → Metrics
  measured m interior length = if le length epsilon then m else measured_segment m interior length

  -- The metrics and the length of the route behind its segments.
  unfoldable pub segment_metrics : ℕ → ℕ → Number → Metrics → List Point → Metrics × Number
  segment_metrics segment_count index route_length m [] = (m, route_length)
  segment_metrics segment_count index route_length m (a ∷ []) = (m, route_length)
  segment_metrics segment_count index route_length m (a ∷ b ∷ points) =
      let length = segment_length a b in
      segment_metrics segment_count (suc index)
        (if le length epsilon then route_length else route_length ⊕ length)
        (measured m (is_interior (segment_position index segment_count)) length) (b ∷ points)

  abbrev pub is_stretched : Stretch → Bool
  is_stretched s = lt (of_units (budget.stretch + 1) ⊗ s.direct) (of_units 10000 ⊗ s.route_length)

  abbrev pub stretched : Stretch → Metrics → Metrics
  stretched s m =
      if lt epsilon s.direct
      then record m {
        max_stretch = max_or m.max_stretch s;
        routes_over_suggested_stretch = counted (is_stretched s) m.routes_over_suggested_stretch;
      }
      else m

  abbrev pub bent : ℕ → Metrics → Metrics
  bent bends m = record m {
    max_bends = max m.max_bends bends;
    routes_over_suggested_bends =
        counted (ltb budget.bends_per_relationship bends) m.routes_over_suggested_bends;
  }

  abbrev pub last_of : Point → List Point → Point
  last_of a [] = a
  last_of a (b ∷ points) = last_of b points

  unfoldable pub route_metrics : Metrics → List Point → Metrics
  route_metrics m [] = m
  route_metrics m (a ∷ []) = m
  route_metrics m (a ∷ b ∷ points) =
      let bends = length points in
      let (n, route_length) =
        segment_metrics (suc bends) 0 (of_units 0) (bent bends m) (a ∷ b ∷ points) in
      stretched
        (record { route_length = route_length; direct = segment_length a (last_of b points) }) n

  -- The loop over the routes.
  unfoldable pub metrics_from : Metrics → List (List (Option Point)) → Metrics
  metrics_from m [] = m
  metrics_from m (points ∷ routes) =
      metrics_from (route_metrics m (normalize_route_points points)) routes

  -- `routeBudgetMetrics`
  unfoldable pub route_budget_metrics : List (List (Option Point)) → Metrics
  route_budget_metrics routes = metrics_from no_metrics routes
