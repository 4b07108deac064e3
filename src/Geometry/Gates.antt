-- ===== src/Geometry/Gates.antt =====
-- The gates that report corridors, border runs and the rhythm of routes:
-- `cleanAmbiguousCorridorProblems`, `cleanBorderRunProblems` and `cleanRouteRhythmProblems`, without
-- the texts of their messages.
pub mod Passed
mod Tests
use salience.Base.{
  ℕ, suc, Text, text_eq, codes, includes, List, [], ◌∷◌, ◌++◌, Bool, true, false, ◌&&◌, Option,
  none, some, map, if◌then◌else◌,
}
use salience.Geometry.Number.{Number}
use salience.Geometry.Segments.{Point}
use salience.Geometry.Route.{RhythmIssue, collect_route_rhythm_issues}
use salience.Geometry.Corridors.{RoutedEntry, Corridor, collect_ambiguous_corridors}
use salience.Geometry.Crossings.{quality_profile_for_gate}
use salience.Geometry.Borders.Runs.{Frame, RunRoute, BorderRun, collect_border_runs}

-- A relationship; an end that is no text is `none`.
pub record GateRelation : Type 0 where
  pub from : Option Text
  pub to : Option Text

-- A value of `collectEligibleRoutedRelations`. Where the path has no points there are none.
pub record Eligible : Type 0 where
  pub from : Text
  pub to : Text
  pub relation_index : ℕ
  pub points : List (Option Point)

abbrev pub knows : Option (List Text) → Text → Bool
knows none id = true
knows (some endpoint_ids) id = includes endpoint_ids id

-- The profile, `profileIsAuthoritative`, and the variable `ARCHIFY_QUALITY_PROFILE`.
pub record Gate : Type 0 where
  pub profile : Text
  pub profile_is_authoritative : Bool
  pub variable : Option Text

abbrev pub gate_profile : Gate → Text
gate_profile g = quality_profile_for_gate g.profile g.profile_is_authoritative g.variable

abbrev pub is_showcase : Gate → Bool
is_showcase g = text_eq (gate_profile g) (codes "showcase")

abbrev pub is_empty : Text → Bool
is_empty [] = true
is_empty (c ∷ text) = false

abbrev pub routed_entry : Eligible → RoutedEntry
routed_entry e = record {
  from = some e.from;
  to = some e.to;
  relation_index = some e.relation_index;
  points = e.points;
}

abbrev pub run_route : Eligible → RunRoute
run_route e = record { relation_index = e.relation_index; segments = none; points = e.points }

abbrev pub rhythm_route : Eligible → Option ℕ × List (Option Point)
rhythm_route e = (some e.relation_index, e.points)

module _ (endpoint_ids : Option (List Text)) (path_for : GateRelation → List (Option Point)) where
  abbrev pub eligible_ends : ℕ → GateRelation → Option Text → Option Text → List Eligible
  eligible_ends index relation (some from) (some to) =
      if knows endpoint_ids from && knows endpoint_ids to
      then record { from = from; to = to; relation_index = index; points = path_for relation } ∷ []
      else []
  eligible_ends index relation _ _ = []

  abbrev pub eligible_relation : ℕ → Option GateRelation → List Eligible
  eligible_relation index none = []
  eligible_relation index (some relation) = eligible_ends index relation relation.from relation.to

  -- `collectEligibleRoutedRelations`, from an index on.
  unfoldable pub collect_eligible : ℕ → List (Option GateRelation) → List Eligible
  collect_eligible index [] = []
  collect_eligible index (relation ∷ relations) =
      eligible_relation index relation ++ collect_eligible (suc index) relations

  module _ (gate : Gate) (relations : List (Option GateRelation)) where
    abbrev pub eligible_routes : List Eligible
    eligible_routes = collect_eligible 0 relations

    unfoldable pub clean_ambiguous_corridor_problems : Number → List Corridor
    clean_ambiguous_corridor_problems min_overlap_px =
        if is_showcase gate
        then collect_ambiguous_corridors min_overlap_px (map routed_entry eligible_routes)
        else []

    unfoldable pub clean_border_run_problems : List (Option Frame) → List BorderRun
    clean_border_run_problems frames =
        if is_empty (gate_profile gate)
        then []
        else collect_border_runs frames (map run_route eligible_routes)

    unfoldable pub clean_route_rhythm_problems : Number → Number → List RhythmIssue
    clean_route_rhythm_problems interior_segment_px micro_segment_px =
        if is_showcase gate
        then collect_route_rhythm_issues interior_segment_px micro_segment_px 0
            (map rhythm_route eligible_routes)
        else []
