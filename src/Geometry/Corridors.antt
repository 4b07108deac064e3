-- ===== src/Geometry/Corridors.antt =====
-- Relationships that share a corridor or cross: `collectAmbiguousCorridors`, and the crossings that
-- `cleanCrossingProblems` looks for among the segments as they are written.
pub mod Apart
pub mod Longest
use salience.Base.{
  ℕ, zero, suc, Text, text_eq, List, [], ◌∷◌, ◌++◌, Bool, true, false, not, ◌&&◌, ◌||◌, Option,
  none, some, if◌then◌else◌,
}
use salience.Geometry.Number.{Number, ◌⊕◌, le, lt, epsilon}
use salience.Geometry.Segments.{Point, AxisOverlap, collinear_axis_overlap, crosses_properly}
use salience.Geometry.Route.{normalize_route_points}

-- A routed relationship: its ends, its index and the points of its route.
pub record Routed : Type 0 where
  pub from : Text
  pub to : Text
  pub relation_index : ℕ
  pub points : List Point

-- The ends are absent where they are no texts.
pub record RoutedEntry : Type 0 where
  pub from : Option Text
  pub to : Option Text
  pub relation_index : Option ℕ
  pub points : List (Option Point)

abbrev pub shares_end : Routed → Routed → Bool
shares_end left right =
    text_eq left.from right.from
    || text_eq left.from right.to
    || text_eq left.to right.from
    || text_eq left.to right.to

-- The segments of a route, with their indices.
unfoldable pub indexed_segments : ℕ → List Point → List (ℕ × Point × Point)
indexed_segments index [] = []
indexed_segments index (a ∷ []) = []
indexed_segments index (a ∷ b ∷ points) = (index, a, b) ∷ indexed_segments (suc index) (b ∷ points)

pub record Shared : Type 0 where
  pub left_segment : ℕ
  pub right_segment : ℕ
  pub overlap : AxisOverlap

-- An overlap that is long enough.
abbrev pub long_overlap : Number → ℕ → ℕ → Option AxisOverlap → List Shared
long_overlap min_overlap_px left right none = []
long_overlap min_overlap_px left right (some o) =
    if lt (o.length ⊕ epsilon) min_overlap_px
    then []
    else record { left_segment = left; right_segment = right; overlap = o } ∷ []

-- The overlaps that both inner loops see, in their order.
unfoldable pub segment_overlaps :
    Number → ℕ × Point × Point → List (ℕ × Point × Point) → List Shared
segment_overlaps min_overlap_px left [] = []
segment_overlaps min_overlap_px (i, a, b) ((j, c, d) ∷ right) =
    long_overlap min_overlap_px i j (collinear_axis_overlap a b c d)
    ++ segment_overlaps min_overlap_px (i, a, b) right

unfoldable pub route_overlaps :
    Number → List (ℕ × Point × Point) → List (ℕ × Point × Point) → List Shared
route_overlaps min_overlap_px [] right = []
route_overlaps min_overlap_px (s ∷ left) right =
    segment_overlaps min_overlap_px s right ++ route_overlaps min_overlap_px left right

abbrev pub is_longer : Shared → Shared → Bool
is_longer o longest = lt (longest.overlap.length ⊕ epsilon) o.overlap.length

-- The variable `longest` behind the overlaps.
unfoldable pub longest_from : Shared → List Shared → Shared
longest_from longest [] = longest
longest_from longest (o ∷ overlaps) =
    longest_from (if is_longer o longest then o else longest) overlaps

unfoldable pub longest_of : List Shared → Option Shared
longest_of [] = none
longest_of (o ∷ overlaps) = some (longest_from o overlaps)

pub record Corridor : Type 0 where
  pub left : Routed
  pub right : Routed
  pub shared : Shared

abbrev pub corridor_of : Routed → Routed → Option Shared → List Corridor
corridor_of left right none = []
corridor_of left right (some s) = record { left = left; right = right; shared = s } ∷ []

abbrev pub shared_overlaps : Number → Routed → Routed → List Shared
shared_overlaps min_overlap_px left right =
    route_overlaps min_overlap_px (indexed_segments 0 left.points) (indexed_segments 0 right.points)

unfoldable pub pair_corridors : Number → Routed → Routed → List Corridor
pair_corridors min_overlap_px left right =
    if shares_end left right
    then []
    else corridor_of left right (longest_of (shared_overlaps min_overlap_px left right))

unfoldable pub corridors_with : Number → Routed → List Routed → List Corridor
corridors_with min_overlap_px left [] = []
corridors_with min_overlap_px left (right ∷ routed) =
    pair_corridors min_overlap_px left right ++ corridors_with min_overlap_px left routed

unfoldable pub corridors : Number → List Routed → List Corridor
corridors min_overlap_px [] = []
corridors min_overlap_px (left ∷ routed) =
    corridors_with min_overlap_px left routed ++ corridors min_overlap_px routed

abbrev pub index_of : Option ℕ → ℕ → ℕ
index_of none fallback = fallback
index_of (some i) fallback = i

abbrev pub with_points : Text → Text → ℕ → List Point → List Routed
with_points from to index (a ∷ b ∷ points) =
    record { from = from; to = to; relation_index = index; points = a ∷ b ∷ points } ∷ []
with_points from to index _ = []

abbrev pub with_ends : Option Text → Option Text → ℕ → List Point → List Routed
with_ends (some from) (some to) index points = with_points from to index points
with_ends _ _ index points = []

-- The entries that are looked at, with their normalized points.
unfoldable pub routed_entries : ℕ → List RoutedEntry → List Routed
routed_entries fallback_index [] = []
routed_entries fallback_index (e ∷ entries) =
    with_ends e.from e.to (index_of e.relation_index fallback_index)
      (normalize_route_points e.points)
    ++ routed_entries (suc fallback_index) entries

-- `collectAmbiguousCorridors`
unfoldable pub collect_ambiguous_corridors : Number → List RoutedEntry → List Corridor
collect_ambiguous_corridors min_overlap_px entries =
    corridors min_overlap_px (routed_entries 0 entries)
