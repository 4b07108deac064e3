-- ===== src/Geometry/Route/Rhythm.antt =====
-- Which routes have an issue of rhythm.
use salience.Base.{
  ℕ, suc, ◌-◌, ◌≡◌, refl, ◌↔◌, ◌⊎◌, inl, inr, List, [], ◌∷◌, Bool, true, false, ◌&&◌, Option, none,
  some, append-eq-nil_iff, length, if◌then◌else◌,
}
use salience.Geometry.Number.{Number, ◌⊖◌, le, lt, epsilon}
use salience.Geometry.Segments.{Point}
use salience.Geometry.Route.{
  Position, is_interior, segment_position, segment_length, RhythmIssue, micro_segment,
  short_interior_segment, issue_of, segment_issues, route_issues, collect_route_rhythm_issues,
  normalize_route_points, index_or,
}

module _ (interior_px micro_px : Number) where
  -- The length keeps the floors of its position, or it is no length at all.
  abbrev pub IsWide : Position → Number → Type 0
  IsWide position length =
      (le length epsilon ≡ true)
      ⊎ ((lt length (micro_px ⊖ epsilon) ≡ false)
          × ((is_interior position && lt length (interior_px ⊖ epsilon)) ≡ false))

  -- Every segment of the points is wide, from a segment on.
  abbrev pub AllWide : ℕ → ℕ → List Point → Type 0
  AllWide count index [] = Unit
  AllWide count index (a ∷ []) = Unit
  AllWide count index (a ∷ b ∷ points) =
      IsWide (segment_position index count) (segment_length a b)
      × AllWide count (suc index) (b ∷ points)

  -- The segments of every normalized route are wide.
  abbrev pub AllRoutesWide : List (Option ℕ × List (Option Point)) → Type 0
  AllRoutesWide [] = Unit
  AllRoutesWide ((_, points) ∷ routes) =
      AllWide (length (normalize_route_points points) - 1) 0 (normalize_route_points points)
      × AllRoutesWide routes

  module _ (r k : ℕ) (position : Position) (length : Number) (a b : Point) where
    abbrev issues : Bool → Bool → Bool → List RhythmIssue
    issues none_there micro short =
        if none_there
        then []
        else issue_of interior_px micro_px r k position length a b (
            if micro
            then some micro_segment
            else (if short then some short_interior_segment else none))

    abbrev IsQuiet : Bool → Bool → Bool → Type 0
    IsQuiet none_there micro short = (none_there ≡ true) ⊎ ((micro ≡ false) × (short ≡ false))

    IsQuiet-issues : (n m s : Bool) → issues n m s ≡ [] → IsQuiet n m s
    IsQuiet-issues true m s h = inl refl
    IsQuiet-issues false true s h = cc
    IsQuiet-issues false false true h = cc
    IsQuiet-issues false false false h = inr (refl, refl)

    issues-IsQuiet : (n m s : Bool) → IsQuiet n m s → issues n m s ≡ []
    issues-IsQuiet true m s h = refl
    issues-IsQuiet false m s (inl h) = cc
    issues-IsQuiet false m s (inr (e, f)) = rw (e, f) refl

  segment_issues_iff :
      (r count k : ℕ) (a b : Point)
      → (segment_issues interior_px micro_px r count k a b ≡ [])
        ↔ IsWide (segment_position k count) (segment_length a b)
  unfolding segment_issues
  segment_issues_iff r count k a b =
      let length = segment_length a b in
      let position = segment_position k count in
      let micro = lt length (micro_px ⊖ epsilon) in
      let short = is_interior position && lt length (interior_px ⊖ epsilon) in
      (
        IsQuiet-issues r k position length a b (le length epsilon) micro short,
        issues-IsQuiet r k position length a b (le length epsilon) micro short,
      )

  route_issues_iff :
      (r count k : ℕ) (points : List Point)
      → (route_issues interior_px micro_px r count k points ≡ []) ↔ AllWide count k points
  unfolding route_issues
  route_issues_iff r count k [] = (λ _. tt, λ _. refl)
  route_issues_iff r count k (a ∷ []) = (λ _. tt, λ _. refl)
  route_issues_iff r count k (a ∷ b ∷ points) =
      let here = segment_issues_iff r count k a b in
      let more = route_issues_iff r count (suc k) (b ∷ points) in
      append-eq-nil_iff (segment_issues interior_px micro_px r count k a b)
        (route_issues interior_px micro_px r count (suc k) (b ∷ points)) here more

  -- There is no issue of rhythm exactly when every segment of every normalized route keeps the floors
  -- of its position.
  pub collect_route_rhythm_issues_iff :
      (index : ℕ) (routes : List (Option ℕ × List (Option Point)))
      → (collect_route_rhythm_issues interior_px micro_px index routes ≡ []) ↔ AllRoutesWide routes
  unfolding collect_route_rhythm_issues
  collect_route_rhythm_issues_iff index [] = (λ _. tt, λ _. refl)
  collect_route_rhythm_issues_iff index ((own, points) ∷ routes) =
      let normalized = normalize_route_points points in
      let here =
        route_issues_iff (index_or interior_px micro_px own index) (length normalized - 1) 0
          normalized in
      let more = collect_route_rhythm_issues_iff (suc index) routes in
      append-eq-nil_iff
        (route_issues interior_px micro_px (index_or interior_px micro_px own index)
          (length normalized - 1) 0 normalized)
        (collect_route_rhythm_issues interior_px micro_px (suc index) routes) here more
