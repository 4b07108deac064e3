-- ===== src/Geometry/Borders/Runs/Off.antt =====
-- Which routes stay off the borders of the frames.
use salience.Base.{
  ℕ, suc, ◌≡◌, refl, ◌↔◌, inl, inr, List, [], ◌∷◌, Bool, true, false, Bool-cases, Option, none,
  some, map, append-eq-nil_iff, if◌then◌else◌,
}
use salience.Geometry.Number.{Number, ◌⊕◌, ◌⊖◌, le, max_of, epsilon}
use salience.Geometry.Segments.{
  Point, AxisOverlap, near, is_horizontal, is_vertical, horizontal_part, vertical_part, shared_low,
  shared_high, collinear_axis_overlap,
}
use salience.Geometry.Borders.{
  Interval, insert_interval, sort_intervals, is_before, merge_from, merge_sorted, merge_intervals,
  interval_of, intervals_of, overlaps_of, merge_border_overlaps,
}
use salience.Geometry.Borders.Runs.{
  Frame, Border, BorderSide, RunRoute, long_part, border_overlaps, is_before_run, insert_run,
  sort_runs, total_length, least_index, hit_of, border_run, frame_runs, route_runs,
  frame_border_segments, finite_segments, route_segments, finite_runs, collect_border_runs,
}

-- No segment shares a part with the border.
abbrev pub StaysOffBorder : Border → List (Point × Point) → Type 0
StaysOffBorder b [] = Unit
StaysOffBorder b ((start, end) ∷ segments) =
    (collinear_axis_overlap start end b.start b.end ≡ none) × StaysOffBorder b segments

abbrev pub StaysOffBorders : List (Point × Point) → List Border → Type 0
StaysOffBorders segments [] = Unit
StaysOffBorders segments (b ∷ borders) =
    StaysOffBorder b segments × StaysOffBorders segments borders

abbrev pub StaysOffFrames : List (Point × Point) → List (Option Frame) → Type 0
StaysOffFrames segments [] = Unit
StaysOffFrames segments (frame ∷ frames) =
    StaysOffBorders segments (frame_border_segments frame) × StaysOffFrames segments frames

abbrev pub IsOffFrames : List (Option Frame) → Option (List (Point × Point)) → Type 0
IsOffFrames frames none = Unit
IsOffFrames frames (some segments) = StaysOffFrames segments frames

-- Every route whose segments are finite stays off the borders of all frames.
abbrev pub AllOffFrames : List (Option Frame) → List RunRoute → Type 0
AllOffFrames frames [] = Unit
AllOffFrames frames (route ∷ routes) =
    IsOffFrames frames (finite_segments (route_segments route.segments route.points))
    × AllOffFrames frames routes

abbrev IsCons : {A : Type 0} → List A → Type 0
IsCons [] = ⊥
IsCons (x ∷ l) = Unit

IsCons-if : {A : Type 0} (b : Bool) (x y : A) (l m : List A) → IsCons (if b then x ∷ l else y ∷ m)
IsCons-if true x y l m = tt
IsCons-if false x y l m = tt

IsCons-insert_interval : (i : Interval) (l : List Interval) → IsCons (insert_interval i l)
IsCons-insert_interval i [] = tt
IsCons-insert_interval i (j ∷ l) = IsCons-if (is_before j i) j i (insert_interval i l) (j ∷ l)

IsCons-merge_from : (p : Interval) (l : List Interval) → IsCons (merge_from p l)
unfolding merge_from
IsCons-merge_from p [] = tt
IsCons-merge_from p (i ∷ l) = elim (Bool-cases (le i.low (p.high ⊕ epsilon))) [
  | inl e ↦ rw e (IsCons-merge_from (record p { high = max_of p.high i.high }) l)
  | inr e ↦ rw e tt
]

IsCons-merge_sorted : (l : List Interval) → IsCons l → IsCons (merge_sorted l)
IsCons-merge_sorted [] h = h
IsCons-merge_sorted (p ∷ l) h = IsCons-merge_from p l

IsCons-overlaps_of :
    (horizontal : Bool) (fixed : Number) (l : List Interval)
    → IsCons l
    → IsCons (overlaps_of horizontal fixed l)
IsCons-overlaps_of horizontal fixed [] h = h
IsCons-overlaps_of horizontal fixed (i ∷ l) h = tt

IsCons-merge_border_overlaps :
    (o : AxisOverlap) (l : List AxisOverlap) (start end : Point)
    → IsCons (merge_border_overlaps (o ∷ l) start end)
unfolding merge_border_overlaps merge_intervals sort_intervals
IsCons-merge_border_overlaps o l start end =
    let t = near start.y end.y in
    let sorted = sort_intervals (intervals_of t l) in
    IsCons-overlaps_of t (if t then start.y else start.x)
      (merge_sorted (insert_interval (interval_of t o) sorted))
      (IsCons-merge_sorted (insert_interval (interval_of t o) sorted)
        (IsCons-insert_interval (interval_of t o) sorted))

IsCons-sort_runs :
    (horizontal : Bool) (l : List AxisOverlap) → IsCons l → IsCons (sort_runs horizontal l)
unfolding sort_runs
IsCons-sort_runs horizontal [] h = h
IsCons-sort_runs horizontal (o ∷ l) h = inserted (sort_runs horizontal l)
  where
    inserted : (m : List AxisOverlap) → IsCons (insert_run horizontal o m)
    inserted [] = tt
    inserted (p ∷ m) =
        IsCons-if (is_before_run horizontal p o) p o (insert_run horizontal o m) (p ∷ m)

-- A part of two segments is longer than the epsilon.
long_part-horizontal_part :
    (i : ℕ) (low high fixed : Number)
    → (long_part i (horizontal_part low high fixed) ≡ []) ↔ (horizontal_part low high fixed ≡ none)
long_part-horizontal_part i low high fixed = elim (Bool-cases (le (high ⊖ low) epsilon)) [
  | inl e ↦ rw e (λ _. refl, λ _. refl)
  | inr e ↦ rw e (λ h. cc, λ h. cc)
]

long_part-vertical_part :
    (i : ℕ) (low high fixed : Number)
    → (long_part i (vertical_part low high fixed) ≡ []) ↔ (vertical_part low high fixed ≡ none)
long_part-vertical_part i low high fixed = elim (Bool-cases (le (high ⊖ low) epsilon)) [
  | inl e ↦ rw e (λ _. refl, λ _. refl)
  | inr e ↦ rw e (λ h. cc, λ h. cc)
]

-- The body of `collinearAxisOverlap` behind its two tests.
abbrev tested_part : Point → Point → Point → Point → Bool → Bool → Option AxisOverlap
tested_part a b c d h v =
    if h
    then horizontal_part (shared_low a.x b.x c.x d.x) (shared_high a.x b.x c.x d.x) a.y
    else (if v
        then vertical_part (shared_low a.y b.y c.y d.y) (shared_high a.y b.y c.y d.y) a.x
        else none)

long_part-collinear_axis_overlap :
    (i : ℕ) (a b c d : Point)
    → (long_part i (collinear_axis_overlap a b c d) ≡ []) ↔ (collinear_axis_overlap a b c d ≡ none)
unfolding collinear_axis_overlap
long_part-collinear_axis_overlap i a b c d = of_tests (is_horizontal a b c d) (is_vertical a b c d)
  where
    of_tests :
        (h v : Bool)
        → (long_part i (tested_part a b c d h v) ≡ []) ↔ (tested_part a b c d h v ≡ none)
    of_tests true v =
        long_part-horizontal_part i (shared_low a.x b.x c.x d.x) (shared_high a.x b.x c.x d.x) a.y
    of_tests false true =
        long_part-vertical_part i (shared_low a.y b.y c.y d.y) (shared_high a.y b.y c.y d.y) a.x
    of_tests false false = (λ _. refl, λ _. refl)

border_overlaps_iff :
    (b : Border) (i : ℕ) (segments : List (Point × Point))
    → (border_overlaps b i segments ≡ []) ↔ StaysOffBorder b segments
unfolding border_overlaps
border_overlaps_iff b i [] = (λ _. tt, λ _. refl)
border_overlaps_iff b i ((start, end) ∷ segments) =
    append-eq-nil_iff (long_part i (collinear_axis_overlap start end b.start b.end))
      (border_overlaps b (suc i) segments)
      (long_part-collinear_axis_overlap i start end b.start b.end)
      (border_overlaps_iff b (suc i) segments)

module _ (route : RunRoute) (frame_index : ℕ) where
  not_empty :
      (side : BorderSide) (i : ℕ) (total : Number) (l : List AxisOverlap)
      → IsCons l
      → hit_of route frame_index side i total l ≡ []
      → ⊥
  not_empty side i total [] h e = h
  not_empty side i total (o ∷ l) h e = cc

  -- A border with an overlap gives a hit: the parts that are merged are never none.
  border_run_iff :
      (b : Border) (overlaps : List (ℕ × AxisOverlap)) {R : Type 0}
      → ((overlaps ≡ []) ↔ R)
      → (border_run route frame_index b overlaps ≡ []) ↔ R
  border_run_iff b [] r = (λ _. r.0 refl, λ _. refl)
  border_run_iff b ((i, o) ∷ overlaps) r =
      let merged = merge_border_overlaps (o ∷ map (λ p. p.1) overlaps) b.start b.end in
      let t = near b.start.y b.end.y in
      (
        λ h.
            elim (not_empty b.side (least_index i overlaps) (total_length merged)
              (sort_runs t merged)
              (IsCons-sort_runs t merged
                (IsCons-merge_border_overlaps o (map (λ p. p.1) overlaps) b.start b.end))
              h) [ ],
        λ x. let e = r.1 x in cc,
      )

  frame_runs_iff :
      (segments : List (Point × Point)) (borders : List Border)
      → (frame_runs route frame_index segments borders ≡ []) ↔ StaysOffBorders segments borders
  unfolding frame_runs
  frame_runs_iff segments [] = (λ _. tt, λ _. refl)
  frame_runs_iff segments (b ∷ borders) =
      append-eq-nil_iff (border_run route frame_index b (border_overlaps b 0 segments))
        (frame_runs route frame_index segments borders)
        (border_run_iff b (border_overlaps b 0 segments) (border_overlaps_iff b 0 segments))
        (frame_runs_iff segments borders)

route_runs_iff :
    (route : RunRoute) (segments : List (Point × Point)) (i : ℕ) (frames : List (Option Frame))
    → (route_runs route segments i frames ≡ []) ↔ StaysOffFrames segments frames
unfolding route_runs
route_runs_iff route segments i [] = (λ _. tt, λ _. refl)
route_runs_iff route segments i (frame ∷ frames) =
    append-eq-nil_iff (frame_runs route i segments (frame_border_segments frame))
      (route_runs route segments (suc i) frames)
      (frame_runs_iff route i segments (frame_border_segments frame))
      (route_runs_iff route segments (suc i) frames)

finite_runs_iff :
    (route : RunRoute) (frames : List (Option Frame)) (segments : Option (List (Point × Point)))
    → (finite_runs route frames segments ≡ []) ↔ IsOffFrames frames segments
finite_runs_iff route frames none = (λ _. tt, λ _. refl)
finite_runs_iff route frames (some segments) = route_runs_iff route segments 0 frames

-- There is no border run exactly when no segment of a route with finite segments shares a part that
-- is longer than the epsilon with a side of a frame.
pub collect_border_runs_iff :
    (frames : List (Option Frame)) (routes : List RunRoute)
    → (collect_border_runs frames routes ≡ []) ↔ AllOffFrames frames routes
unfolding collect_border_runs
collect_border_runs_iff frames [] = (λ _. tt, λ _. refl)
collect_border_runs_iff frames (route ∷ routes) =
    let segments = finite_segments (route_segments route.segments route.points) in
    append-eq-nil_iff (finite_runs route frames segments) (collect_border_runs frames routes)
      (finite_runs_iff route frames segments) (collect_border_runs_iff frames routes)
