-- ===== src/Geometry/Flow/Clear.antt =====
-- Which relationships run through unrelated nodes.
use salience.Base.{
  ℕ, suc, ◌≡◌, refl, ◌↔◌, Text, text_eq, List, [], ◌∷◌, Bool, true, false, ◌||◌, Option, none, some,
  map, append-eq-nil_iff, if◌then◌else◌,
}
use salience.Geometry.Number.{Number}
use salience.Geometry.Segments.{Point, Rect, segment_intersects_rect}
use salience.Geometry.Flow.{
  Relation, Obstacle, FlowProblem, hit_segment, problem_of, rect_problem, obstacle_problems,
  checked_points, known_ends, ends_problems, relation_problems, clean_flow_problems,
}

-- No segment of the points meets the rectangle, grown by the clearance.
abbrev pub StaysOff : Rect → Number → List Point → Type 0
StaysOff rect clearance [] = Unit
StaysOff rect clearance (a ∷ []) = Unit
StaysOff rect clearance (a ∷ b ∷ points) =
    (segment_intersects_rect a b rect clearance ≡ false) × StaysOff rect clearance (b ∷ points)

abbrev pub StaysOffAny : Option Rect → Number → List Point → Type 0
StaysOffAny none clearance points = Unit
StaysOffAny (some rect) clearance points = StaysOff rect clearance points

-- The points stay off every obstacle but the two ends.
abbrev pub StaysOffOthers : Number → Text → Text → List Point → List Obstacle → Type 0
StaysOffOthers clearance from to points [] = Unit
StaysOffOthers clearance from to points (o ∷ obstacles) =
    ((text_eq o.id from || text_eq o.id to) ≡ false → StaysOffAny o.rect clearance points)
    × StaysOffOthers clearance from to points obstacles

hit_segment_iff :
    (rect : Rect) (clearance : Number) (r k : ℕ) (id : Text) (points : List Point)
    → (problem_of r id (hit_segment rect clearance k points) ≡ []) ↔ StaysOff rect clearance points
unfolding hit_segment
hit_segment_iff rect clearance r k id [] = (λ _. tt, λ _. refl)
hit_segment_iff rect clearance r k id (a ∷ []) = (λ _. tt, λ _. refl)
hit_segment_iff rect clearance r k id (a ∷ b ∷ points) =
    of_test (segment_intersects_rect a b rect clearance)
      (hit_segment rect clearance (suc k) (b ∷ points))
      (hit_segment_iff rect clearance r (suc k) id (b ∷ points))
  where
    of_test :
        (t : Bool) (rest : Option (ℕ × Point × Point)) {R : Type 0}
        → ((problem_of r id rest ≡ []) ↔ R)
        → (problem_of r id (if t then some (k, a, b) else rest) ≡ []) ↔ ((t ≡ false) × R)
    of_test true rest h = (λ x. cc, λ (x, _). cc)
    of_test false rest h = (λ x. (refl, h.0 x), λ (_, x). h.1 x)

rect_problem_iff :
    (clearance : Number) (r : ℕ) (points : List Point) (id : Text) (rect : Option Rect)
    → (rect_problem clearance r points id rect ≡ []) ↔ StaysOffAny rect clearance points
rect_problem_iff clearance r points id none = (λ _. tt, λ _. refl)
rect_problem_iff clearance r points id (some rect) = hit_segment_iff rect clearance r 0 id points

unless_iff :
    (t : Bool) (l : List FlowProblem) {R : Type 0}
    → ((l ≡ []) ↔ R)
    → ((if t then [] else l) ≡ []) ↔ (t ≡ false → R)
unless_iff true l h = (λ _ e. cc, λ _. refl)
unless_iff false l h = (λ x _. h.0 x, λ f. h.1 (f refl))

obstacle_problems_iff :
    (clearance : Number) (r : ℕ) (from to : Text) (points : List Point) (obstacles : List Obstacle)
    → (obstacle_problems clearance r from to points obstacles ≡ [])
      ↔ StaysOffOthers clearance from to points obstacles
unfolding obstacle_problems
obstacle_problems_iff clearance r from to points [] = (λ _. tt, λ _. refl)
obstacle_problems_iff clearance r from to points (o ∷ obstacles) =
    let t = text_eq o.id from || text_eq o.id to in
    append-eq-nil_iff (if t then [] else rect_problem clearance r points o.id o.rect)
      (obstacle_problems clearance r from to points obstacles)
      (unless_iff t (rect_problem clearance r points o.id o.rect)
        (rect_problem_iff clearance r points o.id o.rect))
      (obstacle_problems_iff clearance r from to points obstacles)

module _ (obstacles : List Obstacle) (path_for : Relation → Option (List (Option Point)))
    (clearance : Number) where
  abbrev pub IsClearPath : Option (Text × Text) → Option (List Point) → Type 0
  IsClearPath (some (from, to)) (some points) = StaysOffOthers clearance from to points obstacles
  IsClearPath _ _ = Unit

  -- Every relationship between two of the obstacles, with a route of finite points, stays off the
  -- other ones.
  abbrev pub AllClear : List Relation → Type 0
  AllClear [] = Unit
  AllClear (relation ∷ relations) =
      IsClearPath (known_ends (map (λ o. o.id) obstacles) relation.from relation.to)
        (checked_points (path_for relation))
      × AllClear relations

  ends_problems_iff :
      (index : ℕ) (ends : Option (Text × Text)) (points : Option (List Point))
      → (ends_problems obstacles path_for clearance index ends points ≡ [])
        ↔ IsClearPath ends points
  ends_problems_iff index none points = (λ _. tt, λ _. refl)
  ends_problems_iff index (some (from, to)) none = (λ _. tt, λ _. refl)
  ends_problems_iff index (some (from, to)) (some points) =
      obstacle_problems_iff clearance index from to points obstacles

  -- There is no problem exactly when every relationship that is checked stays off all unrelated
  -- obstacles by the clearance.
  pub clean_flow_problems_iff :
      (index : ℕ) (relations : List Relation)
      → (clean_flow_problems obstacles path_for clearance index relations ≡ []) ↔ AllClear relations
  unfolding clean_flow_problems relation_problems
  clean_flow_problems_iff index [] = (λ _. tt, λ _. refl)
  clean_flow_problems_iff index (relation ∷ relations) =
      let ends = known_ends (map (λ o. o.id) obstacles) relation.from relation.to in
      let points = checked_points (path_for relation) in
      append-eq-nil_iff (ends_problems obstacles path_for clearance index ends points)
        (clean_flow_problems obstacles path_for clearance (suc index) relations)
        (ends_problems_iff index ends points) (clean_flow_problems_iff (suc index) relations)
