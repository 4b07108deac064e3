-- ===== src/Geometry/Route/Budget/Counts.antt =====
-- The counts of the measures belong together.
use mathlib.Core.Path.{subst}
use salience.Base.{
  ℕ, suc, ◌+◌, ◌≤◌, ◌≡◌, refl, List, [], ◌∷◌, Bool, true, false, not, ◌&&◌, Option, arith, length,
  if◌then◌else◌,
}
use salience.Geometry.Number.{Number, of_units, le, lt, epsilon}
use salience.Geometry.Segments.{Point}
use salience.Geometry.Route.{normalize_route_points, segment_length, segment_position, is_interior}
use salience.Geometry.Route.Budget.{
  Metrics, Budget, Stretch, measured, measured_segment, segment_metrics, stretched, bent,
  is_stretched, route_metrics, metrics_from, route_budget_metrics, no_metrics, counted, max_or,
}

-- The short segments are those at an end and those inside, the micro segments are short, and no more
-- routes are over the two budgets than were looked at.
pub record IsConsistent (bent_routes stretched_routes : ℕ) (m : Metrics) : Type 0 where
  pub shorts :
      m.short_segment_count ≡ m.short_endpoint_segment_count + m.short_interior_segment_count
  pub micros : m.micro_segment_count ≤ m.short_segment_count
  pub bends : m.routes_over_suggested_bends ≤ bent_routes
  pub stretches : m.routes_over_suggested_stretch ≤ stretched_routes

shorts_of :
    (s i : Bool) (a b d : ℕ) → a ≡ b + d → counted s a ≡ counted (s && not i) b + counted (s && i) d
shorts_of true true a b d e = omega (arith, e)
shorts_of true false a b d e = omega (arith, e)
shorts_of false i a b d e = e

micros_of : (n s : Bool) (a b : ℕ) → (n ≡ true → s ≡ true) → a ≤ b → counted n a ≤ counted s b
micros_of true true a b h e = omega (arith, e)
micros_of true false a b h e = let f = h refl in cc
micros_of false true a b h e = omega (arith, e)
micros_of false false a b h e = e

counted-bound : (b : Bool) (n m : ℕ) → n ≤ m → counted b n ≤ suc m
counted-bound true n m e = omega (arith, e)
counted-bound false n m e = omega (arith, e)

module _ (budget : Budget) (finer : le budget.micro_segment_px budget.segment_px ≡ true) where
  short_micro : (l : Number) → lt l budget.micro_segment_px ≡ true → lt l budget.segment_px ≡ true
  short_micro l h = ground (arith, finer, h)

  module _ (p q : ℕ) where
    measured-IsConsistent :
        (m : Metrics) (inside : Bool) (l : Number)
        → IsConsistent p q m
        → IsConsistent p q (measured budget m inside l)
    measured-IsConsistent m inside l c = of_test (le l epsilon)
      where
        of_test :
            (b : Bool) → IsConsistent p q (if b then m else measured_segment budget m inside l)
        of_test true = c
        of_test false = record {
          shorts = shorts_of (lt l budget.segment_px) inside _ _ _ c.shorts;
          micros =
              micros_of (lt l budget.micro_segment_px) (lt l budget.segment_px) _ _ (short_micro l)
                c.micros;
          bends = c.bends;
          stretches = c.stretches;
        }

    segment_metrics-IsConsistent :
        (count index : ℕ) (total : Number) (m : Metrics) (points : List Point)
        → IsConsistent p q m
        → IsConsistent p q (segment_metrics budget count index total m points).0
    unfolding segment_metrics
    segment_metrics-IsConsistent count index total m [] c = c
    segment_metrics-IsConsistent count index total m (a ∷ []) c = c
    segment_metrics-IsConsistent count index total m (a ∷ b ∷ points) c =
        segment_metrics-IsConsistent count (suc index) _ _ (b ∷ points) (
          measured-IsConsistent m (is_interior (segment_position index count)) (segment_length a b)
            c)

    bent-IsConsistent :
        (n : ℕ) (m : Metrics) → IsConsistent p q m → IsConsistent (suc p) q (bent budget n m)
    bent-IsConsistent n m c = record {
      shorts = c.shorts;
      micros = c.micros;
      bends = counted-bound _ m.routes_over_suggested_bends p c.bends;
      stretches = c.stretches;
    }

    stretched-IsConsistent :
        (s : Stretch) (m : Metrics)
        → IsConsistent p q m
        → IsConsistent p (suc q) (stretched budget s m)
    stretched-IsConsistent s m c = of_test (lt epsilon s.direct)
      where
        of_test :
            (b : Bool)
            → IsConsistent p (suc q) (
                if b
                then record m {
                  max_stretch = max_or m.max_stretch s;
                  routes_over_suggested_stretch =
                      counted (is_stretched budget s) m.routes_over_suggested_stretch;
                }
                else m)
        of_test true = record {
          shorts = c.shorts;
          micros = c.micros;
          bends = c.bends;
          stretches = counted-bound _ m.routes_over_suggested_stretch q c.stretches;
        }
        of_test false = record {
          shorts = c.shorts;
          micros = c.micros;
          bends = c.bends;
          stretches = omega (arith, c.stretches);
        }

    wider : (m : Metrics) → IsConsistent p q m → IsConsistent (suc p) (suc q) m
    wider m c = record {
      shorts = c.shorts;
      micros = c.micros;
      bends = omega (arith, c.bends);
      stretches = omega (arith, c.stretches);
    }

  route_metrics-IsConsistent :
      (n : ℕ) (m : Metrics) (points : List Point)
      → IsConsistent n n m
      → IsConsistent (suc n) (suc n) (route_metrics budget m points)
  unfolding route_metrics
  route_metrics-IsConsistent n m [] c = wider n n m c
  route_metrics-IsConsistent n m (a ∷ []) c = wider n n m c
  route_metrics-IsConsistent n m (a ∷ b ∷ points) c = stretched-IsConsistent (suc n) n _ _ (
      segment_metrics-IsConsistent (suc n) n _ 0 (of_units 0) _ (a ∷ b ∷ points)
        (bent-IsConsistent n n (length points) m c))

  metrics_from-IsConsistent :
      (n : ℕ) (m : Metrics) (routes : List (List (Option Point)))
      → IsConsistent n n m
      → IsConsistent (length routes + n) (length routes + n) (metrics_from budget m routes)
  unfolding metrics_from
  metrics_from-IsConsistent n m [] c = subst (λ k. IsConsistent k k m) (zero_plus n) c
    where
      zero_plus : (n : ℕ) → n ≡ 0 + n
      zero_plus n = omega arith
  metrics_from-IsConsistent n m (points ∷ routes) c =
      subst
        (λ k.
          IsConsistent k k
            (metrics_from budget (route_metrics budget m (normalize_route_points points)) routes))
        (plus_suc (length routes) n)
        (metrics_from-IsConsistent (suc n) (route_metrics budget m (normalize_route_points points))
          routes (route_metrics-IsConsistent n m (normalize_route_points points) c))
    where
      plus_suc : (k n : ℕ) → k + suc n ≡ suc k + n
      plus_suc k n = omega arith

  -- If the micro floor is not above the other one, the short segments are those at an end and those
  -- inside, the micro segments are among them, and no more routes are over the two budgets than there
  -- are routes.
  pub route_budget_metrics-IsConsistent :
      (routes : List (List (Option Point)))
      → IsConsistent (length routes) (length routes) (route_budget_metrics budget routes)
  unfolding route_budget_metrics
  route_budget_metrics-IsConsistent routes =
      subst (λ k. IsConsistent k k (metrics_from budget no_metrics routes))
        (plus_zero (length routes)) (metrics_from-IsConsistent 0 no_metrics routes none_yet)
    where
      plus_zero : (k : ℕ) → k + 0 ≡ k
      plus_zero k = omega arith

      none_yet : IsConsistent 0 0 no_metrics
      none_yet = record {
        shorts = refl;
        micros = omega arith;
        bends = omega arith;
        stretches = omega arith;
      }
