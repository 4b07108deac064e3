-- ===== src/Geometry/Route/Straight.antt =====
-- What `normalizeRoutePoints` leaves of a route.
use mathlib.Core.Path.{subst}
use mathlib.Core.List.{reverse, reverse-append, reverse-cons, reverse-reverse, append_assoc}
use salience.Base.{
  ◌≡◌, refl, sym, ap, ◌∙◌, List, [], ◌∷◌, ◌++◌, false, Option, none, some, Bool-cases, inl, inr,
  some_inj,
}
use salience.Geometry.Segments.{Point}
use salience.Geometry.Route.{
  collinear_forward, finite_points, dedupe_after, drop_straight, straighten_onto,
  normalize_route_points,
}

abbrev BendsAt : Point → Point → List Point → Type 0
BendsAt c b [] = Unit
BendsAt c b (a ∷ stack) = collinear_forward a b c ≡ false

-- No point of the stack lies on a straight way from the one below it to the one above it.
abbrev Bends : List Point → Type 0
Bends [] = Unit
Bends (b ∷ []) = Unit
Bends (c ∷ b ∷ stack) = BendsAt c b stack × Bends (b ∷ stack)

drop_straight-Bends :
    (p : Point) (stack : List Point) → Bends stack → Bends (p ∷ drop_straight p stack)
unfolding drop_straight
drop_straight-Bends p [] h = tt
drop_straight-Bends p (b ∷ []) h = (tt, tt)
drop_straight-Bends p (b ∷ a ∷ stack) h = elim (Bool-cases (collinear_forward a b p)) [
  | inl e ↦ rw e (drop_straight-Bends p (a ∷ stack) h.1)
  | inr e ↦ rw e (e, h)
]

straighten_onto-Bends :
    (stack points : List Point) → Bends stack → Bends (straighten_onto stack points)
unfolding straighten_onto
straighten_onto-Bends stack [] h = h
straighten_onto-Bends stack (p ∷ points) h =
    straighten_onto-Bends (p ∷ drop_straight p stack) points (drop_straight-Bends p stack h)

Bends-tail : (p : Point) (stack : List Point) → Bends (p ∷ stack) → Bends stack
Bends-tail p [] h = tt
Bends-tail p (b ∷ stack) h = h.1

Bends-within :
    (above : List Point) (c b a : Point) (below : List Point)
    → Bends (above ++ (c ∷ b ∷ a ∷ below))
    → collinear_forward a b c ≡ false
Bends-within [] c b a below h = h.0
Bends-within (p ∷ above) c b a below h =
    Bends-within above c b a below (Bends-tail p (above ++ (c ∷ b ∷ a ∷ below)) h)

reversed_part :
    (stack before after : List Point) (a b c : Point)
    → reverse stack ≡ before ++ (a ∷ b ∷ c ∷ after)
    → stack ≡ reverse after ++ (c ∷ b ∷ a ∷ reverse before)
reversed_part stack before after a b c e =
    sym (reverse-reverse stack)
    ∙ ap reverse e
    ∙ reverse-append before (a ∷ b ∷ c ∷ after)
    ∙ ap (λ l. l ++ reverse before) (reverse-append (a ∷ b ∷ c ∷ []) after)
    ∙ append_assoc (reverse after) (c ∷ b ∷ a ∷ []) (reverse before)

-- In a normalized route no point lies on a straight way forward from the point before it to the
-- point behind it.
pub normalize_route_points-bends :
    (points : List (Option Point)) (before after : List Point) (a b c : Point)
    → normalize_route_points points ≡ before ++ (a ∷ b ∷ c ∷ after)
    → collinear_forward a b c ≡ false
unfolding normalize_route_points
normalize_route_points-bends points before after a b c e =
    let stack = straighten_onto [] (dedupe_after none (finite_points points)) in
    Bends-within (reverse after) c b a (reverse before) (
      subst Bends (reversed_part stack before after a b c e)
        (straighten_onto-Bends [] (dedupe_after none (finite_points points)) tt))

abbrev first : List Point → Option Point
first [] = none
first (p ∷ points) = some p

abbrev bottom : List Point → Option Point
bottom [] = none
bottom (b ∷ []) = some b
bottom (c ∷ b ∷ stack) = bottom (b ∷ stack)

bottom-drop_straight :
    (p b : Point) (stack : List Point)
    → bottom (p ∷ drop_straight p (b ∷ stack)) ≡ bottom (b ∷ stack)
unfolding drop_straight
bottom-drop_straight p b [] = refl
bottom-drop_straight p b (a ∷ stack) = elim (Bool-cases (collinear_forward a b p)) [
  | inl e ↦ rw e (bottom-drop_straight p a stack)
  | inr e ↦ rw e refl
]

bottom-straighten_onto :
    (b : Point) (stack points : List Point)
    → bottom (straighten_onto (b ∷ stack) points) ≡ bottom (b ∷ stack)
unfolding straighten_onto
bottom-straighten_onto b stack [] = refl
bottom-straighten_onto b stack (p ∷ points) =
    bottom-straighten_onto p (drop_straight p (b ∷ stack)) points ∙ bottom-drop_straight p b stack

first-append : (l m : List Point) (p : Point) → first l ≡ some p → first (l ++ m) ≡ some p
first-append [] m p h = cc
first-append (q ∷ l) m p h = h

first-reverse :
    (stack : List Point) (p : Point) → bottom stack ≡ some p → first (reverse stack) ≡ some p
first-reverse [] p h = cc
first-reverse (b ∷ []) p h = h
first-reverse (c ∷ b ∷ stack) p h =
    subst (λ l. first l ≡ some p) (sym (reverse-cons c (b ∷ stack)))
      (first-append (reverse (b ∷ stack)) (c ∷ []) p (first-reverse (b ∷ stack) p h))

first_part : (l : List Point) (p : Point) → first l ≡ some p → (more : List Point) × (l ≡ p ∷ more)
first_part [] p h = cc
first_part (q ∷ l) p h = (l, ap (λ x. x ∷ l) (some_inj h))

-- A normalized route starts at the first finite point of the route.
pub normalize_route_points-start :
    (points : List (Option Point)) (p : Point) (rest : List Point)
    → finite_points points ≡ p ∷ rest
    → (more : List Point) × (normalize_route_points points ≡ p ∷ more)
unfolding normalize_route_points straighten_onto dedupe_after drop_straight
normalize_route_points-start points p rest e =
    let later = dedupe_after (some p) rest in
    let same : normalize_route_points points ≡ reverse (straighten_onto (p ∷ []) later) =
      ap (λ l. reverse (straighten_onto [] (dedupe_after none l))) e in
    let (more, f) =
      first_part (reverse (straighten_onto (p ∷ []) later)) p
        (first-reverse (straighten_onto (p ∷ []) later) p (bottom-straighten_onto p [] later)) in
    (more, same ∙ f)
