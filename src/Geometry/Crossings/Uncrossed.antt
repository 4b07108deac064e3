-- ===== src/Geometry/Crossings/Uncrossed.antt =====
-- Which relationships cross.
use salience.Base.{
  ℕ, ◌≡◌, refl, ◌↔◌, Text, codes, List, [], ◌∷◌, ◌++◌, Bool, true, false, Option, none, some,
  append-eq-nil_iff, if◌then◌else◌,
}
use salience.Geometry.Segments.{Point, crosses_properly}
use salience.Geometry.Crossings.{
  Crossing, Segment, crossing_of, proper_segment_intersection, or_next, crossing_with,
  crossing_between, AnalysedRelation, CrossingRelation, joins, crossing_problem, pair_problems,
  problems_with, crossing_problems, analysed_relations, clean_crossing_problems,
}
use salience.Geometry.Crossings.Denominator.{proper_segment_intersection_lem}

-- The segment crosses none of the others properly.
abbrev pub CrossesNone : Segment → List Segment → Type 0
CrossesNone s [] = Unit
CrossesNone s (t ∷ segments) =
    (crosses_properly s.start s.end t.start t.end ≡ false) × CrossesNone s segments

abbrev pub AllCrossNone : List Segment → List Segment → Type 0
AllCrossNone [] right = Unit
AllCrossNone (s ∷ left) right = CrossesNone s right × AllCrossNone left right

-- No segment of one relationship crosses one of the other, if they share no end.
abbrev pub IsUncrossed : AnalysedRelation → AnalysedRelation → Type 0
IsUncrossed left right = joins left right ≡ false → AllCrossNone left.segments right.segments

abbrev pub IsUncrossedBy : AnalysedRelation → List AnalysedRelation → Type 0
IsUncrossedBy left [] = Unit
IsUncrossedBy left (right ∷ routed) = IsUncrossed left right × IsUncrossedBy left routed

abbrev pub AllUncrossed : List AnalysedRelation → Type 0
AllUncrossed [] = Unit
AllUncrossed (left ∷ routed) = IsUncrossedBy left routed × AllUncrossed routed

or_next_iff :
    (a b : Option Crossing) {P Q : Type 0}
    → ((a ≡ none) ↔ P)
    → ((b ≡ none) ↔ Q)
    → (or_next a b ≡ none) ↔ (P × Q)
or_next_iff none b p q = (λ h. (p.0 refl, q.0 h), λ (_, y). q.1 y)
or_next_iff (some c) b p q = (λ h. cc, λ (x, _). let h = p.1 x in cc)

intersection_iff :
    (a b c d : Point)
    → (proper_segment_intersection a b c d ≡ none) ↔ (crosses_properly a b c d ≡ false)
intersection_iff a b c d =
    rw (proper_segment_intersection_lem a b c d) (of_test (crosses_properly a b c d))
  where
    of_test : (t : Bool) → ((if t then some (crossing_of a b c d) else none) ≡ none) ↔ (t ≡ false)
    of_test true = (λ h. cc, λ h. cc)
    of_test false = (λ _. refl, λ _. refl)

crossing_with_iff :
    (s : Segment) (right : List Segment) → (crossing_with s right ≡ none) ↔ CrossesNone s right
unfolding crossing_with
crossing_with_iff s [] = (λ _. tt, λ _. refl)
crossing_with_iff s (t ∷ right) =
    or_next_iff (proper_segment_intersection s.start s.end t.start t.end) (crossing_with s right)
      (intersection_iff s.start s.end t.start t.end) (crossing_with_iff s right)

crossing_between_iff :
    (left right : List Segment) → (crossing_between left right ≡ none) ↔ AllCrossNone left right
unfolding crossing_between
crossing_between_iff [] right = (λ _. tt, λ _. refl)
crossing_between_iff (s ∷ left) right =
    or_next_iff (crossing_with s right) (crossing_between left right) (crossing_with_iff s right)
      (crossing_between_iff left right)

pair_problems_iff :
    (left right : AnalysedRelation) → (pair_problems left right ≡ []) ↔ IsUncrossed left right
unfolding pair_problems
pair_problems_iff left right =
    of_test (joins left right) (crossing_between left.segments right.segments)
      (crossing_between_iff left.segments right.segments)
  where
    of_test :
        (t : Bool) (c : Option Crossing) {R : Type 0}
        → ((c ≡ none) ↔ R)
        → ((if t then [] else crossing_problem left.index right.index c) ≡ []) ↔ (t ≡ false → R)
    of_test true c h = (λ _ e. cc, λ _. refl)
    of_test false none h = (λ _ _. h.0 refl, λ _. refl)
    of_test false (some c) h = (λ e. cc, λ f. let e = h.1 (f refl) in cc)

problems_with_iff :
    (left : AnalysedRelation) (routed : List AnalysedRelation)
    → (problems_with left routed ≡ []) ↔ IsUncrossedBy left routed
unfolding problems_with
problems_with_iff left [] = (λ _. tt, λ _. refl)
problems_with_iff left (right ∷ routed) =
    append-eq-nil_iff (pair_problems left right) (problems_with left routed)
      (pair_problems_iff left right) (problems_with_iff left routed)

crossing_problems_iff :
    (routed : List AnalysedRelation) → (crossing_problems routed ≡ []) ↔ AllUncrossed routed
unfolding crossing_problems
crossing_problems_iff [] = (λ _. tt, λ _. refl)
crossing_problems_iff (left ∷ routed) =
    append-eq-nil_iff (problems_with left routed) (crossing_problems routed)
      (problems_with_iff left routed) (crossing_problems_iff routed)

-- Under the showcase profile there is no problem exactly when no two relationships that share no end
-- have segments that cross properly.
pub clean_crossing_problems_iff :
    (endpoint_ids : List Text) (path_for : CrossingRelation → Option (List (Option Point)))
    (merge_forward : Bool) (relations : List CrossingRelation)
    → (clean_crossing_problems endpoint_ids path_for merge_forward (codes "showcase") relations
        ≡ [])
      ↔ AllUncrossed (analysed_relations endpoint_ids path_for merge_forward 0 relations)
unfolding clean_crossing_problems salience.Base.text_eq
clean_crossing_problems_iff endpoint_ids path_for merge_forward relations =
    crossing_problems_iff (analysed_relations endpoint_ids path_for merge_forward 0 relations)
