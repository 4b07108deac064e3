-- ===== src/Geometry/Corridors/Apart.antt =====
-- Which relationships share a corridor.
use salience.Base.{
  ℕ, ◌≡◌, refl, ◌↔◌, List, [], ◌∷◌, Bool, true, false, Option, none, some, append-eq-nil_iff,
  if◌then◌else◌,
}
use salience.Geometry.Number.{Number, ◌⊕◌, lt, epsilon}
use salience.Geometry.Segments.{Point, AxisOverlap, collinear_axis_overlap}
use salience.Geometry.Corridors.{
  Routed, RoutedEntry, Shared, shares_end, indexed_segments, long_overlap, segment_overlaps,
  route_overlaps, longest_of, corridor_of, shared_overlaps, pair_corridors, corridors_with,
  corridors, routed_entries, collect_ambiguous_corridors,
}

module _ (min_overlap_px : Number) where
  -- No overlap, or one that is too short.
  abbrev pub IsShort : Option AxisOverlap → Type 0
  IsShort none = Unit
  IsShort (some o) = lt (o.length ⊕ epsilon) min_overlap_px ≡ true

  abbrev pub AllShort : ℕ × Point × Point → List (ℕ × Point × Point) → Type 0
  AllShort s [] = Unit
  AllShort (i, a, b) ((j, c, d) ∷ right) =
      IsShort (collinear_axis_overlap a b c d) × AllShort (i, a, b) right

  abbrev pub AllPairsShort : List (ℕ × Point × Point) → List (ℕ × Point × Point) → Type 0
  AllPairsShort [] right = Unit
  AllPairsShort (s ∷ left) right = AllShort s right × AllPairsShort left right

  -- Every two segments of the two routes overlap by less than the minimum, if the relationships share
  -- no end.
  abbrev pub IsApart : Routed → Routed → Type 0
  IsApart left right =
      shares_end left right ≡ false
      → AllPairsShort (indexed_segments 0 left.points) (indexed_segments 0 right.points)

  abbrev pub IsApartFrom : Routed → List Routed → Type 0
  IsApartFrom left [] = Unit
  IsApartFrom left (right ∷ routed) = IsApart left right × IsApartFrom left routed

  abbrev pub AllApart : List Routed → Type 0
  AllApart [] = Unit
  AllApart (left ∷ routed) = IsApartFrom left routed × AllApart routed

  long_overlap_iff :
      (i j : ℕ) (o : Option AxisOverlap) → (long_overlap min_overlap_px i j o ≡ []) ↔ IsShort o
  long_overlap_iff i j none = (λ _. tt, λ _. refl)
  long_overlap_iff i j (some o) = of_test (lt (o.length ⊕ epsilon) min_overlap_px)
    where
      of_test :
          (t : Bool)
          → (if◌then◌else◌ {A = List Shared} t []
                (record { left_segment = i; right_segment = j; overlap = o } ∷ [])
              ≡ [])
            ↔ (t ≡ true)
      of_test true = (λ _. refl, λ _. refl)
      of_test false = (λ h. cc, λ h. cc)

  segment_overlaps_iff :
      (s : ℕ × Point × Point) (right : List (ℕ × Point × Point))
      → (segment_overlaps min_overlap_px s right ≡ []) ↔ AllShort s right
  unfolding segment_overlaps
  segment_overlaps_iff s [] = (λ _. tt, λ _. refl)
  segment_overlaps_iff (i, a, b) ((j, c, d) ∷ right) =
      append-eq-nil_iff (long_overlap min_overlap_px i j (collinear_axis_overlap a b c d))
        (segment_overlaps min_overlap_px (i, a, b) right)
        (long_overlap_iff i j (collinear_axis_overlap a b c d))
        (segment_overlaps_iff (i, a, b) right)

  route_overlaps_iff :
      (left right : List (ℕ × Point × Point))
      → (route_overlaps min_overlap_px left right ≡ []) ↔ AllPairsShort left right
  unfolding route_overlaps
  route_overlaps_iff [] right = (λ _. tt, λ _. refl)
  route_overlaps_iff (s ∷ left) right =
      append-eq-nil_iff (segment_overlaps min_overlap_px s right)
        (route_overlaps min_overlap_px left right) (segment_overlaps_iff s right)
        (route_overlaps_iff left right)

  pair_corridors_iff :
      (left right : Routed) → (pair_corridors min_overlap_px left right ≡ []) ↔ IsApart left right
  unfolding pair_corridors longest_of
  pair_corridors_iff left right =
      of_test (shares_end left right) (shared_overlaps min_overlap_px left right)
        (route_overlaps_iff (indexed_segments 0 left.points) (indexed_segments 0 right.points))
    where
      of_test :
          (t : Bool) (l : List Shared) {R : Type 0}
          → ((l ≡ []) ↔ R)
          → ((if t then [] else corridor_of left right (longest_of l)) ≡ []) ↔ (t ≡ false → R)
      of_test true l h = (λ _ e. cc, λ _. refl)
      of_test false [] h = (λ _ _. h.0 refl, λ _. refl)
      of_test false (o ∷ l) h = (λ e. cc, λ f. let e = h.1 (f refl) in cc)

  corridors_with_iff :
      (left : Routed) (routed : List Routed)
      → (corridors_with min_overlap_px left routed ≡ []) ↔ IsApartFrom left routed
  unfolding corridors_with
  corridors_with_iff left [] = (λ _. tt, λ _. refl)
  corridors_with_iff left (right ∷ routed) =
      append-eq-nil_iff (pair_corridors min_overlap_px left right)
        (corridors_with min_overlap_px left routed) (pair_corridors_iff left right)
        (corridors_with_iff left routed)

  corridors_iff : (routed : List Routed) → (corridors min_overlap_px routed ≡ []) ↔ AllApart routed
  unfolding corridors
  corridors_iff [] = (λ _. tt, λ _. refl)
  corridors_iff (left ∷ routed) =
      append-eq-nil_iff (corridors_with min_overlap_px left routed)
        (corridors min_overlap_px routed) (corridors_with_iff left routed) (corridors_iff routed)

  -- There is no ambiguous corridor exactly when every two segments of two relationships that share no
  -- end overlap by less than the minimum.
  pub collect_ambiguous_corridors_iff :
      (entries : List RoutedEntry)
      → (collect_ambiguous_corridors min_overlap_px entries ≡ [])
        ↔ AllApart (routed_entries 0 entries)
  unfolding collect_ambiguous_corridors
  collect_ambiguous_corridors_iff entries = corridors_iff (routed_entries 0 entries)
