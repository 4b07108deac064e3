-- ===== src/Geometry/Corridors/Longest.antt =====
-- The corridor that is reported for two relationships is their longest one.
use mathlib.Core.Path.{subst}
use salience.Base.{
  ◌≡◌, refl, ap, ◌⊎◌, inl, inr, List, [], ◌∷◌, Bool, true, false, Option, none, some, some_inj,
  arith, if◌then◌else◌,
}
use salience.Geometry.Number.{Number, le}
use salience.Geometry.Corridors.{
  Shared, Corridor, Routed, is_longer, longest_from, longest_of, shares_end, shared_overlaps,
  corridor_of, pair_corridors,
}

abbrev pub IsIn : Shared → List Shared → Type 0
IsIn s [] = ⊥
IsIn s (o ∷ overlaps) = (s ≡ o) ⊎ IsIn s overlaps

abbrev length_of : Shared → Number
length_of s = s.overlap.length

-- No overlap is longer by more than the epsilon.
abbrev pub AllWithin : Shared → List Shared → Type 0
AllWithin s [] = Unit
AllWithin s (o ∷ overlaps) = (is_longer o s ≡ false) × AllWithin s overlaps

pub record IsLongest (start longest : Shared) (overlaps : List Shared) : Type 0 where
  pub one_of : (longest ≡ start) ⊎ IsIn longest overlaps
  pub reaches : le (length_of start) (length_of longest) ≡ true
  pub within : AllWithin longest overlaps

step :
    (start longest o : Shared) (overlaps : List Shared) (b : Bool)
    → is_longer o start ≡ b
    → IsLongest (if b then o else start) longest overlaps
    → IsLongest start longest (o ∷ overlaps)
step start longest o overlaps true e h = record {
  one_of = inr h.one_of;
  reaches = ground (arith, e, h.reaches);
  within = (ground (arith, h.reaches), h.within);
}
step start longest o overlaps false e h = record {
  one_of = elim h.one_of [ inl f ↦ inl f | inr f ↦ inr (inr f) ];
  reaches = h.reaches;
  within = (ground (arith, e, h.reaches), h.within);
}

longest_from-IsLongest :
    (start : Shared) (overlaps : List Shared)
    → IsLongest start (longest_from start overlaps) overlaps
unfolding longest_from
longest_from-IsLongest start [] = record { one_of = inl refl; reaches = ground arith; within = tt }
longest_from-IsLongest start (o ∷ overlaps) =
    step start _ o overlaps (is_longer o start) refl
      (longest_from-IsLongest (if is_longer o start then o else start) overlaps)

-- The overlap that is chosen is one of the overlaps, and none is longer by more than the epsilon.
pub longest_of-within :
    (overlaps : List Shared) (longest : Shared)
    → longest_of overlaps ≡ some longest
    → IsIn longest overlaps × AllWithin longest overlaps
unfolding longest_of
longest_of-within [] longest h = cc
longest_of-within (o ∷ overlaps) longest h =
    let r = subst (λ x. IsLongest o x overlaps) (some_inj h) (longest_from-IsLongest o overlaps) in
    (r.one_of, (ground (arith, r.reaches), r.within))

abbrev shared_of : List Corridor → Shared → Shared
shared_of [] s = s
shared_of (c ∷ more) s = c.shared

-- A corridor that is reported for two relationships joins no common end, it is one of their overlaps
-- that are long enough, and no other is longer by more than the epsilon.
pub pair_corridors-longest :
    (min_overlap_px : Number) (left right : Routed) (c : Corridor) (more : List Corridor)
    → pair_corridors min_overlap_px left right ≡ c ∷ more
    → (shares_end left right ≡ false)
      × IsIn c.shared (shared_overlaps min_overlap_px left right)
      × AllWithin c.shared (shared_overlaps min_overlap_px left right)
unfolding pair_corridors
pair_corridors-longest min_overlap_px left right c more h =
    let overlaps = shared_overlaps min_overlap_px left right in
    of_test (shares_end left right) overlaps (longest_of overlaps) (longest_of-within overlaps) h
  where
    of_test :
        (t : Bool) (overlaps : List Shared) (o : Option Shared)
        → ((s : Shared) → o ≡ some s → IsIn s overlaps × AllWithin s overlaps)
        → (if t then [] else corridor_of left right o) ≡ c ∷ more
        → (t ≡ false) × IsIn c.shared overlaps × AllWithin c.shared overlaps
    of_test true overlaps o k h = cc
    of_test false overlaps none k h = cc
    of_test false overlaps (some s) k h =
        let same : s ≡ c.shared = ap (λ l. shared_of l s) h in
        let (a, b) = k s refl in
        (refl, subst (λ x. IsIn x overlaps) same a, subst (λ x. AllWithin x overlaps) same b)
