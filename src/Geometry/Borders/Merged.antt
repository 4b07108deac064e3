-- ===== src/Geometry/Borders/Merged.antt =====
-- The merged intervals lie apart and cover the ones that were merged.
use mathlib.Core.Path.{subst}
use salience.Base.{
  ◌≡◌, refl, sym, ◌⊎◌, inl, inr, List, [], ◌∷◌, Bool, true, false, arith, Bool-cases, if◌then◌else◌,
}
use salience.Geometry.Number.{◌⊕◌, le, lt, max_of, epsilon}
use salience.Geometry.Borders.{
  Interval, is_before, insert_interval, sort_intervals, merge_from, merge_sorted, merge_intervals,
}

-- Each interval ends more than the epsilon before the next one begins.
abbrev pub LieApart : List Interval → Type 0
LieApart [] = Unit
LieApart (a ∷ []) = Unit
LieApart (a ∷ b ∷ intervals) = (lt (a.high ⊕ epsilon) b.low ≡ true) × LieApart (b ∷ intervals)

-- One of the intervals holds another one.
abbrev pub IsCovered : Interval → List Interval → Type 0
IsCovered i [] = ⊥
IsCovered i (a ∷ intervals) =
    ((le a.low i.low ≡ true) × (le i.high a.high ≡ true)) ⊎ IsCovered i intervals

abbrev pub AllCovered : List Interval → List Interval → Type 0
AllCovered [] merged = Unit
AllCovered (i ∷ intervals) merged = IsCovered i merged × AllCovered intervals merged

abbrev Starts : Interval → List Interval → Type 0
Starts p [] = ⊥
Starts p (a ∷ intervals) = a.low ≡ p.low

Starts-merge_from : (p : Interval) (l : List Interval) → Starts p (merge_from p l)
unfolding merge_from
Starts-merge_from p [] = refl
Starts-merge_from p (i ∷ l) = elim (Bool-cases (le i.low (p.high ⊕ epsilon))) [
  | inl e ↦ rw e (Starts-merge_from (record p { high = max_of p.high i.high }) l)
  | inr e ↦ rw e refl
]

LieApart-cons :
    (p i : Interval) (l : List Interval)
    → le i.low (p.high ⊕ epsilon) ≡ false
    → Starts i l
    → LieApart l
    → LieApart (p ∷ l)
LieApart-cons p i [] e s h = tt
LieApart-cons p i (a ∷ l) e s h =
    (subst (λ x. lt (p.high ⊕ epsilon) x ≡ true) (sym s) (ground (arith, e)), h)

LieApart-merge_from : (p : Interval) (l : List Interval) → LieApart (merge_from p l)
unfolding merge_from
LieApart-merge_from p [] = tt
LieApart-merge_from p (i ∷ l) = elim (Bool-cases (le i.low (p.high ⊕ epsilon))) [
  | inl e ↦ rw e (LieApart-merge_from (record p { high = max_of p.high i.high }) l)
  | inr e ↦
      rw e (LieApart-cons p i (merge_from i l) e (Starts-merge_from i l) (LieApart-merge_from i l))
]

-- The low ends go up.
abbrev GoUp : Interval → List Interval → Type 0
GoUp p [] = Unit
GoUp p (i ∷ l) = (le p.low i.low ≡ true) × GoUp i l

GoUp-lower : (q p : Interval) (l : List Interval) → le q.low p.low ≡ true → GoUp p l → GoUp q l
GoUp-lower q p [] e h = tt
GoUp-lower q p (i ∷ l) e (a, h) = (ground (arith, e, a), h)

IsCovered-wider :
    (i j : Interval) (l : List Interval)
    → le j.low i.low ≡ true
    → le i.high j.high ≡ true
    → IsCovered j l
    → IsCovered i l
IsCovered-wider i j [] a b h = h
IsCovered-wider i j (k ∷ l) a b (inl (c, d)) = inl (ground (arith, a, c), ground (arith, b, d))
IsCovered-wider i j (k ∷ l) a b (inr h) = inr (IsCovered-wider i j l a b h)

AllCovered-more : (l m : List Interval) (a : Interval) → AllCovered l m → AllCovered l (a ∷ m)
AllCovered-more [] m a h = tt
AllCovered-more (i ∷ l) m a (x, h) = (inr x, AllCovered-more l m a h)

IsCovered-apart :
    (p i : Interval) (l m : List Interval)
    → IsCovered i m × AllCovered l m
    → IsCovered p (p ∷ m) × (IsCovered i (p ∷ m) × AllCovered l (p ∷ m))
IsCovered-apart p i l m (x, h) =
    (inl (ground arith, ground arith), (inr x, AllCovered-more l m p h))

IsCovered-joined :
    (p i q : Interval) (l m : List Interval)
    → le p.low i.low ≡ true
    → q ≡ record p { high = max_of p.high i.high }
    → IsCovered q m × AllCovered l m
    → IsCovered p m × (IsCovered i m × AllCovered l m)
IsCovered-joined p i q l m up e (x, h) =
    let y = subst (λ z. IsCovered z m) e x in
    let g = record p { high = max_of p.high i.high } in
    (
      IsCovered-wider p g m (ground arith) (ground arith) y,
      (IsCovered-wider i g m (ground (arith, up)) (ground arith) y, h),
    )

IsCovered-merge_from :
    (p : Interval) (l : List Interval)
    → GoUp p l
    → IsCovered p (merge_from p l) × AllCovered l (merge_from p l)
unfolding merge_from
IsCovered-merge_from p [] h = (inl (ground arith, ground arith), tt)
IsCovered-merge_from p (i ∷ l) (up, h) = elim (Bool-cases (le i.low (p.high ⊕ epsilon))) [
  | inl e ↦
      let g = record p { high = max_of p.high i.high } in
      rw e (
        IsCovered-joined p i g l (merge_from g l) up refl
          (IsCovered-merge_from g l (GoUp-lower g i l up h)))
  | inr e ↦ rw e (IsCovered-apart p i l (merge_from i l) (IsCovered-merge_from i l h))
]

before_low : (j i : Interval) → is_before j i ≡ true → le j.low i.low ≡ true
before_low j i e = ground (arith, e)

not_before_low : (j i : Interval) → is_before j i ≡ false → le i.low j.low ≡ true
not_before_low j i e = ground (arith, e)

GoUp-insert_interval :
    (p i : Interval) (l : List Interval)
    → le p.low i.low ≡ true
    → GoUp p l
    → GoUp p (insert_interval i l)
GoUp-insert_interval p i [] e h = (e, tt)
GoUp-insert_interval p i (j ∷ l) e (a, h) = elim (Bool-cases (is_before j i)) [
  | inl f ↦ rw f (a, GoUp-insert_interval j i l (before_low j i f) h)
  | inr f ↦ rw f (e, (not_before_low j i f, h))
]

abbrev Ascends : List Interval → Type 0
Ascends [] = Unit
Ascends (p ∷ l) = GoUp p l

Ascends-insert_interval :
    (i : Interval) (l : List Interval) → Ascends l → Ascends (insert_interval i l)
Ascends-insert_interval i [] h = tt
Ascends-insert_interval i (j ∷ l) h = elim (Bool-cases (is_before j i)) [
  | inl f ↦ rw f (GoUp-insert_interval j i l (before_low j i f) h)
  | inr f ↦ rw f (not_before_low j i f, h)
]

Ascends-sort_intervals : (l : List Interval) → Ascends (sort_intervals l)
unfolding sort_intervals
Ascends-sort_intervals [] = tt
Ascends-sort_intervals (i ∷ l) =
    Ascends-insert_interval i (sort_intervals l) (Ascends-sort_intervals l)

AllCovered-insert_interval :
    (i : Interval) (l m : List Interval)
    → AllCovered (insert_interval i l) m
    → IsCovered i m × AllCovered l m
AllCovered-insert_interval i [] m h = h
AllCovered-insert_interval i (j ∷ l) m h =
    of_test (is_before j i) (AllCovered-insert_interval i l m) h
  where
    of_test :
        (b : Bool)
        → (AllCovered (insert_interval i l) m → IsCovered i m × AllCovered l m)
        → AllCovered (if b then j ∷ insert_interval i l else i ∷ j ∷ l) m
        → IsCovered i m × AllCovered (j ∷ l) m
    of_test true k (x, h) = let (y, z) = k h in (y, (x, z))
    of_test false k h = h

AllCovered-sort_intervals : (l m : List Interval) → AllCovered (sort_intervals l) m → AllCovered l m
unfolding sort_intervals
AllCovered-sort_intervals [] m h = tt
AllCovered-sort_intervals (i ∷ l) m h =
    let (x, k) = AllCovered-insert_interval i (sort_intervals l) m h in
    (x, AllCovered-sort_intervals l m k)

sorted-merged :
    (l : List Interval) → Ascends l → LieApart (merge_sorted l) × AllCovered l (merge_sorted l)
sorted-merged [] h = (tt, tt)
sorted-merged (p ∷ l) h = (LieApart-merge_from p l, IsCovered-merge_from p l h)

-- The merged intervals lie apart by more than the epsilon, and each interval that was merged lies
-- within one of them.
pub merge_intervals-LieApart :
    (intervals : List Interval)
    → LieApart (merge_intervals intervals) × AllCovered intervals (merge_intervals intervals)
unfolding merge_intervals
merge_intervals-LieApart intervals =
    let sorted = sort_intervals intervals in
    let (a, b) = sorted-merged sorted (Ascends-sort_intervals intervals) in
    (a, AllCovered-sort_intervals intervals (merge_sorted sorted) b)
