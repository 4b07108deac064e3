-- ===== src/Semver/Splits.antt =====
-- Splitting a text at a separator and joining the parts again.
use salience.Base.{
  ◌≡◌, refl, ap, ◌∙◌, ℕ, Text, Option, none, some, List, [], ◌∷◌, ◌++◌, false, arith, ◌==◌, ==_refl,
  Bool-cases, inl, inr,
}
use salience.Semver.{split_first, split_on, cons_fst}

-- The text holds no separator.
abbrev pub Free : ℕ → Text → Type 0
Free sep [] = Unit
Free sep (c ∷ cs) = ((c == sep) ≡ false) × Free sep cs

abbrev pub AllFree : ℕ → List Text → Type 0
AllFree sep [] = Unit
AllFree sep (t ∷ ts) = Free sep t × AllFree sep ts

pub Free-append : (sep : ℕ) (s t : Text) → Free sep s → Free sep t → Free sep (s ++ t)
Free-append sep [] t f g = g
Free-append sep (c ∷ s) t f g = (f.0, Free-append sep s t f.1 g)

-- A text, and the optional rest behind its separator.
abbrev pub with_rest : ℕ → Text × Option Text → Text
with_rest sep (s, none) = s
with_rest sep (s, some t) = s ++ (sep ∷ t)

pub with_rest-split_first : (sep : ℕ) (t : Text) → with_rest sep (split_first sep t) ≡ t
unfolding split_first
with_rest-split_first sep [] = refl
with_rest-split_first sep (c ∷ cs) = elim (Bool-cases (c == sep)) [
  | inl e ↦ rw e (ground arith)
  | inr e ↦ rw e (step (split_first sep cs) ∙ ap (λ t. c ∷ t) (with_rest-split_first sep cs))
]
  where
    step : (p : Text × Option Text) → with_rest sep (cons_fst c p) ≡ c ∷ with_rest sep p
    step (s, none) = refl
    step (s, some t) = refl

pub split_first-with_rest :
    (sep : ℕ) (s : Text) (o : Option Text)
    → Free sep s
    → split_first sep (with_rest sep (s, o)) ≡ (s, o)
unfolding split_first
split_first-with_rest sep [] none f = refl
split_first-with_rest sep [] (some t) f = rw ==_refl
split_first-with_rest sep (c ∷ s) none f = rw (f.0, split_first-with_rest sep s none f.1)
split_first-with_rest sep (c ∷ s) (some t) f = rw (f.0, split_first-with_rest sep s (some t) f.1)

pub Free-split_first : (sep : ℕ) (t : Text) → Free sep (split_first sep t).0
unfolding split_first
Free-split_first sep [] = tt
Free-split_first sep (c ∷ cs) = elim (Bool-cases (c == sep)) [
  | inl e ↦ rw e tt
  | inr e ↦ rw e (e, Free-split_first sep cs)
]

-- `parts.join(sep)`
abbrev pub join_tail : ℕ → List Text → Text
join_tail sep [] = []
join_tail sep (t ∷ ts) = (sep ∷ t) ++ join_tail sep ts

abbrev pub join : ℕ → List Text → Text
join sep [] = []
join sep (t ∷ ts) = t ++ join_tail sep ts

-- A split has at least one part.
pub split_on-cons : (sep : ℕ) (t : Text) → (u : Text) × (us : List Text) × (split_on sep t ≡ u ∷ us)
unfolding split_on
split_on-cons sep [] = ([], [], refl)
split_on-cons sep (c ∷ cs) = elim (Bool-cases (c == sep)) [
  | inl e ↦ ([], split_on sep cs, rw e)
  | inr e ↦ let (u, us, p) = split_on-cons sep cs in (c ∷ u, us, rw (e, p))
]

pub join-split_on : (sep : ℕ) (t : Text) → join sep (split_on sep t) ≡ t
unfolding split_on
join-split_on sep [] = refl
join-split_on sep (c ∷ cs) =
    let (u, us, p) = split_on-cons sep cs in
    let q : join sep (u ∷ us) ≡ cs = rw p at (join-split_on sep cs) in
    elim (Bool-cases (c == sep)) [
      | inl e ↦ rw (e, p) (ground arith)
      | inr e ↦ rw (e, p) (ap (λ r. c ∷ r) q)
    ]

pub split_on-join :
    (sep : ℕ) (t : Text) (ts : List Text)
    → AllFree sep (t ∷ ts)
    → split_on sep (join sep (t ∷ ts)) ≡ t ∷ ts
unfolding split_on
split_on-join sep [] [] f = refl
split_on-join sep [] (u ∷ us) f = rw ==_refl (ap (λ r. [] ∷ r) (split_on-join sep u us f.1))
split_on-join sep (c ∷ t) ts f = rw (f.0.0, split_on-join sep t ts (f.0.1, f.1))

pub Free-join :
    (sep : ℕ) (ts : List Text) → (b'.' == sep) ≡ false → AllFree sep ts → Free sep (join b'.' ts)
Free-join sep [] e f = tt
Free-join sep (t ∷ ts) e f = Free-append sep t (join_tail b'.' ts) f.0 (tail ts f.1)
  where
    tail : (ts : List Text) → AllFree sep ts → Free sep (join_tail b'.' ts)
    tail [] f = tt
    tail (t ∷ ts) f = (e, Free-append sep t (join_tail b'.' ts) f.0 (tail ts f.1))
