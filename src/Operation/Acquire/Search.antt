-- ===== src/Operation/Acquire/Search.antt =====
-- The search for a free generation in the loop of `reserveOperation`.
use mathlib.Core.Path.{subst}
use salience.Base.{
  ℕ, zero, suc, ◌≤◌, ◌<◌, ◌≡◌, refl, List, [], ◌∷◌, Bool, true, false, arith, leb, ◌==◌, length,
  if◌then◌else◌, Bool-cases, inl, inr,
}
use salience.Operation.Acquire.{is_occupied, next_free}

-- How many of the generations lie at or above one: the steps that the search may still take.
unfoldable count_from : ℕ → List ℕ → ℕ
count_from g [] = 0
count_from g (x ∷ xs) = let rest = count_from g xs in if leb g x then suc rest else rest

count_from-length : (g : ℕ) (xs : List ℕ) → count_from g xs ≤ length xs
unfolding count_from
count_from-length g [] = omega arith
count_from-length g (x ∷ xs) = ground (arith, count_from-length g xs)

count_from-suc : (g : ℕ) (xs : List ℕ) → count_from (suc g) xs ≤ count_from g xs
unfolding count_from
count_from-suc g [] = omega arith
count_from-suc g (x ∷ xs) = ground (arith, count_from-suc g xs)

count_from-occupied :
    (g : ℕ) (xs : List ℕ) → is_occupied xs g ≡ true → count_from (suc g) xs < count_from g xs
unfolding count_from is_occupied
count_from-occupied g [] h = cc
count_from-occupied g (x ∷ xs) h = ground (arith, count_from-suc g xs, count_from-occupied g xs, h)

-- The first generation from one on that is not occupied.
pub record IsFirstFree (occupied : List ℕ) (from free : ℕ) : Type 0 where
  pub vacant : is_occupied occupied free ≡ false
  pub above : from ≤ free
  pub least : (k : ℕ) → from ≤ k → k < free → is_occupied occupied k ≡ true

at_once : (xs : List ℕ) (g : ℕ) → is_occupied xs g ≡ false → IsFirstFree xs g g
at_once xs g h = record { vacant = h; above = omega arith; least = λ k l m. ground arith }

later :
    (xs : List ℕ) (g free : ℕ)
    → is_occupied xs g ≡ true
    → IsFirstFree xs (suc g) free
    → IsFirstFree xs g free
later xs g free h r = record {
  vacant = r.vacant;
  above = omega (arith, r.above);
  least = λ k l m. of_eq k l m (g == k) refl;
}
  where
    of_eq : (k : ℕ) → g ≤ k → k < free → (b : Bool) → (g == k) ≡ b → is_occupied xs k ≡ true
    of_eq k l m true e =
        let same : g ≡ k = ground (arith, e) in subst (λ x. is_occupied xs x ≡ true) same h
    of_eq k l m false e = r.least k (ground (arith, e, l)) m

search :
    (xs : List ℕ) (fuel g : ℕ) → count_from g xs ≤ fuel → IsFirstFree xs g (next_free fuel xs g)
unfolding next_free
search xs zero g h = at_once xs g (none_left (is_occupied xs g) refl)
  where
    none_left : (b : Bool) → is_occupied xs g ≡ b → is_occupied xs g ≡ false
    none_left true e = ground (arith, h, count_from-occupied g xs e)
    none_left false e = e
search xs (suc fuel) g h = elim (Bool-cases (is_occupied xs g)) [
  | inl e ↦
      rw e (later xs g _ e (search xs fuel (suc g) (omega (arith, h, count_from-occupied g xs e))))
  | inr e ↦ rw e (at_once xs g e)
]

-- The search of a generation ends within as many steps as there are generations, at the first one
-- that is not occupied.
pub next_free-IsFirstFree :
    (occupied : List ℕ) (from : ℕ)
    → IsFirstFree occupied from (next_free (length occupied) occupied from)
next_free-IsFirstFree occupied from =
    search occupied (length occupied) from (count_from-length from occupied)
