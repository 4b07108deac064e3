-- ===== src/Delta/Rows/Sorted.antt =====
-- `sortedBy` orders what it is given by its key, and neither drops nor adds any.
use mathlib.Core.List.{Permᴰ}
use salience.Base.{◌≡◌, refl, ap, map, ◌++◌, Text, List, [], ◌∷◌, false, Bool-cases, inl, inr}
use salience.Delta.{insert_by, sorted_by}
use salience.Base.Alphabet.{lower, lower_asym, not_lower_trans}

module _ {A : Type 0} where
  same_order : (l : List A) → Permᴰ l l
  same_order [] = Permᴰ.nil
  same_order (x ∷ l) = Permᴰ.cons refl (same_order l)

module _ {A : Type 0} (key : A → Text) where
  -- No element of the list is below the first one.
  abbrev pub NoneBelow : A → List A → Type 0
  NoneBelow x [] = Unit
  NoneBelow x (y ∷ l) = (lower (key y) (key x) ≡ false) × NoneBelow x l

  abbrev pub IsSorted : List A → Type 0
  IsSorted [] = Unit
  IsSorted (x ∷ l) = NoneBelow x l × IsSorted l

  NoneBelow-trans :
      (x y : A) (l : List A) → lower (key y) (key x) ≡ false → NoneBelow y l → NoneBelow x l
  NoneBelow-trans x y [] e h = tt
  NoneBelow-trans x y (z ∷ l) e (a, h) =
      (not_lower_trans (key x) (key y) (key z) e a, NoneBelow-trans x y l e h)

  NoneBelow-insert_by :
      (y x : A) (l : List A)
      → lower (key x) (key y) ≡ false
      → NoneBelow y l
      → NoneBelow y (insert_by key x l)
  NoneBelow-insert_by y x [] e h = (e, tt)
  NoneBelow-insert_by y x (z ∷ l) e (a, h) = elim (Bool-cases (lower (key z) (key x))) [
    | inl t ↦ rw t (a, NoneBelow-insert_by y x l e h)
    | inr t ↦ rw t (e, (a, h))
  ]

  IsSorted-insert_by : (x : A) (l : List A) → IsSorted l → IsSorted (insert_by key x l)
  IsSorted-insert_by x [] h = (tt, tt)
  IsSorted-insert_by x (y ∷ l) (a, h) = elim (Bool-cases (lower (key y) (key x))) [
    | inl t ↦
        rw t (NoneBelow-insert_by y x l (lower_asym (key y) (key x) t) a, IsSorted-insert_by x l h)
    | inr t ↦ rw t ((t, NoneBelow-trans x y l t a), (a, h))
  ]

  insert_by-Permᴰ : (x : A) (l : List A) → Permᴰ (x ∷ l) (insert_by key x l)
  insert_by-Permᴰ x [] = Permᴰ.cons refl Permᴰ.nil
  insert_by-Permᴰ x (y ∷ l) = elim (Bool-cases (lower (key y) (key x))) [
    | inl t ↦
        rw t (Permᴰ.trans (Permᴰ.swap {l = l} refl refl) (Permᴰ.cons refl (insert_by-Permᴰ x l)))
    | inr t ↦ rw t (same_order (x ∷ y ∷ l))
  ]

  pub sorted_by-IsSorted : (l : List A) → IsSorted (sorted_by key l)
  unfolding sorted_by
  sorted_by-IsSorted [] = tt
  sorted_by-IsSorted (x ∷ l) = IsSorted-insert_by x (sorted_by key l) (sorted_by-IsSorted l)

  pub sorted_by-Permᴰ : (l : List A) → Permᴰ l (sorted_by key l)
  unfolding sorted_by
  sorted_by-Permᴰ [] = Permᴰ.nil
  sorted_by-Permᴰ (x ∷ l) =
      Permᴰ.trans (Permᴰ.cons refl (sorted_by-Permᴰ l)) (insert_by-Permᴰ x (sorted_by key l))

module _ {A B : Type 0} (f : A → B) where
  pub map-Permᴰ : {l m : List A} → Permᴰ l m → Permᴰ (map f l) (map f m)
  map-Permᴰ Permᴰ.nil = Permᴰ.nil
  map-Permᴰ (Permᴰ.cons e p) = Permᴰ.cons (ap f e) (map-Permᴰ p)
  map-Permᴰ (Permᴰ.swap {l} e g) = Permᴰ.swap {l = map f l} (ap f e) (ap f g)
  map-Permᴰ (Permᴰ.trans p q) = Permᴰ.trans (map-Permᴰ p) (map-Permᴰ q)

  pub map-append : (l m : List A) → map f (l ++ m) ≡ map f l ++ map f m
  map-append [] m = refl
  map-append (x ∷ l) m = ap (λ t. f x ∷ t) (map-append l m)
