-- ===== src/Delta/Sorted.antt =====
-- Sorted lists of texts, and lists without repetition, as the comparison makes them.
use mathlib.Core.Path.{subst}
use salience.Base.{
  ◌≡◌, refl, sym, ◌∙◌, ap, ap₂, inl, inr, Text, text_eq, text_eq_iff, text_eq_refl, includes, List,
  [], ◌∷◌, true, false, not, ◌&&◌, ◌||◌, Bool-cases, arith,
}
use salience.Base.Alphabet.{lower, lower_trans, lower_irrefl, lower_total}
use salience.Delta.{insert_by, sorted_by, sorted, distinct_ids}

-- Every text of the list is above the first one.
abbrev pub IsBelow : Text → List Text → Type 0
IsBelow p [] = Unit
IsBelow p (x ∷ l) = (lower p x ≡ true) × IsBelow p l

abbrev pub Ascends : List Text → Type 0
Ascends [] = Unit
Ascends (x ∷ l) = IsBelow x l × Ascends l

abbrev pub IsDistinct : List Text → Type 0
IsDistinct [] = Unit
IsDistinct (x ∷ l) = (includes l x ≡ false) × IsDistinct l

IsBelow-lower : (p q : Text) (l : List Text) → lower p q ≡ true → IsBelow q l → IsBelow p l
IsBelow-lower p q [] e h = tt
IsBelow-lower p q (x ∷ l) e (a, h) = (lower_trans p q x e a, IsBelow-lower p q l e h)

IsBelow-includes :
    (p : Text) (l : List Text) (id : Text) → IsBelow p l → includes l id ≡ true → lower p id ≡ true
unfolding includes
IsBelow-includes p [] id h e = cc
IsBelow-includes p (x ∷ l) id (a, h) e = elim (Bool-cases (text_eq x id)) [
  | inl t ↦ let same : x ≡ id = (text_eq_iff x id).0 t in subst (λ y. lower p y ≡ true) same a
  | inr t ↦ IsBelow-includes p l id h (ground (arith, e, t))
]

IsBelow-includes_self : (p : Text) (l : List Text) → IsBelow p l → includes l p ≡ false
IsBelow-includes_self p l h = elim (Bool-cases (includes l p)) [
  | inl t ↦ let e = IsBelow-includes p l p h t in cc (lower_irrefl p)
  | inr t ↦ t
]

includes-insert_by_lem :
    (x : Text) (l : List Text) (id : Text)
    → includes (insert_by (λ t. t) x l) id ≡ (text_eq x id || includes l id)
unfolding includes
includes-insert_by_lem x [] id = refl
includes-insert_by_lem x (y ∷ l) id = ground (arith, includes-insert_by_lem x l id)

pub includes-sorted_lem : (l : List Text) (id : Text) → includes (sorted l) id ≡ includes l id
unfolding includes sorted_by
includes-sorted_lem [] id = refl
includes-sorted_lem (x ∷ l) id =
    ground (arith, includes-insert_by_lem x (sorted l) id, includes-sorted_lem l id)

IsBelow-insert_by :
    (p x : Text) (l : List Text)
    → lower p x ≡ true
    → IsBelow p l
    → IsBelow p (insert_by (λ t. t) x l)
IsBelow-insert_by p x [] e h = (e, tt)
IsBelow-insert_by p x (y ∷ l) e (a, h) = elim (Bool-cases (lower y x)) [
  | inl t ↦ rw t (a, IsBelow-insert_by p x l e h)
  | inr t ↦ rw t (e, (a, h))
]

Ascends-insert_by :
    (x : Text) (l : List Text) → includes l x ≡ false → Ascends l → Ascends (insert_by (λ t. t) x l)
unfolding includes
Ascends-insert_by x [] e h = (tt, tt)
Ascends-insert_by x (y ∷ l) e (b, h) = elim (Bool-cases (lower y x)) [
  | inl t ↦ rw t (IsBelow-insert_by y x l t b, Ascends-insert_by x l (ground (arith, e)) h)
  | inr t ↦
      let above : lower x y ≡ true = lower_total y x t (ground (arith, e)) in
      rw t ((above, IsBelow-lower x y l above b), (b, h))
]

pub Ascends-sorted : (l : List Text) → IsDistinct l → Ascends (sorted l)
unfolding sorted_by
Ascends-sorted [] h = tt
Ascends-sorted (x ∷ l) (e, h) =
    Ascends-insert_by x (sorted l) (includes-sorted_lem l x ∙ e) (Ascends-sorted l h)

text_eq-includes :
    (l : List Text) (x id : Text) → text_eq x id ≡ true → includes l x ≡ includes l id
text_eq-includes l x id e = ap (includes l) ((text_eq_iff x id).0 e)

pub includes-distinct_ids_lem :
    (seen l : List Text) (id : Text)
    → includes (distinct_ids seen l) id ≡ (includes l id && not (includes seen id))
unfolding includes
includes-distinct_ids_lem seen [] id = refl
includes-distinct_ids_lem seen (x ∷ l) id = ground (
  arith,
  text_eq-includes seen x id,
  includes-distinct_ids_lem seen l id,
  includes-distinct_ids_lem (x ∷ seen) l id,
)

unseen :
    (seen : List Text) (x : Text) (l : List Text) → includes (distinct_ids (x ∷ seen) l) x ≡ false
unfolding includes
unseen seen x l = ground (arith, text_eq_refl x, includes-distinct_ids_lem (x ∷ seen) l x)

pub IsDistinct-distinct_ids : (seen l : List Text) → IsDistinct (distinct_ids seen l)
IsDistinct-distinct_ids seen [] = tt
IsDistinct-distinct_ids seen (x ∷ l) = elim (Bool-cases (includes seen x)) [
  | inl t ↦ rw t (IsDistinct-distinct_ids seen l)
  | inr t ↦ rw t (unseen seen x l, IsDistinct-distinct_ids (x ∷ seen) l)
]

includes_head : (x : Text) (l : List Text) → includes (x ∷ l) x ≡ true
unfolding includes
includes_head x l = ground (arith, text_eq_refl x)

not_lower :
    (x y : Text) (m : List Text) → IsBelow y m → includes (y ∷ m) x ≡ true → lower x y ≡ false
unfolding includes
not_lower x y m h e =
    ground (arith, e, text_eq_iff y x, IsBelow-includes y m x h, lower_trans x y x, lower_irrefl x)

-- Two ascending lists with the same members are the same list.
pub Ascends-ext :
    (l m : List Text)
    → Ascends l
    → Ascends m
    → ((id : Text) → includes l id ≡ includes m id)
    → l ≡ m
unfolding includes
Ascends-ext [] [] h k same = refl
Ascends-ext [] (y ∷ m) h k same = cc (same y ∙ includes_head y m)
Ascends-ext (x ∷ l) [] h k same = cc (sym (same x) ∙ includes_head x l)
Ascends-ext (x ∷ l) (y ∷ m) (b, h) (c, k) same =
    let below = not_lower x y m c (sym (same x) ∙ includes_head x l) in
    let above = not_lower y x l b (same y ∙ includes_head y m) in
    let e : x ≡ y = ground (arith, below, above, lower_total x y, text_eq_iff x y) in
    ap₂ (λ z n. z ∷ n) e (Ascends-ext l m h k (tail_same e))
  where
    tail_same : x ≡ y → (id : Text) → includes l id ≡ includes m id
    tail_same e id =
        let c' : IsBelow x m = subst (λ z. IsBelow z m) (sym e) c in
        ground (
          arith,
          same id,
          e,
          text_eq-includes l x id,
          text_eq-includes m x id,
          IsBelow-includes_self x l b,
          IsBelow-includes_self x m c',
        )
