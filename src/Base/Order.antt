-- ===== src/Base/Order.antt =====
-- Three-way comparisons, `-1`, `0` and `1` of the source, and what makes one a total order.
use Prim.Native.Nat.{compare, Ordering}
use mathlib.Core.Bool.{Bool, true, false}
use mathlib.Core.Path.{◌≡◌, refl}
use mathlib.Core.Logic.{◌≢◌}
use mathlib.Core.List.{List, [], ◌∷◌}
use native.Mathlib.Omega.{arith}

abbrev pub flip : Ordering → Ordering
flip Ordering.lt = Ordering.gt
flip Ordering.eq = Ordering.eq
flip Ordering.gt = Ordering.lt

-- A comparison that gives a negative number.
abbrev pub is_lt : Ordering → Bool
is_lt Ordering.lt = true
is_lt _ = false

pub record IsTotalOrder {ℓ} {A : Type ℓ} (cmp : A → A → Ordering) : Type ℓ where
  pub swap : (a b : A) → cmp b a ≡ flip (cmp a b)
  pub trans : (a b c : A) → cmp a b ≡ Ordering.lt → cmp b c ≡ Ordering.lt → cmp a c ≡ Ordering.lt
  pub eq : (a b : A) → cmp a b ≡ Ordering.eq → a ≡ b
  pub self : (a : A) → cmp a a ≡ Ordering.eq

pub compare-IsTotalOrder : IsTotalOrder compare
compare-IsTotalOrder = record {
  swap = λ a b. ground arith;
  trans = λ a b c h k. ground arith;
  eq = λ a b h. ground arith;
  self = λ a. ground arith;
}

-- The second comparison decides where the first finds no difference.
abbrev pub then_by : Ordering → Ordering → Ordering
then_by Ordering.eq o = o
then_by o _ = o

module _ {ℓ} {A : Type ℓ} (cmp : A → A → Ordering) where
  -- Lists in dictionary order.
  unfoldable pub compare_list : List A → List A → Ordering
  compare_list [] [] = Ordering.eq
  compare_list [] (b ∷ bs) = Ordering.lt
  compare_list (a ∷ as') [] = Ordering.gt
  compare_list (a ∷ as') (b ∷ bs) = then_by (cmp a b) (compare_list as' bs)

module _ {ℓ} {A : Type ℓ} {cmp : A → A → Ordering} (L : IsTotalOrder cmp) where
  compare_list-swap : (x y : List A) → compare_list cmp y x ≡ flip (compare_list cmp x y)
  unfolding compare_list
  compare_list-swap [] [] = refl
  compare_list-swap [] (b ∷ y) = refl
  compare_list-swap (a ∷ x) [] = refl
  compare_list-swap (a ∷ x) (b ∷ y) = ground (arith, L.swap a b, compare_list-swap x y)

  compare_list-eq : (x y : List A) → compare_list cmp x y ≡ Ordering.eq → x ≡ y
  unfolding compare_list
  compare_list-eq [] [] h = refl
  compare_list-eq [] (b ∷ y) h = ground arith
  compare_list-eq (a ∷ x) [] h = ground arith
  compare_list-eq (a ∷ x) (b ∷ y) h = ground (arith, L.eq a b, compare_list-eq x y)

  compare_list_self : (x : List A) → compare_list cmp x x ≡ Ordering.eq
  unfolding compare_list
  compare_list_self [] = refl
  compare_list_self (a ∷ x) = ground (arith, L.self a, compare_list_self x)

  compare_list_trans :
      (x y z : List A)
      → compare_list cmp x y ≡ Ordering.lt
      → compare_list cmp y z ≡ Ordering.lt
      → compare_list cmp x z ≡ Ordering.lt
  unfolding compare_list
  compare_list_trans [] [] z h k = ground arith
  compare_list_trans [] (b ∷ y) [] h k = ground arith
  compare_list_trans [] (b ∷ y) (c ∷ z) h k = refl
  compare_list_trans (a ∷ x) [] z h k = ground arith
  compare_list_trans (a ∷ x) (b ∷ y) [] h k = ground arith
  compare_list_trans (a ∷ x) (b ∷ y) (c ∷ z) h k =
      ground (arith, L.trans a b c, L.eq a b, L.eq b c, compare_list_trans x y z)

  pub compare_list-IsTotalOrder : IsTotalOrder (compare_list cmp)
  compare_list-IsTotalOrder = record {
    swap = compare_list-swap;
    trans = compare_list_trans;
    eq = compare_list-eq;
    self = compare_list_self;
  }

-- A total order is transitive where some of the texts are equal, too.
pub not_gt_trans {ℓ} :
    {A : Type ℓ} {cmp : A → A → Ordering} (L : IsTotalOrder cmp) (a b c : A)
    → cmp a b ≢ Ordering.gt
    → cmp b c ≢ Ordering.gt
    → cmp a c ≢ Ordering.gt
not_gt_trans L a b c h k =
    ground (arith, L.trans a b c, L.eq a b, L.eq b c, L.self c, L.self b, L.self a)

module _ {ℓ κ} {A : Type ℓ} {B : Type κ} (f : A → A → Ordering) (g : B → B → Ordering) where
  abbrev pub lex : A × B → A × B → Ordering
  lex (a, x) (b, y) = then_by (f a b) (g x y)

module _ {ℓ κ} {A : Type ℓ} {B : Type κ} {f : A → A → Ordering} {g : B → B → Ordering} where
  pub lex-IsTotalOrder : IsTotalOrder f → IsTotalOrder g → IsTotalOrder (lex f g)
  lex-IsTotalOrder F G = record {
    swap = λ (a, x) (b, y). ground (arith, F.swap a b, G.swap x y);
    trans = λ (a, x) (b, y) (c, z) h k.
        ground (arith, F.trans a b c, F.eq a b, F.eq b c, G.trans x y z);
    eq = λ (a, x) (b, y) h. ground (arith, F.eq a b, G.eq x y);
    self = λ (a, x). ground (arith, F.self a, G.self x);
  }
