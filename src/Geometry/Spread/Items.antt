-- ===== src/Geometry/Spread/Items.antt =====
-- The order of the items of a side, by their counterparts.
use mathlib.Core.List.{Permᴰ}
use salience.Base.{◌≡◌, refl, List, [], ◌∷◌, Bool, true, false, Bool-cases, inl, inr, arith}
use salience.Base.Alphabet.{lower, lower_asym, not_lower_trans}
use salience.Geometry.Number.{Number, le}
use salience.Geometry.Spread.{
  Item, port_coordinate, port_key, is_before_item, insert_item, sort_items,
}

module _ (vertical_side : Bool) where
  abbrev place : Item → Number
  place i = port_coordinate vertical_side i.counterpart

  -- The counterpart of the first item lies no farther along the side than that of the second, and
  -- where both lie at the same place, the key of the first is not above that of the second.
  abbrev pub IsInOrder : Item → Item → Type 0
  IsInOrder i j =
      (le (place i) (place j) ≡ true)
      × (le (place j) (place i) ≡ true → lower (port_key j.relation) (port_key i.relation) ≡ false)

  abbrev pub IsFirst : Item → List Item → Type 0
  IsFirst i [] = Unit
  IsFirst i (j ∷ items) = IsInOrder i j × IsFirst i items

  abbrev pub AllInOrder : List Item → Type 0
  AllInOrder [] = Unit
  AllInOrder (i ∷ items) = IsFirst i items × AllInOrder items

  IsInOrder-trans : (i j k : Item) → IsInOrder i j → IsInOrder j k → IsInOrder i k
  IsInOrder-trans i j k (a, b) (c, d) = (
    ground (arith, a, c),
    λ e.
        not_lower_trans (port_key i.relation) (port_key j.relation) (port_key k.relation)
          (b (ground (arith, c, e))) (d (ground (arith, a, e))),
  )

  IsInOrder-is_before_item : (i j : Item) → is_before_item vertical_side i j ≡ true → IsInOrder i j
  IsInOrder-is_before_item i j h = (
    ground (arith, h),
    λ e. lower_asym (port_key i.relation) (port_key j.relation) (ground (arith, h, e)),
  )

  IsInOrder-not_before : (i j : Item) → is_before_item vertical_side j i ≡ false → IsInOrder i j
  IsInOrder-not_before i j h = (ground (arith, h), λ e. ground (arith, h, e))

  IsFirst-trans :
      (i j : Item) (items : List Item) → IsInOrder i j → IsFirst j items → IsFirst i items
  IsFirst-trans i j [] h k = tt
  IsFirst-trans i j (l ∷ items) h (e, k) = (IsInOrder-trans i j l h e, IsFirst-trans i j items h k)

  IsFirst-insert_item :
      (j i : Item) (items : List Item)
      → IsInOrder j i
      → IsFirst j items
      → IsFirst j (insert_item vertical_side i items)
  IsFirst-insert_item j i [] h k = (h, tt)
  IsFirst-insert_item j i (l ∷ items) h (e, k) =
      elim (Bool-cases (is_before_item vertical_side l i)) [
        | inl t ↦ rw t (e, IsFirst-insert_item j i items h k)
        | inr t ↦ rw t (h, (e, k))
      ]

  AllInOrder-insert_item :
      (i : Item) (items : List Item)
      → AllInOrder items
      → AllInOrder (insert_item vertical_side i items)
  AllInOrder-insert_item i [] h = (tt, tt)
  AllInOrder-insert_item i (j ∷ items) (e, h) =
      elim (Bool-cases (is_before_item vertical_side j i)) [
        | inl t ↦ rw t (
          IsFirst-insert_item j i items (IsInOrder-is_before_item j i t) e,
          AllInOrder-insert_item i items h,
        )
        | inr t ↦
            let first = IsInOrder-not_before i j t in
            rw t ((first, IsFirst-trans i j items first e), (e, h))
      ]

  same_items : (items : List Item) → Permᴰ items items
  same_items [] = Permᴰ.nil
  same_items (i ∷ items) = Permᴰ.cons refl (same_items items)

  insert_item-Permᴰ :
      (i : Item) (items : List Item) → Permᴰ (i ∷ items) (insert_item vertical_side i items)
  insert_item-Permᴰ i [] = Permᴰ.cons refl Permᴰ.nil
  insert_item-Permᴰ i (j ∷ items) = elim (Bool-cases (is_before_item vertical_side j i)) [
    | inl t ↦ rw t (
        Permᴰ.trans (Permᴰ.swap {l = items} refl refl)
          (Permᴰ.cons refl (insert_item-Permᴰ i items)))
    | inr t ↦ rw t (same_items (i ∷ j ∷ items))
  ]

  pub sort_items-AllInOrder : (items : List Item) → AllInOrder (sort_items vertical_side items)
  unfolding sort_items
  sort_items-AllInOrder [] = tt
  sort_items-AllInOrder (i ∷ items) =
      AllInOrder-insert_item i (sort_items vertical_side items) (sort_items-AllInOrder items)

  pub sort_items-Permᴰ : (items : List Item) → Permᴰ items (sort_items vertical_side items)
  unfolding sort_items
  sort_items-Permᴰ [] = Permᴰ.nil
  sort_items-Permᴰ (i ∷ items) =
      Permᴰ.trans (Permᴰ.cons refl (sort_items-Permᴰ items))
        (insert_item-Permᴰ i (sort_items vertical_side items))
