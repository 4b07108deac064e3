-- ===== src/Geometry/Spread/Within.antt =====
-- Where spread ports lie.
use mathlib.Core.Path.{subst}
use mathlib.Core.List.{Permᴰ}
use salience.Base.{
  ℕ, zero, suc, ◌+◌, ◌*◌, ◌-◌, ◌≡◌, refl, sym, ap, ◌∙◌, inl, inr, List, [], ◌∷◌, Bool, true, false,
  Bool-cases, arith, leb, length, if◌then◌else◌,
}
use salience.Geometry.Number.{Number, of_units, le, lt, abs}
use salience.Geometry.Route.{is_horizontal_side}
use salience.Geometry.Sides.{Node, anchor}
use salience.Geometry.Spread.Items.{AllInOrder, sort_items-AllInOrder, sort_items-Permᴰ}
use salience.Geometry.Spread.{
  Item, Port, PortGroup, Quotient, times, spacing_of, offset_of, ports_from, sort_items, extent_of,
  usable_of, sorted_ports, group_ports,
}

-- The offset is at most half the usable length, in both directions.
abbrev pub IsWithin : Number → Port → Type 0
IsWithin usable p = le (times 2 (abs p.offset.amount)) (times p.offset.parts usable) ≡ true

abbrev pub AllWithin : Number → List Port → Type 0
AllWithin usable [] = Unit
AllWithin usable (p ∷ ports) = IsWithin usable p × AllWithin usable ports

-- Each port lies behind the one before it.
abbrev pub Ascend : List Port → Type 0
Ascend [] = Unit
Ascend (p ∷ []) = Unit
Ascend (p ∷ q ∷ ports) =
    ((p.offset.parts ≡ q.offset.parts) × (lt p.offset.amount q.offset.amount ≡ true))
    × Ascend (q ∷ ports)

times-le : (n : ℕ) (a b : ℕ) → leb a b ≡ true → leb (n * a) (n * b) ≡ true
times-le zero a b h = ground arith
times-le (suc n) a b h = ground (arith, times-le n a b h)

-- A spacing that is positive, and that is no larger than its share of the usable length.
abbrev IsSpacing : ℕ → Number → Quotient → Type 0
IsSpacing gaps usable spacing =
    (lt (of_units 0) spacing.amount ≡ true)
    × (le (times gaps spacing.amount) (times spacing.parts usable) ≡ true)

offset_of-bounds :
    (index rest : ℕ) (usable : Number) (spacing : Quotient)
    → IsSpacing (index + rest) usable spacing
    → le
        (times 2 (abs (offset_of index (index + rest) spacing).amount))
        (times (offset_of index (index + rest) spacing).parts usable)
      ≡ true
unfolding offset_of
offset_of-bounds index rest usable spacing (p, h) =
    let low = times-le index spacing.amount.down spacing.amount.up (ground (arith, p)) in
    let high = times-le rest spacing.amount.down spacing.amount.up (ground (arith, p)) in
    ground (arith, h, low, high)

offset_of-within :
    (index rest gaps : ℕ) (usable : Number) (spacing : Quotient)
    → gaps ≡ index + rest
    → IsSpacing gaps usable spacing
    → le
        (times 2 (abs (offset_of index gaps spacing).amount))
        (times (offset_of index gaps spacing).parts usable)
      ≡ true
offset_of-within index rest gaps usable spacing e h =
    subst
      (λ g.
        IsSpacing g usable spacing
        → le (times 2 (abs (offset_of index g spacing).amount))
            (times (offset_of index g spacing).parts usable)
          ≡ true)
      (sym e) (offset_of-bounds index rest usable spacing) h

spacing_of-IsSpacing :
    (gaps : ℕ) (max_spacing usable : Number)
    → lt (of_units 0) (spacing_of max_spacing usable gaps).amount ≡ true
    → IsSpacing gaps usable (spacing_of max_spacing usable gaps)
unfolding spacing_of
spacing_of-IsSpacing gaps max_spacing usable h = of_test (le (times gaps max_spacing) usable) refl h
  where
    tested : Bool → Quotient
    tested t =
        if t
        then record { amount = max_spacing; parts = 1 }
        else record { amount = usable; parts = gaps }

    of_test :
        (t : Bool)
        → le (times gaps max_spacing) usable ≡ t
        → lt (of_units 0) (tested t).amount ≡ true
        → IsSpacing gaps usable (tested t)
    of_test true e h = (h, ground (arith, e))
    of_test false e h = (h, ground arith)

ports_from-AllWithin :
    (index gaps : ℕ) (usable : Number) (spacing : Quotient) (items : List Item)
    → leb (index + length items) (suc gaps) ≡ true
    → IsSpacing gaps usable spacing
    → AllWithin usable (ports_from index gaps spacing items)
unfolding ports_from
ports_from-AllWithin index gaps usable spacing [] e h = tt
ports_from-AllWithin index gaps usable spacing (i ∷ items) e h = (
  offset_of-within index (gaps - index) gaps usable spacing (ground (arith, e)) h,
  ports_from-AllWithin (suc index) gaps usable spacing items (ground (arith, e)) h,
)

ports_from-Ascend :
    (index gaps : ℕ) (spacing : Quotient) (items : List Item)
    → lt (of_units 0) spacing.amount ≡ true
    → Ascend (ports_from index gaps spacing items)
unfolding ports_from offset_of
ports_from-Ascend index gaps spacing [] h = tt
ports_from-Ascend index gaps spacing (i ∷ []) h = tt
ports_from-Ascend index gaps spacing (i ∷ j ∷ items) h =
    ((refl, ground (arith, h)), ports_from-Ascend (suc index) gaps spacing (j ∷ items) h)

-- The ports are those of the items, one for each, in their order and at their anchors.
abbrev pub AreOf : List Item → List Port → Type 0
AreOf [] [] = Unit
AreOf [] (p ∷ ports) = ⊥
AreOf (i ∷ items) [] = ⊥
AreOf (i ∷ items) (p ∷ ports) =
    ((p.relation_index ≡ i.relation_index)
      × ((p.endpoint ≡ i.endpoint) × (p.point ≡ anchor i.rect i.side)))
    × AreOf items ports

ports_from-AreOf :
    (index gaps : ℕ) (spacing : Quotient) (items : List Item)
    → AreOf items (ports_from index gaps spacing items)
unfolding ports_from
ports_from-AreOf index gaps spacing [] = tt
ports_from-AreOf index gaps spacing (i ∷ items) =
    ((refl, (refl, refl)), ports_from-AreOf (suc index) gaps spacing items)

-- All items are at the node with this box.
abbrev pub AllAt : Node → List Item → Type 0
AllAt rect [] = Unit
AllAt rect (i ∷ items) = (i.rect ≡ rect) × AllAt rect items

AllAt-Permᴰ : (rect : Node) {l m : List Item} → Permᴰ l m → AllAt rect l → AllAt rect m
AllAt-Permᴰ rect Permᴰ.nil h = tt
AllAt-Permᴰ rect (Permᴰ.cons e p) (a, h) = (ap (λ i. i.rect) (sym e) ∙ a, AllAt-Permᴰ rect p h)
AllAt-Permᴰ rect (Permᴰ.swap e f) (a, (b, h)) =
    (ap (λ i. i.rect) (sym f) ∙ b, (ap (λ i. i.rect) (sym e) ∙ a, h))
AllAt-Permᴰ rect (Permᴰ.trans p q) h = AllAt-Permᴰ rect q (AllAt-Permᴰ rect p h)

-- The ports of the items, in the order of their counterparts, within a length.
pub record IsSpread (usable : Number) (vertical_side : Bool) (items : List Item) (ports : List Port)
    : Type 0 where
  pub order : List Item
  pub permuted : Permᴰ items order
  pub in_order : AllInOrder vertical_side order
  pub of_items : AreOf order ports
  pub ascending : Ascend ports
  pub within : AllWithin usable ports

-- There is a spacing where there is room and the largest spacing is positive.
spacing_of-positive :
    (gaps : ℕ) (max_spacing usable : Number)
    → lt (of_units 0) usable ≡ true
    → lt (of_units 0) max_spacing ≡ true
    → lt (of_units 0) (spacing_of max_spacing usable gaps).amount ≡ true
unfolding spacing_of
spacing_of-positive gaps max_spacing usable h k =
    elim (Bool-cases (le (times gaps max_spacing) usable)) [ inl e ↦ rw e k | inr e ↦ rw e h ]

module _ (gutter max_spacing : Number) (vertical_side : Bool) where
  abbrev room : Node → Number
  room rect = usable_of gutter (extent_of vertical_side rect)

  abbrev AreSpread : Node → List Item → List Port → Type 0
  AreSpread rect order ports = AreOf order ports × (Ascend ports × AllWithin (room rect) ports)

  ports-AreSpread :
      (i : Item) (order : List Item)
      → lt (of_units 0) max_spacing ≡ true
      → lt (of_units 0) (room i.rect) ≡ true
      → AreSpread i.rect (i ∷ order) (sorted_ports gutter max_spacing vertical_side (i ∷ order))
  ports-AreSpread i order k h =
      let gaps = length order in
      let spacing = spacing_of max_spacing (room i.rect) gaps in
      let positive = spacing_of-positive gaps max_spacing (room i.rect) h k in
      rw positive (
        ports_from-AreOf 0 gaps spacing (i ∷ order),
        (
          ports_from-Ascend 0 gaps spacing (i ∷ order) positive,
          ports_from-AllWithin 0 gaps (room i.rect) spacing (i ∷ order) (ground arith)
              (spacing_of-IsSpacing gaps max_spacing (room i.rect) positive),
        ),
      )

  sorted_ports-AreSpread :
      (rect : Node) (order : List Item)
      → AllAt rect order
      → lt (of_units 0) (room rect) ≡ true
      → lt (of_units 0) max_spacing ≡ true
      → AreSpread rect order (sorted_ports gutter max_spacing vertical_side order)
  sorted_ports-AreSpread rect [] at h k = (tt, (tt, tt))
  sorted_ports-AreSpread rect (i ∷ order) (e, at) h k =
      subst
        (λ r.
          lt (of_units 0) (room r) ≡ true
          → AreSpread r (i ∷ order) (sorted_ports gutter max_spacing vertical_side (i ∷ order)))
        e (ports-AreSpread i order k) h

-- Two or more items of one side of a node, with room between the gutters and a positive largest
-- spacing, get one port each, at their anchors. The ports stand in the order of the counterparts along the side, and where those are at
-- the same place in that of the keys, each behind the one before it, and none lies farther from its
-- anchor than half the side without its gutters.
pub group_ports-IsSpread :
    (gutter max_spacing : Number) (g : PortGroup) (rect : Node)
    → leb 2 (length g.items) ≡ true
    → AllAt rect g.items
    → lt (of_units 0) (usable_of gutter (extent_of (is_horizontal_side g.side) rect)) ≡ true
    → lt (of_units 0) max_spacing ≡ true
    → IsSpread
        (usable_of gutter (extent_of (is_horizontal_side g.side) rect))
        (is_horizontal_side g.side)
        g.items
        (group_ports gutter max_spacing g)
unfolding group_ports
group_ports-IsSpread gutter max_spacing g rect e at h k =
    let vertical_side = is_horizontal_side g.side in
    let order = sort_items vertical_side g.items in
    let permuted = sort_items-Permᴰ vertical_side g.items in
    let (of_items, (ascending, within)) =
      sorted_ports-AreSpread gutter max_spacing vertical_side rect order
        (AllAt-Permᴰ rect permuted at) h k in
    rw e (record {
      order = order;
      permuted = permuted;
      in_order = sort_items-AllInOrder vertical_side g.items;
      of_items = of_items;
      ascending = ascending;
      within = within;
    })
