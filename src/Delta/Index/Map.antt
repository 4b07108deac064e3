-- ===== src/Delta/Index/Map.antt =====
-- An index as a map: what both `stableIndex` and `boundaryIndex` make, from a key of each item.
use mathlib.Core.Path.{subst}
use mathlib.Core.List.{Permᴰ}
use salience.Base.{
  ◌≡◌, refl, sym, ◌∙◌, ap, Text, text_eq, text_eq_iff, text_eq_refl, includes, List, [], ◌∷◌, ◌++◌,
  Bool, true, false, ◌||◌, Option, none, some, some_inj, arith, Bool-cases, inl, inr, if◌then◌else◌,
  ◌>>=◌, >>=-eq-some,
}
use salience.Json.{Value}
use salience.Delta.{Index, index_keys, entity}
use salience.Delta.Compared.{SameEntities}

abbrev pub put_in : Index → Value → Option Text → Option Index
put_in index item none = none
put_in index item (some key) =
    if includes (index_keys index) key then none else some (index ++ ((key, item) ∷ []))

abbrev has_key : Option Text → Text → Bool
has_key none id = false
has_key (some key) id = text_eq key id

abbrev pub or_later : Option Value → Option Value → Option Value
or_later none later = later
or_later (some v) later = some v

or_later-none : (o : Option Value) → or_later o none ≡ o
or_later-none none = refl
or_later-none (some v) = refl

pub put_in-eq-some :
    (index : Index) (item : Value) (o : Option Text) (t : Index)
    → put_in index item o ≡ some t
    → (k : Text) × ((o ≡ some k)
        × ((includes (index_keys index) k ≡ false) × (t ≡ index ++ ((k, item) ∷ []))))
put_in-eq-some index item none t e = cc
put_in-eq-some index item (some k) t e = elim (Bool-cases (includes (index_keys index) k)) [
  | inl h ↦ cc
  | inr h ↦
      let f : some (index ++ ((k, item) ∷ [])) ≡ some t = ground (arith, h, e) in
      (k, (refl, (h, sym (some_inj f))))
]

includes-snoc :
    (index : Index) (k : Text) (v : Value) (id : Text)
    → includes (index_keys (index ++ ((k, v) ∷ []))) id
      ≡ (includes (index_keys index) id || text_eq k id)
unfolding includes
includes-snoc [] k v id = ground arith
includes-snoc ((j, w) ∷ index) k v id = ground (arith, includes-snoc index k v id)

entity-snoc :
    (index : Index) (k : Text) (v : Value) (id : Text)
    → entity (index ++ ((k, v) ∷ [])) id
      ≡ or_later (entity index id) (if text_eq k id then some v else none)
unfolding entity
entity-snoc [] k v id = refl
entity-snoc ((j, w) ∷ index) k v id = ground (arith, entity-snoc index k v id)

later_item :
    (o i : Option Value) (v : Value) (t : Bool)
    → or_later (or_later o (if t then some v else none)) i ≡ or_later o (if t then some v else i)
later_item none i v true = refl
later_item none i v false = refl
later_item (some w) i v t = refl

module _ (key : Value → Option Text) where
  -- The items under their keys, if each has one and none occurs twice.
  unfoldable pub indexed : List Value → Index → Option Index
  indexed [] index = some index
  indexed (item ∷ items) index = put_in index item (key item) >>= indexed items

  -- The first item with a key.
  unfoldable pub item_at : List Value → Text → Option Value
  item_at [] id = none
  item_at (item ∷ items) id = if has_key (key item) id then some item else item_at items id

  -- Each item has a key, which no later one has.
  abbrev pub HasKeys : List Value → Type 0
  HasKeys [] = Unit
  HasKeys (item ∷ items) =
      ((k : Text) × ((key item ≡ some k) × (item_at items k ≡ none))) × HasKeys items

  abbrev IsApart : Index → List Value → Type 0
  IsApart index items =
      (id : Text) → includes (index_keys index) id ≡ true → item_at items id ≡ none

  IsReordered : List Value → List Value → Type 0
  IsReordered l m = HasKeys l → HasKeys m × ((id : Text) → item_at l id ≡ item_at m id)

  IsReordered-cons :
      (a b : Value) (l m : List Value) → a ≡ b → IsReordered l m → IsReordered (a ∷ l) (b ∷ m)
  unfolding item_at IsReordered
  IsReordered-cons a b l m e f ((k, (found, later)), h) =
      let (h', same) = f h in
      (
        ((k, (ap key (sym e) ∙ found, sym (same k) ∙ later)), h'),
        λ id.
            ap (λ o. if has_key (key a) id then some a else o) (same id)
            ∙ ap (λ v. if has_key (key v) id then some v else item_at m id) e,
      )

  swapped :
      (a b : Value) (l : List Value) (j k : Text)
      → key a ≡ some j
      → key b ≡ some k
      → text_eq k j ≡ false
      → (id : Text) → item_at (a ∷ b ∷ l) id ≡ item_at (b ∷ a ∷ l) id
  unfolding item_at
  swapped a b l j k aj bk apart id =
      rw (aj, bk) (ground (arith, text_eq_iff j id, text_eq_iff k id, text_eq_iff k j, apart))

  pub missed :
      (b : Value) (l : List Value) (j k : Text)
      → key b ≡ some k
      → item_at (b ∷ l) j ≡ none
      → (text_eq k j ≡ false) × (item_at l j ≡ none)
  unfolding item_at
  missed b l j k bk h = ground (arith, bk, h)

  seen_last :
      (a : Value) (l : List Value) (j k : Text)
      → key a ≡ some j
      → text_eq k j ≡ false
      → item_at l k ≡ none
      → item_at (a ∷ l) k ≡ none
  unfolding item_at
  seen_last a l j k aj apart last =
      rw aj (ground (arith, last, text_eq_iff j k, text_eq_iff k j, apart))

  IsReordered-pair : (a b : Value) (l : List Value) → IsReordered (a ∷ b ∷ l) (b ∷ a ∷ l)
  unfolding item_at IsReordered
  IsReordered-pair a b l ((j, (aj, later)), ((k, (bk, last)), h)) =
      let unlike : (text_eq k j ≡ false) × (item_at l j ≡ none) = missed b l j k bk later in
      (
        ((k, (bk, seen_last a l j k aj unlike.0 last)), ((j, (aj, unlike.1)), h)),
        swapped a b l j k aj bk unlike.0,
      )

  IsReordered-swap :
      (a b c d : Value) (l : List Value) → a ≡ d → b ≡ c → IsReordered (a ∷ b ∷ l) (c ∷ d ∷ l)
  IsReordered-swap a b c d l e f =
      subst (λ z. IsReordered (a ∷ b ∷ l) (z ∷ d ∷ l)) f
        (subst (λ z. IsReordered (a ∷ b ∷ l) (b ∷ z ∷ l)) e (IsReordered-pair a b l))

  -- The items in another order have the same keys, with the same items.
  reordered_lem : {l m : List Value} → Permᴰ l m → IsReordered l m
  unfolding IsReordered
  reordered_lem Permᴰ.nil h = (tt, λ id. refl)
  reordered_lem (Permᴰ.cons {a} {b} {l₁ = l} {l₂ = m} e p) h =
      IsReordered-cons a b l m e (reordered_lem p) h
  reordered_lem (Permᴰ.swap {a} {b} {a'} {b'} {l} e f) h = IsReordered-swap a b a' b' l e f h
  reordered_lem (Permᴰ.trans p q) h =
      let (h', same) = reordered_lem p h in
      let (h'', same') = reordered_lem q h' in (h'', λ id. same id ∙ same' id)

  abbrev Finds : List Value → Index → Index → Type 0
  Finds items before index =
      (HasKeys items × IsApart before items)
      × ((id : Text) → entity index id ≡ or_later (entity before id) (item_at items id))

  Finds-cons :
      (item : Value) (items : List Value) (before index : Index) (k : Text)
      → key item ≡ some k
      → includes (index_keys before) k ≡ false
      → Finds items (before ++ ((k, item) ∷ [])) index
      → Finds (item ∷ items) before index
  unfolding item_at
  Finds-cons item items before index k found fresh ((h, apart), same) = (
    (
      ((k, (found, apart k (includes-snoc before k item k ∙ ground (arith, text_eq_refl k)))), h),
      λ id b.
          rw found
            (ground (arith, fresh, b, text_eq_iff k id, includes-snoc before k item id, apart id)),
    ),
    λ id.
        same id
        ∙ ap (λ o. or_later o (item_at items id)) (entity-snoc before k item id)
        ∙ later_item (entity before id) (item_at items id) item (text_eq k id)
        ∙ ap
            (λ o.
              or_later (entity before id) (if has_key o id then some item else item_at items id))
            (sym found),
  )

  -- Where `indexed` succeeds, the items have keys, and each is found under its own.
  indexed-Finds :
      (items : List Value) (before index : Index)
      → indexed items before ≡ some index
      → Finds items before index
  unfolding indexed item_at
  indexed-Finds [] before index e = (
    (tt, λ id t. refl),
    λ id. ap (λ x. entity x id) (sym (some_inj e)) ∙ sym (or_later-none (entity before id)),
  )
  indexed-Finds (item ∷ items) before index e =
      let (t, put, rest) = >>=-eq-some (put_in before item (key item)) (indexed items) e in
      let (k, (found, (fresh, t_eq))) = put_in-eq-some before item (key item) t put in
      Finds-cons item items before index k found fresh (
        indexed-Finds items (before ++ ((k, item) ∷ [])) index
          (ap (indexed items) (sym t_eq) ∙ rest))

  fresh_key :
      (item : Value) (items : List Value) (before : Index) (k : Text)
      → key item ≡ some k
      → IsApart before (item ∷ items)
      → includes (index_keys before) k ≡ false
  unfolding item_at
  fresh_key item items before k found apart = elim (Bool-cases (includes (index_keys before) k)) [
    | inl t ↦
        let gone : (if has_key (key item) k then some item else item_at items k) ≡ none =
          apart k t in
        let there : has_key (key item) k ≡ true = rw found (text_eq_refl k) in
        cc (ap (λ b. if b then some item else item_at items k) (sym there) ∙ gone)
    | inr t ↦ t
  ]

  put_fresh :
      (item : Value) (before : Index) (k : Text)
      → key item ≡ some k
      → includes (index_keys before) k ≡ false
      → put_in before item (key item) ≡ some (before ++ ((k, item) ∷ []))
  put_fresh item before k found fresh = rw (found, fresh) refl

  IsApart-after :
      (item : Value) (items : List Value) (before : Index) (k : Text)
      → key item ≡ some k
      → item_at items k ≡ none
      → IsApart before (item ∷ items)
      → IsApart (before ++ ((k, item) ∷ [])) items
  unfolding item_at
  IsApart-after item items before k found later apart id b = elim (Bool-cases (text_eq k id)) [
    | inl t ↦ subst (λ j. item_at items j ≡ none) ((text_eq_iff k id).0 t) later
    | inr t ↦
        let c : includes (index_keys before) id ≡ true =
          ground (arith, b, t, includes-snoc before k item id) in
        let unlike : has_key (key item) id ≡ false = rw found t in
        ap (λ x. if x then some item else item_at items id) (sym unlike) ∙ apart id c
  ]

  -- Items with keys can be indexed.
  HasKeys-indexed :
      (items : List Value) (before : Index)
      → HasKeys items
      → IsApart before items
      → (index : Index) × (indexed items before ≡ some index)
  unfolding indexed item_at
  HasKeys-indexed [] before h apart = (before, refl)
  HasKeys-indexed (item ∷ items) before ((k, (found, later)), h) apart =
      let t : Index = before ++ ((k, item) ∷ []) in
      let put : put_in before item (key item) ≡ some t =
        put_fresh item before k found (fresh_key item items before k found apart) in
      let (index, e) =
        HasKeys-indexed items t h (IsApart-after item items before k found later apart) in
      (index, ap (λ o. o >>= indexed items) put ∙ e)

  none-IsApart : (items : List Value) → IsApart [] items
  unfolding includes
  none-IsApart items id e = cc

  pub indexed-HasKeys : (l : List Value) (i : Index) → indexed l [] ≡ some i → HasKeys l
  indexed-HasKeys l i e = (indexed-Finds l [] i e).0.0

  pub HasKeys-reordered : {l m : List Value} → Permᴰ l m → HasKeys l → HasKeys m
  unfolding IsReordered
  HasKeys-reordered p h = (reordered_lem p h).0

  -- The items in another order can be indexed, too, and the same entities are found.
  pub indexed_reordered :
      {l m : List Value} {i : Index}
      → Permᴰ l m
      → indexed l [] ≡ some i
      → (j : Index) × ((indexed m [] ≡ some j) × SameEntities i j)
  unfolding IsReordered entity
  indexed_reordered {l} {m} {i} p e =
      let ((h, _), found) = indexed-Finds l [] i e in
      let (h', same) = reordered_lem p h in
      let (j, e') = HasKeys-indexed m [] h' (none-IsApart m) in
      let (_, found') = indexed-Finds m [] j e' in
      (j, (e', λ id. found id ∙ same id ∙ sym (found' id)))
