-- ===== src/Delta/Compared.antt =====
-- The identifiers that `compareEntities` goes through: those of both indexes, in order.
use salience.Base.{
  ◌≡◌, refl, Text, includes, List, [], ◌∷◌, ◌++◌, Bool, true, false, ◌||◌, Option, none, some,
  arith,
}
use salience.Json.{Value}
use salience.Delta.{sorted, distinct_ids, Index, index_keys, entity}
use salience.Delta.Sorted.{
  Ascends, Ascends-sorted, Ascends-ext, IsDistinct-distinct_ids, includes-sorted_lem,
  includes-distinct_ids_lem,
}

abbrev pub compared_ids : Index → Index → List Text
compared_ids base head = sorted (distinct_ids [] (index_keys base ++ index_keys head))

includes-append :
    (l m : List Text) (id : Text) → includes (l ++ m) id ≡ (includes l id || includes m id)
unfolding includes
includes-append [] m id = refl
includes-append (x ∷ l) m id = ground (arith, includes-append l m id)

abbrev pub is_there : Option Value → Bool
is_there none = false
is_there (some v) = true

pub includes-index_keys :
    (index : Index) (id : Text) → includes (index_keys index) id ≡ is_there (entity index id)
unfolding includes entity
includes-index_keys [] id = refl
includes-index_keys ((key, v) ∷ index) id = ground (arith, includes-index_keys index id)

pub includes-compared_ids :
    (base head : Index) (id : Text)
    → includes (compared_ids base head) id
      ≡ (is_there (entity base id) || is_there (entity head id))
unfolding includes
includes-compared_ids base head id =
    let ids = index_keys base ++ index_keys head in
    ground (
      arith,
      includes-sorted_lem (distinct_ids [] ids) id,
      includes-distinct_ids_lem [] ids id,
      includes-append (index_keys base) (index_keys head) id,
      includes-index_keys base id,
      includes-index_keys head id,
    )

Ascends-compared_ids : (base head : Index) → Ascends (compared_ids base head)
Ascends-compared_ids base head =
    let ids = index_keys base ++ index_keys head in
    Ascends-sorted (distinct_ids [] ids) (IsDistinct-distinct_ids [] ids)

-- The same entities, whatever their order and whatever stands behind the first of a key.
abbrev pub SameEntities : Index → Index → Type 0
SameEntities a b = (id : Text) → entity a id ≡ entity b id

pub compared_ids-SameEntities :
    (a b c d : Index) → SameEntities a b → SameEntities c d → compared_ids a c ≡ compared_ids b d
compared_ids-SameEntities a b c d h k =
    Ascends-ext (compared_ids a c) (compared_ids b d) (Ascends-compared_ids a c)
      (Ascends-compared_ids b d)
      λ id. rw (includes-compared_ids a c id, includes-compared_ids b d id, h id, k id) refl
