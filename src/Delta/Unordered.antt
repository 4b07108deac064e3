-- ===== src/Delta/Unordered.antt =====
-- The comparison sees an index as a map from identifiers to entities.
use salience.Base.{◌≡◌, refl, ◌∙◌, ap, ap₂, Text, List, [], ◌∷◌, ◌++◌}
use salience.Delta.{Index, Kind, entity_changes, changes_of, compare_entities}
use salience.Delta.Compared.{compared_ids, SameEntities, compared_ids-SameEntities}

changes_of-SameEntities :
    (kind : Kind) (a b c d : Index) (ids : List Text)
    → SameEntities a b
    → SameEntities c d
    → changes_of kind a c ids ≡ changes_of kind b d ids
unfolding changes_of
changes_of-SameEntities kind a b c d [] h k = refl
changes_of-SameEntities kind a b c d (id ∷ ids) h k =
    ap₂ (λ x y. x ++ y) (ap₂ (entity_changes kind id) (h id) (k id))
      (changes_of-SameEntities kind a b c d ids h k)

-- The changes depend only on which entity stands under each identifier.
pub compare_entities-SameEntities :
    (kind : Kind) (a b c d : Index)
    → SameEntities a b
    → SameEntities c d
    → compare_entities a c kind ≡ compare_entities b d kind
unfolding compare_entities
compare_entities-SameEntities kind a b c d h k =
    changes_of-SameEntities kind a b c d (compared_ids a c) h k
    ∙ ap (changes_of kind b d) (compared_ids-SameEntities a b c d h k)
