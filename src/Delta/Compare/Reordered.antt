-- ===== src/Delta/Compare/Reordered.antt =====
-- The comparison does not depend on the order of the elements.
use mathlib.Core.Path.{subst}
use mathlib.Core.List.{Permᴰ}
use salience.Base.{
  ◌≡◌, refl, sym, ◌∙◌, ap, ap₂, inl, inr, Bool-cases, Text, text_eq_iff, text_eq_refl, List, [],
  ◌∷◌, Bool, true, false, not, includes, some, some_inj, arith,
}
use salience.Base.Result.{Result, ok, err, ok_inj, ◌>>=◌}
use salience.Json.{Value, is_one}
use salience.Delta.{are_equal, Index, index_keys, entity, component, connection, boundary}
use salience.Delta.Compared.{SameEntities, is_there, includes-index_keys}
use salience.Delta.Unordered.{compare_entities-SameEntities}
use salience.Delta.Index.{
  DeltaError, DiagramSide, base_side, head_side, Collection, stable_index, boundary_index,
  Architecture, Indexes, share_id, require_shared, other_indexes, indexes_of, components,
  connections, compared_changes,
}
use salience.Delta.Index.Map.{indexed_reordered}
use salience.Delta.Index.Refined.{
  to_option, stable_key, frame_key, stable_index-indexed, boundary_index-indexed,
}
use salience.Delta.Compare.{
  require_comparable_shape, require_shape, presentation, presentation_changed, Receipt, receipt,
  compare_architecture,
}

-- The same diagram, with its elements in another order.
pub record IsReordering (a b : Architecture) : Type 0 where
  pub schema_version : a.schema_version ≡ b.schema_version
  pub diagram_type : a.diagram_type ≡ b.diagram_type
  pub meta : a.meta ≡ b.meta
  pub layout : a.layout ≡ b.layout
  pub cards : a.cards ≡ b.cards
  pub components : Permᴰ a.components_there b.components_there
  pub connections : Permᴰ a.connections_there b.connections_there
  pub boundaries : Permᴰ a.boundaries_there b.boundaries_there

some-ok : {A : Type 0} (r : Result DeltaError A) (a : A) → to_option r ≡ some a → r ≡ ok a
some-ok (ok b) a e = ap ok (some_inj e)
some-ok (err x) a e = cc

-- An index of the same items, which finds the same entities.
abbrev IsSameIndex : Result DeltaError Index → Index → Type 0
IsSameIndex r i = (j : Index) × ((r ≡ ok j) × SameEntities i j)

stable_index_reordered :
    (c : Collection) {l m : List Value} (i : Index)
    → Permᴰ l m
    → stable_index c l ≡ ok i
    → IsSameIndex (stable_index c m) i
stable_index_reordered c {l} {m} i p e =
    let (j, (found, same)) =
      indexed_reordered stable_key p (sym (stable_index-indexed c l) ∙ ap to_option e) in
    (j, (some-ok (stable_index c m) j (stable_index-indexed c m ∙ found), same))

boundary_index_reordered :
    {l m : List Value} (i : Index)
    → Permᴰ l m
    → boundary_index l ≡ ok i
    → IsSameIndex (boundary_index m) i
boundary_index_reordered {l} {m} i p e =
    let (j, (found, same)) =
      indexed_reordered frame_key p (sym (boundary_index-indexed l) ∙ ap to_option e) in
    (j, (some-ok (boundary_index m) j (boundary_index-indexed m ∙ found), same))

abbrev SameIndexes : Indexes → Indexes → Type 0
SameIndexes i j =
    SameEntities i.components j.components
    × (SameEntities i.connections j.connections × SameEntities i.boundaries j.boundaries)

-- Whatever index the first result gives, the second gives the same one.
abbrev Follows : Result DeltaError Index → Result DeltaError Index → Type 0
Follows r s = (i : Index) → r ≡ ok i → IsSameIndex s i

abbrev IsSamePair : Result DeltaError (Indexes × Indexes) → Indexes × Indexes → Type 0
IsSamePair r p =
    (q : Indexes × Indexes) × ((r ≡ ok q) × (SameIndexes p.0 q.0 × SameIndexes p.1 q.1))

other_indexes-IsSamePair :
    (x y x' y' : Index) (m n b c m' n' b' c' : Result DeltaError Index) (p : Indexes × Indexes)
    → SameEntities x x'
    → SameEntities y y'
    → Follows m m'
    → Follows n n'
    → Follows b b'
    → Follows c c'
    → other_indexes x y m n b c ≡ ok p
    → IsSamePair (other_indexes x' y' m' n' b' c') p
other_indexes-IsSamePair x y x' y' (err e) n b c m' n' b' c' p sx sy fm fn fb fc h = cc
other_indexes-IsSamePair x y x' y' (ok i) (err e) b c m' n' b' c' p sx sy fm fn fb fc h = cc
other_indexes-IsSamePair x y x' y' (ok i) (ok j) (err e) c m' n' b' c' p sx sy fm fn fb fc h = cc
other_indexes-IsSamePair x y x' y' (ok i) (ok j) (ok k) (err e) m' n' b' c' p sx sy fm fn fb fc h =
    cc
other_indexes-IsSamePair x y x' y' (ok i) (ok j) (ok k) (ok l) m' n' b' c' p sx sy fm fn fb fc h =
    let (i', (ei, si)) = fm i refl in
    let (j', (ej, sj)) = fn j refl in
    let (k', (ek, sk)) = fb k refl in
    let (l', (el, sl)) = fc l refl in
    subst (IsSamePair (other_indexes x' y' m' n' b' c')) (ok_inj h) (
      (
        record { components = x'; connections = i'; boundaries = k' },
        record { components = y'; connections = j'; boundaries = l' },
      ),
      (rw (ei, ej, ek, el) refl, ((sx, (si, sk)), (sy, (sj, sl)))),
    )

-- Whether the two indexes share an identifier.
share_id-holds :
    (base head : Index) (id : Text)
    → is_there (entity base id) ≡ true
    → is_there (entity head id) ≡ true
    → share_id base head ≡ true
unfolding entity
share_id-holds [] head id e f = cc
share_id-holds ((key, v) ∷ base) head id e f =
    ground
      (arith, e, f, text_eq_iff key id, includes-index_keys head id, share_id-holds base head id)

share_id-finds :
    (base head : Index)
    → share_id base head ≡ true
    → (id : Text) × ((is_there (entity base id) ≡ true) × (is_there (entity head id) ≡ true))
unfolding entity
share_id-finds [] head e = cc
share_id-finds ((key, v) ∷ base) head e = elim (Bool-cases (includes (index_keys head) key)) [
  | inl t ↦ (key, (rw (text_eq_refl key) refl, sym (includes-index_keys head key) ∙ t))
  | inr t ↦
      let (id, (there, other)) = share_id-finds base head (ground (arith, e, t)) in
      (id, (ground (arith, there), other))
]

share_id-SameEntities :
    (a b c d : Index)
    → SameEntities a b
    → SameEntities c d
    → share_id a c ≡ true
    → share_id b d ≡ true
share_id-SameEntities a b c d h k e =
    let (id, (there, other)) = share_id-finds a c e in
    share_id-holds b d id (ap is_there (sym (h id)) ∙ there) (ap is_there (sym (k id)) ∙ other)

-- What `indexes_of` does with the indexes of the components.
abbrev shared_or :
    Bool → Result DeltaError (Indexes × Indexes) → Result DeltaError (Indexes × Indexes)
shared_or t others = require_shared t >>= λ s. others

shared_or-IsSamePair :
    (t t' : Bool) (r r' : Result DeltaError (Indexes × Indexes)) (p : Indexes × Indexes)
    → (t ≡ true → t' ≡ true)
    → (r ≡ ok p → IsSamePair r' p)
    → shared_or t r ≡ ok p
    → IsSamePair (shared_or t' r') p
shared_or-IsSamePair true t' r r' p f g h = rw (f refl) (g h)
shared_or-IsSamePair false t' r r' p f g h = cc

indexes_from-IsSamePair :
    (x y x' y' m n b c m' n' b' c' : Result DeltaError Index) (p : Indexes × Indexes)
    → Follows x x'
    → Follows y y'
    → Follows m m'
    → Follows n n'
    → Follows b b'
    → Follows c c'
    → (x >>= λ i. y >>= λ j. shared_or (share_id i j) (other_indexes i j m n b c)) ≡ ok p
    → IsSamePair
        (x' >>= λ i. y' >>= λ j. shared_or (share_id i j) (other_indexes i j m' n' b' c'))
        p
indexes_from-IsSamePair (err e) y x' y' m n b c m' n' b' c' p fx fy fm fn fb fc h = cc
indexes_from-IsSamePair (ok i) (err e) x' y' m n b c m' n' b' c' p fx fy fm fn fb fc h = cc
indexes_from-IsSamePair (ok i) (ok j) x' y' m n b c m' n' b' c' p fx fy fm fn fb fc h =
    let (i', (ei, si)) = fx i refl in
    let (j', (ej, sj)) = fy j refl in
    rw (ei, ej)
      (shared_or-IsSamePair (share_id i j) (share_id i' j') (other_indexes i j m n b c)
        (other_indexes i' j' m' n' b' c') p (share_id-SameEntities i i' j j' si sj)
        (other_indexes-IsSamePair i j i' j' m n b c m' n' b' c' p si sj fm fn fb fc) h)

indexes_of-IsSamePair :
    (a b c d : Architecture) (p : Indexes × Indexes)
    → IsReordering a b
    → IsReordering c d
    → indexes_of a c ≡ ok p
    → IsSamePair (indexes_of b d) p
unfolding indexes_of
indexes_of-IsSamePair a b c d p r s h =
    indexes_from-IsSamePair (stable_index components a.components_there)
      (stable_index components c.components_there) (stable_index components b.components_there)
      (stable_index components d.components_there) (stable_index connections a.connections_there)
      (stable_index connections c.connections_there) (boundary_index a.boundaries_there)
      (boundary_index c.boundaries_there) (stable_index connections b.connections_there)
      (stable_index connections d.connections_there) (boundary_index b.boundaries_there)
      (boundary_index d.boundaries_there) p (λ i. stable_index_reordered components i r.components)
      (λ i. stable_index_reordered components i s.components)
      (λ i. stable_index_reordered connections i r.connections)
      (λ i. stable_index_reordered connections i s.connections)
      (λ i. boundary_index_reordered i r.boundaries) (λ i. boundary_index_reordered i s.boundaries)
      h

compared_changes-SameIndexes :
    (i j k l : Indexes)
    → SameIndexes i k
    → SameIndexes j l
    → compared_changes i j ≡ compared_changes k l
unfolding compared_changes
compared_changes-SameIndexes i j k l (a, (b, c)) (d, (e, f)) =
    rw
      (
        compare_entities-SameEntities component i.components k.components j.components l.components
            a d,
        compare_entities-SameEntities connection i.connections k.connections j.connections
            l.connections b e,
        compare_entities-SameEntities boundary i.boundaries k.boundaries j.boundaries l.boundaries c
            f,
      )
      refl

require_comparable_shape_reordered :
    (a b : Architecture) (side : DiagramSide)
    → IsReordering a b
    → require_comparable_shape a side ≡ require_comparable_shape b side
unfolding require_comparable_shape
require_comparable_shape_reordered a b side r =
    λ i. require_shape (is_one (r.schema_version i)) side (r.schema_version i) (r.diagram_type i)

presentation_changed_reordered :
    (a b c d : Architecture)
    → IsReordering a b
    → IsReordering c d
    → presentation_changed a c ≡ presentation_changed b d
unfolding presentation_changed
presentation_changed_reordered a b c d r s = λ i. not (
    are_equal (presentation (r.meta i) (r.layout i) (r.cards i))
      (presentation (s.meta i) (s.layout i) (s.cards i)))

after_indexes :
    (r r' : Result DeltaError (Indexes × Indexes)) (t t' : Bool) (receipt' : Receipt)
    → ((p : Indexes × Indexes) → r ≡ ok p → IsSamePair r' p)
    → t ≡ t'
    → (r >>= λ p. ok (receipt (compared_changes p.0 p.1) t)) ≡ ok receipt'
    → (r' >>= λ p. ok (receipt (compared_changes p.0 p.1) t')) ≡ ok receipt'
after_indexes (err e) r' t t' receipt' f same h = cc
after_indexes (ok p) r' t t' receipt' f same h =
    let (q, (e, (s, u))) = f p refl in
    rw e (
      ap₂ (λ changes b. ok (receipt changes b))
        (sym (compared_changes-SameIndexes p.0 p.1 q.0 q.1 s u)) (sym same)
      ∙ h)

-- Two diagrams that can be compared give the same receipt whatever the order of their components,
-- connections and boundaries.
pub compare_architecture_reordered :
    (a b c d : Architecture) (r : Receipt)
    → IsReordering a b
    → IsReordering c d
    → compare_architecture a c ≡ ok r
    → compare_architecture b d ≡ ok r
unfolding compare_architecture
compare_architecture_reordered a b c d r p q h =
    rw
      (
        sym (require_comparable_shape_reordered a b base_side p),
        sym (require_comparable_shape_reordered c d head_side q),
      )
      (of_shapes (require_comparable_shape a base_side) (require_comparable_shape c head_side) h)
  where
    of_shapes :
        (x y : Result DeltaError Bool)
        → (x >>= λ v. y >>= λ w. indexes_of a c >>= λ p.
            ok (receipt (compared_changes p.0 p.1) (presentation_changed a c)))
          ≡ ok r
        → (x >>= λ v. y >>= λ w. indexes_of b d >>= λ p.
            ok (receipt (compared_changes p.0 p.1) (presentation_changed b d)))
          ≡ ok r
    of_shapes (err e) y h = cc
    of_shapes (ok v) (err e) h = cc
    of_shapes (ok v) (ok w) h =
        after_indexes (indexes_of a c) (indexes_of b d) (presentation_changed a c)
          (presentation_changed b d) r (λ p'. indexes_of-IsSamePair a b c d p' p q)
          (presentation_changed_reordered a b c d p q) h
