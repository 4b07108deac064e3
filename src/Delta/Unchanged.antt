-- ===== src/Delta/Unchanged.antt =====
-- Entities without a change.
use mathlib.Core.Path.{subst}
use salience.Base.{
  ◌≡◌, refl, ◌∙◌, ◌↔◌, inl, inr, Text, text_eq, text_eq_iff, text_eq_refl, includes, List, [], ◌∷◌,
  Bool, true, false, ◌||◌, Bool-cases, Option, none, some, any, keep, append-eq-nil_iff,
  if◌then◌else◌,
}
use salience.Base.Order.{compare_list, is_lt}
use Prim.Native.Nat.{compare}
use salience.Json.{Value}
use salience.Delta.Compared.{compared_ids, is_there, includes-compared_ids}
use salience.Delta.{
  insert_by, sorted_by, canonical, are_equal, normalized_field, Classification, topology, semantic,
  scope, evidence, geometry, classification_text, Groups, is_changed, with_class, group_changes,
  FieldChanges, field_changes, Kind, component, connection, boundary, groups_of, Status, same,
  changed, evidence_changed, rerouted, moved, geometry_changed, added, removed, is_meaning,
  is_evidence, is_geometry, moved_status, status_for, Index, entity, unless_same, entity_changes,
  changes_of, compare_entities,
}

-- The two entities agree in the fields.
abbrev pub AgreeIn : Value → Value → List Text → Type 0
AgreeIn before after [] = Unit
AgreeIn before after (name ∷ names) =
    (are_equal (normalized_field before name) (normalized_field after name) ≡ true)
    × AgreeIn before after names

abbrev pub Agree : Value → Value → Groups → Type 0
Agree before after [] = Unit
Agree before after ((c, fields) ∷ groups) = AgreeIn before after fields × Agree before after groups

-- An entity is in both indexes, with the same fields, or in none.
abbrev pub IsUnchanged : Kind → Option Value → Option Value → Type 0
IsUnchanged kind none none = Unit
IsUnchanged kind (some base) (some head) = Agree base head (groups_of kind)
IsUnchanged kind none (some head) = ⊥
IsUnchanged kind (some base) none = ⊥

changed_fields_iff :
    (before after : Value) (fields : List Text)
    → (keep (is_changed before after) fields ≡ []) ↔ AgreeIn before after fields
changed_fields_iff before after [] = (λ _. tt, λ _. refl)
changed_fields_iff before after (name ∷ names) =
    of_test (are_equal (normalized_field before name) (normalized_field after name))
      (keep (is_changed before after) names) (changed_fields_iff before after names)
  where
    of_test :
        (t : Bool) (rest : List Text) {R : Type 0}
        → ((rest ≡ []) ↔ R)
        → (elim (if t then false else true) [ true ↦ name ∷ rest | false ↦ rest ] ≡ [])
          ↔ ((t ≡ true) × R)
    of_test true rest h = (λ e. (refl, h.0 e), λ (_, x). h.1 x)
    of_test false rest h = (λ e. cc, λ (e, _). cc)

with_class_iff :
    (c : Classification) (names : List Text) (l : List Classification) {P Q : Type 0}
    → ((names ≡ []) ↔ P)
    → ((l ≡ []) ↔ Q)
    → (with_class c names l ≡ []) ↔ (P × Q)
with_class_iff c [] l p q = (λ e. (p.0 refl, q.0 e), λ (_, y). q.1 y)
with_class_iff c (n ∷ names) l p q = (λ e. cc, λ (x, _). let e = p.1 x in cc)

group_changes_iff :
    (before after : Value) (groups : Groups)
    → ((group_changes before after groups).classifications ≡ []) ↔ Agree before after groups
unfolding group_changes
group_changes_iff before after [] = (λ _. tt, λ _. refl)
group_changes_iff before after ((c, fields) ∷ groups) =
    with_class_iff c (keep (is_changed before after) fields)
      (group_changes before after groups).classifications (changed_fields_iff before after fields)
      (group_changes_iff before after groups)

cons_not_nil :
    {A : Type 0} (t : Bool) (x y : A) (l m : List A) → (if t then x ∷ l else y ∷ m) ≡ [] → ⊥
cons_not_nil true x y l m e = cc
cons_not_nil false x y l m e = cc

sorted_by_iff :
    {A : Type 0} (key_for : A → Text) (l : List A) → (sorted_by key_for l ≡ []) ↔ (l ≡ [])
unfolding sorted_by
sorted_by_iff key_for [] = (λ _. refl, λ _. refl)
sorted_by_iff {A} key_for (x ∷ xs) = (λ e. elim (inserted (sorted_by key_for xs) e) [ ], λ e. cc)
  where
    inserted : (l : List A) → insert_by key_for x l ≡ [] → ⊥
    inserted [] e = cc
    inserted (y ∷ l) e =
        cons_not_nil (is_lt (compare_list compare (key_for y) (key_for x))) y x
          (insert_by key_for x l) (y ∷ l) e

status_for_iff : (l : List Classification) (kind : Kind) → (status_for l kind ≡ same) ↔ (l ≡ [])
unfolding status_for
status_for_iff [] kind = (λ _. refl, λ _. refl)
status_for_iff (c ∷ l) kind =
    (of_class c kind (any is_meaning l) (any is_evidence l) (any is_geometry l), λ e. cc)
  where
    of_class :
        (c : Classification) (kind : Kind) (m e g : Bool)
        → (if is_meaning c || m
            then changed
            else (if is_evidence c || e
                then evidence_changed
                else (if is_geometry c || g then moved_status kind else same)))
          ≡ same
        → (c ∷ l) ≡ []
    of_class topology kind m e g h = cc
    of_class semantic kind m e g h = cc
    of_class scope kind m e g h = cc
    of_class evidence kind true e g h = cc
    of_class evidence kind false e g h = cc
    of_class geometry kind true e g h = cc
    of_class geometry kind false true g h = cc
    of_class geometry component false false g h = cc
    of_class geometry connection false false g h = cc
    of_class geometry boundary false false g h = cc

entity_changes_iff :
    (kind : Kind) (id : Text) (base head : Option Value)
    → (entity_changes kind id base head ≡ []) ↔ IsUnchanged kind base head
unfolding field_changes
entity_changes_iff kind id none none = (λ _. tt, λ _. refl)
entity_changes_iff kind id none (some head) = (λ e. cc, λ x. elim x [ ])
entity_changes_iff kind id (some base) none = (λ e. cc, λ x. elim x [ ])
entity_changes_iff kind id (some base) (some head) =
    let changes = group_changes base head (groups_of kind) in
    let fields = field_changes base head (groups_of kind) in
    let same_iff = status_for_iff fields.classifications kind in
    let sorted_iff = sorted_by_iff classification_text changes.classifications in
    let agree_iff = group_changes_iff base head (groups_of kind) in
    (
      λ e. agree_iff.0 (
          sorted_iff.0
            (same_iff.0 (unless_same_iff (status_for fields.classifications kind) fields e))),
      λ h. rw (same_iff.1 (sorted_iff.1 (agree_iff.1 h))) refl,
    )
  where
    unless_same_iff :
        (status : Status) (fields : FieldChanges)
        → unless_same id base head status fields ≡ []
        → status ≡ same
    unless_same_iff same fields e = refl
    unless_same_iff changed fields e = cc
    unless_same_iff evidence_changed fields e = cc
    unless_same_iff rerouted fields e = cc
    unless_same_iff moved fields e = cc
    unless_same_iff geometry_changed fields e = cc
    unless_same_iff added fields e = cc
    unless_same_iff removed fields e = cc

module _ (kind : Kind) (base head : Index) where
  abbrev AllUnchanged : List Text → Type 0
  AllUnchanged [] = Unit
  AllUnchanged (id ∷ ids) = IsUnchanged kind (entity base id) (entity head id) × AllUnchanged ids

  changes_of_iff : (ids : List Text) → (changes_of kind base head ids ≡ []) ↔ AllUnchanged ids
  unfolding changes_of
  changes_of_iff [] = (λ _. tt, λ _. refl)
  changes_of_iff (id ∷ ids) =
      append-eq-nil_iff (entity_changes kind id (entity base id) (entity head id))
        (changes_of kind base head ids)
        (entity_changes_iff kind id (entity base id) (entity head id)) (changes_of_iff ids)

  AllUnchanged-at :
      (ids : List Text) (id : Text)
      → AllUnchanged ids
      → includes ids id ≡ true
      → IsUnchanged kind (entity base id) (entity head id)
  unfolding includes
  AllUnchanged-at [] id h e = cc
  AllUnchanged-at (i ∷ ids) id (x, h) e = elim (Bool-cases (text_eq i id)) [
    | inl t ↦
        let same_id : i ≡ id = (text_eq_iff i id).0 t in
        subst (λ k. IsUnchanged kind (entity base k) (entity head k)) same_id x
    | inr t ↦ AllUnchanged-at ids id h cc
  ]

  AllUnchanged-all :
      (ids : List Text)
      → ((id : Text) → IsUnchanged kind (entity base id) (entity head id))
      → AllUnchanged ids
  AllUnchanged-all [] h = tt
  AllUnchanged-all (id ∷ ids) h = (h id, AllUnchanged-all ids h)

IsUnchanged-absent :
    (kind : Kind) (base head : Option Value)
    → (is_there base || is_there head) ≡ false
    → IsUnchanged kind base head
IsUnchanged-absent kind none none e = tt
IsUnchanged-absent kind none (some h) e = cc
IsUnchanged-absent kind (some b) head e = cc

module _ (kind : Kind) (base head : Index) where
  -- No change is listed exactly when every identifier is in none of the indexes, or in both, with
  -- entities that agree in all fields that are compared for their kind.
  pub compare_entities_iff :
      (compare_entities base head kind ≡ [])
      ↔ ((id : Text) → IsUnchanged kind (entity base id) (entity head id))
  unfolding compare_entities
  compare_entities_iff =
      let ids = compared_ids base head in
      (
        λ e id.
            let all = (changes_of_iff kind base head ids).0 e in
            elim (Bool-cases (is_there (entity base id) || is_there (entity head id))) [
              | inl t ↦
                  AllUnchanged-at kind base head ids id all (includes-compared_ids base head id ∙ t)
              | inr t ↦ IsUnchanged-absent kind (entity base id) (entity head id) t
            ],
        λ h. (changes_of_iff kind base head ids).1 (AllUnchanged-all kind base head ids h),
      )

AgreeIn-refl : (v : Value) (names : List Text) → AgreeIn v v names
unfolding are_equal
AgreeIn-refl v [] = tt
AgreeIn-refl v (name ∷ names) =
    (text_eq_refl (canonical (normalized_field v name)), AgreeIn-refl v names)

Agree-refl : (v : Value) (groups : Groups) → Agree v v groups
Agree-refl v [] = tt
Agree-refl v ((c, fields) ∷ groups) = (AgreeIn-refl v fields, Agree-refl v groups)

IsUnchanged-refl : (kind : Kind) (v : Option Value) → IsUnchanged kind v v
IsUnchanged-refl kind none = tt
IsUnchanged-refl kind (some v) = Agree-refl v (groups_of kind)

pub compare_entities_self : (kind : Kind) (index : Index) → compare_entities index index kind ≡ []
compare_entities_self kind index =
    (compare_entities_iff kind index index).1 (λ id. IsUnchanged-refl kind (entity index id))
