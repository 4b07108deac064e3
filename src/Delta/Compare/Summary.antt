-- ===== src/Delta/Compare/Summary.antt =====
-- The summary counts each change once.
use salience.Base.{
  ℕ, suc, ◌+◌, ◌≡◌, refl, ◌∙◌, ap, Text, List, [], ◌∷◌, ◌++◌, Bool, true, false, ◌||◌, ◌==◌, Option,
  none, some, any, keep, arith, length, if◌then◌else◌,
}
use salience.Base.Order.{compare_list, is_lt}
use Prim.Native.Nat.{compare}
use salience.Json.{Value}
use salience.Delta.{
  insert_by, sorted_by, Classification, classification_text, with_class, is_changed, group_changes,
  field_changes, FieldChanges, Groups, Kind, component, connection, boundary, groups_of, Status,
  same, changed, evidence_changed, rerouted, moved, geometry_changed, added, removed, is_meaning,
  is_evidence, is_geometry, moved_status, status_for, Change, Index, entity, unless_same,
  entity_changes, changes_of, compare_entities,
}
use salience.Delta.Compared.{compared_ids}
use salience.Delta.Compare.{status_number, Summary, bump, zeros, tally, summary_for, shape_of}

abbrev pub total : Summary → ℕ
total [] = 0
total ((s, n) ∷ summary) = n + total summary

abbrev counts : Summary → Status → Bool
counts [] status = false
counts ((s, n) ∷ summary) status = status_number s == status_number status || counts summary status

bump-counts : (s t : Status) (summary : Summary) → counts (bump s summary) t ≡ counts summary t
unfolding bump
bump-counts s t [] = refl
bump-counts s t ((u, n) ∷ summary) = ground (arith, bump-counts s t summary)

total-bump :
    (s : Status) (summary : Summary)
    → counts summary s ≡ true
    → total (bump s summary) ≡ suc (total summary)
unfolding bump
total-bump s [] e = cc
total-bump s ((u, n) ∷ summary) e = ground (arith, e, total-bump s summary)

-- The summary has a place for each change.
abbrev AllCounted : Summary → List Change → Type 0
AllCounted summary [] = Unit
AllCounted summary (c ∷ changes) = (counts summary c.status ≡ true) × AllCounted summary changes

AllCounted-bump :
    (s : Status) (summary : Summary) (changes : List Change)
    → AllCounted summary changes
    → AllCounted (bump s summary) changes
AllCounted-bump s summary [] h = tt
AllCounted-bump s summary (c ∷ changes) (e, h) =
    (bump-counts s c.status summary ∙ e, AllCounted-bump s summary changes h)

total-tally :
    (changes : List Change) (summary : Summary)
    → AllCounted summary changes
    → total (tally changes summary) ≡ length changes + total summary
unfolding tally
total-tally [] summary h = omega arith
total-tally (c ∷ changes) summary (e, h) =
    let later =
      total-tally changes (bump c.status summary) (AllCounted-bump c.status summary changes h) in
    omega (arith, later, total-bump c.status summary e)

abbrev pub count_at : Status → Summary → ℕ
count_at status [] = 0
count_at status ((s, n) ∷ summary) =
    if status_number s == status_number status then n else count_at status summary

abbrev pub occurrences : Status → List Change → ℕ
occurrences status [] = 0
occurrences status (c ∷ changes) =
    (if status_number c.status == status_number status then 1 else 0) + occurrences status changes

count_at-bump :
    (t s : Status) (summary : Summary)
    → counts summary s ≡ true
    → count_at t (bump s summary)
      ≡ (if status_number s == status_number t then 1 else 0) + count_at t summary
unfolding bump
count_at-bump t s [] e = cc
count_at-bump t s ((u, n) ∷ summary) e = ground (arith, e, count_at-bump t s summary)

count_at-tally :
    (t : Status) (changes : List Change) (summary : Summary)
    → AllCounted summary changes
    → count_at t (tally changes summary) ≡ occurrences t changes + count_at t summary
unfolding tally
count_at-tally t [] summary h = omega arith
count_at-tally t (c ∷ changes) summary (e, h) =
    let later =
      count_at-tally t changes (bump c.status summary)
        (AllCounted-bump c.status summary changes h) in
    omega (arith, later, count_at-bump t c.status summary e)

any-insert_by :
    (p : Classification → Bool) (c : Classification) (l : List Classification)
    → any p (insert_by classification_text c l) ≡ (p c || any p l)
any-insert_by p c [] = refl
any-insert_by p c (d ∷ l) =
    of_test (is_lt (compare_list compare (classification_text d) (classification_text c)))
      (any-insert_by p c l)
  where
    of_test :
        (t : Bool)
        → any p (insert_by classification_text c l) ≡ (p c || any p l)
        → any p (if t then d ∷ insert_by classification_text c l else c ∷ d ∷ l)
          ≡ (p c || (p d || any p l))
    of_test true h = ground (arith, h)
    of_test false h = refl

any-sorted_by :
    (p : Classification → Bool) (l : List Classification)
    → any p (sorted_by classification_text l) ≡ any p l
unfolding sorted_by
any-sorted_by p [] = refl
any-sorted_by p (c ∷ l) =
    any-insert_by p c (sorted_by classification_text l) ∙ ap (λ b. p c || b) (any-sorted_by p l)

-- Groups without a group for evidence.
abbrev NoEvidence : Groups → Type 0
NoEvidence [] = Unit
NoEvidence ((c, fields) ∷ groups) = (is_evidence c ≡ false) × NoEvidence groups

with_class-evidence :
    (c : Classification) (names : List Text) (l : List Classification)
    → is_evidence c ≡ false
    → any is_evidence (with_class c names l) ≡ any is_evidence l
with_class-evidence c [] l e = refl
with_class-evidence c (n ∷ names) l e = rw e refl

group_changes-evidence :
    (before after : Value) (groups : Groups)
    → NoEvidence groups
    → any is_evidence (group_changes before after groups).classifications ≡ false
unfolding group_changes
group_changes-evidence before after [] h = refl
group_changes-evidence before after ((c, fields) ∷ groups) (e, h) =
    with_class-evidence c (keep (is_changed before after) fields)
      (group_changes before after groups).classifications e
    ∙ group_changes-evidence before after groups h

field_changes-evidence :
    (before after : Value) (groups : Groups)
    → NoEvidence groups
    → any is_evidence (field_changes before after groups).classifications ≡ false
unfolding field_changes
field_changes-evidence before after groups h =
    any-sorted_by is_evidence (group_changes before after groups).classifications
    ∙ group_changes-evidence before after groups h

-- A status that the summary of the kind counts, or `same`, which no change has.
abbrev fits : Kind → Status → Bool
fits kind status = status_number status == 0 || counts (zeros (shape_of kind)) status

status_for-fits :
    (kind : Kind) (before after : Value)
    → fits kind (status_for (field_changes before after (groups_of kind)).classifications kind)
      ≡ true
unfolding status_for
status_for-fits kind before after =
    of_tests kind (any is_meaning classes) (any is_evidence classes) (any is_geometry classes)
      (no_evidence kind)
  where
    classes : List Classification
    classes = (field_changes before after (groups_of kind)).classifications

    HasEvidence : Kind → Bool → Type 0
    HasEvidence component e = Unit
    HasEvidence connection e = e ≡ false
    HasEvidence boundary e = e ≡ false

    no_evidence :
        (kind : Kind)
        → HasEvidence kind
            (any is_evidence (field_changes before after (groups_of kind)).classifications)
    no_evidence component = tt
    no_evidence connection =
        field_changes-evidence before after (groups_of connection) (refl, (refl, (refl, tt)))
    no_evidence boundary =
        field_changes-evidence before after (groups_of boundary) (refl, (refl, tt))

    of_tests :
        (kind : Kind) (m e g : Bool)
        → HasEvidence kind e
        → fits kind (
            if m
            then changed
            else (if e then evidence_changed else (if g then moved_status kind else same)))
          ≡ true
    of_tests component true e g h = refl
    of_tests component false true g h = refl
    of_tests component false false true h = refl
    of_tests component false false false h = refl
    of_tests connection true e g h = refl
    of_tests connection false true g h = cc
    of_tests connection false false true h = refl
    of_tests connection false false false h = refl
    of_tests boundary true e g h = refl
    of_tests boundary false true g h = cc
    of_tests boundary false false true h = refl
    of_tests boundary false false false h = refl

abbrev places : Kind → Summary
places kind = zeros (shape_of kind)

unless_same-AllCounted :
    (kind : Kind) (id : Text) (base head : Value) (status : Status) (fields : FieldChanges)
    → fits kind status ≡ true
    → AllCounted (places kind) (unless_same id base head status fields)
unless_same-AllCounted kind id base head same fields e = tt
unless_same-AllCounted kind id base head changed fields e = (e, tt)
unless_same-AllCounted kind id base head evidence_changed fields e = (e, tt)
unless_same-AllCounted kind id base head rerouted fields e = (e, tt)
unless_same-AllCounted kind id base head moved fields e = (e, tt)
unless_same-AllCounted kind id base head geometry_changed fields e = (e, tt)
unless_same-AllCounted kind id base head added fields e = (e, tt)
unless_same-AllCounted kind id base head removed fields e = (e, tt)

entity_changes-AllCounted :
    (kind : Kind) (id : Text) (base head : Option Value)
    → AllCounted (places kind) (entity_changes kind id base head)
entity_changes-AllCounted kind id none none = tt
entity_changes-AllCounted component id none (some head) = (refl, tt)
entity_changes-AllCounted connection id none (some head) = (refl, tt)
entity_changes-AllCounted boundary id none (some head) = (refl, tt)
entity_changes-AllCounted component id (some base) none = (refl, tt)
entity_changes-AllCounted connection id (some base) none = (refl, tt)
entity_changes-AllCounted boundary id (some base) none = (refl, tt)
entity_changes-AllCounted kind id (some base) (some head) =
    let fields = field_changes base head (groups_of kind) in
    unless_same-AllCounted kind id base head (status_for fields.classifications kind) fields
      (status_for-fits kind base head)

AllCounted-append :
    (summary : Summary) (l m : List Change)
    → AllCounted summary l
    → AllCounted summary m
    → AllCounted summary (l ++ m)
AllCounted-append summary [] m h k = k
AllCounted-append summary (c ∷ l) m (e, h) k = (e, AllCounted-append summary l m h k)

changes_of-AllCounted :
    (kind : Kind) (base head : Index) (ids : List Text)
    → AllCounted (places kind) (changes_of kind base head ids)
unfolding changes_of
changes_of-AllCounted kind base head [] = tt
changes_of-AllCounted kind base head (id ∷ ids) =
    AllCounted-append (places kind) (entity_changes kind id (entity base id) (entity head id))
      (changes_of kind base head ids)
      (entity_changes-AllCounted kind id (entity base id) (entity head id))
      (changes_of-AllCounted kind base head ids)

total-zeros : (kind : Kind) → total (places kind) ≡ 0
total-zeros component = refl
total-zeros connection = refl
total-zeros boundary = refl

count_at-zeros : (t : Status) (shape : List Status) → count_at t (zeros shape) ≡ 0
count_at-zeros t [] = refl
count_at-zeros t (s ∷ shape) = ground (arith, count_at-zeros t shape)

-- The summary counts, for each status, the changes that have it, and its counts add up to the number
-- of changes: none has a status that the summary of its kind leaves out.
pub summary_for-total :
    (kind : Kind) (base head : Index)
    → ((status : Status)
        → count_at status (summary_for (compare_entities base head kind) (shape_of kind))
          ≡ occurrences status (compare_entities base head kind))
      × (total (summary_for (compare_entities base head kind) (shape_of kind))
          ≡ length (compare_entities base head kind))
unfolding compare_entities
summary_for-total kind base head =
    let changes = changes_of kind base head (compared_ids base head) in
    let all = changes_of-AllCounted kind base head (compared_ids base head) in
    (
      λ status. omega (
        arith,
        count_at-tally status changes (places kind) all,
        count_at-zeros status (shape_of kind),
      ),
      omega (arith, total-tally changes (places kind) all, total-zeros kind),
    )
