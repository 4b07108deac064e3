-- ===== src/Update/State/Normalize/Stable.antt =====
-- The candidate of a state that was read has a version of the kind that is published.
use salience.Base.{
  ◌≡◌, refl, sym, ap, ◌∙◌, Text, codes, Bool, true, false, Option, none, some, some_inj, guard,
  ◌>>=◌, List, [], if◌then◌else◌,
}
use mathlib.Core.Path.{subst}
use salience.Base.Result.{Result, ok, err}
use salience.Json.{
  Value, object, string, Fields, get_field, has_own, is_one, is_text, plain_object, as_count,
}
use salience.Json.Keys.{has_only_keys}
use salience.Contract.{
  skill_id, stable_core_value, text_or, ContractError, validate_release_notes_url,
}
use salience.Semver.{is_stable_core_version}
use salience.Update.State.{State, Candidate}
use salience.Update.State.Encode.{encode_recoverable_state}
use salience.Update.State.Normalize.{
  candidate_keys, validate_cached_candidate, cached_candidate, normalize_state, recovered,
  guarded_candidate, nullable_text, effective_version, is_parsed_or_null, digest_list, distinct,
  candidate_is_known,
}

abbrev pub HasStable : Option Candidate → Type 0
HasStable none = Unit
HasStable (some c) = is_stable_core_version c.version ≡ true

stable-text :
    (v : Value) → stable_core_value v ≡ true → is_stable_core_version (text_or v []) ≡ true
unfolding text_or
stable-text (string t) h = h
stable-text _ h = cc

with_notes :
    (r : Result ContractError Text) (f : Text → Candidate) {c : Candidate}
    → elim r [ err e ↦ none | ok notes ↦ some (f notes) ] ≡ some c
    → (notes : Text) × (f notes ≡ c)
with_notes (err e) f h = cc
with_notes (ok notes) f h = (notes, some_inj h)

then_some :
    {A : Type 0} (b : Bool) (m : Option A) {a : A}
    → (guard b >>= λ _. m) ≡ some a
    → (b ≡ true) × (m ≡ some a)
then_some true m h = (refl, h)
then_some false m h = cc

cached_stable :
    (v : Value) (c : Candidate)
    → validate_cached_candidate v ≡ some c
    → is_stable_core_version c.version ≡ true
unfolding validate_cached_candidate
cached_stable (object fs) c h =
    let (_, h1) = then_some (has_only_keys fs candidate_keys) _ h in
    let (a, h2) = then_some (stable_core_value (get_field (codes "version") fs)) _ h1 in
    let (_, h3) = then_some _ _ h2 in
    let (_, h4) = then_some _ _ h3 in
    let (notes, e) =
      with_notes
        (validate_release_notes_url (get_field (codes "releaseNotes") fs)
          (get_field (codes "version") fs))
        _ h4 in
    ap (λ x. is_stable_core_version x.version) (sym e)
    ∙ stable-text (get_field (codes "version") fs) a
cached_stable _ c h = cc

guarded_stable :
    (version : Option Text) (offered acknowledged : List Text) (o r : Option Candidate)
    → HasStable o
    → guarded_candidate version offered acknowledged o ≡ some r
    → HasStable r
guarded_stable version offered acknowledged none r a h = cc
guarded_stable version offered acknowledged (some c) r a h =
    of_test (candidate_is_known version offered acknowledged c) h
  where
    of_test : (b : Bool) → (if b then some (some c) else none) ≡ some r → HasStable r
    of_test true h = subst HasStable (some_inj h) a
    of_test false h = cc

validated_stable : (v : Value) → HasStable (validate_cached_candidate v)
validated_stable v = of_option (validate_cached_candidate v) (cached_stable v)
  where
    of_option :
        (o : Option Candidate)
        → ((c : Candidate) → o ≡ some c → is_stable_core_version c.version ≡ true)
        → HasStable o
    of_option none k = tt
    of_option (some c) k = k c refl

candidate_stable :
    (version : Option Text) (offered acknowledged : List Text) (fs : Fields) (r : Option Candidate)
    → cached_candidate version offered acknowledged fs ≡ some r
    → HasStable r
unfolding cached_candidate
candidate_stable version offered acknowledged fs r h = of_test (has_own (codes "candidate") fs) h
  where
    of_test :
        (b : Bool)
        → (if b
            then guarded_candidate version offered acknowledged
                (validate_cached_candidate (get_field (codes "candidate") fs))
            else some none)
          ≡ some r
        → HasStable r
    of_test true h =
        guarded_stable version offered acknowledged _ r
          (validated_stable (get_field (codes "candidate") fs)) h
    of_test false h = subst HasStable (some_inj h) tt

-- If there is a value, it satisfies the predicate.
record Given {A : Type 0} (P : A → Type 0) (o : Option A) : Type 0 where
  value : (a : A) → o ≡ some a → P a

Given-none : {A : Type 0} {P : A → Type 0} → Given P none
Given-none = record { value = λ a e. cc }

Given-bind :
    {A : Type 0} {B : Type 0} {P : B → Type 0} (m : Option A) {f : A → Option B}
    → ((a : A) → m ≡ some a → Given P (f a))
    → Given P (m >>= f)
Given-bind none k = Given-none
Given-bind (some a) k = k a refl

abbrev IsStableState : State → Type 0
IsStableState s = HasStable s.candidate

Given-recovered : (s : State) → HasStable s.candidate → Given IsStableState (recovered s)
Given-recovered s h = of_encoded (encode_recoverable_state s)
  where
    of_encoded : (o : Option Value) → Given IsStableState (elim o [ none ↦ none | some _ ↦ some s ])
    of_encoded none = Given-none
    of_encoded (some v) = record { value = λ a e. subst IsStableState (some_inj e) h }

Given-normalized :
    (v : Value) (installed : Option Text) → Given IsStableState (normalize_state v installed)
unfolding normalize_state
Given-normalized (object fs) installed =
    let check = get_field (codes "check") fs in
    let notification = get_field (codes "notification") fs in
    Given-bind (guard (is_one (get_field (codes "schemaVersion") fs))) λ _ _.
      Given-bind (guard (is_text skill_id (get_field (codes "skillId") fs))) λ _ _.
        Given-bind (nullable_text (get_field (codes "installedVersion") fs)) λ cached _.
          Given-bind (effective_version installed cached) λ version _.
            Given-bind (plain_object check) λ checks _.
              Given-bind (nullable_text (get_field (codes "nextCheckAt") checks)) λ _ _.
                Given-bind (as_count (get_field (codes "consecutiveFailures") checks)) λ _ _.
                  Given-bind (plain_object notification) λ notes _.
                    Given-bind (guard (is_parsed_or_null version)) λ _ _.
                      Given-bind (digest_list (get_field (codes "offeredDigests") notes)) λ o _.
                        Given-bind (digest_list (get_field (codes "acknowledgedDigests") notes))
                          λ a _.
                            Given-bind (cached_candidate version (distinct o) (distinct a) fs)
                              λ c e.
                                Given-recovered _
                                  (candidate_stable version (distinct o) (distinct a) fs c e)
Given-normalized _ installed = Given-none

-- A candidate of a state that `normalizeState` gives has a stable version.
pub normalize_state-HasStable :
    (v : Value) (installed : Option Text) (s : State)
    → normalize_state v installed ≡ some s
    → HasStable s.candidate
normalize_state-HasStable v installed s e = (Given-normalized v installed).value s e
