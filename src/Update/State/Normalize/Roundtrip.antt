-- ===== src/Update/State/Normalize/Roundtrip.antt =====
-- The states of `normalizeState`, written and read.
use salience.Base.{
  ◌≡◌, refl, ◌≤◌, Text, codes, text_eq, text_eq_refl, text_eq_iff, includes, List, [], ◌∷◌, true,
  false, Option, none, some, arith, le→leb, AllTrue,
}
use salience.Json.{
  Value, string, array, array_of, get_field, has_own, as_array, items, is_text, is_one,
  plain_object, as_count,
}
use salience.Json.{Fields, object_of, keys, integer, pos}
use salience.Json.Keys.{has_only_keys}
use salience.Contract.{skill_id, validate_release_notes_url, is_severity, notes_url, text_or}
use salience.Semver.{is_stable_core_version}
use salience.Json.Print.{to_text}
use salience.Update.State.{
  State, Candidate, candidate_value, candidate_written, state_fields, text_or_null, state_value,
  check_value, notification_value,
}
use salience.Update.State.Encode.{encode_recoverable_state}
use salience.Update.State.Normalize.{
  nullable_text, effective_version, candidate_keys, is_digest, all_digests, digest_list,
  distinct_onto, candidate_is_known, validate_cached_candidate, normalize_state, cached_candidate,
  recovered, is_parsed_or_null,
}

-- No text stands twice, nor among those already seen.
abbrev pub Distinct : List Text → List Text → Type 0
Distinct seen [] = Unit
Distinct seen (t ∷ ts) = (includes seen t ≡ false) × Distinct (t ∷ seen) ts

pub record IsCandidate (c : Candidate) : Type 0 where
  pub stable : is_stable_core_version c.version ≡ true
  pub digest : is_digest (to_text c.target_digest) ≡ true
  pub severity : is_severity c.severity ≡ true
  pub notes : c.release_notes ≡ notes_url c.version

abbrev pub Known : State → Option Candidate → Type 0
Known s none = Unit
Known s (some c) =
    IsCandidate c
    × (candidate_is_known s.installed_version s.offered_digests s.acknowledged_digests c ≡ true)

-- A state of the installed version `v`.
pub record IsState (v : Text) (s : State) : Type 0 where
  pub version : s.installed_version ≡ some v
  pub parsed : is_parsed_or_null s.installed_version ≡ true
  pub failures : s.consecutive_failures ≤ 9007199254740991
  pub offered : AllTrue is_digest s.offered_digests
  pub acknowledged : AllTrue is_digest s.acknowledged_digests
  pub offered_once : Distinct [] s.offered_digests
  pub acknowledged_once : Distinct [] s.acknowledged_digests
  pub candidate : Known s s.candidate
  pub recoverable : encode_recoverable_state s ≡ some (state_value s)

all_digests-array_of :
    (ts : List Text) → AllTrue is_digest ts → digest_list (array (array_of ts)) ≡ some ts
unfolding as_array items all_digests
all_digests-array_of [] h = refl
all_digests-array_of (t ∷ ts) h = rw (h.0, all_digests-array_of ts h.1)

distinct_onto-Distinct : (seen ts : List Text) → Distinct seen ts → distinct_onto seen ts ≡ ts
unfolding distinct_onto
distinct_onto-Distinct seen [] h = refl
distinct_onto-Distinct seen (t ∷ ts) h = rw (h.0, distinct_onto-Distinct (t ∷ seen) ts h.1)

module _ (c : Candidate) where
  abbrev written : Fields
  written = candidate_written c

  only_keys : has_only_keys written candidate_keys ≡ true
  unfolding has_only_keys keys includes text_eq
  only_keys = refl

  get_version : get_field (codes "version") written ≡ string c.version
  unfolding get_field text_eq
  get_version = refl

  get_digest : get_field (codes "targetDigest") written ≡ c.target_digest
  unfolding get_field text_eq
  get_digest = refl

  get_severity : get_field (codes "severity") written ≡ string c.severity
  unfolding get_field text_eq
  get_severity = refl

  get_notes : get_field (codes "releaseNotes") written ≡ string c.release_notes
  unfolding get_field text_eq
  get_notes = refl

validate_cached_candidate-candidate_value :
    (c : Candidate) → IsCandidate c → validate_cached_candidate (candidate_value c) ≡ some c
unfolding validate_cached_candidate validate_release_notes_url is_text text_or
validate_cached_candidate-candidate_value c h = simp (
  only_keys c,
  get_version c,
  get_digest c,
  get_severity c,
  get_notes c,
  h.stable,
  h.digest,
  h.severity,
  ← h.notes,
  text_eq_refl,
)

module _ (s : State) where
  abbrev fields : Fields
  fields = state_fields s

  get_schema : get_field (codes "schemaVersion") fields ≡ integer (pos 1)
  unfolding get_field text_eq
  get_schema = refl

  get_skill : get_field (codes "skillId") fields ≡ string skill_id
  unfolding get_field text_eq
  get_skill = refl

  get_installed : get_field (codes "installedVersion") fields ≡ text_or_null s.installed_version
  unfolding get_field text_eq
  get_installed = refl

  get_check : get_field (codes "check") fields ≡ check_value s
  unfolding get_field text_eq
  get_check = refl

  get_notification : get_field (codes "notification") fields ≡ notification_value s
  unfolding get_field text_eq
  get_notification = refl

  get_next : (o : Option Text) → nullable_text (text_or_null o) ≡ some o
  get_next none = refl
  get_next (some t) = refl

  abbrev check_fields : Fields
  check_fields = object_of (
      (codes "nextCheckAt", text_or_null s.next_check_at)
      ∷ (codes "consecutiveFailures", integer (pos s.consecutive_failures))
      ∷ [])

  get_next_check_at : get_field (codes "nextCheckAt") check_fields ≡ text_or_null s.next_check_at
  unfolding get_field text_eq
  get_next_check_at = refl

  get_failures :
      get_field (codes "consecutiveFailures") check_fields ≡ integer (pos s.consecutive_failures)
  unfolding get_field text_eq
  get_failures = refl

  abbrev notification_fields : Fields
  notification_fields = object_of (
      (codes "offeredDigests", array (array_of s.offered_digests))
      ∷ (codes "acknowledgedDigests", array (array_of s.acknowledged_digests))
      ∷ [])

  get_offered :
      get_field (codes "offeredDigests") notification_fields ≡ array (array_of s.offered_digests)
  unfolding get_field text_eq
  get_offered = refl

  get_acknowledged :
      get_field (codes "acknowledgedDigests") notification_fields
      ≡ array (array_of s.acknowledged_digests)
  unfolding get_field text_eq
  get_acknowledged = refl

  cached_candidate-fields :
      Known s s.candidate
      → cached_candidate s.installed_version s.offered_digests s.acknowledged_digests fields
        ≡ some s.candidate
  unfolding cached_candidate has_own get_field text_eq
  cached_candidate-fields k = go s.candidate k
    where
      go :
          (o : Option Candidate)
          → Known s o
          → cached_candidate s.installed_version s.offered_digests s.acknowledged_digests
              (state_fields (record s { candidate = o }))
            ≡ some o
      go none k = refl
      go (some c) k = simp (validate_cached_candidate-candidate_value c k.0, k.1)

recovered_lem : (s : State) {v : Value} → encode_recoverable_state s ≡ some v → recovered s ≡ some s
recovered_lem s h = rw (h, recovered)

effective_version_self :
    (v : Text) (o : Option Text) → o ≡ some v → effective_version (some v) o ≡ some o
unfolding effective_version
effective_version_self v none h = cc
effective_version_self v (some w) h = ground (arith, text_eq_iff w v)

-- A well-formed state of the installed version `v` is read back as it was written, by a reader for
-- that version.
pub normalize_state-state_value :
    (v : Text) (s : State) → IsState v s → normalize_state (state_value s) (some v) ≡ some s
unfolding normalize_state state_value check_value notification_value is_one is_text plain_object
    as_count
normalize_state-state_value v s w =
    simp
      (
        get_schema s,
        get_skill s,
        get_installed s,
        get_check s,
        get_notification s,
        get_next s,
        text_eq_refl,
        effective_version_self v s.installed_version w.version,
        get_next_check_at s,
        get_failures s,
        le→leb _ _ w.failures,
        w.parsed,
        get_offered s,
        get_acknowledged s,
        all_digests-array_of s.offered_digests w.offered,
        all_digests-array_of s.acknowledged_digests w.acknowledged,
        distinct_onto-Distinct [] s.offered_digests w.offered_once,
        distinct_onto-Distinct [] s.acknowledged_digests w.acknowledged_once,
        cached_candidate-fields s w.candidate,
      )
      (recovered_lem s w.recoverable)
