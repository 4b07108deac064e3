-- ===== src/Update/State.antt =====
-- The cached state of the update check and its operations, of
-- .agents/skills/archify/scripts/check-update.mjs: `emptyState`, `stateAfterAcknowledgement`,
-- `stateWithFailureCheck`, the bounded encoders, `validateCachedCandidate` and `normalizeState`.
pub mod Encode
pub mod Normalize
pub mod Acknowledge
mod Tests
use salience.Base.{
  ℕ, ◌+◌, Text, codes, text_eq, includes, List, [], ◌∷◌, ◌++◌, Bool, true, false, not, ◌&&◌, ◌||◌,
  Option, none, some, leb, keep, map, if◌then◌else◌,
}
use salience.Json.{Value, Fields, null, integer, pos, string, array, object, array_of, object_of}
use salience.Contract.{skill_id}

-- `targetDigest` is tested by a regular expression alone, and need be no text in a cached state.
pub record Candidate : Type 0 where
  pub version : Text
  pub target_digest : Value
  pub severity : Text
  pub release_notes : Text

-- `schemaVersion` and `skillId` are constants. A time that is not set is `none`.
pub record State : Type 0 where
  pub installed_version : Option Text
  pub next_check_at : Option Text
  pub consecutive_failures : ℕ
  pub offered_digests : List Text
  pub acknowledged_digests : List Text
  pub candidate : Option Candidate

unfoldable pub empty_state : Option Text → State
empty_state installed_version = record {
  installed_version = installed_version;
  next_check_at = none;
  consecutive_failures = 0;
  offered_digests = [];
  acknowledged_digests = [];
  candidate = none;
}

unfoldable pub state_after_acknowledgement : State → Text → State
state_after_acknowledgement state target_digest = record state {
  offered_digests = keep (λ digest. not (text_eq digest target_digest)) state.offered_digests;
  acknowledged_digests =
      if includes state.acknowledged_digests target_digest
      then state.acknowledged_digests
      else state.acknowledged_digests ++ (target_digest ∷ []);
}

unfoldable pub state_with_failure_check : State → Option Text → ℕ → Bool → State
state_with_failure_check state next_check_at failures withdraw_candidate = record state {
  next_check_at = next_check_at;
  consecutive_failures = failures;
  candidate = if withdraw_candidate then none else state.candidate;
}

-- The object that is written to the cache.
abbrev pub text_or_null : Option Text → Value
text_or_null none = null
text_or_null (some t) = string t

abbrev pub candidate_written : Candidate → Fields
candidate_written c = object_of (
    (codes "version", string c.version)
    ∷ (codes "targetDigest", c.target_digest)
    ∷ (codes "severity", string c.severity)
    ∷ (codes "releaseNotes", string c.release_notes)
    ∷ [])

abbrev pub candidate_value : Candidate → Value
candidate_value c = object (candidate_written c)

abbrev pub candidate_fields : Option Candidate → List (Text × Value)
candidate_fields none = []
candidate_fields (some c) = (codes "candidate", candidate_value c) ∷ []

unfoldable pub check_value : State → Value
check_value s = object (
    object_of (
      (codes "nextCheckAt", text_or_null s.next_check_at)
      ∷ (codes "consecutiveFailures", integer (pos s.consecutive_failures))
      ∷ []))

unfoldable pub notification_value : State → Value
notification_value s = object (
    object_of (
      (codes "offeredDigests", array (array_of s.offered_digests))
      ∷ (codes "acknowledgedDigests", array (array_of s.acknowledged_digests))
      ∷ []))

abbrev pub state_fields : State → Fields
state_fields s = object_of (
    (codes "schemaVersion", integer (pos 1))
    ∷ (codes "skillId", string skill_id)
    ∷ (codes "installedVersion", text_or_null s.installed_version)
    ∷ (codes "check", check_value s)
    ∷ (codes "notification", notification_value s)
    ∷ candidate_fields s.candidate)

unfoldable pub state_value : State → Value
state_value s = object (state_fields s)
