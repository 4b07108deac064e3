-- ===== src/Update/State/Normalize.antt =====
-- `validateCachedCandidate` and `normalizeState`: how a cached state is read.
pub mod Roundtrip
pub mod Stable
use salience.Base.{
  ◌≡◌, ℕ, Text, codes, text_eq, includes, List, [], ◌∷◌, Bool, true, false, not, ◌&&◌, ◌||◌, Option,
  none, some, every, Ordering, guard, ◌>>=◌, ◌>>◌, if◌then◌else◌, ◌==◌, length,
}
use salience.Json.{
  Value, undefined, null, string, object, Fields, get, get_field, has_own, plain_object, as_text,
  as_array, as_count, is_text, is_one,
}
use salience.Json.Print.{to_text}
use salience.Json.Keys.{has_only_keys}
use salience.Semver.{
  parse_semver, compare_semver, is_stable_core_version, split_first, split_on, identifiers, of_core,
  is_identifier, is_core_number, plain_prerelease,
}
use salience.Contract.{
  skill_id, is_hex_of, is_hex, is_severity, stable_core_value, text_field, text_or, notes_url,
}
use salience.Base.Result.{Result, ok, err}
use salience.Contract.{validate_release_notes_url}
use salience.Update.State.{State, Candidate}
use salience.Update.State.Encode.{encode_recoverable_state}

-- `DIGEST_PATTERN`
abbrev pub strip : Text → Text → Option Text
strip [] t = some t
strip (c ∷ cs) [] = none
strip (c ∷ cs) (d ∷ t) = if c == d then strip cs t else none

unfoldable pub is_digest : Text → Bool
is_digest t = elim (strip (codes "sha256:") t) [ none ↦ false | some rest ↦ is_hex_of 64 rest ]

abbrev pub candidate_keys : List Text
candidate_keys =
    codes "version" ∷ codes "targetDigest" ∷ codes "severity" ∷ codes "releaseNotes" ∷ []

unfoldable pub validate_cached_candidate : Value → Option Candidate
validate_cached_candidate (object fs) = do
  guard (has_only_keys fs candidate_keys)
  guard (stable_core_value (get_field (codes "version") fs))
  guard (is_digest (to_text (get_field (codes "targetDigest") fs)))
  guard (text_field is_severity (get_field (codes "severity") fs))
  elim (validate_release_notes_url (get_field (codes "releaseNotes") fs)
      (get_field (codes "version") fs)) [
        | err e ↦ none
        | ok notes ↦ some (record {
          version = text_or (get_field (codes "version") fs) [];
          target_digest = get_field (codes "targetDigest") fs;
          severity = text_or (get_field (codes "severity") fs) [];
          release_notes = notes;
        })
      ]
validate_cached_candidate _ = none

-- `null` or a text.
abbrev pub nullable_text : Value → Option (Option Text)
nullable_text null = some none
nullable_text (string t) = some (some t)
nullable_text _ = none

-- `installedVersion ?? value.installedVersion`, where the first is not another text than the second.
unfoldable pub effective_version : Option Text → Option Text → Option (Option Text)
effective_version none cached = some cached
effective_version (some v) none = none
effective_version (some v) (some w) = if text_eq w v then some (some v) else none

unfoldable pub is_parsed_or_null : Option Text → Bool
is_parsed_or_null none = true
is_parsed_or_null (some v) = elim (parse_semver v) [ none ↦ false | some _ ↦ true ]

abbrev digest_text : Value → Option Text
digest_text (string t) = if is_digest t then some t else none
digest_text _ = none

unfoldable pub all_digests : List Value → Option (List Text)
all_digests [] = some []
all_digests (v ∷ vs) = do t ← digest_text v; ts ← all_digests vs; some (t ∷ ts)

abbrev pub digest_list : Value → Option (List Text)
digest_list v = do vs ← as_array v; all_digests vs

-- `[...new Set(texts)]`, after the texts that are already there.
unfoldable pub distinct_onto : List Text → List Text → List Text
unfolding includes text_eq
distinct_onto seen [] = []
distinct_onto seen (t ∷ ts) =
    let rest = distinct_onto (t ∷ seen) ts in
    let skipped = distinct_onto seen ts in if includes seen t then skipped else t ∷ rest

abbrev pub distinct : List Text → List Text
distinct = distinct_onto []

-- `digests.includes(value)`
unfoldable pub includes_value : List Text → Value → Bool
unfolding includes text_eq
includes_value ts (string t) = includes ts t
includes_value ts _ = false

abbrev pub is_newer : Text → Text → Bool
is_newer version installed = elim (compare_semver version installed) [
  | some Ordering.gt ↦ true
  | _ ↦ false
]

-- A candidate above the installed version has been offered or acknowledged.
unfoldable pub candidate_is_known : Option Text → List Text → List Text → Candidate → Bool
unfolding includes_value
candidate_is_known none offered acknowledged c = true
candidate_is_known (some v) offered acknowledged c =
    not (is_newer c.version v)
    || includes_value offered c.target_digest
    || includes_value acknowledged c.target_digest

abbrev pub guarded_candidate :
    Option Text → List Text → List Text → Option Candidate → Option (Option Candidate)
guarded_candidate version offered acknowledged none = none
guarded_candidate version offered acknowledged (some c) =
    if candidate_is_known version offered acknowledged c then some (some c) else none

unfoldable pub cached_candidate :
    Option Text → List Text → List Text → Fields → Option (Option Candidate)
cached_candidate version offered acknowledged fs =
    if has_own (codes "candidate") fs
    then guarded_candidate version offered acknowledged
        (validate_cached_candidate (get_field (codes "candidate") fs))
    else some none

abbrev pub recovered : State → Option State
recovered state = elim (encode_recoverable_state state) [ none ↦ none | some _ ↦ some state ]

unfoldable pub normalize_state : Value → Option Text → Option State
normalize_state (object fs) installed_version = do
  guard (is_one (get_field (codes "schemaVersion") fs))
  guard (is_text skill_id (get_field (codes "skillId") fs))
  cached_version ← nullable_text (get_field (codes "installedVersion") fs)
  version ← effective_version installed_version cached_version
  check ← plain_object (get_field (codes "check") fs)
  next_check_at ← nullable_text (get_field (codes "nextCheckAt") check)
  failures ← as_count (get_field (codes "consecutiveFailures") check)
  notification ← plain_object (get_field (codes "notification") fs)
  guard (is_parsed_or_null version)
  offered ← digest_list (get_field (codes "offeredDigests") notification)
  acknowledged ← digest_list (get_field (codes "acknowledgedDigests") notification)
  candidate ← cached_candidate version (distinct offered) (distinct acknowledged) fs
  recovered (record {
    installed_version = version;
    next_check_at = next_check_at;
    consecutive_failures = failures;
    offered_digests = distinct offered;
    acknowledged_digests = distinct acknowledged;
    candidate = candidate;
  })
normalize_state _ installed_version = none

-- To run the reader in a test, unfold this.
unfoldable pub normalize_run : Value → Option Text → Option State
unfolding normalize_state is_digest is_hex_of is_hex includes text_eq to_text is_stable_core_version
    parse_semver split_first split_on identifiers of_core is_identifier is_core_number
    plain_prerelease is_severity candidate_is_known includes_value is_parsed_or_null
normalize_run = normalize_state
