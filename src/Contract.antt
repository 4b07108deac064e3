-- ===== src/Contract.antt =====
-- The validators of .agents/skills/archify/scripts/update-contract.mjs. A thrown
-- `UpdateContractError` is `err` with a constructor for its message.
pub mod Timestamp
pub mod Trust
mod Tests
pub mod Samples
use salience.Base.{
  ◌≡◌, ℕ, Text, codes, text_eq, List, [], ◌∷◌, ◌++◌, Bool, true, false, not, ◌&&◌, ◌||◌, Option,
  none, some, leb, ltb, ◌==◌, length, every, any, if◌then◌else◌,
}
use salience.Base.Result.{Result, ok, err, ◌>>=◌, ◌>>◌, require}
use salience.Json.{
  Value, string, integer, pos, object, object_of, Fields, get, get_field, keys, as_text, is_text,
  is_one,
}
use salience.Json.Print.{to_text, decimal}
use salience.Base.Order.{compare_list}
use salience.Json.Keys.{has_exact_keys, join_nul, sort, insert_text}
use salience.Semver.{
  Version, Channel, stable, development, parse_semver, release_channel_for_version,
  is_stable_core_version, compare_text, identifiers, split_first, of_core, split_on, is_core_number,
  has_leading_zero, is_digit, is_identifier, is_identifier_char, is_numeric, plain_prerelease,
}
use Timestamp.{is_canonical_utc_timestamp, date_parse, days_in_month, to_iso_string, utc_seconds}

pub data ContractError : Type 0 where
  invalid_semver : ContractError
  invalid_publication_time : ContractError
  invalid_local_release : ContractError
  channel_mismatch : ContractError
  notes_need_stable_version : ContractError
  untrusted_notes_url : ContractError
  invalid_release_identity : ContractError
  invalid_summary : ContractError
  invalid_severity : ContractError
  response_too_large : ContractError
  no_bounded_stream : ContractError
  not_utf8 : ContractError
  not_json : ContractError
  not_bounded_json : ContractError
  unexpected_manifest_url : ContractError

abbrev pub skill_id : Text
skill_id = codes "archify"

abbrev pub expected_repository : Text
expected_repository = codes "https://github.com/tt-a1i/archify"

abbrev pub default_manifest_url : Text
default_manifest_url = codes "https://tt-a1i.github.io/archify/skill-updates/archify/stable.json"

-- `CONTROL_OR_BIDI`
unfoldable pub is_control_or_bidi : ℕ → Bool
is_control_or_bidi c =
    leb c 0x1f
    || (leb 0x7f c && leb c 0x9f)
    || (leb 0x202a c && leb c 0x202e)
    || (leb 0x2066 c && leb c 0x2069)

-- [a-f0-9]
unfoldable pub is_hex : ℕ → Bool
is_hex c = (leb b'a' c && leb c b'f') || (leb b'0' c && leb c b'9')

-- `HEX_40` and `HEX_64`
unfoldable pub is_hex_of : ℕ → Text → Bool
unfolding is_hex
is_hex_of n t = length t == n && every is_hex t

-- `HEX_40.test(value)` turns its argument into a text first, an array of one text too.
abbrev pub tests_as : (Text → Bool) → Value → Bool
tests_as p v = p (to_text v)

unfoldable pub text_or : Value → Text → Text
text_or (string t) d = t
text_or _ d = d

-- `parseSemver` and what calls it, on a value of any type.
abbrev pub stable_core_value : Value → Bool
stable_core_value (string t) = is_stable_core_version t
stable_core_value _ = false

abbrev pub channel_text : Channel → Text
channel_text Channel.stable = codes "stable"
channel_text Channel.development = codes "development"

abbrev pub expected_channel : Value → Result ContractError Text
expected_channel (string t) = elim (release_channel_for_version t) [
  | some c ↦ ok (channel_text c)
  | none ↦ err invalid_semver
]
expected_channel _ = err invalid_semver

pub record LocalRelease : Type 0 where
  pub channel : Text
  pub version : Text
  pub repository : Text
  pub update_manifest_url : Text

abbrev pub local_keys : List Text
local_keys =
    codes "schemaVersion"
    ∷ codes "skillId"
    ∷ codes "channel"
    ∷ codes "version"
    ∷ codes "source"
    ∷ codes "updateManifestUrl"
    ∷ []

unfoldable pub has_local_identity : Value → Bool
has_local_identity value =
    has_exact_keys value local_keys
    && is_one (get (codes "schemaVersion") value)
    && is_text skill_id (get (codes "skillId") value)
    && has_exact_keys (get (codes "source") value) (codes "repository" ∷ [])
    && is_text expected_repository (get (codes "repository") (get (codes "source") value))
    && is_text default_manifest_url (get (codes "updateManifestUrl") value)

-- The record leaves out `schemaVersion` and `skillId`, which are constants.
unfoldable pub validate_local_release : Value → Result ContractError LocalRelease
unfolding text_or
validate_local_release value = do
  require (has_local_identity value) invalid_local_release
  channel ← expected_channel (get (codes "version") value)
  require (is_text channel (get (codes "channel") value)) channel_mismatch
  ok (record {
    channel = channel;
    version = text_or (get (codes "version") value) [];
    repository = expected_repository;
    update_manifest_url = default_manifest_url;
  })

abbrev pub notes_url : Text → Text
notes_url version = codes "https://github.com/tt-a1i/archify/releases/tag/v" ++ version

-- `validateReleaseNotesUrl(value, version)`
unfoldable pub validate_release_notes_url : Value → Value → Result ContractError Text
unfolding text_or
validate_release_notes_url value version = do
  require (stable_core_value version) notes_need_stable_version
  require (is_text (notes_url (text_or version [])) value) untrusted_notes_url
  ok (notes_url (text_or version []))

pub record Manifest : Type 0 where
  pub version : Text
  pub published_at : Text
  pub tree_sha : Value
  pub sha256 : Value
  pub summary : Text
  pub release_notes : Text
  pub severity : Text

abbrev pub manifest_keys : List Text
manifest_keys =
    codes "schemaVersion"
    ∷ codes "skillId"
    ∷ codes "channel"
    ∷ codes "version"
    ∷ codes "publishedAt"
    ∷ codes "source"
    ∷ codes "artifact"
    ∷ codes "summary"
    ∷ codes "releaseNotes"
    ∷ codes "severity"
    ∷ []

abbrev pub text_field : (Text → Bool) → Value → Bool
text_field p (string t) = p t
text_field p _ = false

unfoldable pub has_stable_identity : Value → Bool
has_stable_identity value =
    let version = get (codes "version") value in
    let source = get (codes "source") value in
    let artifact = get (codes "artifact") value in
    has_exact_keys value manifest_keys
    && is_one (get (codes "schemaVersion") value)
    && is_text skill_id (get (codes "skillId") value)
    && is_text (codes "stable") (get (codes "channel") value)
    && stable_core_value version
    && has_exact_keys source (codes "repository" ∷ codes "ref" ∷ codes "treeSha" ∷ [])
    && is_text expected_repository (get (codes "repository") source)
    && is_text (b'v' ∷ text_or version []) (get (codes "ref") source)
    && tests_as (is_hex_of 40) (get (codes "treeSha") source)
    && has_exact_keys artifact (codes "sha256" ∷ [])
    && tests_as (is_hex_of 64) (get (codes "sha256") artifact)

unfoldable pub is_summary : Text → Bool
unfolding is_control_or_bidi
is_summary t = leb 1 (length t) && leb (length t) 160 && not (any is_control_or_bidi t)

unfoldable pub is_severity : Text → Bool
is_severity t = text_eq t (codes "normal") || text_eq t (codes "security")

-- The value that is returned, without the fields that are constants or determined by the version.
unfoldable pub manifest_of : Value → Text → Manifest
unfolding text_or
manifest_of value notes = record {
  version = text_or (get (codes "version") value) [];
  published_at = text_or (get (codes "publishedAt") value) [];
  tree_sha = get (codes "treeSha") (get (codes "source") value);
  sha256 = get (codes "sha256") (get (codes "artifact") value);
  summary = text_or (get (codes "summary") value) [];
  release_notes = notes;
  severity = text_or (get (codes "severity") value) [];
}

-- The object that is returned, with all its fields.
abbrev pub manifest_value : Manifest → Value
manifest_value m = object (
    object_of (
      (codes "schemaVersion", integer (pos 1))
      ∷ (codes "skillId", string skill_id)
      ∷ (codes "channel", string (codes "stable"))
      ∷ (codes "version", string m.version)
      ∷ (codes "publishedAt", string m.published_at)
      ∷ (
        codes "source",
        object (
            object_of (
              (codes "repository", string expected_repository)
              ∷ (codes "ref", string (b'v' ∷ m.version))
              ∷ (codes "treeSha", m.tree_sha)
              ∷ [])),
      )
      ∷ (codes "artifact", object (object_of ((codes "sha256", m.sha256) ∷ [])))
      ∷ (codes "summary", string m.summary)
      ∷ (codes "releaseNotes", string m.release_notes)
      ∷ (codes "severity", string m.severity)
      ∷ []))

unfoldable pub validate_stable_update_manifest : Value → Result ContractError Manifest
validate_stable_update_manifest value = do
  require (has_stable_identity value) invalid_release_identity
  require (text_field is_canonical_utc_timestamp (get (codes "publishedAt") value))
      invalid_publication_time
  require (text_field is_summary (get (codes "summary") value)) invalid_summary
  notes ←
      validate_release_notes_url (get (codes "releaseNotes") value) (get (codes "version") value)
  require (text_field is_severity (get (codes "severity") value)) invalid_severity
  ok (manifest_of value notes)

-- The validator of manifests with all that it calls.
unfoldable pub manifest_run : Value → Result ContractError Manifest
unfolding validate_stable_update_manifest has_stable_identity has_exact_keys text_eq join_nul sort
    keys compare_text is_one get is_text is_stable_core_version parse_semver identifiers split_first
    of_core split_on is_core_number compare_list date_parse days_in_month is_canonical_utc_timestamp
    to_iso_string utc_seconds is_control_or_bidi is_hex is_hex_of is_severity is_summary manifest_of
    text_or validate_release_notes_url insert_text decimal to_text get_field has_leading_zero
    is_digit is_identifier is_identifier_char is_numeric plain_prerelease
manifest_run = validate_stable_update_manifest
