-- ===== src/Contract/Tests.antt =====
-- Runs of the validators of releases.
use salience.Base.{◌≡◌, refl, ◌↔◌, codes, some, true, [], ◌∷◌}
use salience.Base.Result.{ok}
use salience.Json.{string, array, array_of}
use salience.Contract.{manifest_value, validate_stable_update_manifest, manifest_run}
use salience.Contract.Timestamp.{
  Instant, utc_seconds, is_canonical_utc_timestamp, IsRealInstant, is_canonical_utc_timestamp_iff,
}
use salience.Contract.Trust.{validate_stable_update_manifest-manifest_value}
use salience.Contract.Samples.{tree_text, manifest_with, read_with}

accepted :
    validate_stable_update_manifest (manifest_with (string tree_text))
    ≡ ok (read_with (string tree_text))
unfolding manifest_run
accepted = refl

-- A hash in an array of one text is accepted, and handed on as the array.
accepted_array :
    validate_stable_update_manifest (manifest_with (array (array_of (tree_text ∷ []))))
    ≡ ok (read_with (array (array_of (tree_text ∷ []))))
unfolding manifest_run
accepted_array = refl

validate_stable_update_manifest-manifest_value_example :
    validate_stable_update_manifest (manifest_value (read_with (string tree_text)))
    ≡ ok (read_with (string tree_text))
validate_stable_update_manifest-manifest_value_example =
    validate_stable_update_manifest-manifest_value (manifest_with (string tree_text))
      (read_with (string tree_text)) accepted

is_canonical_utc_timestamp_iff_example :
    (is_canonical_utc_timestamp (codes "2024-02-29T12:30:59Z") ≡ true)
    ↔ ((i : Instant) × (utc_seconds (codes "2024-02-29T12:30:59Z") ≡ some i) × IsRealInstant i)
is_canonical_utc_timestamp_iff_example =
    is_canonical_utc_timestamp_iff (codes "2024-02-29T12:30:59Z")
