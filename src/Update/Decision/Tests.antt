-- ===== src/Update/Decision/Tests.antt =====
-- Runs of the decisions.
use salience.Base.{◌≡◌, refl, ℕ, Text, codes, some, none, Option, true, [], ◌∷◌}
use salience.Json.{string}
use salience.Json.Print.{to_text}
use salience.Semver.{compare_semver, compare_versions, compare_text, parse_run}
use salience.Contract.{LocalRelease}
use salience.Update.Samples.{digest, newer, offering, newer-IsCandidate, offering-IsState}
use salience.Update.State.{state_after_acknowledgement, state_value}
use salience.Update.State.Encode.{encode_recoverable_state, encode_run}
use salience.Update.State.Normalize.{is_digest, normalize_run, includes_value}
use salience.Update.State.Normalize.Roundtrip.{IsState}
use salience.Update.Decision.{
  Dates, quotient, nothing, update_available, Notification, notification, check_ttl_ms,
  success_delay_ms, state_after_failed_check, committed_check, result_for_candidate,
  event_key_for_digest, next_successful_check, next_failed_check,
}
use salience.Update.Decision.Schedule.{IsExact}
use salience.Update.Decision.Offers.{IsSettled, committed_check-acknowledged}
use salience.Update.Decision.Invariant.{committed_check-IsState}

abbrev local : LocalRelease
local = record {
  channel = codes "stable";
  version = codes "2.1.0";
  repository = [];
  update_manifest_url = [];
}

-- Dates that are written as one code unit.
abbrev read : Text → Option ℕ
read (n ∷ []) = some n
read _ = none

abbrev dates : Dates
dates = record { parse = read; iso = λ n. n ∷ [] }

abbrev offer : Notification
offer = record {
  event_key = event_key_for_digest digest;
  installed_version = codes "2.1.0";
  latest_version = codes "2.2.0";
  target_digest = string digest;
  severity = codes "normal";
  summary = codes "Archify 2.2.0 is available; see the official release notes for details.";
  release_notes = codes "https://github.com/tt-a1i/archify/releases/tag/v2.2.0";
}

offered_run :
    (committed_check dates local 1000 (quotient 1 1) offering newer).result
    ≡ some (update_available offer)
unfolding committed_check result_for_candidate notification parse_run compare_semver
    compare_versions compare_text includes_value to_text
offered_run = refl

delay_run : success_delay_ms (quotient 1 1) ≡ check_ttl_ms
unfolding success_delay_ms
delay_run = refl

exact : IsExact dates
exact n h = refl

is_digest_run : is_digest digest ≡ true
unfolding normalize_run
is_digest_run = refl

committed_check-acknowledged_example :
    IsSettled dates local 9000 nothing
      (committed_check dates local 1000 (quotient 1 1) offering newer).state
      newer
      digest
      (event_key_for_digest digest)
committed_check-acknowledged_example =
    committed_check-acknowledged dates local 1000 9000 (quotient 1 1) nothing offering newer digest
      (event_key_for_digest digest) offer refl offered_run

checked_encoded :
    let next = (committed_check dates local 1000 (quotient 1 1) offering newer).state in
    encode_recoverable_state next ≡ some (state_value next)
unfolding encode_run committed_check result_for_candidate notification parse_run compare_semver
    compare_versions compare_text includes_value next_successful_check success_delay_ms
checked_encoded = refl

committed_check-IsState_example :
    IsState (codes "2.1.0") (committed_check dates local 1000 (quotient 1 1) offering newer).state
committed_check-IsState_example =
    committed_check-IsState dates local 1000 (quotient 1 1) offering newer digest offering-IsState
      newer-IsCandidate refl checked_encoded

acknowledged_encoded :
    encode_recoverable_state (state_after_acknowledgement offering digest)
    ≡ some (state_value (state_after_acknowledgement offering digest))
unfolding encode_run
acknowledged_encoded = refl

failed_encoded :
    let next = state_after_failed_check dates offering 1000 true in
    encode_recoverable_state next ≡ some (state_value next)
unfolding encode_run state_after_failed_check next_failed_check
failed_encoded = refl
