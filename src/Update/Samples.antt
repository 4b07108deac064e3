-- ===== src/Update/Samples.antt =====
-- A state with an update that was offered, for the runs of the state code.
use salience.Base.{◌≡◌, refl, Text, codes, some, [], ◌∷◌, arith}
use salience.Semver.{compare_semver, compare_versions, compare_text}
use salience.Json.{string}
use salience.Update.State.{State, Candidate, state_value}
use salience.Update.State.Encode.{encode_recoverable_state, encode_run}
use salience.Update.State.Normalize.{normalize_run}
use salience.Update.State.Normalize.Roundtrip.{IsState, IsCandidate}

abbrev pub digest : Text
digest = codes "sha256:0123456789abcdef0123456789abcdef0123456789abcdef0123456789abcdef"

abbrev pub newer : Candidate
newer = record {
  version = codes "2.2.0";
  target_digest = string digest;
  severity = codes "normal";
  release_notes = codes "https://github.com/tt-a1i/archify/releases/tag/v2.2.0";
}

abbrev pub offering : State
offering = record {
  installed_version = some (codes "2.1.0");
  next_check_at = some (codes "2024-03-03T12:30:59.000Z");
  consecutive_failures = 0;
  offered_digests = digest ∷ [];
  acknowledged_digests = [];
  candidate = some newer;
}

pub offering_encoded : encode_recoverable_state offering ≡ some (state_value offering)
unfolding encode_run
offering_encoded = refl

pub newer-IsCandidate : IsCandidate newer
unfolding normalize_run
newer-IsCandidate = record { stable = refl; digest = refl; severity = refl; notes = refl }

pub offering-IsState : IsState (codes "2.1.0") offering
unfolding normalize_run compare_semver compare_versions compare_text
offering-IsState = record {
  version = refl;
  parsed = refl;
  failures = omega arith;
  offered = (refl, tt);
  acknowledged = tt;
  offered_once = (refl, tt);
  acknowledged_once = tt;
  candidate = (newer-IsCandidate, refl);
  recoverable = offering_encoded;
}
