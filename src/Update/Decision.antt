-- ===== src/Update/Decision.antt =====
-- What an update check decides, of .agents/skills/archify/scripts/check-update.mjs:
-- `validateManifest`, `nextSuccessfulCheck`, `nextFailedCheck`, `stateAfterFailedCheck`, the event
-- keys, `resultForCandidate`, `freshStateResult`, and the changes of the state that `checkForUpdate`
-- and `acknowledgeUpdate` commit.
pub mod Schedule
pub mod Keys
pub mod Offers
pub mod Digests
pub mod Invariant
mod Tests
use salience.Base.{
  ℕ, suc, ◌+◌, ◌-◌, ◌*◌, ◌/◌, min, Text, codes, text_eq, includes, List, [], ◌∷◌, ◌++◌, Bool, true,
  false, not, ◌&&◌, ◌||◌, Option, none, some, leb, ltb, Ordering, if◌then◌else◌, ◌>>=◌,
}
use salience.Base.Result.{Result, ok, err}
use salience.Json.{Value, string}
use salience.Json.Print.{to_text}
use salience.Semver.{compare_semver}
use salience.Contract.{
  ContractError, skill_id, Manifest, validate_stable_update_manifest, LocalRelease,
}
use salience.Update.State.{Candidate, State, state_after_acknowledgement, state_with_failure_check}
use salience.Update.State.Normalize.{is_digest, strip, includes_value}

-- `validateManifest`
abbrev candidate_of : Manifest → Candidate
candidate_of m = record {
  version = m.version;
  target_digest = string (codes "sha256:" ++ to_text m.sha256);
  severity = m.severity;
  release_notes = m.release_notes;
}

abbrev candidate_result_of : Result ContractError Manifest → Result ContractError Candidate
candidate_result_of (ok m) = ok (candidate_of m)
candidate_result_of (err e) = err e

unfoldable pub validate_manifest : Value → Result ContractError Candidate
validate_manifest v = candidate_result_of (validate_stable_update_manifest v)

-- Dates: `Date.parse` (a time before 1970 is no number here) and `toISOString`.
pub record Dates : Type 0 where
  pub parse : Text → Option ℕ
  pub iso : ℕ → Text

abbrev pub check_ttl_ms : ℕ
check_ttl_ms = 72 * 60 * 60 * 1000

abbrev pub max_cache_horizon_ms : ℕ
max_cache_horizon_ms = (check_ttl_ms * 12 + 9) / 10

abbrev pub first_failure_delay_ms : ℕ
first_failure_delay_ms = 6 * 60 * 60 * 1000

abbrev pub later_failure_delay_ms : ℕ
later_failure_delay_ms = 24 * 60 * 60 * 1000

-- What `Number(random()) || 0` may be: no number or one below 0, or the quotient of two naturals,
-- the second one above 0.
pub data Sample : Type 0 where
  nothing : Sample
  quotient : (numerator below : ℕ) → Sample

-- `Math.round(CHECK_TTL_MS * (0.8 + r * 0.4))` for `r` the sample between 0 and 1; the rounding of
-- the floating point product is not modelled.
abbrev rounded_delay_ms : ℕ → ℕ → ℕ
rounded_delay_ms n d = (2 * check_ttl_ms * (4 * d + 2 * n) + 5 * d) / (10 * d)

unfoldable pub success_delay_ms : Sample → ℕ
success_delay_ms nothing = rounded_delay_ms 0 1
success_delay_ms (quotient n below) = rounded_delay_ms (min n (suc below)) (suc below)

unfoldable pub next_successful_check : Dates → ℕ → Sample → Text
next_successful_check dates now random = dates.iso (now + success_delay_ms random)

abbrev pub failure_delay_ms : ℕ → ℕ
failure_delay_ms failures =
    if leb failures 1 then first_failure_delay_ms else later_failure_delay_ms

unfoldable pub next_failed_check : Dates → ℕ → ℕ → Text
next_failed_check dates now failures = dates.iso (now + failure_delay_ms failures)

unfoldable pub state_after_failed_check : Dates → State → ℕ → Bool → State
state_after_failed_check dates state now withdraw_candidate =
    let failures = min (state.consecutive_failures + 1) 2 in
    state_with_failure_check state (some (next_failed_check dates now failures)) failures
      withdraw_candidate

abbrev pub event_prefix : Text
event_prefix = skill_id ++ codes "@"

unfoldable pub event_key_for_digest : Text → Text
event_key_for_digest target_digest = event_prefix ++ target_digest

unfoldable pub digest_for_event_key : Value → Option Text
digest_for_event_key (string event_key) = do
  digest ← strip event_prefix event_key
  if is_digest digest then some digest else none
digest_for_event_key _ = none

pub data Reason : Type 0 where
  cache_valid current already_notified invalid_acknowledgement cache_unavailable check_failed :
      Reason
  invalid_manifest runtime_unavailable invalid_local_release invalid_clock check_in_progress :
      Reason
  disabled invalid_arguments : Reason

pub record Notification : Type 0 where
  pub event_key : Text
  pub installed_version : Text
  pub latest_version : Text
  pub target_digest : Value
  pub severity : Text
  pub summary : Text
  pub release_notes : Text

pub data Outcome : Type 0 where
  silent : Reason → Outcome
  update_available : Notification → Outcome
  acknowledged : Text → Outcome

unfoldable pub notification : LocalRelease → Candidate → Outcome
notification local candidate = update_available (record {
  event_key = event_key_for_digest (to_text candidate.target_digest);
  installed_version = local.version;
  latest_version = candidate.version;
  target_digest = candidate.target_digest;
  severity = candidate.severity;
  summary =
      codes "Archify "
      ++ candidate.version
      ++ codes " is available; see the official release notes for details.";
  release_notes = candidate.release_notes;
})

abbrev pub compared_result : LocalRelease → State → Candidate → Ordering → Outcome
compared_result local state c Ordering.gt =
    if includes_value state.acknowledged_digests c.target_digest
    then silent already_notified
    else notification local c
compared_result local state c _ = silent current

abbrev pub candidate_result : LocalRelease → State → Option Candidate → Option Outcome
candidate_result local state none = some (silent cache_valid)
candidate_result local state (some c) = do
  comparison ← compare_semver c.version local.version
  some (compared_result local state c comparison)

-- `resultForCandidate`; `none` is the error of a version that is none.
unfoldable pub result_for_candidate : LocalRelease → State → Option Outcome
result_for_candidate local state = candidate_result local state state.candidate

abbrev parsed : Dates → Option Text → Option ℕ
parsed dates none = none
parsed dates (some t) = dates.parse t

abbrev is_fresh_at : Option ℕ → ℕ → Bool
is_fresh_at none now = false
is_fresh_at (some next) now = ltb now next && leb next (now + max_cache_horizon_ms)

unfoldable pub is_fresh : Dates → State → ℕ → Bool
is_fresh dates state now = is_fresh_at (parsed dates state.next_check_at) now

-- `freshStateResult`: no result, or the one of the cached candidate.
unfoldable pub fresh_state_result : Dates → LocalRelease → State → ℕ → Option (Option Outcome)
fresh_state_result dates local state now =
    if is_fresh dates state now then some (result_for_candidate local state) else none

-- The change that `checkForUpdate` commits after the manifest was fetched, with its result, and the
-- fallback for a state that does not fit into the cache.
pub record Committed : Type 0 where
  pub state : State
  pub result : Option Outcome

abbrev pub offered : Option Outcome → State → Candidate → State
offered (some (update_available n)) next c =
    if includes_value next.offered_digests c.target_digest
    then next
    else record next { offered_digests = next.offered_digests ++ (to_text c.target_digest ∷ []) }
offered _ next c = next

abbrev pub checked_state : Dates → ℕ → Sample → State → Candidate → State
checked_state dates now random state c = record state {
  candidate = some c;
  next_check_at = some (next_successful_check dates now random);
  consecutive_failures = 0;
}

unfoldable pub committed_check : Dates → LocalRelease → ℕ → Sample → State → Candidate → Committed
committed_check dates local now random state c =
    let next = checked_state dates now random state c in
    let result = result_for_candidate local next in
    record { state = offered result next c; result = result }

unfoldable pub capacity_fallback : Dates → ℕ → State → Committed
capacity_fallback dates now state = record {
  state = state_after_failed_check dates state now true;
  result = some (silent cache_unavailable);
}

unfoldable pub committed_failure : Dates → ℕ → Reason → State → Committed
committed_failure dates now reason state = record {
  state = state_after_failed_check dates state now false;
  result = some (silent reason);
}

-- The change that `acknowledgeUpdate` commits: no state is written for a digest that was neither
-- offered nor acknowledged.
unfoldable pub committed_acknowledgement : Text → Text → State → Option State × Outcome
committed_acknowledgement target_digest event_key state =
    if includes state.offered_digests target_digest
      || includes state.acknowledged_digests target_digest
    then (some (state_after_acknowledgement state target_digest), acknowledged event_key)
    else (none, silent invalid_acknowledgement)
