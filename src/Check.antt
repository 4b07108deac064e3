-- ===== src/Check.antt =====
-- The check for an update, of .agents/skills/archify/scripts/check-update.mjs:
-- `resultAfterLosingOperation`, `versionCacheDirectory` and `checkForUpdate`.
pub mod Commits
pub mod Cached
pub mod Justified
pub mod Outcomes
pub mod Acknowledge
pub mod Command
mod Tests
use salience.Base.{
  ℕ, ◌*◌, Text, codes, List, [], ◌∷◌, ◌++◌, Bool, true, false, Option, none, some, if◌then◌else◌,
}
use salience.Base.Result.{Result, ok, err}
use salience.Contract.{ContractError, LocalRelease, validate_local_release}
use salience.Cache.Disk.{FilePath, Metadata}
use salience.Cache.Action.{Action, Failure, failed, pure, throw, catch, ◌>>=◌, ◌>>◌}
use salience.Cache.Guard.{verify_cache_token}
use salience.Cache.Prefix.{Roots, prepare_resolved_directory}
use salience.Update.State.{State, Candidate}
use salience.Update.State.Normalize.{includes_value}
use salience.Update.Decision.{
  Dates, Sample, Reason, Outcome, silent, cache_unavailable, check_in_progress, check_failed,
  runtime_unavailable, invalid_clock, Committed, committed_check, committed_failure,
  capacity_fallback, result_for_candidate, fresh_state_result,
}
use salience.Update.Fetch.{FetchError, contract, Response, Codec, fetch_candidate}
use salience.Update.Fetch
use salience.Operation.Store.{read_json_file, read_state}
use salience.Operation.Claim.{HeldOperation, operation_owns_active_claim}
use salience.Operation.Commit.{
  Decision, Commit, superseded, finished, unavailable, child, cancel_operation, commit_operation,
}
use salience.Operation.Acquire.{acquire_operation}

abbrev pub max_local_release_bytes : ℕ
max_local_release_bytes = 4 * 1024

-- The process, and what it calls: the hash of an identity, the conversion of dates, the decoders, and
-- the first 24 digits of the hash of a version, and the home and temporary directories.
pub record Runtime : Type 0 where
  pub pid : ℕ
  pub fingerprint : Metadata → Text
  pub dates : Dates
  pub codec : Codec
  pub partition : Text → Text
  pub roots : Roots

-- `versionCacheDirectory`
abbrev pub version_cache_directory : (Text → Text) → FilePath → Text → FilePath
version_cache_directory partition cache_directory installed_version =
    child cache_directory (codes "version-" ++ partition installed_version)

-- A call that is made under `try`, with what it throws left out.
abbrev pub attempt : {A : Type 0} → Action A → Action (Option A)
attempt m = catch (do a ← m; pure (some a)) (λ e. pure none)

-- A result that `resultForCandidate` computes, or the error that it throws.
abbrev pub computed : Option Outcome → Action Outcome
computed none = throw failed
computed (some o) = pure o

abbrev pub local_release_of : Result ContractError LocalRelease → Action LocalRelease
local_release_of (err e) = throw failed
local_release_of (ok local) = pure local

unfoldable pub read_local_release : FilePath → Action LocalRelease
read_local_release release_path = do
  value ← read_json_file release_path max_local_release_bytes none
  local_release_of (validate_local_release value)

abbrev pub was_offered : State → Option Candidate → Bool
was_offered state none = false
was_offered state (some c) = includes_value state.offered_digests c.target_digest

-- The result of a cached candidate that another process has offered.
unfoldable pub cached_result : LocalRelease → State → Action Outcome
cached_result local state =
    if was_offered state state.candidate
    then computed (result_for_candidate local state)
    else pure (silent check_in_progress)

-- What a commit means for the caller.
abbrev pub committed_outcome : Commit Outcome → Outcome
committed_outcome superseded = silent check_in_progress
committed_outcome (finished o) = o
committed_outcome unavailable = silent cache_unavailable

abbrev pub failure_reason : FetchError → Reason
failure_reason (contract e) = Reason.invalid_manifest
failure_reason Fetch.failed = check_failed

abbrev pub decision_of :
    State → Option Outcome → Option (State × Outcome) → Option (Decision Outcome)
decision_of state none fallback = none
decision_of state (some o) fallback =
    some (record { state = some state; result = o; fallback = fallback })

abbrev pub fallback_of : State → Option Outcome → Option (State × Outcome)
fallback_of state none = none
fallback_of state (some o) = some (state, o)

module _ (runtime : Runtime) (local : LocalRelease) (now : ℕ) (random : Sample)
    (directory : FilePath) where
  -- The changes that are handed to `commitOperation`.
  unfoldable pub failed_check : Reason → State → Option (Decision Outcome)
  failed_check reason state =
      let c = committed_failure runtime.dates now reason state in decision_of c.state c.result none

  unfoldable pub successful_check : Candidate → State → Option (Decision Outcome)
  successful_check candidate state =
      let c = committed_check runtime.dates local now random state candidate in
      let f = capacity_fallback runtime.dates now state in
      decision_of c.state c.result (fallback_of f.state f.result)

  -- The end of an operation by any error.
  unfoldable pub abandoned : HeldOperation → Failure → Action Outcome
  abandoned operation e = do
    catch (cancel_operation directory operation) (λ e'. pure tt)
    pure (silent cache_unavailable)

  unfoldable pub committed_operation :
      HeldOperation → (State → Option (Decision Outcome)) → Action Outcome
  committed_operation operation mutate =
      catch
        (do
          commit ←
              commit_operation runtime.fingerprint directory operation (some local.version) mutate
          pure (committed_outcome commit))
        (abandoned operation)

  abbrev pub commit_fetched : HeldOperation → Result FetchError Candidate → Action Outcome
  commit_fetched operation (err e) = committed_operation operation (failed_check (failure_reason e))
  commit_fetched operation (ok candidate) =
      committed_operation operation (successful_check candidate)

  -- `resultAfterLosingOperation`
  unfoldable pub result_after_losing_operation : HeldOperation → Action Outcome
  result_after_losing_operation operation = do
    cancel_operation directory operation
    cached ← read_state directory (some local.version)
    cached_result local cached

  module _ (fetch_impl : Text → Option Response) (late : Bool) where
    unfoldable pub fetch_and_commit : HeldOperation → Action Outcome
    fetch_and_commit operation =
        commit_fetched operation
          (fetch_candidate runtime.codec fetch_impl late local.update_manifest_url).0

    unfoldable pub owned_check : HeldOperation → Action Outcome
    owned_check operation = do
      owns ← operation_owns_active_claim runtime.fingerprint directory operation
      if owns
          then (do
            verify_cache_token
            still ← operation_owns_active_claim runtime.fingerprint directory operation
            if still then fetch_and_commit operation else result_after_losing_operation operation)
          else result_after_losing_operation operation

    abbrev pub raced_check : HeldOperation → Option (Option Outcome) → Action Outcome
    raced_check operation none = owned_check operation
    raced_check operation (some result) = do
      o ← computed result
      cancel_operation directory operation
      pure o

    unfoldable pub held_check : HeldOperation → Action Outcome
    held_check operation =
        catch
          (do
            state ← read_state directory (some local.version)
            raced_check operation (fresh_state_result runtime.dates local state now))
          (abandoned operation)

    abbrev pub acquired_check : Option (Option HeldOperation) → Action Outcome
    acquired_check none = pure (silent cache_unavailable)
    acquired_check (some none) =
        catch (do cached ← read_state directory (some local.version); cached_result local cached)
          (λ e. pure (silent cache_unavailable))
    acquired_check (some (some operation)) = held_check operation

    unfoldable pub stale_check : Action Outcome
    stale_check = do
      operation ←
          attempt (acquire_operation runtime.roots runtime.pid directory runtime.fingerprint)
      acquired_check operation

    abbrev pub fresh_or : Option (Option Outcome) → Action Outcome
    fresh_or (some result) = computed result
    fresh_or none = stale_check

module _ (runtime : Runtime) (local : LocalRelease) (now : ℕ) (random : Sample)
    (requested : FilePath) (fetch_impl : Text → Option Response) (late : Bool) where
  -- The directory that was prepared, and the state that was read there.
  abbrev pub opened_check : Option (FilePath × State) → Action Outcome
  opened_check none = pure (silent cache_unavailable)
  opened_check (some (directory, state)) =
      fresh_or runtime local now random directory fetch_impl late
        (fresh_state_result runtime.dates local state now)

  unfoldable pub prepared_check : Action Outcome
  prepared_check = do
    opened ← attempt (do
      directory ← prepare_resolved_directory runtime.roots requested
      state ← read_state directory (some local.version)
      pure (directory, state))
    opened_check opened

-- What is passed to `checkForUpdate`: `fetchImpl`, where it is a function, whether the timeout comes
-- before its answer, and the time, where `Number(now())` is finite.
pub record CheckOptions : Type 0 where
  pub release_path : FilePath
  pub cache_directory : FilePath
  pub fetch_impl : Option (Text → Option Response)
  pub late : Bool
  pub now : Option ℕ
  pub random : Sample

module _ (runtime : Runtime) (options : CheckOptions) where
  abbrev pub timed_check : (Text → Option Response) → LocalRelease → Option ℕ → Action Outcome
  timed_check fetch_impl local none = pure (silent invalid_clock)
  timed_check fetch_impl local (some now) =
      prepared_check runtime local now options.random
        (version_cache_directory runtime.partition options.cache_directory local.version) fetch_impl
        options.late

  abbrev pub released_check : (Text → Option Response) → Option LocalRelease → Action Outcome
  released_check fetch_impl none = pure (silent Reason.invalid_local_release)
  released_check fetch_impl (some local) = timed_check fetch_impl local options.now

  abbrev pub callable_check : Option (Text → Option Response) → Action Outcome
  callable_check none = pure (silent runtime_unavailable)
  callable_check (some fetch_impl) = do
    local ← attempt (read_local_release options.release_path)
    released_check fetch_impl local

  -- `checkForUpdate`
  unfoldable pub check_for_update : Action Outcome
  check_for_update = callable_check options.fetch_impl
