-- ===== src/Check/Acknowledge.antt =====
-- The acknowledgement of an update, of .agents/skills/archify/scripts/check-update.mjs:
-- `waitUntilRetry` and `acknowledgeUpdate`.
pub mod Termination
use salience.Base.{
  ℕ, zero, suc, ◌+◌, ◌-◌, min, Text, Bool, true, false, Option, none, some, ltb, if◌then◌else◌,
}
use salience.Json.{Value}
use salience.Json.Print.{to_text}
use salience.Contract.{LocalRelease}
use salience.Cache.Disk.{FilePath}
use salience.Cache.Action.{Action, pure, catch, ◌>>=◌, ◌>>◌}
use salience.Cache.Prefix.{prepare_resolved_directory}
use salience.Update.State.{State}
use salience.Update.Decision.{
  Outcome, silent, Reason, invalid_acknowledgement, cache_unavailable, check_in_progress,
  digest_for_event_key, committed_acknowledgement,
}
use salience.Operation.Claim.{HeldOperation}
use salience.Operation.Commit.{
  Decision, Commit, superseded, finished, unavailable, cancel_operation, commit_operation,
}
use salience.Operation.Acquire.{acquire_operation}
use salience.Check.{Runtime, attempt, read_local_release, version_cache_directory}

abbrev pub ack_lock_wait_ms : ℕ
ack_lock_wait_ms = 1200

abbrev pub lock_retry_delay_ms : ℕ
lock_retry_delay_ms = 20

-- What the calls of `monotonicNow` give, one after the other, where they are finite.
abbrev pub Clock : Type 0
Clock = ℕ → Option ℕ

-- The delay of `waitUntilRetry`, or no retry.
abbrev pub wait_until_retry : ℕ → Option ℕ → Option ℕ
wait_until_retry deadline none = none
wait_until_retry deadline (some t) =
    if ltb t deadline then some (min lock_retry_delay_ms (deadline - t)) else none

-- The change that is handed to `commitOperation`.
unfoldable pub acknowledgement : Text → Text → State → Option (Decision Outcome)
acknowledgement target_digest event_key state =
    let c = committed_acknowledgement target_digest event_key state in
    some (record { state = c.0; result = c.1; fallback = none })

abbrev pub ended : Outcome → Action (Option Outcome)
ended o = pure (some o)

module _ (runtime : Runtime) (local : LocalRelease) (directory : FilePath)
    (target_digest event_key : Text) (clock : Clock) (deadline : ℕ) where
  abbrev pub retried_acknowledgement : Action (Option Outcome) → Option ℕ → Action (Option Outcome)
  retried_acknowledgement next none = ended (silent check_in_progress)
  retried_acknowledgement next (some delay) = next

  unfoldable pub acknowledgement_abandoned : HeldOperation → Action (Option Outcome)
  acknowledgement_abandoned operation = do
    catch (cancel_operation directory operation) (λ e. pure tt)
    ended (silent cache_unavailable)

  abbrev pub answered_acknowledgement :
      Action (Option Outcome)
      → ℕ
      → HeldOperation
      → Option (Commit Outcome)
      → Action (Option Outcome)
  answered_acknowledgement next call operation none = acknowledgement_abandoned operation
  answered_acknowledgement next call operation (some superseded) =
      retried_acknowledgement next (wait_until_retry deadline (clock call))
  answered_acknowledgement next call operation (some (finished o)) = ended o
  answered_acknowledgement next call operation (some unavailable) = ended (silent cache_unavailable)

  unfoldable pub commit_acknowledgement :
      Action (Option Outcome) → ℕ → HeldOperation → Action (Option Outcome)
  commit_acknowledgement next call operation = do
    commit ← attempt (
        commit_operation runtime.fingerprint directory operation (some local.version)
          (acknowledgement target_digest event_key))
    answered_acknowledgement next call operation commit

  abbrev pub acquired_acknowledgement :
      Action (Option Outcome) → ℕ → Option (Option HeldOperation) → Action (Option Outcome)
  acquired_acknowledgement next call none = ended (silent cache_unavailable)
  acquired_acknowledgement next call (some none) =
      retried_acknowledgement next (wait_until_retry deadline (clock call))
  acquired_acknowledgement next call (some (some operation)) =
      commit_acknowledgement next call operation

  -- `while (true)`, from a call of the clock on; `none` where the fuel runs out.
  unfoldable pub acknowledgement_attempts : ℕ → ℕ → Action (Option Outcome)
  acknowledgement_attempts zero call = pure none
  acknowledgement_attempts (suc fuel) call =
      let next = acknowledgement_attempts fuel (suc call) in
      do
        operation ←
            attempt (acquire_operation runtime.roots runtime.pid directory runtime.fingerprint)
        acquired_acknowledgement next call operation

-- As many attempts as fit into the time that is waited.
abbrev pub max_attempts : ℕ
max_attempts = 61

-- What is passed to `acknowledgeUpdate`; the clock where it is a function.
pub record AcknowledgeOptions : Type 0 where
  pub release_path : FilePath
  pub cache_directory : FilePath
  pub event_key : Value
  pub monotonic_now : Option Clock

module _ (runtime : Runtime) (options : AcknowledgeOptions) where
  abbrev pub started_acknowledgement :
      LocalRelease → FilePath → Text → Clock → Option ℕ → Action (Option Outcome)
  started_acknowledgement local directory target_digest clock none =
      ended (silent invalid_acknowledgement)
  started_acknowledgement local directory target_digest clock (some start) =
      acknowledgement_attempts runtime local directory target_digest (to_text options.event_key)
        clock (start + ack_lock_wait_ms) max_attempts 1

  abbrev pub prepared_acknowledgement :
      LocalRelease → Text → Clock → Option FilePath → Action (Option Outcome)
  prepared_acknowledgement local target_digest clock none = ended (silent cache_unavailable)
  prepared_acknowledgement local target_digest clock (some directory) =
      started_acknowledgement local directory target_digest clock (clock 0)

  abbrev pub released_acknowledgement : Text → Clock → Option LocalRelease → Action (Option Outcome)
  released_acknowledgement target_digest clock none = ended (silent Reason.invalid_local_release)
  released_acknowledgement target_digest clock (some local) = do
    prepared ← attempt (
        prepare_resolved_directory runtime.roots
          (version_cache_directory runtime.partition options.cache_directory local.version))
    prepared_acknowledgement local target_digest clock prepared

  abbrev pub addressed_acknowledgement : Option Text → Option Clock → Action (Option Outcome)
  addressed_acknowledgement none clock = ended (silent invalid_acknowledgement)
  addressed_acknowledgement (some target_digest) none = ended (silent invalid_acknowledgement)
  addressed_acknowledgement (some target_digest) (some clock) = do
    local ← attempt (read_local_release options.release_path)
    released_acknowledgement target_digest clock local

  -- `acknowledgeUpdate`
  unfoldable pub acknowledge_update : Action (Option Outcome)
  acknowledge_update =
      addressed_acknowledgement (digest_for_event_key options.event_key) options.monotonic_now
