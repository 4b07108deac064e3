-- ===== src/Check/Tests.antt =====
-- Runs of the check and of the acknowledgement, on a disk that other processes leave alone.
use salience.Json.Print.{to_text}
use salience.Base.{
  ℕ, zero, suc, ◌≤◌, ◌≡◌, refl, ◌+◌, ◌*◌, Text, codes, text_eq, List, [], ◌∷◌, Bool, true, false,
  Option, none, some, arith, some_inj, if◌then◌else◌,
}
use mathlib.Core.Path.{subst}
use salience.Base.Result.{ok}
use salience.Json.{Value, string, null, object, object_of, integer, pos}
use salience.Contract.{default_manifest_url, expected_repository}
use salience.Cache.Disk.{FilePath, Disk, Kind, Node}
use salience.Cache.Action.{World}
use salience.Cache.Action.Returns.{IsReturned}
use salience.Operation.Samples.{metadata, world, fingerprint, owner_token, directory_node}
use salience.Update.Decision.{
  Dates, Sample, nothing, Outcome, silent, check_failed, invalid_arguments,
}
use salience.Update.Fetch.{Codec, Response}
use salience.Check.{Runtime, CheckOptions, check_for_update}
use salience.Check.Justified.{IsJustified}
use salience.Check.Outcomes.{check_for_update-Returns}
use salience.Check.Acknowledge.{
  Clock, AcknowledgeOptions, acknowledge_update, ack_lock_wait_ms, wait_until_retry,
}
use salience.Check.Acknowledge.Termination.{IsPaced, IsAnswered, acknowledge_update-Returns}
use salience.Check.Command.Reported.{IsReported, run_cli-IsReported}
use salience.Check.Command.{Host, default_cache_directory, run_cli}

abbrev runtime : Runtime
runtime = record {
  pid = 7;
  fingerprint = fingerprint;
  dates = record { parse = λ t. none; iso = λ n. codes "2024-03-03T12:30:59.000Z" };
  codec = record { number = λ t. none; decode = λ b. some b; parse = λ t. none };
  partition = λ t. codes "p";
  roots = record {
    home_directory = codes "home" ∷ [];
    temporary_directory = codes "tmp" ∷ [];
    resolve = λ p d. ok p;
  };
}

abbrev release : Value
release = object (
    object_of (
      (codes "schemaVersion", integer (pos 1))
      ∷ (codes "skillId", string (codes "archify"))
      ∷ (codes "channel", string (codes "stable"))
      ∷ (codes "version", string (codes "2.1.0"))
      ∷ (codes "source", object (object_of ((codes "repository", string expected_repository) ∷ [])))
      ∷ (codes "updateManifestUrl", string default_manifest_url)
      ∷ []))

abbrev release_node : Node
release_node = record { meta = metadata Kind.file 9; content = some release }

abbrev installed : World
installed = record world {
  env = record world.env { created = λ t. metadata Kind.other (10 + t); random = λ t. owner_token };
  disk =
      (codes "cache" ∷ [], directory_node 2)
      ∷ (codes "cache" ∷ codes "version-p" ∷ [], directory_node 3)
      ∷ (codes "release.json" ∷ [], release_node)
      ∷ [];
}

abbrev options : CheckOptions
options = record {
  release_path = codes "release.json" ∷ [];
  cache_directory = codes "cache" ∷ [];
  fetch_impl = some (λ url. none);
  late = false;
  now = some 5;
  random = nothing;
}

check_for_update-Returns_example :
    IsReturned IsJustified (check_for_update runtime options installed)
check_for_update-Returns_example = (check_for_update-Returns runtime options).at installed

-- Nothing is waited between the first two readings.
abbrev clock : Clock
clock zero = some 0
clock (suc call) = some (3 + 20 * call)

paced : IsPaced clock
paced = record { forward = λ t u e f. omega (arith, some_inj e, some_inj f); waited = waited }
  where
    waited :
        (start k t u delay : ℕ)
        → clock 0 ≡ some start
        → 1 ≤ k
        → clock k ≡ some t
        → wait_until_retry (start + ack_lock_wait_ms) (some t) ≡ some delay
        → clock (suc k) ≡ some u
        → t + delay ≤ u
    waited start zero t u delay s one e h f = ground (arith, one)
    waited start (suc k) t u delay s one e h f = ground (arith, h, some_inj e, some_inj f)

-- The server gives no answer.
checked_run : (check_for_update runtime options installed).0 ≡ ok (silent check_failed)
unfolding salience.Cache.Change.change_run salience.Update.State.Encode.encode_run
    salience.Json.Print.stringify_run salience.Operation.Commit.cancel_operation
    salience.Operation.Commit.commit_operation salience.Operation.Commit.commit_owned
    salience.Operation.Commit.commit_decision salience.Operation.Commit.commit_chosen
    salience.Operation.Commit.chosen salience.Operation.Commit.write_state
    salience.Operation.Commit.transition_operation salience.Operation.Commit.fence_lower_operations
    salience.Operation.Commit.fence_operations salience.Operation.Commit.operation_was_fenced
    salience.Operation.Claim.operation_owns_active_claim
    salience.Operation.Claim.inspect_active_claim salience.Operation.Claim.present_claim
    salience.Operation.Claim.entered_claim salience.Operation.Claim.read_owner
    salience.Operation.Claim.owned_claim salience.Operation.Claim.pending_claim
    salience.Operation.Claim.corrupt_claim_status salience.Operation.Claim.validate_claim_owner
    salience.Operation.Store.read_json_file salience.Operation.Store.open_read
    salience.Operation.Store.handle_read salience.Cache.Change.handle_stat
    salience.Operation.Store.readdir salience.Operation.Store.list_operations
    salience.Operation.Store.operation_entries salience.Operation.Store.operation_entry
    salience.Operation.Name.parse_operation_name salience.Operation.Name.operation_name
    salience.Operation.Name.kind_text salience.Json.Print.decimal salience.Json.Print.decimal_onto
    salience.Semver.split_first salience.Semver.is_digit salience.Contract.is_hex_of
    salience.Contract.is_hex salience.Json.Keys.has_only_keys salience.Json.keys
    salience.Base.includes salience.Json.get_field salience.Json.as_count salience.Json.as_text
    salience.Operation.Store.read_state salience.Operation.Store.first_state
    salience.Operation.Store.operation_is_active salience.Operation.Store.owner_is_active
    salience.Operation.Store.is_within_lease salience.Cache.Guard.guarded_cache_read
    salience.Cache.Guard.guarded_cache_entry_read salience.Cache.Action.now
    salience.Cache.Action.random_text salience.Cache.Disk.read_directory
    salience.Update.State.empty_state salience.Update.State.Encode.state_bytes
    salience.Json.Print.utf8_length salience.Base.text_eq salience.Json.Print.stringify
    salience.Operation.Acquire.reserve_prepared salience.Operation.Acquire.reserve_attempts
    salience.Operation.Acquire.next_free salience.Operation.Acquire.is_occupied
    salience.Operation.Acquire.reserve_generation salience.Operation.Acquire.reserve_pending
    salience.Operation.Acquire.write_owner salience.Operation.Acquire.reserve_operation
    salience.Operation.Acquire.settle_operation salience.Operation.Acquire.acquire_operation
    salience.Cache.Change.prepare_cache_directory salience.Cache.Prefix.prepare_resolved_directory
    salience.Cache.Prefix.canonicalize_trusted_directory_prefix salience.Cache.Prefix.canonical_from
    salience.Cache.Prefix.real_path salience.Cache.Prefix.trusted_directories
    salience.Cache.Prefix.path_length salience.Cache.Change.prepare_components
    salience.Cache.Change.prepare_mkdir salience.Cache.Action.set_token
    salience.Operation.Promote.operation_is_superseded salience.Operation.Promote.any_active
    salience.Operation.Promote.has_active_pending_operation salience.Operation.Promote.promotion
    salience.Operation.Promote.after_promotion salience.Operation.Promote.promotion_step
    salience.Operation.Promote.promotion_attempts salience.Operation.Promote.promote_operation_claim
    salience.Operation.Commit.prepare_operation_claim salience.Check.read_local_release
    salience.Check.failed_check salience.Check.abandoned salience.Check.committed_operation
    salience.Check.fetch_and_commit salience.Check.owned_check salience.Check.held_check
    salience.Check.stale_check salience.Check.prepared_check salience.Check.check_for_update
    salience.Update.Decision.fresh_state_result salience.Update.Decision.is_fresh
    salience.Update.Decision.committed_failure salience.Update.Decision.state_after_failed_check
    salience.Update.State.state_with_failure_check salience.Update.Decision.next_failed_check
    salience.Update.Fetch.fetch_candidate salience.Contract.validate_local_release
    salience.Contract.has_local_identity salience.Json.is_text salience.Json.is_one
    salience.Json.get salience.Json.Keys.has_exact_keys salience.Json.has_own
    salience.Semver.release_channel_for_version salience.Semver.parse_run salience.Contract.text_or
    salience.Json.Keys.join_nul salience.Json.Keys.sort salience.Semver.compare_text
checked_run = refl

abbrev acknowledgement_options : AcknowledgeOptions
acknowledgement_options = record {
  release_path = codes "release.json" ∷ [];
  cache_directory = codes "cache" ∷ [];
  event_key =
      string
        (codes "archify@sha256:0123456789abcdef0123456789abcdef0123456789abcdef0123456789abcdef");
  monotonic_now = some clock;
}

acknowledge_update-Returns_example :
    IsReturned
      (IsAnswered (to_text acknowledgement_options.event_key))
      (acknowledge_update runtime acknowledgement_options installed)
acknowledge_update-Returns_example =
    (acknowledge_update-Returns runtime acknowledgement_options
        (λ c e. subst IsPaced (some_inj e) paced)).at
      installed

abbrev ack_arguments : List Text
ack_arguments = codes "--ack" ∷ codes "archify@sha256:0123" ∷ []

run_cli-IsReported_example :
    IsReturned
      (IsReported ack_arguments)
      (run_cli runtime options clock none ack_arguments installed)
run_cli-IsReported_example =
    (run_cli-IsReported runtime options clock paced none ack_arguments).at installed

abbrev host : Host
host = record {
  platform = codes "linux";
  home_directory = codes "home" ∷ [];
  local_app_data = none;
  xdg_cache_home = none;
}

default_run :
    default_cache_directory host ≡ codes "home" ∷ codes ".cache" ∷ codes "archify-skill" ∷ []
unfolding default_cache_directory salience.Base.text_eq
default_run = refl

invalid_run :
    (run_cli runtime options clock none (codes "--help" ∷ []) installed).0
    ≡ ok (some (silent invalid_arguments))
unfolding run_cli salience.Cache.Action.pure
invalid_run = refl
