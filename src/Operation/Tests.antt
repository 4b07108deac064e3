-- ===== src/Operation/Tests.antt =====
-- Runs of the operations, on a disk that other processes leave alone.
use salience.Base.{
  ◌≡◌, refl, ℕ, ◌^◌, ◌<◌, Text, codes, some, none, Option, true, false, Bool, [], ◌∷◌, List, arith,
}
use salience.Base.Result.{ok}
use salience.Json.{Value, object, object_of, string, integer, pos}
use salience.Cache.Disk.{FilePath, Metadata, Node, Disk, Kind}
use salience.Cache.Action.{World, Environment, Token, Change, Failure}
use salience.Cache.Action.Rules.{After}
use salience.Cache.Change.Below.{Contained}
use salience.Update.State.{State, empty_state}
use salience.Operation.Name.{pending, operation_name, parse_operation_name, kind_text}
use salience.Operation.Name.Roundtrip.{parse_operation_name-operation_name}
use salience.Operation.Claim.{HeldOperation}
use salience.Operation.Commit.{Decision, Commit, finished, commit_operation, retire_active_claim}
use salience.Operation.Commit.Containment.{Finished, IsDecided, commit_operation-Contained}
use salience.Operation.Samples.{cache, world, contained, held, fingerprint}

parse_operation_name-operation_name_example :
    parse_operation_name (operation_name (kind_text pending) 12) ≡ some (pending, 12)
parse_operation_name-operation_name_example =
    parse_operation_name-operation_name pending 12 (omega arith)

-- A change that writes the state as it was read.
abbrev unchanged : State → Option (Decision ℕ)
unchanged s = some (record { state = some s; result = 5; fallback = none })

committed_run :
    (commit_operation fingerprint cache held (some (codes "2.1.0")) unchanged world).0
    ≡ ok (finished 5)
unfolding salience.Cache.Change.change_run salience.Update.State.Encode.encode_run
    salience.Json.Print.stringify_run salience.Operation.Commit.cancel_operation
    salience.Operation.Commit.commit_operation salience.Operation.Commit.commit_owned
    salience.Operation.Commit.commit_decision salience.Operation.Commit.commit_chosen
    salience.Operation.Commit.chosen salience.Operation.Commit.write_state
    salience.Operation.Commit.transition_operation salience.Operation.Commit.fence_lower_operations
    salience.Operation.Commit.fence_operations salience.Operation.Commit.operation_was_fenced
    salience.Operation.Claim.operation_owns_active_claim
    salience.Operation.Claim.inspect_active_claim salience.Operation.Claim.present_claim
    salience.Operation.Claim.entered_claim salience.Operation.Claim.read_owner
    salience.Operation.Claim.owned_claim salience.Operation.Claim.pending_claim
    salience.Operation.Claim.corrupt_claim_status salience.Operation.Claim.validate_claim_owner
    salience.Operation.Store.read_json_file salience.Operation.Store.open_read
    salience.Operation.Store.handle_read salience.Cache.Change.handle_stat
    salience.Operation.Store.readdir salience.Operation.Store.list_operations
    salience.Operation.Store.operation_entries salience.Operation.Store.operation_entry
    salience.Operation.Name.parse_operation_name salience.Operation.Name.operation_name
    salience.Operation.Name.kind_text salience.Json.Print.decimal salience.Json.Print.decimal_onto
    salience.Semver.split_first salience.Semver.is_digit salience.Contract.is_hex_of
    salience.Contract.is_hex salience.Json.Keys.has_only_keys salience.Json.keys
    salience.Base.includes salience.Json.get_field salience.Json.as_count salience.Json.as_text
    salience.Operation.Store.read_state salience.Operation.Store.first_state
    salience.Operation.Store.operation_is_active salience.Operation.Store.owner_is_active
    salience.Operation.Store.is_within_lease salience.Cache.Guard.guarded_cache_read
    salience.Cache.Guard.guarded_cache_entry_read salience.Cache.Action.now
    salience.Cache.Action.random_text salience.Cache.Disk.read_directory
    salience.Update.State.empty_state salience.Update.State.Encode.state_bytes
    salience.Json.Print.utf8_length salience.Base.text_eq salience.Json.Print.stringify
committed_run = refl

commit_operation-Contained_example :
    After
      (Contained cache)
      (Finished cache (IsDecided cache unchanged))
      (commit_operation fingerprint cache held (some (codes "2.1.0")) unchanged world)
commit_operation-Contained_example =
    (commit_operation-Contained cache unchanged fingerprint cache held (some (codes "2.1.0"))).at
      world contained
