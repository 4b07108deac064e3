-- ===== src/Operation/Acquire/Tests.antt =====
-- Runs of the reservation of an operation, on a disk that other processes leave alone.
use salience.Base.{ℕ, ◌≡◌, refl, ◌≤◌, Text, codes, List, [], ◌∷◌, Option, none, some, true, false}
use salience.Base.Result.{ok}
use salience.Cache.Disk.{FilePath, Disk, Kind}
use salience.Cache.Action.{World}
use salience.Cache.Action.Rules.{After, Always, Anything}
use salience.Cache.Change.Below.{Contained}
use salience.Operation.Samples.{cache, world, directory_node}
use salience.Operation.Claim.{HeldOperation}
use salience.Operation.Acquire.{
  next_free, reserve_prepared, reserve_operation, acquire_operation, settle_operation,
}
use salience.Cache.Prefix.{Roots}
use salience.Operation.Acquire.Reserved.{IsReservedIn, Some, reserve_operation-Some}
use salience.Operation.Acquire.Containment.{reserve_prepared-Contained}

abbrev empty_world : World
empty_world = record world {
  disk =
      (cache, directory_node 2)
      ∷ (codes "cache" ∷ codes "committed-00000000000000000001" ∷ [], directory_node 3)
      ∷ [];
}

abbrev reserved_operation : HeldOperation
reserved_operation = record {
  generation = 2;
  token = codes "ab";
  directory = codes "cache" ∷ codes "pending-00000000000000000002" ∷ [];
}

reserved_run : (reserve_prepared 7 cache empty_world).0 ≡ ok (some reserved_operation)
unfolding salience.Cache.Change.change_run salience.Json.Print.stringify_run
    salience.Operation.Acquire.reserve_prepared salience.Operation.Acquire.reserve_attempts
    salience.Operation.Acquire.next_free salience.Operation.Acquire.is_occupied
    salience.Operation.Acquire.reserve_generation salience.Operation.Acquire.reserve_pending
    salience.Operation.Acquire.write_owner salience.Operation.Store.readdir
    salience.Operation.Store.list_operations salience.Operation.Store.operation_entries
    salience.Operation.Store.operation_entry salience.Operation.Name.parse_operation_name
    salience.Operation.Name.operation_name salience.Operation.Name.kind_text
    salience.Json.Print.decimal salience.Json.Print.decimal_onto salience.Semver.split_first
    salience.Semver.is_digit salience.Cache.Guard.guarded_cache_read
    salience.Cache.Disk.read_directory salience.Cache.Action.random_text
    salience.Json.Print.utf8_length salience.Base.text_eq salience.Json.Print.stringify
reserved_run = refl

next_free_run : next_free 3 (2 ∷ 1 ∷ 4 ∷ []) 1 ≡ 3
unfolding next_free salience.Operation.Acquire.is_occupied
next_free_run = refl

-- The home directory is a link to the cache.
abbrev roots : Roots
roots = record {
  home_directory = codes "home" ∷ [];
  temporary_directory = codes "tmp" ∷ [];
  resolve = λ p d. elim p [ [] ↦ ok [] | t ∷ ts ↦ ok (codes "cache" ∷ ts) ];
}

abbrev linked : FilePath
linked = codes "home" ∷ []

reserve_operation-Some_example :
    After Always (Some (IsReservedIn roots linked)) (reserve_operation roots 7 linked empty_world)
reserve_operation-Some_example = (reserve_operation-Some roots 7 linked).at empty_world tt

empty-Contained : Contained cache empty_world
empty-Contained = record { token_of = refl; below = tt }

reserve_prepared-Contained_example :
    After (Contained cache) Anything (reserve_prepared 7 cache empty_world)
reserve_prepared-Contained_example =
    (reserve_prepared-Contained cache 7 cache).at empty_world empty-Contained
