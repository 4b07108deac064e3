-- ===== src/Operation/Claim.antt =====
-- The active claim: `validateClaimOwner`, `corruptClaimStatus`, `inspectActiveClaim`,
-- `retireActiveClaim`, `prepareOperationClaim`, `discardPreparedClaim`, `promoteOperationClaim` and
-- `operationOwnsActiveClaim`.
use salience.Base
use salience.Base.{
  ℕ, zero, suc, ◌+◌, Text, codes, text_eq, List, [], ◌∷◌, ◌++◌, Bool, true, false, not, ◌&&◌, ◌||◌,
  Option, none, some, leb, ltb, ◌==◌, any, every, length, guard, if◌then◌else◌,
}
use salience.Json.{Value, object, get_field, as_text, as_count}
use salience.Json.Print.{decimal}
use salience.Json.Keys.{has_only_keys}
use salience.Semver.{is_digit}
use salience.Semver.Numbers.{number}
use salience.Contract.{is_hex_of}
use salience.Cache.Disk.{FilePath, Metadata}
use salience.Cache.Action.{Action, Failure, identity_changed, pure, throw, catch, ◌>>=◌}
use salience.Cache.Guard.{
  safe_directory, bounded_regular_file, lstat, is_enoent, guarded_cache_read,
  guarded_cache_entry_read,
}
use salience.Operation.Name.{OperationKind}
use salience.Operation.Store.{
  Operation, is_pending, is_settled, read_json_file, list_operations, operation_is_active,
  is_within_lease,
}

abbrev pub max_claim_owner_bytes : ℕ
max_claim_owner_bytes = 1024

pub record Owner : Type 0 where
  pub token : Text
  pub generation : ℕ

abbrev is_positive : Text → Bool
is_positive [] = false
is_positive (c ∷ cs) = is_digit c && not (c == b'0') && every is_digit cs

abbrev owner_keys : List Text
owner_keys = codes "pid" ∷ codes "token" ∷ codes "generation" ∷ []

-- `validateClaimOwner`; the process number is tested and never read again.
unfoldable pub validate_claim_owner : Value → Option Owner
validate_claim_owner (object fs) =
    if has_only_keys fs owner_keys
    then Base.◌>>=◌ (as_count (get_field (codes "pid") fs)) (λ pid.
      Base.◌>>=◌ (as_text (get_field (codes "token") fs)) (λ token.
        Base.◌>>=◌ (as_text (get_field (codes "generation") fs)) (λ generation.
          if ltb 0 pid && is_hex_of 32 token && is_positive generation
          then some (record { token = token; generation = number generation })
          else none)))
    else none
validate_claim_owner _ = none

pub data ClaimStatus : Type 0 where
  absent : ClaimStatus
  busy : Option Owner → ClaimStatus
  releasable : (metadata : Metadata) (key : Text) → Option Owner → ClaimStatus

abbrev pub active_claim : FilePath → FilePath
active_claim cache_directory = cache_directory ++ (codes "active-claim" ∷ [])

-- The operation that a process holds.
pub record HeldOperation : Type 0 where
  pub generation : ℕ
  pub token : Text
  pub directory : FilePath

abbrev pub is_identity_change : Failure → Bool
is_identity_change e = elim e [ identity_changed ↦ true | _ ↦ false ]

abbrev pub catch_none {ℓ} : {A : Type ℓ} → Failure → Action (Option A)
catch_none e = if is_identity_change e then throw e else pure none

abbrev pub same_generation : (OperationKind → Bool) → ℕ → Operation → Bool
same_generation p generation o = o.generation == generation && p o.kind

abbrev pub find_pending : ℕ → List Operation → Option Operation
find_pending generation [] = none
find_pending generation (o ∷ os) =
    if is_pending o.kind && o.generation == generation then some o else find_pending generation os

-- `fingerprint` is the hash of the identity of a directory.
module _ (fingerprint : Metadata → Text) where
  unfoldable pub corrupt_claim_status : Metadata → Metadata → Action ClaimStatus
  corrupt_claim_status directory_metadata owner_metadata = do
    fresh ← is_within_lease owner_metadata
    pure (
        if fresh
        then busy none
        else releasable directory_metadata (codes "corrupt-" ++ fingerprint directory_metadata)
            none)

  abbrev pub released : Metadata → Owner → ClaimStatus
  released metadata owner = releasable metadata (decimal owner.generation) (some owner)

  -- A claim whose owner was read: its pending operation, or none.
  unfoldable pub pending_claim : Metadata → Metadata → Owner → Option Operation → Action ClaimStatus
  pending_claim metadata owner_metadata owner none = corrupt_claim_status metadata owner_metadata
  pending_claim metadata owner_metadata owner (some o) = do
    active ← operation_is_active o.directory
    pure (if active then busy (some owner) else released metadata owner)

  unfoldable pub owned_claim : FilePath → Metadata → Metadata → Option Owner → Action ClaimStatus
  owned_claim cache_directory metadata owner_metadata none =
      corrupt_claim_status metadata owner_metadata
  owned_claim cache_directory metadata owner_metadata (some owner) = do
    operations ← list_operations cache_directory
    if any (same_generation is_settled owner.generation) operations
        then pure (released metadata owner)
        else pending_claim metadata owner_metadata owner (find_pending owner.generation operations)

  abbrev pub owner_path : FilePath → FilePath
  owner_path cache_directory = active_claim cache_directory ++ (codes "owner.json" ∷ [])

  -- The metadata of the owner's file, where it is there, and the owner, where it is valid.
  unfoldable pub read_owner : FilePath → Metadata → Action (Option Owner)
  read_owner path owner_metadata =
      catch
        (do
          value ← read_json_file path max_claim_owner_bytes (some owner_metadata)
          pure (validate_claim_owner value))
        catch_none

  unfoldable pub entered_claim : FilePath → Metadata → Option Metadata → Action ClaimStatus
  entered_claim cache_directory metadata none = owned_claim cache_directory metadata metadata none
  entered_claim cache_directory metadata (some owner_metadata) =
      if bounded_regular_file max_claim_owner_bytes owner_metadata
      then (do
        owner ← read_owner (owner_path cache_directory) owner_metadata
        owned_claim cache_directory metadata owner_metadata owner)
      else corrupt_claim_status metadata owner_metadata

  abbrev pub found_metadata : FilePath → Action (Option Metadata)
  found_metadata path = do m ← lstat path; pure (some m)

  unfoldable pub present_claim : FilePath → Option Metadata → Action ClaimStatus
  present_claim cache_directory none = pure absent
  present_claim cache_directory (some m) =
      if safe_directory m
      then guarded_cache_entry_read (active_claim cache_directory) safe_directory
          (λ metadata. do
            owner_metadata ← catch (found_metadata (owner_path cache_directory)) catch_none
            entered_claim cache_directory metadata owner_metadata)
          (some m)
      else corrupt_claim_status m m

  -- `inspectActiveClaim`
  unfoldable pub inspect_active_claim : FilePath → Action ClaimStatus
  inspect_active_claim cache_directory = guarded_cache_read do
    m ←
        catch (found_metadata (active_claim cache_directory))
          λ e. if is_enoent e then pure none else throw e
    present_claim cache_directory m

  abbrev pub is_owned : HeldOperation → ClaimStatus → Bool
  is_owned operation (busy (some owner)) =
      owner.generation == operation.generation && text_eq owner.token operation.token
  is_owned operation _ = false

  -- `operationOwnsActiveClaim`
  unfoldable pub operation_owns_active_claim : FilePath → HeldOperation → Action Bool
  operation_owns_active_claim cache_directory operation = do
    active ← inspect_active_claim cache_directory
    pure (is_owned operation active)
