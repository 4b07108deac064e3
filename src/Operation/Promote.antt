-- ===== src/Operation/Promote.antt =====
-- How the claim of an operation becomes the active one: `operationIsSuperseded`,
-- `hasActivePendingOperation` and `promoteOperationClaim`.
pub mod Containment
use salience.Base.{
  ℕ, zero, suc, Text, codes, List, [], ◌∷◌, Bool, true, false, ◌||◌, Option, none, some, ltb, any,
  keep, if◌then◌else◌,
}
use salience.Base.Result.{Result, ok, err}
use salience.Cache.Disk.{FilePath, Metadata, eexist, enotempty, eperm}
use salience.Cache.Action.{Action, Failure, errno, failed, pure, throw, catch, ◌>>=◌, ◌>>◌}
use salience.Cache.Guard.{safe_directory, guarded_cache_read}
use salience.Cache.Change.{cache_rename}
use salience.Operation.Store.{Operation, is_pending, list_operations, operation_is_active}
use salience.Operation.Claim.{
  Owner, ClaimStatus, absent, busy, releasable, HeldOperation, active_claim, inspect_active_claim,
}
use salience.Operation.Commit.{
  claim_directory, retire_active_claim, prepare_operation_claim, discard_prepared_claim,
}

unfoldable pub operation_is_superseded : FilePath → HeldOperation → Action Bool
operation_is_superseded cache_directory operation = do
  operations ← list_operations cache_directory
  pure (any (λ o. ltb operation.generation o.generation) operations)

-- All pending operations are looked at, here one after the other.
unfoldable pub any_active : List Operation → Action Bool
any_active [] = pure false
any_active (o ∷ operations) = do
  active ← operation_is_active o.directory
  others ← any_active operations
  pure (active || others)

-- `hasActivePendingOperation`
unfoldable pub has_active_pending_operation : FilePath → Action Bool
has_active_pending_operation cache_directory = guarded_cache_read do
  operations ← list_operations cache_directory
  any_active (keep (λ o. is_pending o.kind) operations)

abbrev pub is_above : Option Owner → ℕ → Bool
is_above none generation = false
is_above (some owner) generation = ltb generation owner.generation

abbrev pub is_taken : Failure → Bool
is_taken e = elim e [
  | errno n ↦ elim n [ eexist ↦ true | enotempty ↦ true | eperm ↦ true | _ ↦ false ]
  | _ ↦ false
]

abbrev none_failed : Option Failure
none_failed = none

-- The loop of `promoteOperationClaim`. Its parts take what `continue` does next as `next`, and
-- whether the claim is still prepared.
module _ (fingerprint : Metadata → Text) (cache_directory : FilePath)
    (operation : HeldOperation) where
  abbrev pub discard_if : Bool → Action (Unit {0})
  discard_if true = discard_prepared_claim cache_directory operation
  discard_if false = pure tt

  abbrev pub given_up : Bool → Action Bool
  given_up prepared = do discard_if prepared; pure false

  -- The rename of the prepared claim, with the error that it throws.
  unfoldable pub promotion : Bool → Action (Option Failure)
  promotion true =
      catch
        (do
          m ←
              cache_rename (claim_directory cache_directory operation)
                (active_claim cache_directory) safe_directory none
          pure none_failed)
        (λ e. pure (some e))
  promotion false = pure (some failed)

  unfoldable pub after_race : (Bool → Action Bool) → Bool → Failure → ClaimStatus → Action Bool
  after_race next prepared e absent =
      if is_taken e then next prepared else (do discard_if prepared; throw e)
  after_race next prepared e _ = next prepared

  unfoldable pub lost_promotion : (Bool → Action Bool) → Bool → Failure → Action Bool
  lost_promotion next prepared e = do
    raced ← inspect_active_claim fingerprint cache_directory
    after_race next prepared e raced

  unfoldable pub after_promotion : (Bool → Action Bool) → Bool → Option Failure → Action Bool
  after_promotion next prepared none =
      catch (operation_is_active operation.directory) (lost_promotion next false)
  after_promotion next prepared (some e) = lost_promotion next prepared e

  unfoldable pub promotion_step : (Bool → Action Bool) → Bool → ClaimStatus → Action Bool
  promotion_step next prepared (busy owner) = given_up prepared
  promotion_step next prepared (releasable metadata key owner) =
      if is_above owner operation.generation
      then given_up prepared
      else (do retired ← retire_active_claim cache_directory key metadata; next prepared)
  promotion_step next prepared absent = do
    failure ← promotion prepared
    after_promotion next prepared failure

  unfoldable pub promotion_attempts : ℕ → Bool → Action Bool
  promotion_attempts zero prepared = given_up prepared
  promotion_attempts (suc attempts) prepared = do
    superseded ← operation_is_superseded cache_directory operation
    if superseded then given_up prepared else (do
      active ← inspect_active_claim fingerprint cache_directory
      promotion_step (λ p. promotion_attempts attempts p) prepared active)

  -- `promoteOperationClaim`
  unfoldable pub promote_operation_claim : ℕ → Action Bool
  promote_operation_claim pid = do
    prepare_operation_claim pid cache_directory operation
    promotion_attempts 8 true
