-- ===== src/Operation/Acquire.antt =====
-- How a process comes to hold an operation: `reserveOperation` and `acquireOperation`.
pub mod Search
pub mod Reserved
pub mod Containment
mod Tests
use salience.Base.{
  ℕ, zero, suc, ◌+◌, ◌^◌, ◌-◌, Text, codes, List, [], ◌∷◌, Bool, true, false, ◌||◌, Option, none,
  some, ltb, ◌==◌, length, map, if◌then◌else◌,
}
use salience.Json.{Value, object, object_of, string, integer, pos}
use salience.Json.Print.{stringify, utf8_length}
use salience.Cache.Disk.{FilePath, Metadata}
use salience.Cache.Action.{
  Action, Failure, fenced, failed, pure, throw, catch, ◌>>=◌, ◌>>◌, random_text,
}
use salience.Cache.Guard.{safe_directory}
use salience.Cache.Change.{cache_mkdir, cache_write_file, cache_rename, is_eexist}
use salience.Cache.Prefix.{Roots, prepare_resolved_directory}
use salience.Operation.Name.{operation_name}
use salience.Operation.Store.{list_operations}
use salience.Operation.Claim.{ClaimStatus, busy, HeldOperation, inspect_active_claim}
use salience.Operation.Commit.{child, operation_was_fenced, cancel_operation}
use salience.Operation.Promote.{
  operation_is_superseded, has_active_pending_operation, promote_operation_claim,
}

abbrev pub max_operation_generation : ℕ
max_operation_generation = 10 ^ 20 - 1

-- `occupied.has(generation)`
unfoldable pub is_occupied : List ℕ → ℕ → Bool
is_occupied [] generation = false
is_occupied (g ∷ occupied) generation = g == generation || is_occupied occupied generation

-- `while (occupied.has(generation.toString())) generation += 1n`, on fuel.
unfoldable pub next_free : ℕ → List ℕ → ℕ → ℕ
next_free zero occupied generation = generation
next_free (suc fuel) occupied generation =
    let rest = next_free fuel occupied (suc generation) in
    if is_occupied occupied generation then rest else generation

abbrev pub pending_directory : FilePath → ℕ → FilePath
pending_directory cache_directory generation =
    child cache_directory (operation_name (codes "pending") generation)

abbrev pub reserver_value : ℕ → Text → Value
reserver_value pid token =
    object (object_of ((codes "pid", integer (pos pid)) ∷ (codes "token", string token) ∷ []))

-- A directory that is there already sends the loop on, with the next generation.
abbrev pub unless_taken : Action (Option HeldOperation) → Action (Option HeldOperation)
unless_taken m = catch m λ e. if is_eexist e then pure none else throw e

abbrev pub reserved_or :
    Option HeldOperation → Action (Option HeldOperation) → Action (Option HeldOperation)
reserved_or (some operation) next = pure (some operation)
reserved_or none next = next

abbrev pub is_fenced : Failure → Bool
is_fenced e = elim e [ fenced ↦ true | _ ↦ false ]

abbrev pub is_busy : ClaimStatus → Bool
is_busy c = elim c [ busy owner ↦ true | _ ↦ false ]

module _ (pid : ℕ) (cache_directory : FilePath) where
  -- The file of the owner could not be written.
  unfoldable pub reservation_failed : HeldOperation → Failure → Action (Option HeldOperation)
  reservation_failed operation e = do
    was_fenced ← operation_was_fenced cache_directory operation
    if was_fenced then throw fenced else (do
      catch
          (do
            m ←
                cache_rename operation.directory
                  (child cache_directory (operation_name (codes "cancelled") operation.generation))
                  safe_directory none
            pure tt)
          (λ e'. pure tt)
      throw e)

  unfoldable pub write_owner : HeldOperation → Action (Option HeldOperation)
  write_owner operation =
      let owner = reserver_value pid operation.token in
      catch
        (do
          m ←
              cache_write_file (child operation.directory (codes "owner.json"))
                (utf8_length (stringify owner) + 1) owner
          pure (some operation))
        (reservation_failed operation)

  unfoldable pub reserve_pending : ℕ → Action (Option HeldOperation)
  reserve_pending generation =
      let directory = pending_directory cache_directory generation in
      do
        cache_mkdir directory
        token ← random_text
        write_owner (record { generation = generation; token = token; directory = directory })

  -- One round of the loop: `none` where it continues with the next generation.
  unfoldable pub reserve_generation : ℕ → Action (Option HeldOperation)
  reserve_generation generation = do
    made ←
        catch
          (do
            cache_mkdir (child cache_directory (operation_name (codes "reserved") generation))
            pure true)
          λ e. if is_eexist e then pure false else throw e
    if made then unless_taken (reserve_pending generation) else pure none

  -- `while (true)`; `none` where the fuel runs out.
  unfoldable pub reserve_attempts : ℕ → List ℕ → ℕ → Action (Option HeldOperation)
  reserve_attempts zero occupied generation = pure none
  reserve_attempts (suc fuel) occupied generation =
      let free = next_free (length occupied) occupied generation in
      if ltb max_operation_generation free then throw failed else (do
        reserved ← reserve_generation free
        reserved_or reserved (reserve_attempts fuel (free ∷ occupied) (suc free)))

  -- The part of `reserveOperation` behind the preparation of the directory.
  unfoldable pub reserve_prepared : Action (Option HeldOperation)
  reserve_prepared = do
    operations ← list_operations cache_directory
    reserve_attempts (suc max_operation_generation) (map (λ o. o.generation) operations) 1

  module _ (fingerprint : Metadata → Text) where
    -- The operation is kept if it is the highest one and its claim becomes the active one.
    unfoldable pub settle_operation : Option HeldOperation → Action (Option HeldOperation)
    settle_operation none = pure none
    settle_operation (some operation) = do
      superseded ← operation_is_superseded cache_directory operation
      promoted ←
          if superseded
          then pure false
          else promote_operation_claim fingerprint cache_directory operation pid
      if promoted
          then pure (some operation)
          else (do cancel_operation cache_directory operation; pure none)

module _ (roots : Roots) (pid : ℕ) where
  -- `reserveOperation`
  unfoldable pub reserve_operation : FilePath → Action (Option HeldOperation)
  reserve_operation requested = do
    cache_directory ← prepare_resolved_directory roots requested
    reserve_prepared pid cache_directory

  -- `acquireOperation`
  unfoldable pub acquire_operation : FilePath → (Metadata → Text) → Action (Option HeldOperation)
  acquire_operation requested fingerprint = do
    cache_directory ← prepare_resolved_directory roots requested
    active ← inspect_active_claim fingerprint cache_directory
    waiting ← if is_busy active then pure true else has_active_pending_operation cache_directory
    if waiting then pure none else (do
      reserved ←
          catch (reserve_operation cache_directory) λ e. if is_fenced e then pure none else throw e
      settle_operation pid cache_directory fingerprint reserved)
