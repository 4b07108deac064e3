-- ===== src/Operation/Commit.antt =====
-- Claims that change, and the commit of an operation: `retireActiveClaim`, `prepareOperationClaim`,
-- `discardPreparedClaim`, `operationWasFenced`, `transitionOperation`, `cancelOperation`,
-- `fenceLowerOperations` and `commitOperation`.
pub mod Containment
use salience.Base.{
  ℕ, ◌+◌, Text, codes, List, [], ◌∷◌, ◌++◌, Bool, true, false, ◌&&◌, Option, none, some, ltb, keep,
  if◌then◌else◌,
}
use salience.Json.{Value, undefined, object, object_of, string, integer, pos}
use salience.Json.Print.{stringify, utf8_length, decimal}
use salience.Cache.Disk.{FilePath, Metadata, enoent, eexist, enotempty, eperm}
use salience.Cache.Action.{
  Action, Failure, errno, operation_race, failed, pure, throw, catch, ◌>>=◌, ◌>>◌, random_text,
}
use salience.Cache.Guard.{
  safe_directory, safe_regular_file, renameable_cache_entry, lstat, is_enoent, guarded_cache_read,
  stable_cache_entry,
}
use salience.Cache.Change.{
  cache_mkdir, cache_write_file, cache_rename, cache_rm, is_eexist, is_operation_race,
}
use salience.Update.State.{State}
use salience.Update.State.Encode.{encode_recoverable_state, state_bytes}
use salience.Operation.Name.{
  OperationKind, kind_text, committed, fenced, cancelled, padded, operation_name,
}
use salience.Operation.Store.{Operation, is_pending, list_operations, read_state, sort_operations}
use salience.Operation.Claim.{HeldOperation, active_claim, operation_owns_active_claim}

abbrev pub child : FilePath → Text → FilePath
child directory name = directory ++ (name ∷ [])

-- An error that leaves the answer `false`.
abbrev pub false_on : (Failure → Bool) → Action Bool → Action Bool
false_on p m = catch m λ e. if p e then pure false else throw e

abbrev pub is_lost : Failure → Bool
is_lost e = if is_operation_race e then true else is_enoent e

abbrev pub is_raced : Failure → Bool
is_raced e = elim e [
  | operation_race ↦ true
  | errno n ↦ elim n [ enoent ↦ true | eexist ↦ true | enotempty ↦ true | eperm ↦ true | _ ↦ false ]
  | _ ↦ false
]

abbrev pub unless_there : Action (Unit {0}) → Action (Unit {0})
unless_there m = catch m λ e. if is_eexist e then pure tt else throw e

abbrev pub ignored : Metadata → Action (Unit {0})
ignored m = pure tt

-- The guard's text is no JSON.
unfoldable pub guard_claim : FilePath → Text → Action (Unit {0})
guard_claim claim key = unless_there do
  m ← cache_write_file (child claim (codes ".retirement-guard")) (utf8_length key + 1) undefined
  pure tt

-- The three attempts of `retireActiveClaim`, each with the rest behind it.
unfoldable pub retire_into : FilePath → FilePath → Option Metadata → Action Bool
retire_into claim retirement metadata = false_on is_raced do
  m ← cache_rename claim (child retirement (codes "active")) renameable_cache_entry metadata
  pure true

unfoldable pub guarded_retirement : FilePath → FilePath → Text → Option Metadata → Action Bool
guarded_retirement claim retirement key metadata = do
  goes_on ←
      false_on is_lost
        do m ← lstat claim; if safe_directory m then guard_claim claim key else pure tt; pure true
  if goes_on then retire_into claim retirement metadata else pure false

-- `retireActiveClaim`
unfoldable pub retire_active_claim : FilePath → Text → Metadata → Action Bool
retire_active_claim cache_directory key metadata =
    let retirement = child cache_directory (codes "retired-claim-" ++ key) in
    do
      unless_there (cache_mkdir retirement)
      made ← false_on is_lost (do m ← lstat retirement; pure (safe_directory m))
      if made
          then guarded_retirement (active_claim cache_directory) retirement key (some metadata)
          else pure false

abbrev pub claim_directory : FilePath → HeldOperation → FilePath
claim_directory cache_directory operation =
    child cache_directory (operation_name (codes "claim") operation.generation)

abbrev owner_value : ℕ → HeldOperation → Value
owner_value pid operation = object (
    object_of (
      (codes "pid", integer (pos pid))
      ∷ (codes "token", string operation.token)
      ∷ (codes "generation", string (decimal operation.generation))
      ∷ []))

-- `prepareOperationClaim`
unfoldable pub prepare_operation_claim : ℕ → FilePath → HeldOperation → Action (Unit {0})
prepare_operation_claim pid cache_directory operation =
    let directory = claim_directory cache_directory operation in
    let owner = owner_value pid operation in
    do
      cache_mkdir directory
      m ←
          cache_write_file (child directory (codes "owner.json"))
            (utf8_length (stringify owner) + 1) owner
      pure tt

abbrev pub unless_gone : Action (Unit {0}) → Action (Unit {0})
unless_gone m = catch m λ e. if is_enoent e then pure tt else throw e

abbrev discarded_name : HeldOperation → Text
discarded_name operation =
    codes "discarded-claim-" ++ padded (decimal operation.generation) ++ (b'-' ∷ operation.token)

-- `discardPreparedClaim`, of a claim that is prepared.
unfoldable pub discard_prepared_claim : FilePath → HeldOperation → Action (Unit {0})
discard_prepared_claim cache_directory operation = unless_gone do
  m ←
      cache_rename (claim_directory cache_directory operation)
        (child cache_directory (discarded_name operation)) safe_directory none
  pure tt

-- `transitionOperation`
unfoldable pub transition_operation : FilePath → FilePath → ℕ → OperationKind → Action (Unit {0})
transition_operation cache_directory directory generation kind = do
  m ←
      cache_rename directory (child cache_directory (operation_name (kind_text kind) generation))
        safe_directory none
  pure tt

-- `cancelOperation`
unfoldable pub cancel_operation : FilePath → HeldOperation → Action (Unit {0})
cancel_operation cache_directory operation =
    unless_gone
      (transition_operation cache_directory operation.directory operation.generation cancelled)

-- The loop of `fenceLowerOperations`.
unfoldable pub fence_operations : FilePath → List Operation → Action (Unit {0})
fence_operations cache_directory [] = pure tt
fence_operations cache_directory (o ∷ operations) = do
  unless_gone (transition_operation cache_directory o.directory o.generation fenced)
  fence_operations cache_directory operations

unfoldable pub fence_lower_operations : FilePath → HeldOperation → Action (Unit {0})
fence_lower_operations cache_directory operation = do
  operations ← list_operations cache_directory
  fence_operations cache_directory (
      sort_operations ltb
        (keep (λ o. is_pending o.kind && ltb o.generation operation.generation) operations))

-- `operationWasFenced`
unfoldable pub operation_was_fenced : FilePath → HeldOperation → Action Bool
operation_was_fenced cache_directory operation = guarded_cache_read do
  there ← false_on is_enoent (do m ← lstat operation.directory; pure true)
  if there
      then pure false
      else false_on is_enoent (do
        m ←
            stable_cache_entry
              (child cache_directory (operation_name (codes "fenced") operation.generation))
              safe_directory none true
        pure true)

-- What a change of the state decides: no state to write, or a state with its result and a fallback.
pub record Decision (R : Type 0) : Type 0 where
  pub state : Option State
  pub result : R
  pub fallback : Option (State × R)

-- `check-in-progress` of an operation that was fenced, the result of the decision, or
-- `cache-unavailable`.
pub data Commit (R : Type 0) : Type 0 where
  superseded : Commit R
  finished : R → Commit R
  unavailable : Commit R

-- `mutate(state)`, where `none` is an error that it throws.
abbrev pub decided : {R : Type 0} → Option R → Action R
decided none = throw failed
decided (some d) = pure d

-- The state to write, with its encoding and result: the fallback where the first one does not fit.
abbrev pub encoded : {R : Type 0} → State → R → Option (State × Value × R)
encoded state result = elim (encode_recoverable_state state) [
  | none ↦ none
  | some v ↦ some (state, v, result)
]

abbrev pub fallen_back : {R : Type 0} → Option (State × R) → Option (State × Value × R)
fallen_back none = none
fallen_back (some (state, result)) = encoded state result

abbrev pub or_else :
    {R : Type 0}
    → Option (State × Value × R)
    → Option (State × Value × R)
    → Option (State × Value × R)
or_else (some x) other = some x
or_else none other = other

unfoldable pub chosen : {R : Type 0} → State → R → Option (State × R) → Option (State × Value × R)
chosen state result fallback = or_else (encoded state result) (fallen_back fallback)

-- The last part of `commitOperation`: the state goes into a temporary file, and this into its place.
unfoldable pub write_state :
    {R : Type 0} → FilePath → HeldOperation → FilePath → State × Value × R → Action (Commit R)
write_state cache_directory operation temporary (state, value, result) =
    catch
      (do
        m ← cache_write_file temporary (state_bytes state) value
        n ←
            cache_rename temporary (child operation.directory (codes "state.json"))
              safe_regular_file none
        transition_operation cache_directory operation.directory operation.generation committed
        pure (finished result))
      λ e. do
        was_fenced ← operation_was_fenced cache_directory operation
        if was_fenced
            then pure superseded
            else (do catch (cache_rm temporary) (λ e'. pure tt); throw e)

unfoldable pub commit_chosen :
    {R : Type 0} → FilePath → HeldOperation → Option (State × Value × R) → Action (Commit R)
commit_chosen cache_directory operation none = do
  cancel_operation cache_directory operation
  pure unavailable
commit_chosen cache_directory operation (some written) = do
  random ← random_text
  write_state cache_directory operation
      (child operation.directory (codes ".state." ++ random ++ codes ".tmp")) written

unfoldable pub commit_decision :
    {R : Type 0}
    → FilePath
    → HeldOperation
    → Option State
    → R
    → Option (State × R)
    → Action (Commit R)
commit_decision cache_directory operation none result fallback = do
  cancel_operation cache_directory operation
  pure (finished result)
commit_decision cache_directory operation (some state) result fallback =
    commit_chosen cache_directory operation (chosen state result fallback)

unfoldable pub commit_owned :
    {R : Type 0}
    → FilePath
    → HeldOperation
    → Option Text
    → (State → Option (Decision R))
    → Action (Commit R)
commit_owned cache_directory operation installed_version mutate = do
  state ← read_state cache_directory installed_version
  decision ← decided (mutate state)
  commit_decision cache_directory operation decision.state decision.result decision.fallback

-- `commitOperation`. The temporary file's name also holds the process number.
unfoldable pub commit_operation :
    {R : Type 0}
    → (Metadata → Text)
    → FilePath
    → HeldOperation
    → Option Text
    → (State → Option (Decision R))
    → Action (Commit R)
commit_operation fingerprint cache_directory operation installed_version mutate = do
  owns ← operation_owns_active_claim fingerprint cache_directory operation
  if owns
      then (do
        fence_lower_operations cache_directory operation
        still ← operation_owns_active_claim fingerprint cache_directory operation
        if still
            then commit_owned cache_directory operation installed_version mutate
            else (do cancel_operation cache_directory operation; pure superseded))
      else (do cancel_operation cache_directory operation; pure superseded)
