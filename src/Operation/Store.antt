-- ===== src/Operation/Store.antt =====
-- What is read of the operations: `readJsonFile`, `listOperations`, `readState` and
-- `operationIsActive`.
use salience.Base.{
  ℕ, ◌+◌, ◌-◌, ◌*◌, Text, codes, List, [], ◌∷◌, ◌++◌, Bool, true, false, ◌&&◌, Option, none, some,
  leb, ltb, keep, if◌then◌else◌,
}
use salience.Base.Result.{ok, err}
use salience.Json.{Value}
use salience.Cache.Disk.{
  FilePath, Metadata, Node, enoent, einval, find, has_directory, read_directory, is_symlink,
}
use salience.Cache.Action.{
  Action, Failure, identity_changed, path_changed, operation_race, failed, pure, throw, catch,
  ◌>>=◌, ◌>>◌, call, now,
}
use salience.Cache.Guard.{
  is_same_file, is_expected, safe_directory, safe_regular_file, bounded_regular_file, check, lstat,
  is_enoent, invalidate_cache_token, guarded_cache_read, guarded_cache_entry_read,
}
use salience.Cache.Change.{handle_stat, handle_node}
use salience.Update.State.{State, empty_state}
use salience.Update.State.Encode.{max_cache_state_bytes}
use salience.Update.State.Normalize.{normalize_state}
use salience.Operation.Name.{
  OperationKind, pending, committed, fenced, cancelled, parse_operation_name,
}

pub record Operation : Type 0 where
  pub kind : OperationKind
  pub generation : ℕ
  pub directory : FilePath

abbrev pub is_pending : OperationKind → Bool
is_pending k = elim k [ pending ↦ true | _ ↦ false ]

abbrev pub is_committed : OperationKind → Bool
is_committed k = elim k [ committed ↦ true | _ ↦ false ]

-- Committed, fenced or cancelled.
abbrev pub is_settled : OperationKind → Bool
is_settled k = elim k [ committed ↦ true | fenced ↦ true | cancelled ↦ true | _ ↦ false ]

-- `fs.open` for reading, which does not follow links, and what the handle reads.
unfoldable pub open_read : FilePath → Action Node
open_read p = call [] λ m d. elim (find p d) [
  | none ↦ err enoent
  | some n ↦ if is_symlink n.meta then err einval else ok (n, d)
]

unfoldable pub handle_read : Node → Action Node
handle_read h = call [] λ m d. elim (handle_node h.meta d) [ none ↦ ok (h, d) | some n ↦ ok (n, d) ]

abbrev pub json_value : Option Value → Action Value
json_value none = throw failed
json_value (some v) = pure v

-- `readJsonFile`
unfoldable pub read_json_file : FilePath → ℕ → Option Metadata → Action Value
read_json_file target max_bytes expected = do
  path_metadata ← lstat target
  check (is_expected expected path_metadata) identity_changed
  check (bounded_regular_file max_bytes path_metadata) failed
  handle ← open_read target
  handle_metadata ← handle_stat handle.meta
  current ← lstat target
  check (bounded_regular_file max_bytes handle_metadata) failed
  check (bounded_regular_file max_bytes current) failed
  check (is_same_file path_metadata handle_metadata && is_same_file current handle_metadata)
      identity_changed
  read ← handle_read handle
  check (leb read.meta.size max_bytes) failed
  json_value read.content

-- `fs.readdir` with the types of the entries.
unfoldable pub readdir : FilePath → Action (List (Text × Metadata))
readdir p = call [] λ m d. if has_directory p d then ok (read_directory p d, d) else err enoent

-- One entry: no operation, an operation, or an operation's name on something else.
unfoldable pub operation_entry :
    FilePath → Text → Metadata → Option (OperationKind × ℕ) → Action (List Operation)
operation_entry parent name m none = pure []
operation_entry parent name m (some (kind, generation)) =
    if safe_directory m
    then pure
        (record { kind = kind; generation = generation; directory = parent ++ (name ∷ []) } ∷ [])
    else invalidate_cache_token

unfoldable pub operation_entries : FilePath → List (Text × Metadata) → Action (List Operation)
operation_entries parent [] = pure []
operation_entries parent ((name, m) ∷ entries) = do
  here ← operation_entry parent name m (parse_operation_name name)
  more ← operation_entries parent entries
  pure (here ++ more)

-- `listOperations`
unfoldable pub list_operations : FilePath → Action (List Operation)
list_operations cache_directory = guarded_cache_read (
    catch (do entries ← readdir cache_directory; operation_entries cache_directory entries)
      (λ e. if is_enoent e then pure [] else throw e))

-- `sort` with the highest generation first, and with the lowest.
abbrev insert_operation : (ℕ → ℕ → Bool) → Operation → List Operation → List Operation
insert_operation before x [] = x ∷ []
insert_operation before x (y ∷ ys) =
    let rest = insert_operation before x ys in
    if before y.generation x.generation then y ∷ rest else x ∷ y ∷ ys

abbrev pub sort_operations : (ℕ → ℕ → Bool) → List Operation → List Operation
sort_operations before [] = []
sort_operations before (x ∷ xs) = insert_operation before x (sort_operations before xs)

abbrev pub higher : ℕ → ℕ → Bool
higher a b = ltb b a

-- The errors that end `readState`; the others are those of an incomplete or corrupt generation.
abbrev pub ends_read : Failure → Bool
ends_read e = elim e [
  | identity_changed ↦ true
  | path_changed ↦ true
  | operation_race ↦ true
  | _ ↦ false
]

abbrev pub skip_generation : Failure → Action (Option State)
skip_generation e = if ends_read e then throw e else pure none

unfoldable pub read_generation : Option Text → FilePath → Action (Option State)
read_generation installed_version directory =
    guarded_cache_entry_read directory safe_directory
      (λ m. do
        value ← read_json_file (directory ++ (codes "state.json" ∷ [])) max_cache_state_bytes none
        pure (normalize_state value installed_version))
      none

abbrev pub state_or : Option State → Action State → Action State
state_or (some state) next = pure state
state_or none next = next

unfoldable pub first_state : Option Text → List Operation → Action State
first_state installed_version [] = pure (empty_state installed_version)
first_state installed_version (operation ∷ operations) = do
  state ← catch (read_generation installed_version operation.directory) skip_generation
  state_or state (first_state installed_version operations)

-- `readState`
unfoldable pub read_state : FilePath → Option Text → Action State
read_state cache_directory installed_version = guarded_cache_read do
  operations ← list_operations cache_directory
  first_state installed_version
      (sort_operations higher (keep (λ o. is_committed o.kind) operations))

abbrev pub lock_stale_ns : ℕ
lock_stale_ns = 30000 * 1000000

-- `metadataIsWithinLease`
unfoldable pub is_within_lease : Metadata → Action Bool
is_within_lease m = do
  t ← now
  let age = (t * 1000000 - m.mtime) + (m.mtime - t * 1000000)
  pure (leb age lock_stale_ns)

unfoldable pub owner_is_active : FilePath → Metadata → Action Bool
owner_is_active directory directory_metadata =
    catch
      (do
        owner ← lstat (directory ++ (codes "owner.json" ∷ []))
        if safe_regular_file owner then is_within_lease owner else pure false)
      λ e. if is_enoent e then is_within_lease directory_metadata else throw e

-- `operationIsActive`
unfoldable pub operation_is_active : FilePath → Action Bool
operation_is_active directory =
    catch (guarded_cache_entry_read directory safe_directory (owner_is_active directory) none)
      λ e. if is_enoent e then pure false else throw e
