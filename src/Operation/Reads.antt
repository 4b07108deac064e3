-- ===== src/Operation/Reads.antt =====
-- What is read of the operations and of the claim changes nothing on the disk.
use salience.Base.{ℕ, Text, List, [], ◌∷◌, ◌++◌, false, Option, none, some, ◌&&◌, any, leb}
use salience.Json.{Value}
use salience.Cache.Disk.{FilePath, Metadata, Node}
use salience.Cache.Action.{World, Action, Failure, identity_changed, failed}
use salience.Cache.Action.Rules.{
  Keeps, Anything, Keeps-pure, Keeps-throw, Keeps-if, Keeps-catch, Keeps-bind, Keeps-read,
  Keeps-recover,
}
use salience.Cache.Guard.{
  is_same_file, is_expected, safe_directory, safe_regular_file, bounded_regular_file, is_enoent,
}
use salience.Cache.Guard.Steady.{Steady, Keeps-check, Keeps-lstat, Keeps-invalidate}
use salience.Cache.Guard.Reads.{Keeps-clock, Keeps-guarded, Keeps-entry_read}
use salience.Cache.Change.Mutation.{Keeps-handle_stat}
use salience.Update.State.{State, empty_state}
use salience.Operation.Name.{OperationKind, parse_operation_name}
use salience.Operation.Store.{
  Operation, open_read, handle_read, json_value, read_json_file, readdir, operation_entry,
  operation_entries, list_operations, skip_generation, ends_read, read_generation, state_or,
  first_state, read_state, is_within_lease, owner_is_active, operation_is_active, is_settled,
}
use salience.Operation.Claim.{
  Owner, is_identity_change, max_claim_owner_bytes, HeldOperation, active_claim, catch_none,
  corrupt_claim_status, pending_claim, owned_claim, owner_path, read_owner, entered_claim,
  found_metadata, present_claim, inspect_active_claim, operation_owns_active_claim, same_generation,
  find_pending,
}

module _ {P : World → Type 0} (s : Steady P) where
  Keeps-json_value : (v : Option Value) → Keeps P Anything (json_value v)
  Keeps-json_value none = Keeps-throw failed
  Keeps-json_value (some v) = Keeps-pure v tt

  Keeps-open_read : (p : FilePath) → Keeps P Anything (open_read p)
  unfolding open_read
  Keeps-open_read p = Keeps-read _ s.called

  Keeps-handle_read : (h : Node) → Keeps P Anything (handle_read h)
  unfolding handle_read
  Keeps-handle_read h = Keeps-read _ s.called

  Keeps-readdir : (p : FilePath) → Keeps P Anything (readdir p)
  unfolding readdir
  Keeps-readdir p = Keeps-read _ s.called

  pub Keeps-read_json_file :
      (target : FilePath) (max : ℕ) (expected : Option Metadata)
      → Keeps P Anything (read_json_file target max expected)
  unfolding read_json_file
  Keeps-read_json_file target max expected = Keeps-bind (Keeps-lstat s target) λ m _.
      Keeps-bind (Keeps-check (is_expected expected m) identity_changed) λ _ _.
        Keeps-bind (Keeps-check (bounded_regular_file max m) failed) λ _ _.
          Keeps-bind (Keeps-open_read target) λ h _. Keeps-bind (Keeps-handle_stat s h.meta) λ n _.
            Keeps-bind (Keeps-lstat s target) λ c _.
              Keeps-bind (Keeps-check (bounded_regular_file max n) failed) λ _ _.
                Keeps-bind (Keeps-check (bounded_regular_file max c) failed) λ _ _.
                  Keeps-bind (Keeps-check (is_same_file m n && is_same_file c n) identity_changed)
                    λ _ _. Keeps-bind (Keeps-handle_read h) λ r _.
                      Keeps-bind (Keeps-check (leb r.meta.size max) failed)
                        λ _ _. Keeps-json_value r.content

  Keeps-operation_entry :
      (d : FilePath) (name : Text) (m : Metadata) (o : Option (OperationKind × ℕ))
      → Keeps P Anything (operation_entry d name m o)
  unfolding operation_entry
  Keeps-operation_entry d name m none = Keeps-pure [] tt
  Keeps-operation_entry d name m (some o) =
      Keeps-if (safe_directory m) (λ _. Keeps-pure _ tt) (λ _. Keeps-invalidate s)

  Keeps-operation_entries :
      (d : FilePath) (l : List (Text × Metadata)) → Keeps P Anything (operation_entries d l)
  unfolding operation_entries
  Keeps-operation_entries d [] = Keeps-pure [] tt
  Keeps-operation_entries d ((name, m) ∷ l) =
      Keeps-bind (Keeps-operation_entry d name m (parse_operation_name name))
        λ here _. Keeps-bind (Keeps-operation_entries d l) λ more _. Keeps-pure (here ++ more) tt

  pub Keeps-list_operations : (d : FilePath) → Keeps P Anything (list_operations d)
  unfolding list_operations
  Keeps-list_operations d = Keeps-guarded s (
      Keeps-recover is_enoent [] tt
        (Keeps-bind (Keeps-readdir d) (λ l _. Keeps-operation_entries d l)))

  Keeps-skip_generation : (e : Failure) → Keeps P Anything (skip_generation e)
  Keeps-skip_generation e = Keeps-if (ends_read e) (λ _. Keeps-throw e) (λ _. Keeps-pure none tt)

  Keeps-read_generation : (v : Option Text) (d : FilePath) → Keeps P Anything (read_generation v d)
  unfolding read_generation
  Keeps-read_generation v d =
      Keeps-entry_read s d safe_directory none
        λ m _. Keeps-bind (Keeps-read_json_file _ _ none) (λ value _. Keeps-pure _ tt)

  Keeps-state_or :
      (o : Option State) {next : Action State}
      → Keeps P Anything next
      → Keeps P Anything (state_or o next)
  Keeps-state_or none k = k
  Keeps-state_or (some t) k = Keeps-pure t tt

  Keeps-first_state : (v : Option Text) (l : List Operation) → Keeps P Anything (first_state v l)
  unfolding first_state
  Keeps-first_state v [] = Keeps-pure (empty_state v) tt
  Keeps-first_state v (o ∷ l) =
      Keeps-bind (Keeps-catch (Keeps-read_generation v o.directory) Keeps-skip_generation)
        λ t _. Keeps-state_or t (Keeps-first_state v l)

  pub Keeps-read_state : (d : FilePath) (v : Option Text) → Keeps P Anything (read_state d v)
  unfolding read_state
  Keeps-read_state d v =
      Keeps-guarded s (Keeps-bind (Keeps-list_operations d) λ l _. Keeps-first_state v _)

  Keeps-is_within_lease : (m : Metadata) → Keeps P Anything (is_within_lease m)
  unfolding is_within_lease
  Keeps-is_within_lease m = Keeps-bind (Keeps-clock s) (λ t _. Keeps-pure _ tt)

  Keeps-owner_is_active : (d : FilePath) (m : Metadata) → Keeps P Anything (owner_is_active d m)
  unfolding owner_is_active
  Keeps-owner_is_active d m =
      Keeps-catch
        (Keeps-bind (Keeps-lstat s _) λ owner _.
          Keeps-if (safe_regular_file owner) (λ _. Keeps-is_within_lease owner)
            (λ _. Keeps-pure false tt))
        (λ e. Keeps-if (is_enoent e) (λ _. Keeps-is_within_lease m) (λ _. Keeps-throw e))

  pub Keeps-operation_is_active : (d : FilePath) → Keeps P Anything (operation_is_active d)
  unfolding operation_is_active
  Keeps-operation_is_active d =
      Keeps-recover is_enoent false tt
        (Keeps-entry_read s d safe_directory none (λ m _. Keeps-owner_is_active d m))

module _ {P : World → Type 0} (s : Steady P) (f : Metadata → Text) where
  Keeps-corrupt_claim_status : (m n : Metadata) → Keeps P Anything (corrupt_claim_status f m n)
  unfolding corrupt_claim_status
  Keeps-corrupt_claim_status m n = Keeps-bind (Keeps-is_within_lease s n) (λ _ _. Keeps-pure _ tt)

  Keeps-pending_claim :
      (m n : Metadata) (owner : Owner) (o : Option Operation)
      → Keeps P Anything (pending_claim f m n owner o)
  unfolding pending_claim
  Keeps-pending_claim m n owner none = Keeps-corrupt_claim_status m n
  Keeps-pending_claim m n owner (some o) =
      Keeps-bind (Keeps-operation_is_active s o.directory) (λ _ _. Keeps-pure _ tt)

  Keeps-owned_claim :
      (d : FilePath) (m n : Metadata) (o : Option Owner) → Keeps P Anything (owned_claim f d m n o)
  unfolding owned_claim
  Keeps-owned_claim d m n none = Keeps-corrupt_claim_status m n
  Keeps-owned_claim d m n (some owner) = Keeps-bind (Keeps-list_operations s d) λ l _.
      Keeps-if (any (same_generation is_settled owner.generation) l) (λ _. Keeps-pure _ tt)
        (λ _. Keeps-pending_claim m n owner (find_pending owner.generation l))

  Keeps-catch_none : {A : Type 0} (e : Failure) → Keeps P (Anything {A = Option A}) (catch_none e)
  Keeps-catch_none e =
      Keeps-if (is_identity_change e) (λ _. Keeps-throw e) (λ _. Keeps-pure none tt)

  Keeps-read_owner : (p : FilePath) (m : Metadata) → Keeps P Anything (read_owner f p m)
  unfolding read_owner
  Keeps-read_owner p m =
      Keeps-catch (Keeps-bind (Keeps-read_json_file s p _ (some m)) (λ _ _. Keeps-pure _ tt))
        Keeps-catch_none

  Keeps-entered_claim :
      (d : FilePath) (m : Metadata) (o : Option Metadata) → Keeps P Anything (entered_claim f d m o)
  unfolding entered_claim
  Keeps-entered_claim d m none = Keeps-owned_claim d m m none
  Keeps-entered_claim d m (some n) =
      Keeps-if (bounded_regular_file max_claim_owner_bytes n)
        (λ _.
          Keeps-bind (Keeps-read_owner (owner_path f d) n)
            (λ owner _. Keeps-owned_claim d m n owner))
        (λ _. Keeps-corrupt_claim_status m n)

  Keeps-found_metadata : (p : FilePath) → Keeps P Anything (found_metadata f p)
  Keeps-found_metadata p = Keeps-bind (Keeps-lstat s p) (λ m _. Keeps-pure (some m) tt)

  Keeps-present_claim :
      (d : FilePath) (o : Option Metadata) → Keeps P Anything (present_claim f d o)
  unfolding present_claim
  Keeps-present_claim d none = Keeps-pure _ tt
  Keeps-present_claim d (some m) =
      Keeps-if (safe_directory m)
        (λ _. Keeps-entry_read s (active_claim d) safe_directory (some m) λ n _.
          Keeps-bind (Keeps-catch (Keeps-found_metadata _) Keeps-catch_none)
            (λ o _. Keeps-entered_claim d n o))
        (λ _. Keeps-corrupt_claim_status m m)

  pub Keeps-inspect_active_claim : (d : FilePath) → Keeps P Anything (inspect_active_claim f d)
  unfolding inspect_active_claim
  Keeps-inspect_active_claim d = Keeps-guarded s (
      Keeps-bind (Keeps-recover is_enoent none tt (Keeps-found_metadata (active_claim d)))
        (λ m _. Keeps-present_claim d m))

  pub Keeps-operation_owns_active_claim :
      (d : FilePath) (o : HeldOperation) → Keeps P Anything (operation_owns_active_claim f d o)
  unfolding operation_owns_active_claim
  Keeps-operation_owns_active_claim d o =
      Keeps-bind (Keeps-inspect_active_claim d) (λ _ _. Keeps-pure _ tt)
