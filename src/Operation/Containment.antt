-- ===== src/Operation/Containment.antt =====
-- Where an operation changes the disk, whatever other processes and the disk do.
use salience.Base.{ℕ, Text, List, [], ◌∷◌, Bool, true, false, Option, none, some}
use salience.Json.{Value}
use salience.Cache.Disk.{FilePath, Metadata}
use salience.Cache.Action.{Action, pure, ◌>>=◌}
use salience.Cache.Action.Rules.{
  Keeps, Anything, Keeps-pure, Keeps-if, Keeps-bind, Keeps-then, Keeps-recover,
}
use salience.Cache.Guard.{safe_directory, renameable_cache_entry, is_enoent}
use salience.Cache.Guard.Steady.{Steady, Keeps-lstat, Keeps-stable_cache_entry}
use salience.Cache.Guard.Reads.{Keeps-guarded}
use salience.Cache.Change.{cache_write_file, cache_rename, is_eexist}
use salience.Cache.Change.Below.{Contained, steady}
use salience.Cache.Change.Containment.{
  cache_mkdir-Contained, cache_write_file-Contained, cache_rename-Contained,
}
use salience.Operation.Name.{OperationKind}
use salience.Operation.Store.{Operation}
use salience.Operation.Claim.{HeldOperation}
use salience.Operation.Reads.{Keeps-list_operations}
use salience.Operation.Commit.{
  is_lost, is_raced, guard_claim, retire_into, guarded_retirement, retire_active_claim,
  prepare_operation_claim, discard_prepared_claim, transition_operation, cancel_operation,
  fence_operations, fence_lower_operations, operation_was_fenced,
}

module _ (directory : FilePath) where
  kept : Steady (Contained directory)
  kept = steady directory

  abbrev Stays {ℓ} : {A : Type ℓ} → Action A → Type 0
  Stays m = Keeps (Contained directory) Anything m

  pub renames :
      {A : Type 0} (p q : FilePath) (v : Metadata → Bool) (e : Option Metadata) (a : A)
      → Stays (do m ← cache_rename p q v e; pure a)
  renames p q v e a = Keeps-bind (cache_rename-Contained directory p q v e) (λ _ _. Keeps-pure a tt)

  writes :
      {A : Type 0} (p : FilePath) (n : ℕ) (v : Value) (a : A)
      → Stays (do m ← cache_write_file p n v; pure a)
  writes p n v a = Keeps-bind (cache_write_file-Contained directory p n v) (λ _ _. Keeps-pure a tt)

  Keeps-guard_claim : (p : FilePath) (key : Text) → Stays (guard_claim p key)
  unfolding guard_claim
  Keeps-guard_claim p key = Keeps-recover is_eexist tt tt (writes _ _ _ tt)

  Keeps-retire_into : (p q : FilePath) (m : Option Metadata) → Stays (retire_into p q m)
  unfolding retire_into
  Keeps-retire_into p q m =
      Keeps-recover is_raced false tt (renames p _ renameable_cache_entry m true)

  Keeps-guarded_retirement :
      (p q : FilePath) (key : Text) (m : Option Metadata) → Stays (guarded_retirement p q key m)
  unfolding guarded_retirement
  Keeps-guarded_retirement p q key m =
      Keeps-bind {R = Anything}
        (Keeps-recover is_lost false tt (
          Keeps-bind (Keeps-lstat kept p) λ n _.
            Keeps-then
              (Keeps-if (safe_directory n) (λ _. Keeps-guard_claim p key) (λ _. Keeps-pure tt tt))
              (Keeps-pure true tt)))
        (λ b _. Keeps-if b (λ _. Keeps-retire_into p q m) (λ _. Keeps-pure false tt))

  -- The retirement of the active claim changes nothing but what lies strictly below the directory of
  -- the token.
  pub retire_active_claim-Contained :
      (d : FilePath) (key : Text) (m : Metadata) → Stays (retire_active_claim d key m)
  unfolding retire_active_claim
  retire_active_claim-Contained d key m =
      Keeps-then (Keeps-recover is_eexist tt tt (cache_mkdir-Contained directory _)) (
        Keeps-bind {R = Anything}
          (Keeps-recover is_lost false tt
            (Keeps-bind (Keeps-lstat kept _) (λ _ _. Keeps-pure _ tt)))
          (λ b _.
            Keeps-if b (λ _. Keeps-guarded_retirement _ _ key (some m)) (λ _. Keeps-pure false tt)))

  pub Keeps-transition :
      (d p : FilePath) (g : ℕ) (k : OperationKind) → Stays (transition_operation d p g k)
  unfolding transition_operation
  Keeps-transition d p g k = renames p _ safe_directory none tt

  pub Keeps-prepare :
      (pid : ℕ) (d : FilePath) (o : HeldOperation) → Stays (prepare_operation_claim pid d o)
  unfolding prepare_operation_claim
  Keeps-prepare pid d o = Keeps-then (cache_mkdir-Contained directory _) (writes _ _ _ tt)

  pub Keeps-discard : (d : FilePath) (o : HeldOperation) → Stays (discard_prepared_claim d o)
  unfolding discard_prepared_claim
  Keeps-discard d o = Keeps-recover is_enoent tt tt (renames _ _ safe_directory none tt)

  pub Keeps-cancel : (d : FilePath) (o : HeldOperation) → Stays (cancel_operation d o)
  unfolding cancel_operation
  Keeps-cancel d o = Keeps-recover is_enoent tt tt (Keeps-transition d _ _ _)

  Keeps-fence_operations : (d : FilePath) (l : List Operation) → Stays (fence_operations d l)
  unfolding fence_operations
  Keeps-fence_operations d [] = Keeps-pure tt tt
  Keeps-fence_operations d (o ∷ l) =
      Keeps-then (Keeps-recover is_enoent tt tt (Keeps-transition d _ _ _))
        (Keeps-fence_operations d l)

  pub Keeps-fence_lower : (d : FilePath) (o : HeldOperation) → Stays (fence_lower_operations d o)
  unfolding fence_lower_operations
  Keeps-fence_lower d o =
      Keeps-bind (Keeps-list_operations kept d) (λ l _. Keeps-fence_operations d _)

  pub Keeps-was_fenced : (d : FilePath) (o : HeldOperation) → Stays (operation_was_fenced d o)
  unfolding operation_was_fenced
  Keeps-was_fenced d o = Keeps-guarded kept (
      Keeps-bind {R = Anything}
        (Keeps-recover is_enoent false tt
          (Keeps-bind (Keeps-lstat kept _) (λ _ _. Keeps-pure true tt)))
        (λ b _.
          Keeps-if b (λ _. Keeps-pure false tt)
            (λ _. Keeps-recover is_enoent false tt (
              Keeps-bind (Keeps-stable_cache_entry kept _ safe_directory none true)
                (λ _ _. Keeps-pure true tt)))))
