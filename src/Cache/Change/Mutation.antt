-- ===== src/Cache/Change/Mutation.antt =====
-- What the guards around a change keep and return.
use salience.Base.{ℕ, List, [], ◌∷◌, ◌++◌, any}
use salience.Json.{Value}
use salience.Cache.Disk.{FilePath, path_eq, parent, Metadata}
use salience.Cache.Action.{World, Action, failed, operation_race}
use salience.Cache.Action.Rules.{
  Keeps, Anything, Keeps-pure, Keeps-throw, Keeps-if, Keeps-catch, Keeps-bind, Keeps-then,
  Keeps-read, Keeps-current_token,
}
use salience.Cache.Guard.{safe_directory}
use salience.Cache.Guard.Steady.{
  Steady, Keeps-check, Keeps-lstat, Keeps-invalidate, Keeps-verify_snapshots,
  Keeps-verify_cache_token, Keeps-resolve,
}
use salience.Cache.Change.{
  Snapshots, snapshot_components, components_below, snapshot_parents,
  verify_mutation_parent_snapshots, capture_mutation_parent_snapshots, verify_mutation_context,
  guarded_cache_mutation, is_operation_race, handle_stat, handle_write,
}

module _ {P : World → Type 0} (s : Steady P) where
  pub Keeps-snapshot_components :
      (current components : FilePath) (l : Snapshots)
      → Keeps P Anything (snapshot_components current components l)
  unfolding snapshot_components
  Keeps-snapshot_components current [] l = Keeps-pure l tt
  Keeps-snapshot_components current (c ∷ cs) l =
      let next = current ++ (c ∷ []) in
      Keeps-if (any (λ s. path_eq s.0 next) l) (λ _. Keeps-snapshot_components next cs l)
        λ _. Keeps-bind (Keeps-lstat s next) λ m _.
          Keeps-bind (Keeps-check (safe_directory m) failed)
            λ _ _. Keeps-snapshot_components next cs (l ++ ((next, m) ∷ []))

  Keeps-snapshot_parents :
      (targets : List FilePath) (l : Snapshots) → Keeps P Anything (snapshot_parents targets l)
  unfolding snapshot_parents
  Keeps-snapshot_parents [] l = Keeps-pure l tt
  Keeps-snapshot_parents (target ∷ targets) l = Keeps-bind (Keeps-resolve s target) λ resolved _.
      Keeps-bind (Keeps-current_token (λ _ _. tt)) λ token _.
        let below = components_below token (parent resolved) in
        Keeps-bind (Keeps-snapshot_components below.0 below.1 l)
          λ more _. Keeps-snapshot_parents targets more

  pub Keeps-verify_mutation_parent_snapshots :
      (l : Snapshots) → Keeps P Anything (verify_mutation_parent_snapshots l)
  unfolding verify_mutation_parent_snapshots
  Keeps-verify_mutation_parent_snapshots l =
      Keeps-catch (Keeps-verify_snapshots s l) (λ _. Keeps-throw operation_race)

  pub Keeps-capture :
      (targets : List FilePath) → Keeps P Anything (capture_mutation_parent_snapshots targets)
  unfolding capture_mutation_parent_snapshots
  Keeps-capture targets = Keeps-bind (Keeps-verify_cache_token s) λ _ _.
      Keeps-bind (Keeps-catch (Keeps-snapshot_parents targets []) (λ _. Keeps-invalidate s)) λ l _.
        Keeps-bind (Keeps-verify_mutation_parent_snapshots l)
          λ _ _. Keeps-bind (Keeps-verify_cache_token s) (λ _ _. Keeps-pure l tt)

  pub Keeps-context : (l : Snapshots) → Keeps P Anything (verify_mutation_context l)
  unfolding verify_mutation_context
  Keeps-context l =
      Keeps-then (Keeps-verify_cache_token s)
        (Keeps-then (Keeps-verify_mutation_parent_snapshots l) (Keeps-verify_cache_token s))

  pub Keeps-handle_stat : (h : Metadata) → Keeps P Anything (handle_stat h)
  unfolding handle_stat
  Keeps-handle_stat h = Keeps-read _ s.called

  pub Keeps-handle_write :
      (h : Metadata) (bytes : ℕ) (v : Value) → Keeps P Anything (handle_write h bytes v)
  unfolding handle_write
  Keeps-handle_write h bytes v = Keeps-read _ s.called

  -- A guarded change keeps what its parts keep.
  pub Keeps-mutation {ℓ} :
      {A : Type ℓ} {R S : A → Type 0} (parents : Snapshots) {before : Action (Unit {0})}
      {mutate : Action A} {after : A → Action A}
      → Keeps P Anything before
      → Keeps P R mutate
      → ((a : A) → R a → Keeps P S (after a))
      → Keeps P S (guarded_cache_mutation parents before mutate after)
  unfolding guarded_cache_mutation
  Keeps-mutation parents before mutate after = Keeps-then (Keeps-context parents) (
      Keeps-then before (
        Keeps-bind (Keeps-catch mutate (λ e. Keeps-then (Keeps-context parents) (Keeps-throw e)))
          λ a r.
            Keeps-catch
              (Keeps-then (Keeps-context parents)
                (Keeps-bind (after a r) λ b q. Keeps-then (Keeps-context parents) (Keeps-pure b q)))
              λ e. Keeps-if (is_operation_race e) (λ _. Keeps-throw e) (λ _. Keeps-invalidate s)))
