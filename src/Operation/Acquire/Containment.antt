-- ===== src/Operation/Acquire/Containment.antt =====
-- Where the reservation of an operation changes the disk, whatever other processes and the disk do.
use salience.Base.{ℕ, zero, suc, Text, List, ◌∷◌, true, false, Option, none, some, ltb, length}
use salience.Cache.Disk.{FilePath, Metadata}
use salience.Cache.Action.{Action, Failure, fenced, failed}
use salience.Cache.Action.Rules.{
  Keeps, Anything, Keeps-pure, Keeps-throw, Keeps-if, Keeps-catch, Keeps-bind, Keeps-then,
  Keeps-recover, Keeps-random_text,
}
use salience.Cache.Guard.{safe_directory}
use salience.Cache.Guard.Steady.{Steady}
use salience.Cache.Change.{is_eexist}
use salience.Cache.Change.Below.{Contained, steady}
use salience.Cache.Change.Containment.{cache_mkdir-Contained, cache_write_file-Contained}
use salience.Operation.Claim.{HeldOperation}
use salience.Operation.Reads.{Keeps-list_operations}
use salience.Operation.Containment.{renames, Keeps-was_fenced, Keeps-cancel}
use salience.Operation.Promote.Containment.{Keeps-superseded, promote_operation_claim-Contained}
use salience.Operation.Acquire.{
  max_operation_generation, next_free, reservation_failed, write_owner, reserve_pending,
  reserve_generation, reserved_or, reserve_attempts, reserve_prepared, settle_operation,
}

module _ (directory : FilePath) (pid : ℕ) (d : FilePath) where
  kept : Steady (Contained directory)
  kept = steady directory

  abbrev Stays {ℓ} : {A : Type ℓ} → Action A → Type 0
  Stays m = Keeps (Contained directory) Anything m

  Keeps-reservation_failed :
      (o : HeldOperation) (e : Failure) → Stays (reservation_failed pid d o e)
  unfolding reservation_failed
  Keeps-reservation_failed o e = Keeps-bind (Keeps-was_fenced directory d o) λ b _.
      Keeps-if b (λ _. Keeps-throw fenced)
        (λ _.
          Keeps-then
            (Keeps-catch (renames directory _ _ safe_directory none tt) (λ _. Keeps-pure tt tt))
            (Keeps-throw e))

  Keeps-write_owner : (o : HeldOperation) → Stays (write_owner pid d o)
  unfolding write_owner
  Keeps-write_owner o =
      Keeps-catch
        (Keeps-bind (cache_write_file-Contained directory _ _ _) (λ _ _. Keeps-pure (some o) tt))
        (Keeps-reservation_failed o)

  Keeps-reserve_pending : (g : ℕ) → Stays (reserve_pending pid d g)
  unfolding reserve_pending
  Keeps-reserve_pending g =
      Keeps-then (cache_mkdir-Contained directory _)
        (Keeps-bind (Keeps-random_text λ w p. kept.called w w.disk p) λ t _. Keeps-write_owner _)

  Keeps-reserve_generation : (g : ℕ) → Stays (reserve_generation pid d g)
  unfolding reserve_generation
  Keeps-reserve_generation g =
      Keeps-bind {R = Anything}
        (Keeps-recover is_eexist false tt
          (Keeps-then (cache_mkdir-Contained directory _) (Keeps-pure true tt)))
        λ made _.
          Keeps-if made (λ _. Keeps-recover is_eexist none tt (Keeps-reserve_pending g))
            (λ _. Keeps-pure none tt)

  Keeps-reserved_or :
      (r : Option HeldOperation) {next : Action (Option HeldOperation)}
      → Stays next
      → Stays (reserved_or r next)
  Keeps-reserved_or none k = k
  Keeps-reserved_or (some o) k = Keeps-pure (some o) tt

  Keeps-reserve_attempts :
      (fuel : ℕ) (occupied : List ℕ) (g : ℕ) → Stays (reserve_attempts pid d fuel occupied g)
  unfolding reserve_attempts
  Keeps-reserve_attempts zero occupied g = Keeps-pure none tt
  Keeps-reserve_attempts (suc fuel) occupied g =
      let free = next_free (length occupied) occupied g in
      Keeps-if (ltb max_operation_generation free) (λ _. Keeps-throw failed)
        λ _.
          Keeps-bind (Keeps-reserve_generation free)
            λ r _. Keeps-reserved_or r (Keeps-reserve_attempts fuel (free ∷ occupied) (suc free))

  -- The reservation of an operation, behind the preparation of the cache directory, changes nothing
  -- but what lies strictly below the directory of the token.
  pub reserve_prepared-Contained : Stays (reserve_prepared pid d)
  unfolding reserve_prepared
  reserve_prepared-Contained =
      Keeps-bind (Keeps-list_operations kept d)
        λ operations _. Keeps-reserve_attempts (suc max_operation_generation) _ 1

  -- What becomes of a reserved operation changes nothing but what lies strictly below the directory
  -- of the token.
  pub settle_operation-Contained :
      (f : Metadata → Text) (r : Option HeldOperation) → Stays (settle_operation pid d f r)
  unfolding settle_operation
  settle_operation-Contained f none = Keeps-pure none tt
  settle_operation-Contained f (some o) =
      Keeps-bind (Keeps-superseded directory f d o) λ superseded _.
        Keeps-bind {R = Anything}
          (Keeps-if superseded (λ _. Keeps-pure false tt)
            (λ _. promote_operation_claim-Contained directory f d o pid))
          λ promoted _.
            Keeps-if promoted (λ _. Keeps-pure (some o) tt)
              (λ _. Keeps-then (Keeps-cancel directory d o) (Keeps-pure none tt))
