-- ===== src/Operation/Acquire/Reserved.antt =====
-- What `reserveOperation` and `acquireOperation` return, in every world, and that the loop over the
-- generations ends.
use salience.Base.{
  ℕ, zero, suc, ◌+◌, ◌≤◌, ◌≡◌, refl, Text, List, ◌∷◌, false, Option, none, some, arith, ltb, length,
  map,
}
use salience.Cache.Disk.{FilePath, Metadata}
use salience.Cache.Action.{Action, fenced, failed}
use salience.Cache.Action.Rules.{
  Keeps, Anything, Always, Keeps-Always, Keeps-pure, Keeps-throw, Keeps-if, Keeps-catch, Keeps-bind,
  Keeps-then, Keeps-recover, Keeps-weaken,
}
use salience.Cache.Change.{is_eexist}
use salience.Cache.Prefix.{Roots}
use salience.Cache.Prefix.Leads.{IsCanonicalOf, prepare_resolved_directory-IsCanonicalOf}
use salience.Operation.Claim.{HeldOperation}
use salience.Operation.Acquire.{
  max_operation_generation, next_free, pending_directory, reservation_failed, write_owner,
  reserve_pending, reserve_generation, reserved_or, reserve_attempts, reserve_prepared,
  reserve_operation, settle_operation, acquire_operation, is_fenced,
}
use salience.Operation.Acquire.Search.{next_free-IsFirstFree}

-- An operation of a directory: its generation and the place of its pending directory.
pub record IsReserved (d : FilePath) (o : HeldOperation) : Type 0 where
  pub positive : 1 ≤ o.generation
  pub bounded : o.generation ≤ max_operation_generation
  pub placed : o.directory ≡ pending_directory d o.generation

abbrev pub IfAny : {A : Type 0} → (A → Type 0) → Option A → Type 0
IfAny P none = Unit
IfAny P (some a) = P a

-- There is one, and it satisfies the predicate.
abbrev pub Some : {A : Type 0} → (A → Type 0) → Option A → Type 0
Some P none = ⊥
Some P (some a) = P a

module _ (pid : ℕ) (d : FilePath) where
  abbrev Gives : (HeldOperation → Type 0) → Action (Option HeldOperation) → Type 0
  Gives P m = Keeps Always (IfAny P) m

  Gives-write_owner :
      (P : HeldOperation → Type 0) (o : HeldOperation) → P o → Gives P (write_owner pid d o)
  unfolding write_owner reservation_failed
  Gives-write_owner P o p =
      Keeps-catch (Keeps-bind {R = Anything} (Keeps-Always _) (λ _ _. Keeps-pure (some o) p)) λ e.
        Keeps-bind {R = Anything} (Keeps-Always _) λ b _.
          Keeps-if b (λ _. Keeps-throw fenced) (λ _. Keeps-then (Keeps-Always _) (Keeps-throw e))

  abbrev At : ℕ → HeldOperation → Type 0
  At g o = (o.generation ≡ g) × (o.directory ≡ pending_directory d g)

  Gives-reserve_pending : (g : ℕ) → Gives (At g) (reserve_pending pid d g)
  unfolding reserve_pending
  Gives-reserve_pending g =
      Keeps-then (Keeps-Always _)
        (Keeps-bind {R = Anything} (Keeps-Always _) λ t _. Gives-write_owner (At g) _ (refl, refl))

  Gives-reserve_generation : (g : ℕ) → Gives (At g) (reserve_generation pid d g)
  unfolding reserve_generation
  Gives-reserve_generation g = Keeps-bind {R = Anything} (Keeps-Always _) λ made _.
      Keeps-if made (λ _. Keeps-recover is_eexist none tt (Gives-reserve_pending g))
        (λ _. Keeps-pure none tt)

  of_generation :
      (g : ℕ)
      → 1 ≤ g
      → ltb max_operation_generation g ≡ false
      → (o : HeldOperation) → At g o
      → IsReserved d o
  of_generation g l h o (e, place) = record {
    positive = omega (arith, e, l);
    bounded = ground (arith, e, h);
    placed = rw e place;
  }

  reserved_or-Some :
      (free : ℕ) {next : Action (Option HeldOperation)}
      → 1 ≤ free
      → ltb max_operation_generation free ≡ false
      → Keeps Always (Some (IsReserved d)) next
      → (r : Option HeldOperation) → IfAny (At free) r
      → Keeps Always (Some (IsReserved d)) (reserved_or r next)
  reserved_or-Some free l h k none a = k
  reserved_or-Some free l h k (some o) a = Keeps-pure (some o) (of_generation free l h o a)

  -- With fuel for every generation above the ones that were tried, the loop ends with an operation
  -- or an error.
  ends :
      (fuel : ℕ) (occupied : List ℕ) (g : ℕ)
      → 1 ≤ g
      → g ≤ suc max_operation_generation
      → suc (suc max_operation_generation) ≤ fuel + g
      → Keeps Always (Some (IsReserved d)) (reserve_attempts pid d fuel occupied g)
  unfolding reserve_attempts
  ends zero occupied g l m n = let spent : ⊥ = omega (arith, l, m, n) in elim spent [ ]
  ends (suc fuel) occupied g l m n =
      let free = next_free (length occupied) occupied g in
      let up = (next_free-IsFirstFree occupied g).above in
      Keeps-if (ltb max_operation_generation free) (λ _. Keeps-throw failed)
        λ h. Keeps-bind (Gives-reserve_generation free) λ r.
          reserved_or-Some free (omega (arith, l, up)) h
            (ends fuel (free ∷ occupied) (suc free) (omega arith) (ground (arith, h))
              (omega (arith, n, up)))
            r

  Gives-reserve_prepared : Keeps Always (Some (IsReserved d)) (reserve_prepared pid d)
  unfolding reserve_prepared
  Gives-reserve_prepared = Keeps-bind {R = Anything} (Keeps-Always _) λ operations _.
      ends (suc max_operation_generation) (map (λ o. o.generation) operations) 1 (omega arith)
        (omega arith) (omega arith)

  module _ (fingerprint : Metadata → Text) where
    Gives-settle :
        {Q : HeldOperation → Type 0} (r : Option HeldOperation)
        → IfAny Q r
        → Gives Q (settle_operation pid d fingerprint r)
    unfolding settle_operation
    Gives-settle none a = Keeps-pure none tt
    Gives-settle (some o) a = Keeps-bind {R = Anything} (Keeps-Always _) λ superseded _.
        Keeps-bind {R = Anything} (Keeps-Always _) λ promoted _.
          Keeps-if promoted (λ _. Keeps-pure (some o) a)
            (λ _. Keeps-then (Keeps-Always _) (Keeps-pure none tt))

-- An operation of a canonical form of a directory.
abbrev pub IsReservedIn : Roots → FilePath → HeldOperation → Type 0
IsReservedIn roots requested o = (d : FilePath) × (IsCanonicalOf roots requested d × IsReserved d o)

module _ (roots : Roots) (pid : ℕ) where
  reserved_in :
      (requested d : FilePath) (r : Option HeldOperation)
      → IsCanonicalOf roots requested d
      → Some (IsReserved d) r
      → Some (IsReservedIn roots requested) r
  reserved_in requested d none h a = a
  reserved_in requested d (some o) h a = (d, (h, a))

  -- In every world `reserveOperation` ends within the fuel: it throws, or it gives an operation with a
  -- generation from 1 to the highest one, in the pending directory of that generation, below a
  -- canonical form of the directory that it was called with.
  pub reserve_operation-Some :
      (requested : FilePath)
      → Keeps Always (Some (IsReservedIn roots requested)) (reserve_operation roots pid requested)
  unfolding reserve_operation
  reserve_operation-Some requested =
      Keeps-bind (prepare_resolved_directory-IsCanonicalOf roots requested)
        λ d h. Keeps-weaken (Gives-reserve_prepared pid d) (λ r a. reserved_in requested d r h a)

  -- In every world an operation that `acquireOperation` returns has a generation from 1 to the
  -- highest one and lies in the pending directory of that generation.
  pub acquire_operation-IsReserved :
      (requested : FilePath) (fingerprint : Metadata → Text)
      → Keeps Always
          (IfAny (λ o. (d : FilePath) × IsReserved d o))
          (acquire_operation roots pid requested fingerprint)
  unfolding acquire_operation
  acquire_operation-IsReserved requested fingerprint =
      Keeps-bind {R = Anything} (Keeps-Always _) λ d _.
        Keeps-bind {R = Anything} (Keeps-Always _) λ active _.
          Keeps-bind {R = Anything} (Keeps-Always _) λ waiting _.
            Keeps-if waiting (λ _. Keeps-pure none tt)
              (λ _.
                Keeps-bind
                  (Keeps-recover (is_fenced) none tt
                    (Keeps-weaken (reserve_operation-Some d) (weaker d)))
                  (λ r a. Gives-settle pid d fingerprint r a))
    where
      weaker :
          (d : FilePath) (r : Option HeldOperation)
          → Some (IsReservedIn roots d) r
          → IfAny (λ o. (d : FilePath) × IsReserved d o) r
      weaker d none a = elim a [ ]
      weaker d (some o) (e, (h, a)) = (e, a)
