-- ===== src/Operation/Commit/Containment.antt =====
-- Where a commit changes the disk, and what its result is, whatever other processes and the disk do.
use salience.Base.{◌≡◌, Text, Option, none, some, refl, ◌⊎◌, inl, inr}
use salience.Json.{Value}
use salience.Cache.Disk.{FilePath, Metadata}
use salience.Cache.Action.{failed, pure, ◌>>◌}
use salience.Cache.Action.Rules.{
  Keeps, Keeps-pure, Keeps-throw, Keeps-if, Keeps-catch, Keeps-bind, Keeps-then, Keeps-random_text,
}
use salience.Cache.Guard.{safe_regular_file}
use salience.Cache.Guard.Steady.{Steady}
use salience.Cache.Change.Below.{Contained, steady}
use salience.Cache.Change.Containment.{
  cache_write_file-Contained, cache_rename-Contained, cache_rm-Contained,
}
use salience.Update.State.{State}
use salience.Update.State.Encode.{encode_recoverable_state}
use salience.Operation.Claim.{HeldOperation}
use salience.Operation.Reads.{Keeps-read_state, Keeps-operation_owns_active_claim}
use salience.Operation.Commit.{
  cancel_operation, Decision, Commit, decided, encoded, fallen_back, or_else, write_state,
  commit_chosen, commit_decision, chosen, commit_owned, commit_operation, superseded, unavailable,
  finished,
}
use salience.Operation.Containment.{
  Keeps-cancel, Keeps-transition, Keeps-was_fenced, Keeps-fence_lower,
}

module _ (directory : FilePath) where
  kept : Steady (Contained directory)
  kept = steady directory

  module _ {R : Type 0} where
    -- A result that is returned satisfies `Q`.
    abbrev pub Finished : (R → Type 0) → Commit R → Type 0
    Finished Q superseded = Unit
    Finished Q unavailable = Unit
    Finished Q (finished r) = Q r

    -- The result of a decision on some state, or of its fallback.
    abbrev pub IsDecided : (State → Option (Decision R)) → R → Type 0
    IsDecided mutate r =
        (s : State) × (d : Decision R) × (mutate s ≡ some d)
        × ((r ≡ d.result) ⊎ ((t : State) × (d.fallback ≡ some (t, r))))

    module _ (Q : R → Type 0) where
      Keeps-write_state :
          (d : FilePath) (o : HeldOperation) (p : FilePath) (x : State × Value × R)
          → Q x.2
          → Keeps (Contained directory) (Finished Q) (write_state d o p x)
      unfolding write_state
      Keeps-write_state d o p (state, value, result) q =
          Keeps-catch
            (Keeps-bind (cache_write_file-Contained directory p _ value) λ _ _.
              Keeps-bind (cache_rename-Contained directory p _ safe_regular_file none)
                λ _ _. Keeps-then (Keeps-transition directory d _ _ _) (Keeps-pure _ q))
            λ e. Keeps-bind (Keeps-was_fenced directory d o) λ b _.
              Keeps-if b (λ _. Keeps-pure _ tt)
                (λ _.
                  Keeps-then (Keeps-catch (cache_rm-Contained directory p) (λ _. Keeps-pure tt tt))
                    (Keeps-throw e))

      abbrev pub IsChosen : Option (State × Value × R) → Type 0
      IsChosen none = Unit
      IsChosen (some x) = Q x.2

      Keeps-commit_chosen :
          (d : FilePath) (o : HeldOperation) (x : Option (State × Value × R))
          → IsChosen x
          → Keeps (Contained directory) (Finished Q) (commit_chosen d o x)
      unfolding commit_chosen
      Keeps-commit_chosen d o none q = Keeps-then (Keeps-cancel directory d o) (Keeps-pure _ tt)
      Keeps-commit_chosen d o (some x) q =
          Keeps-bind (Keeps-random_text (λ w c. kept.called w w.disk c))
            (λ r _. Keeps-write_state d o _ x q)

      IsChosen-encoded : (s : State) (r : R) → Q r → IsChosen (encoded s r)
      IsChosen-encoded s r q = go (encode_recoverable_state s)
        where
          go : (o : Option Value) → IsChosen (elim o [ none ↦ none | some v ↦ some (s, v, r) ])
          go none = tt
          go (some v) = q

      pub IsChosen-chosen :
          (s : State) (r : R) (y : Option (State × R))
          → Q r
          → ((t : State) (r' : R) → y ≡ some (t, r') → Q r')
          → IsChosen (chosen s r y)
      unfolding chosen
      IsChosen-chosen s r y q k = go (encoded s r) y (IsChosen-encoded s r q) k
        where
          go :
              (x : Option (State × Value × R)) (y : Option (State × R))
              → IsChosen x
              → ((t : State) (r' : R) → y ≡ some (t, r') → Q r')
              → IsChosen (or_else x (fallen_back y))
          go (some x) y q k = q
          go none none q k = tt
          go none (some (t, r)) q k = IsChosen-encoded t r (k t r refl)

      Keeps-commit_decision :
          (d : FilePath) (o : HeldOperation) (x : Option State) (r : R) (y : Option (State × R))
          → Q r
          → ((t : State) (r' : R) → y ≡ some (t, r') → Q r')
          → Keeps (Contained directory) (Finished Q) (commit_decision d o x r y)
      unfolding commit_decision
      Keeps-commit_decision d o none r y q k =
          Keeps-then (Keeps-cancel directory d o) (Keeps-pure _ q)
      Keeps-commit_decision d o (some x) r y q k =
          Keeps-commit_chosen d o _ (IsChosen-chosen x r y q k)

    Keeps-decided :
        (x : Option (Decision R)) → Keeps (Contained directory) (λ d. x ≡ some d) (decided x)
    Keeps-decided none = Keeps-throw failed
    Keeps-decided (some d) = Keeps-pure d refl

    module _ (mutate : State → Option (Decision R)) where
      Keeps-commit_owned :
          (d : FilePath) (o : HeldOperation) (v : Option Text)
          → Keeps (Contained directory) (Finished (IsDecided mutate)) (commit_owned d o v mutate)
      unfolding commit_owned
      Keeps-commit_owned d o v = Keeps-bind (Keeps-read_state kept d v) λ s _.
          Keeps-bind (Keeps-decided (mutate s)) λ x e.
            Keeps-commit_decision (IsDecided mutate) d o x.state x.result x.fallback
              (s, x, e, inl refl) (λ t r h. (s, x, e, inr (t, h)))

      Keeps-given_up :
          (d : FilePath) (o : HeldOperation)
          → Keeps
              (Contained directory)
              (Finished (IsDecided mutate))
              (do cancel_operation d o; pure superseded)
      Keeps-given_up d o = Keeps-then (Keeps-cancel directory d o) (Keeps-pure _ tt)

      -- The commit of an operation changes nothing but what lies strictly below the directory of the
      -- token. A result that it returns as its own is the one that the change decided on for some
      -- state, or that of its fallback.
      pub commit_operation-Contained :
          (fingerprint : Metadata → Text) (d : FilePath) (o : HeldOperation) (v : Option Text)
          → Keeps
              (Contained directory)
              (Finished (IsDecided mutate))
              (commit_operation fingerprint d o v mutate)
      unfolding commit_operation
      commit_operation-Contained f d o v =
          Keeps-bind (Keeps-operation_owns_active_claim kept f d o) λ b _.
            Keeps-if b
              (λ _. Keeps-then (Keeps-fence_lower directory d o) (
                Keeps-bind (Keeps-operation_owns_active_claim kept f d o)
                  λ c _. Keeps-if c (λ _. Keeps-commit_owned d o v) (λ _. Keeps-given_up d o)))
              (λ _. Keeps-given_up d o)
