-- ===== src/Check/Commits.antt =====
-- The result of a commit, in every world: one that the change decided on.
use salience.Base.{◌≡◌, refl, Text, Option, none, some, inl, inr}
use salience.Json.{Value}
use salience.Cache.Disk.{FilePath, Metadata}
use salience.Cache.Action.{failed}
use salience.Cache.Action.Rules.{
  Keeps, Anything, Always, Keeps-Always, Keeps-pure, Keeps-throw, Keeps-if, Keeps-catch, Keeps-bind,
  Keeps-then,
}
use salience.Update.State.{State}
use salience.Operation.Claim.{HeldOperation}
use salience.Operation.Commit.{
  Decision, decided, write_state, commit_chosen, commit_decision, commit_owned, commit_operation,
}
use salience.Operation.Commit.Containment.{Finished, IsDecided, IsChosen, IsChosen-chosen}

module _ {R : Type 0} (d : FilePath) (o : HeldOperation) where
  module _ (Q : R → Type 0) where
    Gives-write_state :
        (p : FilePath) (x : State × Value × R)
        → Q x.2
        → Keeps Always (Finished d Q) (write_state d o p x)
    unfolding write_state
    Gives-write_state p (state, value, result) q =
        Keeps-catch
          (Keeps-bind {R = Anything} (Keeps-Always _) λ _ _.
            Keeps-bind {R = Anything} (Keeps-Always _)
              λ _ _. Keeps-then (Keeps-Always _) (Keeps-pure _ q))
          λ e. Keeps-bind {R = Anything} (Keeps-Always _) λ b _.
            Keeps-if b (λ _. Keeps-pure _ tt) (λ _. Keeps-then (Keeps-Always _) (Keeps-throw e))

    Gives-commit_chosen :
        (x : Option (State × Value × R))
        → IsChosen d Q x
        → Keeps Always (Finished d Q) (commit_chosen d o x)
    unfolding commit_chosen
    Gives-commit_chosen none q = Keeps-then (Keeps-Always _) (Keeps-pure _ tt)
    Gives-commit_chosen (some x) q =
        Keeps-bind {R = Anything} (Keeps-Always _) (λ r _. Gives-write_state _ x q)

    Gives-commit_decision :
        (x : Option State) (r : R) (y : Option (State × R))
        → Q r
        → ((t : State) (r' : R) → y ≡ some (t, r') → Q r')
        → Keeps Always (Finished d Q) (commit_decision d o x r y)
    unfolding commit_decision
    Gives-commit_decision none r y q k = Keeps-then (Keeps-Always _) (Keeps-pure _ q)
    Gives-commit_decision (some x) r y q k = Gives-commit_chosen _ (IsChosen-chosen d Q x r y q k)

  Gives-decided : (x : Option (Decision R)) → Keeps Always (λ d. x ≡ some d) (decided x)
  Gives-decided none = Keeps-throw failed
  Gives-decided (some d) = Keeps-pure d refl

  module _ (mutate : State → Option (Decision R)) where
    Gives-commit_owned :
        (v : Option Text)
        → Keeps Always (Finished d (IsDecided d mutate)) (commit_owned d o v mutate)
    unfolding commit_owned
    Gives-commit_owned v = Keeps-bind {R = Anything} (Keeps-Always _) λ s _.
        Keeps-bind (Gives-decided (mutate s)) λ x e.
          Gives-commit_decision (IsDecided d mutate) x.state x.result x.fallback (s, x, e, inl refl)
            (λ t r h. (s, x, e, inr (t, h)))

    -- In every world the result of a commit is the one that its change decided on for some state, or
    -- that of its fallback.
    pub commit_operation-IsDecided :
        (fingerprint : Metadata → Text) (v : Option Text)
        → Keeps Always (Finished d (IsDecided d mutate)) (commit_operation fingerprint d o v mutate)
    unfolding commit_operation
    commit_operation-IsDecided f v = Keeps-bind {R = Anything} (Keeps-Always _) λ owns _.
        Keeps-if owns
          (λ _. Keeps-then (Keeps-Always _) (
            Keeps-bind {R = Anything} (Keeps-Always _) λ still _.
              Keeps-if still (λ _. Gives-commit_owned v)
                (λ _. Keeps-then (Keeps-Always _) (Keeps-pure _ tt))))
          (λ _. Keeps-then (Keeps-Always _) (Keeps-pure _ tt))
