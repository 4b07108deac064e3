-- ===== src/Operation/Promote/Containment.antt =====
-- Where the promotion of a claim changes the disk, whatever other processes and the disk do.
use salience.Base.{ℕ, zero, suc, Text, Bool, true, false, Option, none, some}
use salience.Cache.Disk.{FilePath, Metadata}
use salience.Cache.Action.{Action, Failure, failed}
use salience.Cache.Action.Rules.{
  Keeps, Anything, Keeps-pure, Keeps-throw, Keeps-if, Keeps-catch, Keeps-bind, Keeps-then,
}
use salience.Cache.Guard.Steady.{Steady}
use salience.Cache.Change.Below.{Contained, steady}
use salience.Operation.Claim.{ClaimStatus, absent, busy, releasable, HeldOperation}
use salience.Operation.Reads.{
  Keeps-list_operations, Keeps-operation_is_active, Keeps-inspect_active_claim,
}
use salience.Operation.Containment.{
  renames, retire_active_claim-Contained, Keeps-prepare, Keeps-discard,
}
use salience.Cache.Guard.{safe_directory}
use salience.Operation.Promote.{
  operation_is_superseded, is_above, is_taken, discard_if, given_up, promotion, after_race,
  lost_promotion, after_promotion, promotion_step, promotion_attempts, promote_operation_claim,
}

module _ (directory : FilePath) (f : Metadata → Text) (d : FilePath) (o : HeldOperation) where
  kept : Steady (Contained directory)
  kept = steady directory

  abbrev Stays {ℓ} : {A : Type ℓ} → Action A → Type 0
  Stays m = Keeps (Contained directory) Anything m

  pub Keeps-superseded : Stays (operation_is_superseded d o)
  unfolding operation_is_superseded
  Keeps-superseded = Keeps-bind (Keeps-list_operations kept d) (λ _ _. Keeps-pure _ tt)

  Keeps-discard_if : (b : Bool) → Stays (discard_if f d o b)
  Keeps-discard_if true = Keeps-discard directory d o
  Keeps-discard_if false = Keeps-pure tt tt

  Keeps-given_up : (b : Bool) → Stays (given_up f d o b)
  Keeps-given_up b = Keeps-then (Keeps-discard_if b) (Keeps-pure false tt)

  Keeps-promotion : (b : Bool) → Stays (promotion f d o b)
  unfolding promotion
  Keeps-promotion true =
      Keeps-catch (renames directory _ _ safe_directory none none) (λ e. Keeps-pure (some e) tt)
  Keeps-promotion false = Keeps-pure (some failed) tt

  module _ (next : Bool → Action Bool) (k : (b : Bool) → Stays (next b)) where
    Keeps-after_race :
        (b : Bool) (e : Failure) (c : ClaimStatus) → Stays (after_race f d o next b e c)
    unfolding after_race
    Keeps-after_race b e absent =
        Keeps-if (is_taken e) (λ _. k b) (λ _. Keeps-then (Keeps-discard_if b) (Keeps-throw e))
    Keeps-after_race b e (busy owner) = k b
    Keeps-after_race b e (releasable m key owner) = k b

    Keeps-lost_promotion : (b : Bool) (e : Failure) → Stays (lost_promotion f d o next b e)
    unfolding lost_promotion
    Keeps-lost_promotion b e =
        Keeps-bind (Keeps-inspect_active_claim kept f d) (λ c _. Keeps-after_race b e c)

    Keeps-after_promotion : (b : Bool) (x : Option Failure) → Stays (after_promotion f d o next b x)
    unfolding after_promotion
    Keeps-after_promotion b none =
        Keeps-catch (Keeps-operation_is_active kept o.directory) (λ e. Keeps-lost_promotion false e)
    Keeps-after_promotion b (some e) = Keeps-lost_promotion b e

    Keeps-promotion_step : (b : Bool) (c : ClaimStatus) → Stays (promotion_step f d o next b c)
    unfolding promotion_step
    Keeps-promotion_step b absent =
        Keeps-bind (Keeps-promotion b) (λ x _. Keeps-after_promotion b x)
    Keeps-promotion_step b (busy owner) = Keeps-given_up b
    Keeps-promotion_step b (releasable m key owner) =
        Keeps-if (is_above owner o.generation) (λ _. Keeps-given_up b)
          (λ _. Keeps-bind (retire_active_claim-Contained directory d key m) (λ _ _. k b))

  Keeps-promotion_attempts : (n : ℕ) (b : Bool) → Stays (promotion_attempts f d o n b)
  unfolding promotion_attempts
  Keeps-promotion_attempts zero b = Keeps-given_up b
  Keeps-promotion_attempts (suc n) b = Keeps-bind Keeps-superseded λ x _.
      Keeps-if x (λ _. Keeps-given_up b)
        λ _.
          Keeps-bind (Keeps-inspect_active_claim kept f d)
            λ c _. Keeps-promotion_step _ (λ p. Keeps-promotion_attempts n p) b c

  -- The promotion of a claim changes nothing but what lies strictly below the directory of the token.
  pub promote_operation_claim-Contained : (pid : ℕ) → Stays (promote_operation_claim f d o pid)
  unfolding promote_operation_claim
  promote_operation_claim-Contained pid =
      Keeps-then (Keeps-prepare directory pid d o) (Keeps-promotion_attempts 8 true)
