-- ===== src/Check/Acknowledge/Termination.antt =====
-- `acknowledgeUpdate` ends within its attempts and throws no error, on a clock that moves on over the
-- waits.
use mathlib.Core.Path.{subst}
use salience.Base.{
  ℕ, zero, suc, ◌+◌, ◌-◌, ◌*◌, ◌≤◌, ◌<◌, min, ◌≡◌, refl, sym, ap, ◌∙◌, Text, Bool, true, false,
  Option, none, some, some_inj, arith, ltb, inl, inr, includes, ◌||◌, if◌then◌else◌,
}
use salience.Json.Print.{to_text}
use salience.Contract.{LocalRelease}
use salience.Cache.Disk.{FilePath}
use salience.Cache.Action.{Action}
use salience.Cache.Action.Rules.{Anything, Keeps-Always}
use salience.Cache.Action.Returns.{Returns, Returns-pure, Returns-catch, Returns-bind, Returns-then}
use salience.Update.State.{State}
use salience.Update.Decision.{
  Outcome, silent, update_available, acknowledged, digest_for_event_key, committed_acknowledgement,
  invalid_acknowledgement,
}
use salience.Operation.Claim.{HeldOperation}
use salience.Operation.Commit.{Decision, Commit, superseded, finished, unavailable}
use salience.Operation.Commit.Containment.{Finished, IsDecided}
use salience.Check.{Runtime}
use salience.Check.Commits.{commit_operation-IsDecided}
use salience.Check.Justified.{IfSome, Returns-attempt}
use salience.Check.Acknowledge.{
  Clock, ack_lock_wait_ms, lock_retry_delay_ms, wait_until_retry, acknowledgement,
  retried_acknowledgement, acknowledgement_abandoned, answered_acknowledgement,
  commit_acknowledgement, acquired_acknowledgement, acknowledgement_attempts, AcknowledgeOptions,
  started_acknowledgement, prepared_acknowledgement, released_acknowledgement,
  addressed_acknowledgement, acknowledge_update,
}

-- The clock of one run: call 0 sets the deadline, and each later call decides on a wait, the next one
-- coming behind that wait. The clock does not go back between the first two calls, and over a wait it
-- moves on by at least the delay that was waited, as `setTimeout` promises. Nothing is asked of it
-- where the run does not wait.
pub record IsPaced (clock : Clock) : Type 0 where
  pub forward : (t u : ℕ) → clock 0 ≡ some t → clock 1 ≡ some u → t ≤ u
  pub waited :
      (start k t u delay : ℕ)
      → clock 0 ≡ some start
      → 1 ≤ k
      → clock k ≡ some t
      → wait_until_retry (start + ack_lock_wait_ms) (some t) ≡ some delay
      → clock (suc k) ≡ some u
      → t + delay ≤ u

-- The result is silent, or it is the acknowledgement of the key.
abbrev pub IsAnswer : Text → Outcome → Type 0
IsAnswer key (silent reason) = Unit
IsAnswer key (acknowledged k) = k ≡ key
IsAnswer key (update_available n) = ⊥

-- The fuel was enough, and the result is an answer.
abbrev pub IsAnswered : Text → Option Outcome → Type 0
IsAnswered key none = ⊥
IsAnswered key (some o) = IsAnswer key o

module _ (runtime : Runtime) (local : LocalRelease) (d : FilePath) (digest key : Text)
    (clock : Clock) (start : ℕ) (paced : IsPaced clock) (started : clock 0 ≡ some start) where
  abbrev deadline : ℕ
  deadline = start + ack_lock_wait_ms

  acknowledgement-IsAnswer :
      (s : State) (x : Decision Outcome)
      → acknowledgement digest key s ≡ some x
      → IsAnswer key x.result
        × ((t : State) (r : Outcome) → x.fallback ≡ some (t, r) → IsAnswer key r)
  unfolding acknowledgement committed_acknowledgement
  acknowledgement-IsAnswer s x h =
      subst
        (λ z.
          IsAnswer key z.result
          × ((t : State) (r : Outcome) → z.fallback ≡ some (t, r) → IsAnswer key r))
        (some_inj h)
        (
          of_test (includes s.offered_digests digest || includes s.acknowledged_digests digest) _ _,
          λ t r e. cc,
        )
    where
      of_test :
          (b : Bool) (x y : Option State)
          → IsAnswer key
              (if◌then◌else◌ {A = Option State × Outcome} b
                (x, acknowledged key)
                (y, silent invalid_acknowledgement)).1
      of_test true x y = refl
      of_test false x y = tt

  -- The calls of the clock that are left before the deadline.
  abbrev IsLeft : ℕ → ℕ → Type 0
  IsLeft fuel k = (t : ℕ) → clock k ≡ some t → deadline ≤ t + 20 * fuel

  waiting :
      (o : Option ℕ) (n : ℕ)
      → wait_until_retry deadline o ≡ some n
      → (t : ℕ) × (o ≡ some t) × (t < deadline) × (n ≡ min lock_retry_delay_ms (deadline - t))
  waiting none n h = cc
  waiting (some t) n h = of_test (ltb t deadline) refl h
    where
      of_test :
          (b : Bool)
          → ltb t deadline ≡ b
          → (if b then some (min lock_retry_delay_ms (deadline - t)) else none) ≡ some n
          → (u : ℕ) × (some t ≡ some u)
            × (u < deadline)
            × (n ≡ min lock_retry_delay_ms (deadline - u))
      of_test true e h = (t, refl, ground (arith, e), sym (some_inj h))
      of_test false e h = cc

  abbrev Answers : Action (Option Outcome) → Type 0
  Answers m = Returns (IsAnswered key) m

  Returns-retried_acknowledgement :
      (next : Action (Option Outcome)) (o : Option ℕ)
      → ((delay : ℕ) → o ≡ some delay → Answers next)
      → Answers (retried_acknowledgement runtime local d digest key clock deadline next o)
  Returns-retried_acknowledgement next none k = Returns-pure _ tt
  Returns-retried_acknowledgement next (some delay) k = k delay refl

  abbrev Waits : Action (Option Outcome) → ℕ → Type 0
  Waits next call = (delay : ℕ) → wait_until_retry deadline (clock call) ≡ some delay → Answers next

  finished-IsAnswer : (r : Outcome) → IsDecided d (acknowledgement digest key) r → IsAnswer key r
  finished-IsAnswer r (s, x, e, inl h) =
      subst (IsAnswer key) (sym h) (acknowledgement-IsAnswer s x e).0
  finished-IsAnswer r (s, x, e, inr (t, h)) = (acknowledgement-IsAnswer s x e).1 t r h

  Returns-abandoned :
      (o : HeldOperation)
      → Answers (acknowledgement_abandoned runtime local d digest key clock deadline o)
  unfolding acknowledgement_abandoned
  Returns-abandoned o =
      Returns-then (Returns-catch {R = Anything} (Keeps-Always _) (λ _. Returns-pure tt tt))
        (Returns-pure _ tt)

  Returns-answered_acknowledgement :
      (next : Action (Option Outcome)) (call : ℕ) (o : HeldOperation) (c : Option (Commit Outcome))
      → Waits next call
      → IfSome (Finished d (IsDecided d (acknowledgement digest key))) c
      → Answers (answered_acknowledgement runtime local d digest key clock deadline next call o c)
  Returns-answered_acknowledgement next call o none k q = Returns-abandoned o
  Returns-answered_acknowledgement next call o (some superseded) k q =
      Returns-retried_acknowledgement next _ k
  Returns-answered_acknowledgement next call o (some (finished r)) k q =
      Returns-pure _ (finished-IsAnswer r q)
  Returns-answered_acknowledgement next call o (some unavailable) k q = Returns-pure _ tt

  Returns-acquired_acknowledgement :
      (next : Action (Option Outcome)) (call : ℕ) (o : Option (Option HeldOperation))
      → Waits next call
      → Answers (acquired_acknowledgement runtime local d digest key clock deadline next call o)
  unfolding commit_acknowledgement
  Returns-acquired_acknowledgement next call none k = Returns-pure _ tt
  Returns-acquired_acknowledgement next call (some none) k =
      Returns-retried_acknowledgement next _ k
  Returns-acquired_acknowledgement next call (some (some o)) k =
      Returns-bind
        (Returns-attempt (
          commit_operation-IsDecided d o (acknowledgement digest key) runtime.fingerprint
            (some local.version)))
        (λ c q. Returns-answered_acknowledgement next call o c k q)

  IsLeft-less :
      (fuel call t delay : ℕ)
      → 1 ≤ call
      → IsLeft (suc fuel) call
      → clock call ≡ some t
      → delay ≡ min lock_retry_delay_ms (deadline - t)
      → wait_until_retry deadline (some t) ≡ some delay
      → IsLeft fuel (suc call)
  IsLeft-less fuel call t delay one l e f h u g =
      omega (arith, l t e, f, paced.waited start call t u delay started one e h g)

  Returns-attempts :
      (fuel call : ℕ)
      → 1 ≤ call
      → IsLeft fuel call
      → Answers (acknowledgement_attempts runtime local d digest key clock deadline (suc fuel) call)
  unfolding acknowledgement_attempts
  Returns-attempts zero call one l =
      Returns-bind (Returns-attempt {P = Anything} (Keeps-Always _)) λ o _.
        Returns-acquired_acknowledgement _ call o λ delay h.
          let (t, e, below, _) = waiting (clock call) delay h in
          let over : ⊥ = omega (arith, l t e, below) in elim over [ ]
  Returns-attempts (suc fuel) call one l =
      Returns-bind (Returns-attempt {P = Anything} (Keeps-Always _)) λ o _.
        Returns-acquired_acknowledgement _ call o λ delay h.
          let (t, e, below, f) = waiting (clock call) delay h in
          Returns-attempts fuel (suc call) (omega arith)
            (IsLeft-less fuel call t delay one l e f (ap (wait_until_retry deadline) (sym e) ∙ h))

module _ (runtime : Runtime) (options : AcknowledgeOptions) where
  abbrev key_text : Text
  key_text = to_text options.event_key

  Returns-started_acknowledgement :
      (local : LocalRelease) (d : FilePath) (digest : Text) (clock : Clock) (paced : IsPaced clock)
      (o : Option ℕ)
      → clock 0 ≡ o
      → Returns
          (IsAnswered key_text)
          (started_acknowledgement runtime options local d digest clock o)
  Returns-started_acknowledgement local d digest clock paced none e = Returns-pure _ tt
  Returns-started_acknowledgement local d digest clock paced (some start) e =
      Returns-attempts runtime local d digest key_text clock start paced e 60 1 (omega arith)
        (λ t f. omega (arith, paced.forward start t e f))

  Returns-prepared_acknowledgement :
      (local : LocalRelease) (digest : Text) (clock : Clock) (paced : IsPaced clock)
      (u : Option FilePath)
      → Returns
          (IsAnswered key_text)
          (prepared_acknowledgement runtime options local digest clock u)
  Returns-prepared_acknowledgement local digest clock paced none = Returns-pure _ tt
  Returns-prepared_acknowledgement local digest clock paced (some d) =
      Returns-started_acknowledgement local d digest clock paced (clock 0) refl

  Returns-released_acknowledgement :
      (digest : Text) (clock : Clock) (paced : IsPaced clock) (local : Option LocalRelease)
      → Returns (IsAnswered key_text) (released_acknowledgement runtime options digest clock local)
  Returns-released_acknowledgement digest clock paced none = Returns-pure _ tt
  Returns-released_acknowledgement digest clock paced (some local) =
      Returns-bind (Returns-attempt {P = Anything} (Keeps-Always _))
        (λ u _. Returns-prepared_acknowledgement local digest clock paced u)

  Returns-addressed_acknowledgement :
      (digest : Option Text) (clock : Option Clock)
      → ((c : Clock) → clock ≡ some c → IsPaced c)
      → Returns (IsAnswered key_text) (addressed_acknowledgement runtime options digest clock)
  Returns-addressed_acknowledgement none clock paced = Returns-pure _ tt
  Returns-addressed_acknowledgement (some digest) none paced = Returns-pure _ tt
  Returns-addressed_acknowledgement (some digest) (some clock) paced =
      Returns-bind (Returns-attempt {P = Anything} (Keeps-Always _))
        (λ local _. Returns-released_acknowledgement digest clock (paced clock refl) local)

  -- If the clock does not go back from its first reading to its second, and moves on over each wait by
  -- at least the delay that was waited, `acknowledgeUpdate` ends within 61 attempts, whatever other
  -- processes and the disk do. It throws no error, and its result is silent or the acknowledgement of
  -- the event key.
  pub acknowledge_update-Returns :
      ((c : Clock) → options.monotonic_now ≡ some c → IsPaced c)
      → Returns (IsAnswered key_text) (acknowledge_update runtime options)
  unfolding acknowledge_update
  acknowledge_update-Returns =
      Returns-addressed_acknowledgement (digest_for_event_key options.event_key)
        options.monotonic_now
