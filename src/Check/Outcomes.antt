-- ===== src/Check/Outcomes.antt =====
-- `checkForUpdate` returns in every world, and announces nothing but newer versions.
use mathlib.Core.Path.{subst}
use salience.Base.{
  ℕ, ◌≡◌, refl, sym, ap, ◌∙◌, Text, Bool, true, false, Option, none, some, some_inj, inl, inr,
  if◌then◌else◌,
}
use salience.Base.Result.{Result, ok, err}
use salience.Contract.{ContractError, LocalRelease, validate_local_release}
use salience.Cache.Disk.{FilePath}
use salience.Cache.Action.{Failure, failed}
use salience.Cache.Action.Rules.{
  Keeps, Anything, Always, Keeps-Always, Keeps-pure, Keeps-throw, Keeps-if, Keeps-bind, Keeps-then,
}
use salience.Cache.Action.Returns.{
  Returns, Returns-pure, Returns-catch, Returns-bind, Returns-then, Keeps-Returns,
}
use salience.Update.State.{State, Candidate}
use salience.Update.Decision.{
  Sample, Reason, Outcome, silent, committed_check, committed_failure, result_for_candidate,
  is_fresh, fresh_state_result, checked_state, capacity_fallback, cache_unavailable,
}
use salience.Update.Fetch.{FetchError, Response}
use salience.Operation.Claim.{HeldOperation}
use salience.Operation.Commit.{Decision, Commit, superseded, finished, unavailable}
use salience.Operation.Commit.Containment.{Finished, IsDecided}
use salience.Check.{
  Runtime, local_release_of, read_local_release, committed_outcome, decision_of, fallback_of,
  failed_check, successful_check, abandoned, committed_operation, commit_fetched,
  result_after_losing_operation, fetch_and_commit, owned_check, raced_check, held_check,
  acquired_check, stale_check, fresh_or, opened_check, prepared_check, CheckOptions, timed_check,
  released_check, callable_check, check_for_update,
}
use salience.Check.Commits.{commit_operation-IsDecided}
use salience.Check.Cached.{IsReadable, read_state-IsReadable}
use salience.Check.Justified.{
  IsJustified, IsParsed, result_for_candidate-IsJustified, Returns-computed, Gives-computed,
  Gives-cached_result, IfSome, Returns-attempt, validate_local_release-IsParsed,
}

pub Returns-abandoned :
    (runtime : Runtime) (local : LocalRelease) (now : ℕ) (random : Sample) (d : FilePath)
    (o : HeldOperation) (e : Failure)
    → Returns IsJustified (abandoned runtime local now random d o e)
unfolding abandoned
Returns-abandoned runtime local now random d o e =
    Returns-then (Returns-catch (Keeps-Always _) (λ _. Returns-pure tt tt)) (Returns-pure _ tt)

module _ (runtime : Runtime) (local : LocalRelease) (now : ℕ) (random : Sample) (d : FilePath) where
  -- Every result that a change decides on is justified.
  abbrev IsCareful : (State → Option (Decision Outcome)) → Type 0
  IsCareful mutate = (r : Outcome) → IsDecided d mutate r → IsJustified r

  outcome-IsJustified :
      (mutate : State → Option (Decision Outcome)) (c : Commit Outcome)
      → IsCareful mutate
      → Finished d (IsDecided d mutate) c
      → IsJustified (committed_outcome c)
  outcome-IsJustified mutate superseded k q = tt
  outcome-IsJustified mutate unavailable k q = tt
  outcome-IsJustified mutate (finished r) k q = k r q

  Returns-committed_operation :
      (o : HeldOperation) (mutate : State → Option (Decision Outcome))
      → IsCareful mutate
      → Returns IsJustified (committed_operation runtime local now random d o mutate)
  unfolding committed_operation
  Returns-committed_operation o mutate k =
      Returns-catch
        (Keeps-bind (commit_operation-IsDecided d o mutate runtime.fingerprint (some local.version))
          λ c q. Keeps-pure _ (outcome-IsJustified mutate c k q))
        (Returns-abandoned runtime local now random d o)

  decision-IsJustified :
      (s : State) (o : Option Outcome) (y : Option (State × Outcome)) (x : Decision Outcome)
      → ((r : Outcome) → o ≡ some r → IsJustified r)
      → ((t : State) (r : Outcome) → y ≡ some (t, r) → IsJustified r)
      → decision_of s o y ≡ some x
      → IsJustified x.result
        × ((t : State) (r : Outcome) → x.fallback ≡ some (t, r) → IsJustified r)
  decision-IsJustified s none y x k l h = cc
  decision-IsJustified s (some o) y x k l h =
      let e = some_inj h in
      (subst (λ z. IsJustified z.result) e (k o refl), λ t r f. l t r (ap (λ z. z.fallback) e ∙ f))

  careful :
      (mutate : State → Option (Decision Outcome))
      → ((s : State) (x : Decision Outcome)
          → mutate s ≡ some x
          → IsJustified x.result
            × ((t : State) (r : Outcome) → x.fallback ≡ some (t, r) → IsJustified r))
      → IsCareful mutate
  careful mutate k r (s, x, e, inl h) = subst IsJustified (sym h) (k s x e).0
  careful mutate k r (s, x, e, inr (t, h)) = (k s x e).1 t r h

  failed_check-IsCareful :
      (reason : Reason) → IsCareful (failed_check runtime local now random d reason)
  unfolding failed_check committed_failure
  failed_check-IsCareful reason = careful _ λ s x e.
      let c = committed_failure runtime.dates now reason s in
      decision-IsJustified c.state c.result none x
        (λ r h. subst IsJustified {x = silent reason} (some_inj h) tt) (λ t r h. cc) e

  successful_check-IsCareful :
      (c : Candidate) → IsCareful (successful_check runtime local now random d c)
  unfolding successful_check committed_check capacity_fallback
  successful_check-IsCareful c = careful _ λ s x e.
      let k = committed_check runtime.dates local now random s c in
      let f = capacity_fallback runtime.dates now s in
      decision-IsJustified k.state k.result (fallback_of f.state f.result) x
        (result_for_candidate-IsJustified local (checked_state runtime.dates now random s c))
        (λ t r h. subst IsJustified {x = silent cache_unavailable} (ap (λ z. z.1) (some_inj h)) tt)
        e

  Returns-commit_fetched :
      (o : HeldOperation) (r : Result FetchError Candidate)
      → Returns IsJustified (commit_fetched runtime local now random d o r)
  Returns-commit_fetched o (err e) = Returns-committed_operation o _ (failed_check-IsCareful _)
  Returns-commit_fetched o (ok c) = Returns-committed_operation o _ (successful_check-IsCareful c)

  Gives-lost :
      (o : HeldOperation)
      → Keeps Always IsJustified (result_after_losing_operation runtime local now random d o)
  unfolding result_after_losing_operation
  Gives-lost o =
      Keeps-then (Keeps-Always _)
        (Keeps-bind {R = Anything} (Keeps-Always _) (λ s _. Gives-cached_result local s))

  module _ (fetch : Text → Option Response) (late : Bool) where
    Gives-owned :
        (o : HeldOperation)
        → Keeps Always IsJustified (owned_check runtime local now random d fetch late o)
    unfolding owned_check fetch_and_commit
    Gives-owned o = Keeps-bind {R = Anything} (Keeps-Always _) λ owns _.
        Keeps-if owns
          (λ _. Keeps-then (Keeps-Always _) (
            Keeps-bind {R = Anything} (Keeps-Always _) λ still _.
              Keeps-if still (λ _. Keeps-Returns (Returns-commit_fetched o _)) (λ _. Gives-lost o)))
          (λ _. Gives-lost o)

    Gives-raced :
        (s : State) (o : HeldOperation) (b : Bool)
        → Keeps Always IsJustified (
            raced_check runtime local now random d fetch late o
              (if b then some (result_for_candidate local s) else none))
    Gives-raced s o false = Gives-owned o
    Gives-raced s o true =
        Keeps-bind
          (Gives-computed (result_for_candidate local s) (result_for_candidate-IsJustified local s))
          (λ r j. Keeps-then (Keeps-Always _) (Keeps-pure r j))

    Returns-held :
        (o : HeldOperation)
        → Returns IsJustified (held_check runtime local now random d fetch late o)
    unfolding held_check fresh_state_result
    Returns-held o =
        Returns-catch
          (Keeps-bind {R = Anything} (Keeps-Always _)
            (λ s _. Gives-raced s o (is_fresh runtime.dates s now)))
          (Returns-abandoned runtime local now random d o)

    Returns-acquired :
        (o : Option (Option HeldOperation))
        → Returns IsJustified (acquired_check runtime local now random d fetch late o)
    Returns-acquired none = Returns-pure _ tt
    Returns-acquired (some none) =
        Returns-catch
          (Keeps-bind {R = Anything} (Keeps-Always _) (λ s _. Gives-cached_result local s))
          (λ e. Returns-pure _ tt)
    Returns-acquired (some (some o)) = Returns-held o

    Returns-stale : Returns IsJustified (stale_check runtime local now random d fetch late)
    unfolding stale_check
    Returns-stale =
        Returns-bind (Returns-attempt {P = Anything} (Keeps-Always _)) (λ o _. Returns-acquired o)

    module _ (p : IsParsed local.version) where
      Returns-fresh_or :
          (s : State) (b : Bool)
          → IsReadable s
          → Returns IsJustified (
              fresh_or runtime local now random d fetch late
                (if b then some (result_for_candidate local s) else none))
      Returns-fresh_or s true h = Returns-computed local p s h
      Returns-fresh_or s false h = Returns-stale

module _ (runtime : Runtime) (local : LocalRelease) (now : ℕ) (random : Sample)
    (requested : FilePath) (fetch : Text → Option Response) (late : Bool)
    (p : IsParsed local.version) where
  abbrev IsOpened : FilePath × State → Type 0
  IsOpened (d, s) = IsReadable s

  Returns-opened :
      (o : Option (FilePath × State))
      → IfSome IsOpened o
      → Returns IsJustified (opened_check runtime local now random requested fetch late o)
  unfolding fresh_state_result
  Returns-opened none h = Returns-pure _ tt
  Returns-opened (some (d, s)) h =
      Returns-fresh_or runtime local now random d fetch late p s (is_fresh runtime.dates s now) h

  Returns-prepared :
      Returns IsJustified (prepared_check runtime local now random requested fetch late)
  unfolding prepared_check
  Returns-prepared =
      Returns-bind
        (Returns-attempt {P = IsOpened} (
          Keeps-bind {R = Anything} (Keeps-Always _) λ d _.
            Keeps-bind (read_state-IsReadable d (some local.version)) (λ s h. Keeps-pure (d, s) h)))
        Returns-opened

abbrev pub IsValid : LocalRelease → Type 0
IsValid local = IsParsed local.version

Gives-release_of :
    (r : Result ContractError LocalRelease)
    → ((local : LocalRelease) → r ≡ ok local → IsValid local)
    → Keeps Always IsValid (local_release_of r)
Gives-release_of (err e) k = Keeps-throw failed
Gives-release_of (ok local) k = Keeps-pure local (k local refl)

-- The release that is read has a semantic version.
pub read_local_release-IsValid : (p : FilePath) → Keeps Always IsValid (read_local_release p)
unfolding read_local_release
read_local_release-IsValid p =
    Keeps-bind {R = Anything} (Keeps-Always _)
      λ v _. Gives-release_of (validate_local_release v) (validate_local_release-IsParsed v)

module _ (runtime : Runtime) (options : CheckOptions) where
  Returns-timed :
      (fetch : Text → Option Response) (local : LocalRelease) (now : Option ℕ)
      → IsValid local
      → Returns IsJustified (timed_check runtime options fetch local now)
  Returns-timed fetch local none p = Returns-pure _ tt
  Returns-timed fetch local (some now) p =
      Returns-prepared runtime local now options.random _ fetch options.late p

  Returns-released :
      (fetch : Text → Option Response) (o : Option LocalRelease)
      → IfSome IsValid o
      → Returns IsJustified (released_check runtime options fetch o)
  Returns-released fetch none p = Returns-pure _ tt
  Returns-released fetch (some local) p = Returns-timed fetch local options.now p

  Returns-callable :
      (fetch : Option (Text → Option Response))
      → Returns IsJustified (callable_check runtime options fetch)
  Returns-callable none = Returns-pure _ tt
  Returns-callable (some fetch) =
      Returns-bind (Returns-attempt (read_local_release-IsValid options.release_path))
        (Returns-released fetch)

  -- Whatever other processes, the disk and the server do, `checkForUpdate` returns a result and
  -- throws no error, and an update that it announces is newer than the installed version.
  pub check_for_update-Returns : Returns IsJustified (check_for_update runtime options)
  unfolding check_for_update
  check_for_update-Returns = Returns-callable options.fetch_impl
