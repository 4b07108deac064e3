-- ===== src/Check/Justified.antt =====
-- Results that announce nothing but newer versions, and when they can be computed.
use mathlib.Core.Path.{subst}
use salience.Base.{
  ◌≡◌, refl, sym, Text, codes, [], Bool, true, false, Option, none, some, some_inj, Ordering,
  >>=-eq-some, ◌>>=◌, if◌then◌else◌,
}
use salience.Base.Result.{ok, err, ok_inj, >>=-eq-ok, require}
use salience.Json.{Value, string, get, is_text}
use salience.Json.Print.{to_text}
use salience.Semver.{
  Version, parse_semver, compare_semver, compare_versions, is_stable_core_version, is_core_only,
  release_channel_for_version, channel_of,
}
use salience.Contract.{
  LocalRelease, validate_local_release, has_local_identity, expected_channel, text_or, channel_text,
  channel_mismatch, invalid_local_release, invalid_semver,
}
use salience.Cache.Action.{Action, failed}
use salience.Cache.Action.Rules.{Keeps, Always, Keeps-pure, Keeps-throw, Keeps-if, Keeps-bind}
use salience.Cache.Action.Returns.{Returns, Returns-pure, Returns-catch}
use salience.Update.State.{State, Candidate}
use salience.Update.State.Normalize.Stable.{HasStable}
use salience.Update.Decision.{
  Outcome, silent, update_available, acknowledged, already_notified, notification, candidate_result,
  compared_result, result_for_candidate, event_key_for_digest,
}
use salience.Check.{attempt, computed, cached_result, was_offered}
use salience.Check.Cached.{IsReadable}

-- An update that is announced is newer than the installed version, and is named by its digest.
abbrev pub IsJustified : Outcome → Type 0
IsJustified (silent reason) = Unit
IsJustified (acknowledged key) = ⊥
IsJustified (update_available n) =
    (compare_semver n.latest_version n.installed_version ≡ some Ordering.gt)
    × (n.event_key ≡ event_key_for_digest (to_text n.target_digest))

module _ (local : LocalRelease) (s : State) where
  notified :
      (c : Candidate) (b : Bool)
      → compare_semver c.version local.version ≡ some Ordering.gt
      → IsJustified (if b then silent already_notified else notification local c)
  unfolding notification
  notified c true e = tt
  notified c false e = (e, refl)

  compared :
      (c : Candidate) (order : Ordering)
      → compare_semver c.version local.version ≡ some order
      → IsJustified (compared_result local s c order)
  compared c Ordering.gt e = notified c _ e
  compared c Ordering.eq e = tt
  compared c Ordering.lt e = tt

  of_candidate :
      (o : Option Candidate) (r : Outcome) → candidate_result local s o ≡ some r → IsJustified r
  of_candidate none r h = subst IsJustified (some_inj h) tt
  of_candidate (some c) r h =
      let (order, e, rest) = >>=-eq-some (compare_semver c.version local.version) _ h in
      subst IsJustified (some_inj rest) (compared c order e)

  pub result_for_candidate-IsJustified :
      (r : Outcome) → result_for_candidate local s ≡ some r → IsJustified r
  unfolding result_for_candidate
  result_for_candidate-IsJustified r h = of_candidate s.candidate r h

-- The versions that are compared are semantic versions.
abbrev pub IsParsed : Text → Type 0
IsParsed t = (v : Version) × (parse_semver t ≡ some v)

stable-IsParsed : (t : Text) → is_stable_core_version t ≡ true → IsParsed t
unfolding is_stable_core_version
stable-IsParsed t h = of_option (parse_semver t) refl h
  where
    of_option :
        (o : Option Version)
        → parse_semver t ≡ o
        → elim o [ some v ↦ is_core_only v.prerelease v.build | none ↦ false ] ≡ true
        → IsParsed t
    of_option none e h = cc
    of_option (some v) e h = (v, e)

compare-some :
    (a b : Text) → IsParsed a → IsParsed b → (o : Ordering) × (compare_semver a b ≡ some o)
unfolding compare_semver
compare-some a b (v, e) (w, f) = (compare_versions v w, rw (e, f) refl)

abbrev HasResult : Option Outcome → Type 0
HasResult o = (r : Outcome) × (o ≡ some r)

module _ (local : LocalRelease) (p : IsParsed local.version) where
  candidate-HasResult :
      (s : State) (o : Option Candidate) → HasStable o → HasResult (candidate_result local s o)
  candidate-HasResult s none h = (_, refl)
  candidate-HasResult s (some c) h =
      let (order, e) = compare-some c.version local.version (stable-IsParsed c.version h) p in
      (compared_result local s c order, rw e refl)

  -- With a readable state and a parsed version, `resultForCandidate` does not throw.
  pub result_for_candidate-some :
      (s : State) → IsReadable s → HasResult (result_for_candidate local s)
  unfolding result_for_candidate
  result_for_candidate-some s h = candidate-HasResult s s.candidate h

  pub Returns-computed :
      (s : State) → IsReadable s → Returns IsJustified (computed (result_for_candidate local s))
  Returns-computed s h =
      let (r, e) = result_for_candidate-some s h in
      subst (λ o. Returns IsJustified (computed o)) (sym e)
        (Returns-pure r (result_for_candidate-IsJustified local s r e))

pub Gives-computed :
    (o : Option Outcome)
    → ((r : Outcome) → o ≡ some r → IsJustified r)
    → Keeps Always IsJustified (computed o)
Gives-computed none k = Keeps-throw failed
Gives-computed (some r) k = Keeps-pure r (k r refl)

pub Gives-cached_result :
    (local : LocalRelease) (s : State) → Keeps Always IsJustified (cached_result local s)
unfolding cached_result
Gives-cached_result local s =
    Keeps-if (was_offered s s.candidate)
      (λ _.
        Gives-computed (result_for_candidate local s) (result_for_candidate-IsJustified local s))
      (λ _. Keeps-pure _ tt)

-- A call under `try`.
abbrev pub IfSome : {A : Type 0} → (A → Type 0) → Option A → Type 0
IfSome P none = Unit
IfSome P (some a) = P a

pub Returns-attempt :
    {A : Type 0} {P : A → Type 0} {m : Action A} → Keeps Always P m → Returns (IfSome P) (attempt m)
Returns-attempt k =
    Returns-catch (Keeps-bind k (λ a p. Keeps-pure (some a) p)) (λ e. Returns-pure none tt)

channel-IsParsed : (v : Value) {c : Text} → expected_channel v ≡ ok c → IsParsed (text_or v [])
unfolding release_channel_for_version text_or
channel-IsParsed (string t) {c} h = of_option (parse_semver t) refl h
  where
    of_option :
        (o : Option Version)
        → parse_semver t ≡ o
        → elim (o >>= λ v. some (channel_of v.prerelease)) [
          | some c ↦ ok (channel_text c)
          | none ↦ err invalid_semver
        ]
          ≡ ok c
        → IsParsed t
    of_option (some v) e h = (v, e)
    of_option none e h = cc
channel-IsParsed _ h = cc

-- A release that `validateLocalRelease` accepts has a semantic version.
pub validate_local_release-IsParsed :
    (v : Value) (local : LocalRelease)
    → validate_local_release v ≡ ok local
    → IsParsed local.version
unfolding validate_local_release
validate_local_release-IsParsed v local h =
    let (_, _, h1) = >>=-eq-ok (require (has_local_identity v) invalid_local_release) _ h in
    let (channel, e, h2) = >>=-eq-ok (expected_channel (get (codes "version") v)) _ h1 in
    let (_, _, h3) =
      >>=-eq-ok (require (is_text channel (get (codes "channel") v)) channel_mismatch) _ h2 in
    subst (λ l. IsParsed l.version) (ok_inj h3) (channel-IsParsed (get (codes "version") v) e)
