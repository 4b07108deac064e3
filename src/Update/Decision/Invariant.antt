-- ===== src/Update/Decision/Invariant.antt =====
-- The states that the changes of `checkForUpdate` and `acknowledgeUpdate` commit.
use salience.Base.{
  ℕ, ◌≡◌, refl, sym, ap, ◌∙◌, Text, List, [], ◌∷◌, ◌++◌, Bool, true, false, ◌||◌, Option, none,
  some, arith, Ordering, includes, if◌then◌else◌, AllTrue, ◌>>=◌,
}
use salience.Json.{string}
use salience.Json.Print.{to_text}
use salience.Semver.{compare_semver}
use salience.Contract.{LocalRelease}
use salience.Update.State.{
  State, Candidate, state_after_acknowledgement, state_with_failure_check, state_value,
}
use salience.Update.State.Encode.{encode_recoverable_state}
use salience.Update.State.Normalize.{includes_value, is_digest, candidate_is_known, is_newer}
use salience.Update.State.Normalize.Roundtrip.{Distinct, IsCandidate, Known, IsState}
use salience.Update.State.Acknowledge.{state_after_acknowledgement_lem}
use salience.Update.Decision.Offers.{pushed, pushed-included, includes_value-string}
use salience.Update.Decision.{
  Dates, Sample, silent, result_for_candidate, offered, checked_state, committed_check,
  compared_result, notification, already_notified, state_after_failed_check,
}
use salience.Update.Decision.Digests.{
  Distinct-without, Distinct-append, AllTrue-without, AllTrue-append, Known-more, has_digest,
}

module _ (v : Text) (s : State) (w : IsState v s) where
  acknowledged_parts :
      (d : Text) (b : Bool)
      → includes s.acknowledged_digests d ≡ b
      → is_digest d ≡ true
      → let ts = if b then s.acknowledged_digests else s.acknowledged_digests ++ (d ∷ []) in
        AllTrue is_digest ts × Distinct [] ts
  unfolding includes
  acknowledged_parts d true e h = (w.acknowledged, w.acknowledged_once)
  acknowledged_parts d false e h = (
    AllTrue-append is_digest s.acknowledged_digests d w.acknowledged h,
    Distinct-append [] s.acknowledged_digests d w.acknowledged_once refl e,
  )

  -- From a well-formed state, the state behind the acknowledgement of a digest is well-formed again,
  -- if it is encoded.
  pub state_after_acknowledgement-IsState :
      (d : Text)
      → is_digest d ≡ true
      → encode_recoverable_state (state_after_acknowledgement s d)
        ≡ some (state_value (state_after_acknowledgement s d))
      → IsState v (state_after_acknowledgement s d)
  unfolding state_after_acknowledgement
  state_after_acknowledgement-IsState d h fits =
      let (all, once) = acknowledged_parts d (includes s.acknowledged_digests d) refl h in
      record {
        version = w.version;
        parsed = w.parsed;
        failures = w.failures;
        offered = AllTrue-without is_digest d s.offered_digests w.offered;
        acknowledged = all;
        offered_once = Distinct-without d [] s.offered_digests w.offered_once;
        acknowledged_once = once;
        candidate =
            Known-more s (state_after_acknowledgement s d) refl (still d) s.candidate w.candidate;
        recoverable = fits;
      }
    where
      still :
          (d t : Text)
          → has_digest s t ≡ true
          → has_digest (state_after_acknowledgement s d) t ≡ true
      still d t h = let (o, a, _, _) = state_after_acknowledgement_lem s d t in ground (arith, o, a)

  -- From a well-formed state, the state behind a failed check is well-formed again, if it is encoded.
  pub state_after_failed_check-IsState :
      (dates : Dates) (now : ℕ) (withdraw : Bool)
      → let next = state_after_failed_check dates s now withdraw in
        encode_recoverable_state next ≡ some (state_value next) → IsState v next
  unfolding state_after_failed_check state_with_failure_check
  state_after_failed_check-IsState dates now withdraw fits = record {
    version = w.version;
    parsed = w.parsed;
    failures = omega arith;
    offered = w.offered;
    acknowledged = w.acknowledged;
    offered_once = w.offered_once;
    acknowledged_once = w.acknowledged_once;
    candidate = kept withdraw;
    recoverable = fits;
  }
    where
      kept :
          (b : Bool)
          → Known (state_after_failed_check dates s now withdraw) (if b then none else s.candidate)
      kept true = tt
      kept false =
          Known-more s (state_after_failed_check dates s now withdraw) refl (λ _ h. h) s.candidate
            w.candidate

module _ (dates : Dates) (local : LocalRelease) (now : ℕ) (random : Sample) (s : State)
    (c : Candidate) (d : Text) (w : IsState local.version s) (good : IsCandidate c)
    (text : c.target_digest ≡ string d) where
  abbrev next : State
  next = checked_state dates now random s c

  abbrev Fits : State → Type 0
  Fits t = encode_recoverable_state t ≡ some (state_value t)

  abbrev IsGood : State → Type 0
  IsGood t = Fits t → IsState local.version t

  next-IsState : Known next (some c) → IsGood next
  next-IsState known fits = record {
    version = w.version;
    parsed = w.parsed;
    failures = omega arith;
    offered = w.offered;
    acknowledged = w.acknowledged;
    offered_once = w.offered_once;
    acknowledged_once = w.acknowledged_once;
    candidate = known;
    recoverable = fits;
  }

  pushed-parts :
      (b : Bool)
      → includes_value s.offered_digests c.target_digest ≡ b
      → AllTrue is_digest (pushed next c b).offered_digests
        × Distinct [] (pushed next c b).offered_digests
  unfolding to_text includes
  pushed-parts true e = (w.offered, w.offered_once)
  pushed-parts false e = (
    AllTrue-append is_digest s.offered_digests (to_text c.target_digest) w.offered good.digest,
    Distinct-append [] s.offered_digests (to_text c.target_digest) w.offered_once refl (absent e),
  )
    where
      absent :
          includes_value s.offered_digests c.target_digest ≡ false
          → includes s.offered_digests (to_text c.target_digest) ≡ false
      absent e =
          ap (λ x. includes s.offered_digests (to_text x)) text
          ∙ sym (includes_value-string s.offered_digests d)
          ∙ ap (includes_value s.offered_digests) (sym text)
          ∙ e

  pushed-IsState :
      (b : Bool)
      → includes_value s.offered_digests c.target_digest ≡ b
      → candidate_is_known s.installed_version
          (pushed next c b).offered_digests
          s.acknowledged_digests
          c
        ≡ true
      → IsGood (pushed next c b)
  pushed-IsState b e known fits = let (all, once) = pushed-parts b e in built b all once known fits
    where
      built :
          (b : Bool)
          → AllTrue is_digest (pushed next c b).offered_digests
          → Distinct [] (pushed next c b).offered_digests
          → candidate_is_known s.installed_version
              (pushed next c b).offered_digests
              s.acknowledged_digests
              c
            ≡ true
          → IsGood (pushed next c b)
      built true all once known fits = next-IsState (good, known) fits
      built false all once known fits = record {
        version = w.version;
        parsed = w.parsed;
        failures = omega arith;
        offered = all;
        acknowledged = w.acknowledged;
        offered_once = once;
        acknowledged_once = w.acknowledged_once;
        candidate = (good, known);
        recoverable = fits;
      }

  known_old :
      is_newer c.version local.version ≡ false
      → candidate_is_known s.installed_version s.offered_digests s.acknowledged_digests c ≡ true
  unfolding candidate_is_known
  known_old h = rw (w.version, h) refl

  known_held :
      (v : Option Text) (o a : List Text)
      → (includes_value o c.target_digest || includes_value a c.target_digest) ≡ true
      → candidate_is_known v o a c ≡ true
  unfolding candidate_is_known
  known_held none o a h = refl
  known_held (some v) o a h = ground (arith, h)

  of_acknowledged :
      (b : Bool)
      → includes_value s.acknowledged_digests c.target_digest ≡ b
      → IsGood (offered (some (if b then silent already_notified else notification local c)) next c)
  unfolding notification
  of_acknowledged true e =
      next-IsState (good, known_held s.installed_version _ _ (ground (arith, e)))
  of_acknowledged false e =
      pushed-IsState _ refl
        (known_held s.installed_version _ _ (ground (arith, pushed_held _ refl)))
    where
      pushed_held :
          (b : Bool)
          → includes_value s.offered_digests c.target_digest ≡ b
          → includes_value (pushed next c b).offered_digests c.target_digest ≡ true
      pushed_held b e =
          ap (includes_value (pushed next c b).offered_digests) text
          ∙ includes_value-string (pushed next c b).offered_digests d
          ∙ pushed-included next c d b text e

  of_order :
      (o : Option Ordering)
      → compare_semver c.version local.version ≡ o
      → IsGood (offered (o >>= λ x. some (compared_result local next c x)) next c)
  of_order none e = next-IsState (good, known_old (rw (e, is_newer) refl))
  of_order (some Ordering.lt) e = next-IsState (good, known_old (rw (e, is_newer) refl))
  of_order (some Ordering.eq) e = next-IsState (good, known_old (rw (e, is_newer) refl))
  of_order (some Ordering.gt) e = of_acknowledged _ refl

  -- From a well-formed state of the installed version, the state behind a check that fetched a valid
  -- candidate with a text as its digest is well-formed again, if it is encoded.
  pub committed_check-IsState : IsGood (committed_check dates local now random s c).state
  unfolding committed_check result_for_candidate
  committed_check-IsState = of_order (compare_semver c.version local.version) refl
