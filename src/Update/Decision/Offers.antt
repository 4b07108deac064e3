-- ===== src/Update/Decision/Offers.antt =====
-- Which updates are offered: `resultForCandidate`, and the changes that a check and an
-- acknowledgement commit.
use mathlib.Core.Path.{subst}
use salience.Base.{
  ℕ, ◌≡◌, refl, sym, ap, ◌∙◌, ◌↔◌, Text, List, [], ◌∷◌, ◌++◌, Bool, true, false, ◌||◌, Option, none,
  some, some_inj, arith, Ordering, text_eq_refl, includes, if◌then◌else◌, >>=-eq-some,
}
use salience.Json.{string}
use salience.Json.Print.{to_text}
use salience.Semver.{compare_semver}
use salience.Contract.{LocalRelease}
use salience.Update.State.{State, Candidate, state_after_acknowledgement}
use salience.Update.State.Normalize.{includes_value}
use salience.Update.State.Acknowledge.{state_after_acknowledgement_lem, includes-append}
use salience.Update.Decision.{
  Dates, Sample, Outcome, Notification, silent, update_available, acknowledged, already_notified,
  notification, compared_result, candidate_result, result_for_candidate, offered, checked_state,
  committed_check, committed_acknowledgement,
}

of_test :
    (b : Bool) {o : Outcome} {n : Notification}
    → (if b then silent already_notified else o) ≡ update_available n
    → (b ≡ false) × (o ≡ update_available n)
of_test true h = cc
of_test false h = (refl, h)

module _ (local : LocalRelease) (s : State) where
  of_candidate :
      (o : Option Candidate) (n : Notification)
      → candidate_result local s o ≡ some (update_available n)
      → (c : Candidate) × (o ≡ some c)
        × (compare_semver c.version local.version ≡ some Ordering.gt)
        × (includes_value s.acknowledged_digests c.target_digest ≡ false)
        × (notification local c ≡ update_available n)
  of_candidate none n h = cc
  of_candidate (some c) n h =
      let (order, e, rest) = >>=-eq-some (compare_semver c.version local.version) _ h in
      let (a, b, d) = of_order c n order (some_inj rest) in (c, refl, e ∙ ap some a, b, d)
    where
      of_order :
          (c : Candidate) (n : Notification) (order : Ordering)
          → compared_result local s c order ≡ update_available n
          → (order ≡ Ordering.gt)
            × (includes_value s.acknowledged_digests c.target_digest ≡ false)
            × (notification local c ≡ update_available n)
      of_order c n Ordering.gt h =
          let (fresh, same) = of_test (includes_value s.acknowledged_digests c.target_digest) h in
          (refl, fresh, same)
      of_order c n Ordering.eq h = cc
      of_order c n Ordering.lt h = cc

  -- An update is offered exactly when the cached candidate is newer than the installed version and
  -- its digest was not acknowledged.
  pub result_for_candidate-update_available_iff :
      (n : Notification)
      → (result_for_candidate local s ≡ some (update_available n)) ↔ (
          (c : Candidate) × (s.candidate ≡ some c)
          × (compare_semver c.version local.version ≡ some Ordering.gt)
          × (includes_value s.acknowledged_digests c.target_digest ≡ false)
          × (notification local c ≡ update_available n))
  unfolding result_for_candidate
  result_for_candidate-update_available_iff n = (
    of_candidate s.candidate n,
    λ (c, e, newer, fresh, same). rw (e, newer, fresh) (ap some same),
  )

pub includes_value-string :
    (ts : List Text) (d : Text) → includes_value ts (string d) ≡ includes ts d
unfolding includes_value
includes_value-string ts d = refl

module _ (local : LocalRelease) (s : State) (c : Candidate) (d : Text) where
  -- An acknowledged candidate that is newer than the installed version is not offered again.
  already_notified_lem :
      s.candidate ≡ some c
      → c.target_digest ≡ string d
      → compare_semver c.version local.version ≡ some Ordering.gt
      → includes s.acknowledged_digests d ≡ true
      → result_for_candidate local s ≡ some (silent already_notified)
  unfolding result_for_candidate
  already_notified_lem e f newer held =
      rw (e, newer, f, includes_value-string s.acknowledged_digests d, held)

module _ (next : State) (c : Candidate) where
  abbrev pub pushed : Bool → State
  pushed b =
      if b
      then next
      else record next { offered_digests = next.offered_digests ++ (to_text c.target_digest ∷ []) }

  pub pushed-included :
      (d : Text) (b : Bool)
      → c.target_digest ≡ string d
      → includes_value next.offered_digests c.target_digest ≡ b
      → includes (pushed b).offered_digests d ≡ true
  unfolding includes to_text
  pushed-included d true e h =
      sym (includes_value-string next.offered_digests d)
      ∙ ap (includes_value next.offered_digests) (sym e)
      ∙ h
  pushed-included d false e h =
      rw (e, includes-append next.offered_digests (d ∷ []) d, last d)
        (or_true (includes next.offered_digests d))
    where
      last : (d : Text) → includes (d ∷ []) d ≡ true
      last d = rw (text_eq_refl d) refl

      or_true : (b : Bool) → (b || true) ≡ true
      or_true true = refl
      or_true false = refl

  pub offered-included :
      (n : Notification) (d : Text)
      → c.target_digest ≡ string d
      → includes (offered (some (update_available n)) next c).offered_digests d ≡ true
  offered-included n d e = pushed-included d _ e refl

  pushed-keeps :
      (b : Bool)
      → ((pushed b).candidate ≡ next.candidate)
        × ((pushed b).acknowledged_digests ≡ next.acknowledged_digests)
  pushed-keeps true = (refl, refl)
  pushed-keeps false = (refl, refl)

module _ (dates : Dates) (local : LocalRelease) where
  kept :
      (next : State) (c : Candidate) (r : Option Outcome)
      → (offered r next c).candidate ≡ next.candidate
  kept next c none = refl
  kept next c (some (silent reason)) = refl
  kept next c (some (acknowledged key)) = refl
  kept next c (some (update_available n)) = (pushed-keeps next c _).0

  abbrev pub IsSettled : ℕ → Sample → State → Candidate → Text → Text → Type 0
  IsSettled later again offer c d key =
      let settled = state_after_acknowledgement offer d in
      (committed_acknowledgement d key offer ≡ (some settled, acknowledged key))
      × (result_for_candidate local settled ≡ some (silent already_notified))
      × ((committed_check dates local later again settled c).result
          ≡ some (silent already_notified))

  acknowledged_offer :
      (later : ℕ) (again : Sample) (offer : State) (c : Candidate) (d key : Text)
      → offer.candidate ≡ some c
      → c.target_digest ≡ string d
      → compare_semver c.version local.version ≡ some Ordering.gt
      → includes offer.offered_digests d ≡ true
      → IsSettled later again offer c d key
  unfolding committed_check committed_acknowledgement
  acknowledged_offer later again offer c d key held e newer known =
      let settled = state_after_acknowledgement offer d in
      let (_, now_held, same, _) = state_after_acknowledgement_lem offer d d in
      let held_now : includes settled.acknowledged_digests d ≡ true =
        ground (arith, now_held, text_eq_refl d) in
      (
        rw known refl,
        already_notified_lem local settled c d (same ∙ held) e newer held_now,
        already_notified_lem local (checked_state dates later again settled c) c d refl e newer
            held_now,
      )

  -- After an update was offered its event key is accepted, and from the state that is then written
  -- no check offers the same update again, whenever it runs.
  pub committed_check-acknowledged :
      (now later : ℕ) (random again : Sample) (s : State) (c : Candidate) (d key : Text)
      (n : Notification)
      → c.target_digest ≡ string d
      → (committed_check dates local now random s c).result ≡ some (update_available n)
      → IsSettled later again (committed_check dates local now random s c).state c d key
  unfolding committed_check committed_acknowledgement
  committed_check-acknowledged now later random again s c d key n e h =
      let next = checked_state dates now random s c in
      let (c', same, newer, _, _) = (result_for_candidate-update_available_iff local next n).0 h in
      acknowledged_offer later again (offered (result_for_candidate local next) next c) c d key
        (kept next c _) e (ap (λ x. compare_semver x.version local.version) (some_inj same) ∙ newer)
        (subst (λ r. includes (offered r next c).offered_digests d ≡ true) (sym h)
          (offered-included next c n d e))
