-- ===== src/Update/State/Acknowledge.antt =====
-- What an acknowledgement does to the two lists of digests.
use mathlib.Core.Path.{subst}
use salience.Base.{
  ◌≡◌, and-eq-true, refl, sym, Text, text_eq, text_eq_iff, text_eq_refl, includes, List, [], ◌∷◌,
  ◌++◌, true, false, not, ◌&&◌, ◌||◌, some, arith, keep,
}
use salience.Json.{Value}
use salience.Update.State.{State, state_value, state_after_acknowledgement}
use salience.Update.State.Encode.{is_recoverable, acknowledgements_fit, encode_recoverable_state}

pub includes-append :
    (ss ts : List Text) (t : Text) → includes (ss ++ ts) t ≡ (includes ss t || includes ts t)
unfolding includes
includes-append [] ts t = refl
includes-append (s ∷ ss) ts t = ground (arith, includes-append ss ts t)

-- `digests.filter((digest) => digest !== d)`
abbrev pub without : Text → List Text → List Text
without d = keep (λ digest. not (text_eq digest d))

pub includes-without :
    (d : Text) (ss : List Text) (t : Text)
    → includes (without d ss) t ≡ (includes ss t && not (text_eq t d))
unfolding includes
includes-without d [] t = refl
includes-without d (s ∷ ss) t =
    ground (arith, text_eq_iff s d, text_eq_iff s t, text_eq_iff t d, includes-without d ss t)

without-of_absent : (d : Text) (ss : List Text) → includes ss d ≡ false → without d ss ≡ ss
unfolding includes
without-of_absent d [] h = refl
without-of_absent d (s ∷ ss) h = ground (arith, without-of_absent d ss)

module _ (s : State) (d t : Text) where
  offered_after :
      includes (state_after_acknowledgement s d).offered_digests t
      ≡ (includes s.offered_digests t && not (text_eq t d))
  unfolding state_after_acknowledgement
  offered_after = includes-without d s.offered_digests t

  acknowledged_after :
      includes (state_after_acknowledgement s d).acknowledged_digests t
      ≡ (includes s.acknowledged_digests t || text_eq t d)
  unfolding state_after_acknowledgement includes
  acknowledged_after =
      ground
        (arith, includes-append s.acknowledged_digests (d ∷ []) t, text_eq_iff d t, text_eq_iff t d)

-- An acknowledgement takes the digest out of the offered ones and puts it among the acknowledged
-- ones; every other digest stays where it was, and so does the rest of the state.
pub state_after_acknowledgement_lem :
    (s : State) (d t : Text)
    → (includes (state_after_acknowledgement s d).offered_digests t
        ≡ (includes s.offered_digests t && not (text_eq t d)))
      × (includes (state_after_acknowledgement s d).acknowledged_digests t
          ≡ (includes s.acknowledged_digests t || text_eq t d))
      × ((state_after_acknowledgement s d).candidate ≡ s.candidate)
      × ((state_after_acknowledgement s d).next_check_at ≡ s.next_check_at)
unfolding state_after_acknowledgement
state_after_acknowledgement_lem s d t = (offered_after s d t, acknowledged_after s d t, refl, refl)

settled :
    (t : State) (d : Text)
    → includes t.offered_digests d ≡ false
    → includes t.acknowledged_digests d ≡ true
    → state_after_acknowledgement t d ≡ t
unfolding state_after_acknowledgement
settled t d gone held = rw (held, without-of_absent d t.offered_digests gone)

-- A second acknowledgement of the same digest changes nothing.
pub state_after_acknowledgement_twice :
    (s : State) (d : Text)
    → state_after_acknowledgement (state_after_acknowledgement s d) d
      ≡ state_after_acknowledgement s d
state_after_acknowledgement_twice s d =
    let t = state_after_acknowledgement s d in
    settled t d (ground (arith, offered_after s d d, text_eq_refl d))
      (ground (arith, acknowledged_after s d d, text_eq_refl d))

offered_rest :
    (s : State) (d : Text) (rest : List Text)
    → s.offered_digests ≡ d ∷ rest
    → includes rest d ≡ false
    → (state_after_acknowledgement s d).offered_digests ≡ rest
unfolding state_after_acknowledgement
offered_rest s d rest e h = rw e (ground (arith, text_eq_refl d, without-of_absent d rest h))

-- Of a state that can be written, with its offered digests distinct, the state after the oldest
-- offered digest is acknowledged can be written too.
pub encode_recoverable_state-acknowledged :
    (s : State) (v : Value) (d : Text) (rest : List Text)
    → encode_recoverable_state s ≡ some v
    → s.offered_digests ≡ d ∷ rest
    → includes rest d ≡ false
    → encode_recoverable_state (state_after_acknowledgement s d)
      ≡ some (state_value (state_after_acknowledgement s d))
unfolding encode_recoverable_state
encode_recoverable_state-acknowledged s v d rest h e fresh =
    let t = state_after_acknowledgement s d in
    let both : (is_recoverable s && acknowledgements_fit s s.offered_digests) ≡ true =
      ground arith in
    let fit : acknowledgements_fit s (d ∷ rest) ≡ true =
      subst (λ ds. acknowledgements_fit s ds ≡ true) e
        (and-eq-true (is_recoverable s) (acknowledgements_fit s s.offered_digests) both).1 in
    let (next, later) =
      and-eq-true (is_recoverable t) (acknowledgements_fit t rest)
        (unfold acknowledgements_fit in fit) in
    let all : acknowledgements_fit t t.offered_digests ≡ true =
      subst (λ ds. acknowledgements_fit t ds ≡ true) (sym (offered_rest s d rest e fresh)) later in
    rw (next, all)
