-- ===== src/Update/Decision/Digests.antt =====
-- Lists of digests that lose or gain one, and the candidates that stay known.
use mathlib.Core.Path.{subst}
use salience.Base.{
  ◌≡◌, refl, sym, Text, List, [], ◌∷◌, ◌++◌, Bool, true, false, not, ◌||◌, Option, none, some,
  arith, text_eq, includes, AllTrue,
}
use salience.Json.{Value, undefined, null, boolean, integer, fraction, string, array, object}
use salience.Update.State.{State, Candidate}
use salience.Update.State.Normalize.{includes_value, candidate_is_known, is_newer}
use salience.Update.State.Normalize.Roundtrip.{Distinct, Known}
use salience.Update.State.Acknowledge.{without}

Distinct-fewer :
    (seen fewer ts : List Text)
    → ((t : Text) → includes fewer t ≡ true → includes seen t ≡ true)
    → Distinct seen ts
    → Distinct fewer ts
unfolding includes
Distinct-fewer seen fewer [] sub h = tt
Distinct-fewer seen fewer (t ∷ ts) sub h = (
  ground (arith, sub t, h.0),
  Distinct-fewer (t ∷ seen) (t ∷ fewer) ts (λ u e. ground (arith, sub u)) h.1,
)

pub Distinct-without :
    (d : Text) (seen ts : List Text) → Distinct seen ts → Distinct seen (without d ts)
unfolding includes
Distinct-without d seen [] h = tt
Distinct-without d seen (t ∷ ts) h = step (text_eq t d) (h.0, Distinct-without d (t ∷ seen) ts h.1)
  where
    step :
        (b : Bool)
        → Distinct seen (t ∷ without d ts)
        → Distinct seen (elim (not b) [ true ↦ t ∷ without d ts | false ↦ without d ts ])
    step true k = Distinct-fewer (t ∷ seen) seen (without d ts) (λ u e. ground arith) k.1
    step false k = k

pub Distinct-append :
    (seen ts : List Text) (d : Text)
    → Distinct seen ts
    → includes seen d ≡ false
    → includes ts d ≡ false
    → Distinct seen (ts ++ (d ∷ []))
unfolding includes
Distinct-append seen [] d h a b = (a, tt)
Distinct-append seen (t ∷ ts) d h a b =
    (h.0, Distinct-append (t ∷ seen) ts d h.1 (ground (arith)) (ground (arith)))

pub AllTrue-without :
    (p : Text → Bool) (d : Text) (ts : List Text) → AllTrue p ts → AllTrue p (without d ts)
AllTrue-without p d [] h = tt
AllTrue-without p d (t ∷ ts) h = step (text_eq t d) (h.0, AllTrue-without p d ts h.1)
  where
    step :
        (b : Bool)
        → AllTrue p (t ∷ without d ts)
        → AllTrue p (elim (not b) [ true ↦ t ∷ without d ts | false ↦ without d ts ])
    step true k = k.1
    step false k = k

pub AllTrue-append :
    (p : Text → Bool) (ts : List Text) (d : Text)
    → AllTrue p ts
    → p d ≡ true
    → AllTrue p (ts ++ (d ∷ []))
AllTrue-append p [] d h e = (e, tt)
AllTrue-append p (t ∷ ts) d h e = (h.0, AllTrue-append p ts d h.1 e)

-- A candidate stays known where no digest is dropped.
module _ (o a o' a' : List Text)
    (more : (t : Text)
      → (includes o t || includes a t) ≡ true
      → (includes o' t || includes a' t) ≡ true) where
  known-value :
      (b : Bool) (d : Value)
      → (b || includes_value o d || includes_value a d) ≡ true
      → (b || includes_value o' d || includes_value a' d) ≡ true
  unfolding includes_value
  known-value b (string t) h = ground (arith, more t)
  known-value b undefined h = h
  known-value b null h = h
  known-value b (boolean x) h = h
  known-value b (integer x) h = h
  known-value b (fraction x) h = h
  known-value b (array x) h = h
  known-value b (object x) h = h

  known-more :
      (v : Option Text) (c : Candidate)
      → candidate_is_known v o a c ≡ true
      → candidate_is_known v o' a' c ≡ true
  unfolding candidate_is_known
  known-more none c h = refl
  known-more (some v) c h = known-value (not (is_newer c.version v)) c.target_digest h

abbrev pub has_digest : State → Text → Bool
has_digest s d = includes s.offered_digests d || includes s.acknowledged_digests d

pub Known-more :
    (s t : State)
    → t.installed_version ≡ s.installed_version
    → ((d : Text) → has_digest s d ≡ true → has_digest t d ≡ true)
    → (x : Option Candidate) → Known s x
    → Known t x
Known-more s t same more none h = tt
Known-more s t same more (some c) h = (
  h.0,
  subst (λ v. candidate_is_known v t.offered_digests t.acknowledged_digests c ≡ true) (sym same)
      (known-more s.offered_digests s.acknowledged_digests t.offered_digests t.acknowledged_digests
        more s.installed_version c h.1),
)
