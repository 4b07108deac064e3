-- ===== src/Update/Decision/Keys.antt =====
-- The keys of update events: `eventKeyForDigest` and `digestForEventKey`.
use salience.Base.{
  ◌≡◌, refl, sym, ap, ap₂, ◌∙◌, Text, [], ◌∷◌, ◌++◌, true, some, ◌==◌, if-eq-some, ==_iff, ==_refl,
  >>=-eq-some, some_inj,
}
use salience.Json.{Value, string}
use salience.Update.State.Normalize.{is_digest, strip}
use salience.Update.Decision.{event_prefix, event_key_for_digest, digest_for_event_key}

strip-append : (p t : Text) → strip p (p ++ t) ≡ some t
strip-append [] t = refl
strip-append (c ∷ p) t = rw (==_refl c, strip-append p t) refl

pub append-strip : (p s t : Text) → strip p s ≡ some t → s ≡ p ++ t
append-strip [] s t h = some_inj h
append-strip (c ∷ p) [] t h = cc
append-strip (c ∷ p) (d ∷ s) t h =
    let (e, r) = if-eq-some (c == d) (strip p s) t h in
    ap₂ (λ x xs. x ∷ xs) (sym ((==_iff c d).0 e)) (append-strip p s t r)

-- The event key of a digest is read back as the digest.
pub digest_for_event_key-event_key_for_digest :
    (d : Text)
    → is_digest d ≡ true
    → digest_for_event_key (string (event_key_for_digest d)) ≡ some d
unfolding digest_for_event_key event_key_for_digest
digest_for_event_key-event_key_for_digest d h = rw (strip-append event_prefix d, h) refl

-- A value that is read as an event key is the key of the digest that was read, and that is a digest.
pub event_key_for_digest-digest_for_event_key :
    (v : Value) (d : Text)
    → digest_for_event_key v ≡ some d
    → (v ≡ string (event_key_for_digest d)) × (is_digest d ≡ true)
unfolding digest_for_event_key event_key_for_digest
event_key_for_digest-digest_for_event_key (string k) d h =
    let (t, e, rest) = >>=-eq-some (strip event_prefix k) _ h in
    let (b, same) = if-eq-some (is_digest t) (some t) d rest in
    let eq = some_inj same in
    (
      ap string (append-strip event_prefix k t e ∙ ap (λ x. event_prefix ++ x) eq),
      ap is_digest (sym eq) ∙ b,
    )
event_key_for_digest-digest_for_event_key _ d h = cc
