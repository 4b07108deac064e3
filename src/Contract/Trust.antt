-- ===== src/Contract/Trust.antt =====
-- What an accepted release or manifest is known to hold.
use mathlib.Core.Path.{subst}
use salience.Base.{◌≡◌, sym, Text, codes, [], Bool, true, arith, refl, text_eq, text_eq_refl}
use salience.Base.Result.{ok, >>=-eq-ok, require-eq-ok, require, ok_inj}
use salience.Json.{Value, string, get, get_field, is_text, is_one}
use salience.Json.Keys.{has_exact_keys_run}
use salience.Json.Print.{to_text}
use salience.Semver.{is_stable_core_version}
use salience.Contract.{
  Manifest, manifest_of, validate_stable_update_manifest, has_stable_identity, text_field, text_or,
  manifest_value, is_summary, is_severity, is_hex_of, notes_url, stable_core_value,
  validate_release_notes_url,
}
use salience.Contract.Timestamp.{is_canonical_utc_timestamp}

text_field-text_or : (p : Text → Bool) (v : Value) → text_field p v ≡ true → p (text_or v []) ≡ true
unfolding text_or
text_field-text_or p (string t) h = h
text_field-text_or p _ h = cc

-- What the readers of an accepted manifest rely on.
pub record IsTrusted (m : Manifest) : Type 0 where
  pub stable : is_stable_core_version m.version ≡ true
  pub notes : m.release_notes ≡ notes_url m.version
  pub published : is_canonical_utc_timestamp m.published_at ≡ true
  pub tree : is_hex_of 40 (to_text m.tree_sha) ≡ true
  pub digest : is_hex_of 64 (to_text m.sha256) ≡ true
  pub summary : is_summary m.summary ≡ true
  pub severity : is_severity m.severity ≡ true

module _ (value : Value) (identity : has_stable_identity value ≡ true) where
  stable_identity : stable_core_value (get (codes "version") value) ≡ true
  unfolding has_stable_identity
  stable_identity = ground arith

  tree_identity : is_hex_of 40 (to_text (get (codes "treeSha") (get (codes "source") value))) ≡ true
  unfolding has_stable_identity
  tree_identity = ground arith

  digest_identity :
      is_hex_of 64 (to_text (get (codes "sha256") (get (codes "artifact") value))) ≡ true
  unfolding has_stable_identity
  digest_identity = ground arith

stable_core_value-text_or :
    (v : Value) → stable_core_value v ≡ true → is_stable_core_version (text_or v []) ≡ true
unfolding text_or
stable_core_value-text_or (string t) h = h
stable_core_value-text_or _ h = cc

validate_release_notes_url-eq-ok :
    (value version : Value) (notes : Text)
    → validate_release_notes_url value version ≡ ok notes
    → notes ≡ notes_url (text_or version [])
unfolding validate_release_notes_url
validate_release_notes_url-eq-ok value version notes h =
    let (_, _, rest) = >>=-eq-ok (require (stable_core_value version) _) _ h in
    let (_, _, last) =
      >>=-eq-ok (require (is_text (notes_url (text_or version [])) value) _) _ rest in
    sym (ok_inj last)

-- An accepted manifest is for a stable version with the release notes of that very version, has a
-- real publication time, two hashes that are hexadecimal digits once `String` is applied to them, a
-- short summary without control or bidirectional characters, and a known severity.
pub validate_stable_update_manifest-IsTrusted :
    (value : Value) (m : Manifest) → validate_stable_update_manifest value ≡ ok m → IsTrusted m
unfolding validate_stable_update_manifest
validate_stable_update_manifest-IsTrusted value m h =
    let (_, e, h1) = >>=-eq-ok (require (has_stable_identity value) _) _ h in
    let (_, time, h2) = >>=-eq-ok (require (text_field is_canonical_utc_timestamp _) _) _ h1 in
    let (_, summary, h3) = >>=-eq-ok (require (text_field is_summary _) _) _ h2 in
    let (notes, url, h4) = >>=-eq-ok (validate_release_notes_url _ _) _ h3 in
    let (_, severity, h5) = >>=-eq-ok (require (text_field is_severity _) _) _ h4 in
    let identity = require-eq-ok (has_stable_identity value) _ e in
    subst IsTrusted (ok_inj h5) (
      unfold manifest_of in
      record {
        stable = stable_core_value-text_or _ (stable_identity value identity);
        notes = validate_release_notes_url-eq-ok _ _ notes url;
        published = text_field-text_or is_canonical_utc_timestamp _ (require-eq-ok _ _ time);
        tree = tree_identity value identity;
        digest = digest_identity value identity;
        summary = text_field-text_or is_summary _ (require-eq-ok _ _ summary);
        severity = text_field-text_or is_severity _ (require-eq-ok _ _ severity);
      })

-- The validator accepts what passes its five tests.
accepted_lem :
    (value : Value) (notes : Text)
    → has_stable_identity value ≡ true
    → text_field is_canonical_utc_timestamp (get (codes "publishedAt") value) ≡ true
    → text_field is_summary (get (codes "summary") value) ≡ true
    → validate_release_notes_url (get (codes "releaseNotes") value) (get (codes "version") value)
      ≡ ok notes
    → text_field is_severity (get (codes "severity") value) ≡ true
    → validate_stable_update_manifest value ≡ ok (manifest_of value notes)
unfolding validate_stable_update_manifest
accepted_lem value notes a b c d e = rw (a, b, c, d, e) refl

module _ (m : Manifest) (trusted : IsTrusted m) where
  has_stable_identity-manifest_value : has_stable_identity (manifest_value m) ≡ true
  unfolding has_stable_identity has_exact_keys_run get get_field is_text is_one text_or
  has_stable_identity-manifest_value =
      rw (trusted.stable, text_eq_refl m.version, trusted.tree, trusted.digest) refl

  notes-manifest_value :
      validate_release_notes_url (string m.release_notes) (string m.version) ≡ ok m.release_notes
  unfolding validate_release_notes_url is_text text_or
  notes-manifest_value = rw (trusted.stable, trusted.notes, text_eq_refl (notes_url m.version)) refl

  IsTrusted-manifest_value : validate_stable_update_manifest (manifest_value m) ≡ ok m
  unfolding get get_field manifest_of text_or text_eq
  IsTrusted-manifest_value =
      accepted_lem (manifest_value m) m.release_notes has_stable_identity-manifest_value
        trusted.published trusted.summary notes-manifest_value trusted.severity

-- What the validator returns for a manifest, it accepts in turn, and returns it unchanged.
pub validate_stable_update_manifest-manifest_value :
    (value : Value) (m : Manifest)
    → validate_stable_update_manifest value ≡ ok m
    → validate_stable_update_manifest (manifest_value m) ≡ ok m
validate_stable_update_manifest-manifest_value value m h =
    IsTrusted-manifest_value m (validate_stable_update_manifest-IsTrusted value m h)
