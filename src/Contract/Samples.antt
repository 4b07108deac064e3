-- ===== src/Contract/Samples.antt =====
-- A manifest, for the runs of the validators and the request.
use salience.Base.{Text, codes, [], ◌∷◌}
use salience.Json.{Value, string, integer, pos, object, object_of}
use salience.Contract.{Manifest, expected_repository}

abbrev pub tree_text : Text
tree_text = codes "0123456789abcdef0123456789abcdef01234567"

abbrev pub manifest_digest : Text
manifest_digest = codes "0123456789abcdef0123456789abcdef0123456789abcdef0123456789abcdef"

abbrev pub manifest_with : Value → Value
manifest_with tree = object (
    object_of (
      (codes "schemaVersion", integer (pos 1))
      ∷ (codes "skillId", string (codes "archify"))
      ∷ (codes "channel", string (codes "stable"))
      ∷ (codes "version", string (codes "2.1.0"))
      ∷ (codes "publishedAt", string (codes "2024-02-29T12:30:59Z"))
      ∷ (
        codes "source",
        object (
            object_of (
              (codes "repository", string expected_repository)
              ∷ (codes "ref", string (codes "v2.1.0"))
              ∷ (codes "treeSha", tree)
              ∷ [])),
      )
      ∷ (codes "artifact", object (object_of ((codes "sha256", string manifest_digest) ∷ [])))
      ∷ (codes "summary", string (codes "Fixes"))
      ∷ (
        codes "releaseNotes",
        string (codes "https://github.com/tt-a1i/archify/releases/tag/v2.1.0"),
      )
      ∷ (codes "severity", string (codes "security"))
      ∷ []))

abbrev pub read_with : Value → Manifest
read_with tree = record {
  version = codes "2.1.0";
  published_at = codes "2024-02-29T12:30:59Z";
  tree_sha = tree;
  sha256 = string manifest_digest;
  summary = codes "Fixes";
  release_notes = codes "https://github.com/tt-a1i/archify/releases/tag/v2.1.0";
  severity = codes "security";
}
