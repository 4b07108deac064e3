-- ===== src/Update/Fetch/Tests.antt =====
-- Runs of the request on responses.
use salience.Base.{
  ◌≡◌, refl, ◌↔◌, ℕ, Text, codes, text_eq, List, [], ◌∷◌, Bool, true, false, Option, none, some,
  if◌then◌else◌,
}
use salience.Base.Result.{ok, err}
use salience.Json.{string, null}
use salience.Contract.{default_manifest_url, response_too_large, not_json}
use salience.Contract.Samples.{manifest_with, tree_text}
use salience.Update.State.{Candidate}
use salience.Update.Fetch.{
  FetchError, contract, failed, Effect, cancelled_body, cancelled_reader, released_reader, Read,
  chunk, broken, Response, Codec, fetch_candidate, received, join_chunks, zero_bytes,
}
use salience.Update.Fetch.Accepted.{IsAnswer, fetch_candidate_iff, IsCleaned, received-IsCleaned}

abbrev codec : Codec
codec = record {
  number = λ t. none;
  decode = λ bytes. some bytes;
  parse = λ t. some (if text_eq t (codes "mn") then manifest_with (string tree_text) else null);
}

abbrev reads : List Read
reads = chunk (b'm' ∷ []) ∷ chunk [] ∷ chunk (b'n' ∷ []) ∷ []

abbrev response : Response
response = record {
  status = 200;
  content_length = none;
  content_type = some (codes " Application/JSON ; charset=utf-8");
  body = some reads;
}

abbrev candidate : Candidate
candidate = record {
  version = codes "2.1.0";
  target_digest =
      string (codes "sha256:0123456789abcdef0123456789abcdef0123456789abcdef0123456789abcdef");
  severity = codes "security";
  release_notes = codes "https://github.com/tt-a1i/archify/releases/tag/v2.1.0";
}

abbrev fetch_impl : Text → Option Response
fetch_impl url = some response

fetched :
    fetch_candidate codec fetch_impl false default_manifest_url
    ≡ (ok candidate, released_reader ∷ [])
unfolding fetch_candidate received salience.Update.Fetch.read_manifest
    salience.Update.Fetch.read_bounded_body salience.Update.Fetch.read_body
    salience.Update.Fetch.read_chunks salience.Update.Fetch.join_chunks
    salience.Update.Fetch.set_chunks salience.Update.Fetch.set_bytes salience.Update.Fetch.overlay
    salience.Update.Fetch.media_type salience.Update.Fetch.trim_start salience.Update.Fetch.trim_end
    salience.Semver.split_first salience.Contract.manifest_run
    salience.Update.Decision.validate_manifest salience.Base.text_eq
fetched = refl

-- A chunk of more than 32 KiB ends the request.
too_large :
    received codec (record response { body = some (chunk (zero_bytes 32769) ∷ broken ∷ []) })
    ≡ (err (contract response_too_large), cancelled_reader ∷ released_reader ∷ [])
unfolding received salience.Update.Fetch.read_manifest salience.Update.Fetch.read_bounded_body
    salience.Update.Fetch.read_body salience.Update.Fetch.read_chunks
    salience.Update.Fetch.media_type salience.Update.Fetch.trim_start salience.Update.Fetch.trim_end
    salience.Semver.split_first salience.Base.text_eq
too_large = refl

fetch_candidate_iff_example :
    ((fetch_candidate codec fetch_impl false default_manifest_url).0 ≡ ok candidate)
    ↔ IsAnswer codec fetch_impl false default_manifest_url candidate
fetch_candidate_iff_example =
    fetch_candidate_iff codec fetch_impl false default_manifest_url candidate

received-IsCleaned_example : IsCleaned codec (received codec response).1
received-IsCleaned_example = received-IsCleaned codec response reads refl
