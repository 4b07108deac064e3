-- ===== src/Update/Fetch/Accepted.antt =====
-- Which responses give a candidate, and what becomes of their bodies.
use salience.Base.{
  ℕ, ◌+◌, ◌≤◌, ◌≡◌, refl, sym, ap, ◌∙◌, ◌↔◌, ◌⊎◌, inl, inr, Text, text_eq, text_eq_iff, List, [],
  ◌∷◌, ◌++◌, Bool, true, false, not, Option, none, some, arith, ltb, ◌==◌, length, if◌then◌else◌,
  Bool-cases,
}
use mathlib.Core.List.{append-nil}
use mathlib.Core.Path.{subst}
use salience.Base.Result.{Result, ok, err, ok_inj}
use salience.Json.{Value}
use salience.Contract.{ContractError, default_manifest_url, not_bounded_json, not_utf8}
use salience.Update.State.{Candidate}
use salience.Update.Decision.{validate_manifest}
use salience.Update.Fetch.{
  FetchError, Effect, cancelled_body, cancelled_reader, released_reader, Read, Response, Codec,
  Request, ◌>>=◌, need, max_response_bytes, read_chunks, join_chunks, released_after, header_number,
  is_too_long, read_body, read_bounded_body, is_json, validated, received, read_manifest,
  parsed_manifest, answered_request, fetch_candidate, chunk, broken,
}
use salience.Update.Fetch.Body.{
  concat, chunks_of, read_chunks-IsRead, read_chunks-chunks_of, join_chunks-concat, if_ok,
  length-concat,
}

bind_ok :
    {A : Type 0} {B : Type 0} (m : Request A) (f : A → Request B) {b : B}
    → (m >>= f).0 ≡ ok b
    → (a : A) × (m.0 ≡ ok a) × ((f a).0 ≡ ok b)
bind_ok (err e, es) f h = cc
bind_ok (ok a, es) f h = (a, refl, h)

need_ok : {A : Type 0} (o : Option A) (e : ContractError) {a : A} → (need o e).0 ≡ ok a → o ≡ some a
need_ok none e h = cc
need_ok (some a) e h = ap some (ok_inj h)

validated_ok : {A : Type 0} (r : Result ContractError A) {a : A} → (validated r).0 ≡ ok a → r ≡ ok a
validated_ok (err e) h = cc
validated_ok (ok a) h = ap ok (ok_inj h)

if_not_ok :
    {A : Type 0} (b : Bool) (e : FetchError) (es : List Effect) (m : Request A) {a : A}
    → (if not b then (err e, es) else m).0 ≡ ok a
    → (b ≡ true) × (m.0 ≡ ok a)
if_not_ok true e es m h = (refl, h)
if_not_ok false e es m h = cc

-- A response with a valid manifest: its status, its media type, its length and the bytes of its
-- chunks.
pub record Accepts (codec : Codec) (response : Response) (c : Candidate) : Type 0 where
  pub chunks : List (List ℕ)
  pub source : Text
  pub value : Value
  pub status : response.status ≡ 200
  pub media : is_json response.content_type ≡ true
  pub announced : is_too_long (header_number codec response.content_length) ≡ false
  pub body : response.body ≡ some (chunks_of chunks)
  pub bounded : length (concat chunks) ≤ max_response_bytes
  pub decoded : codec.decode (concat chunks) ≡ some source
  pub parsed : codec.parse source ≡ some value
  pub valid : validate_manifest value ≡ ok c

module _ (codec : Codec) where
  abbrev HasSource : Option (List Read) → Text → Type 0
  HasSource body source =
      (chunks : List (List ℕ)) × (body ≡ some (chunks_of chunks))
      × (length (concat chunks) ≤ max_response_bytes)
      × (codec.decode (concat chunks) ≡ some source)

  read_body_ok :
      (body : Option (List Read)) {source : Text}
      → (read_body codec body).0 ≡ ok source
      → HasSource body source
  unfolding read_body
  read_body_ok none h = cc
  read_body_ok (some reads) h =
      let (chunks, a, b) = bind_ok (released_after (read_chunks reads 0 [])) _ h in
      let r = read_chunks-IsRead reads 0 [] chunks (omega arith) a in
      (
        r.more,
        ap some r.same,
        omega (arith, length-concat r.more, r.bounded),
        ap codec.decode (sym (join_chunks-concat r.more) ∙ ap join_chunks (sym r.pushed))
            ∙ need_ok (codec.decode (join_chunks chunks)) _ b,
      )

  of_body :
      (chunks : List (List ℕ)) (source : Text)
      → length (concat chunks) ≤ max_response_bytes
      → codec.decode (concat chunks) ≡ some source
      → (read_body codec (some (chunks_of chunks))).0 ≡ ok source
  unfolding read_body
  of_body chunks source l h =
      rw
        (
          read_chunks-chunks_of chunks [] 0 (omega (arith, l, length-concat chunks)),
          join_chunks-concat chunks,
          h,
        )
        refl

  received_ok :
      (response : Response) (c : Candidate)
      → (received codec response).0 ≡ ok c
      → Accepts codec response c
  unfolding received read_manifest read_bounded_body
  received_ok response c h =
      let (a, h1) = if_not_ok (response.status == 200) _ _ _ h in
      let (b, h2) = if_not_ok (is_json response.content_type) _ _ _ h1 in
      let (source, h3, h4) = bind_ok (read_bounded_body codec response) _ h2 in
      let (value, h5, h6) = bind_ok (need (codec.parse source) _) _ h4 in
      let (d, h7) = if_ok (is_too_long (header_number codec response.content_length)) _ _ _ h3 in
      let (chunks, e, f, g) = read_body_ok response.body h7 in
      record {
        chunks = chunks;
        source = source;
        value = value;
        status = ground (arith, a);
        media = b;
        announced = d;
        body = e;
        bounded = f;
        decoded = g;
        parsed = need_ok (codec.parse source) _ h5;
        valid = validated_ok (validate_manifest value) h6;
      }

  of_response :
      (response : Response) (c : Candidate)
      → Accepts codec response c
      → (received codec response).0 ≡ ok c
  unfolding received read_manifest read_bounded_body
  of_response response c r =
      rw
        (
          r.status,
          r.media,
          r.announced,
          r.body,
          of_body r.chunks r.source r.bounded r.decoded,
          r.parsed,
          r.valid,
        )
        refl

  abbrev pub IsAnswer : (Text → Option Response) → Bool → Text → Candidate → Type 0
  IsAnswer fetch_impl late url c =
      (url ≡ default_manifest_url)
      × (late ≡ false)
      × ((response : Response) × (fetch_impl url ≡ some response) × Accepts codec response c)

  answered_ok :
      (o : Option Response) (c : Candidate)
      → (answered_request codec o).0 ≡ ok c
      → (response : Response) × (o ≡ some response) × Accepts codec response c
  answered_ok none c h = cc
  answered_ok (some response) c h = (response, refl, received_ok response c h)

  -- `fetchCandidate` gives a candidate exactly when it asks the known address and the answer is in
  -- time, has status 200 and the media type of JSON, announces no more than 32 KiB and has no more
  -- in its chunks, and these decode and parse to a manifest that validates to the candidate.
  pub fetch_candidate_iff :
      (fetch_impl : Text → Option Response) (late : Bool) (url : Text) (c : Candidate)
      → ((fetch_candidate codec fetch_impl late url).0 ≡ ok c) ↔ IsAnswer fetch_impl late url c
  unfolding fetch_candidate
  fetch_candidate_iff fetch_impl late url c = (forward, backward)
    where
      forward :
          (fetch_candidate codec fetch_impl late url).0 ≡ ok c → IsAnswer fetch_impl late url c
      forward h =
          let (a, h1) = if_not_ok (text_eq url default_manifest_url) _ _ _ h in
          let (b, h2) = if_ok late _ _ _ h1 in
          ((text_eq_iff url default_manifest_url).0 a, b, answered_ok (fetch_impl url) c h2)

      backward :
          IsAnswer fetch_impl late url c → (fetch_candidate codec fetch_impl late url).0 ≡ ok c
      backward (a, b, (response, e, r)) =
          rw ((text_eq_iff url default_manifest_url).1 a, b, e) (of_response response c r)

  -- The body is cancelled, or the reader is released_after, with the reader cancelled before that or not.
  abbrev pub IsCleaned : List Effect → Type 0
  IsCleaned effects =
      (effects ≡ cancelled_body ∷ [])
      ⊎ (effects ≡ released_reader ∷ [])
      ⊎ (effects ≡ cancelled_reader ∷ released_reader ∷ [])

  bind_effects :
      {A : Type 0} {B : Type 0} (m : Request A) (f : A → Request B)
      → ((a : A) → (f a).1 ≡ [])
      → (m >>= f).1 ≡ m.1
  bind_effects (err e, es) f h = refl
  bind_effects (ok a, es) f h = ap (λ x. es ++ x) (h a) ∙ append-nil es

  need_effects : {A : Type 0} (o : Option A) (e : ContractError) → (need o e).1 ≡ []
  need_effects none e = refl
  need_effects (some a) e = refl

  validated_effects : {A : Type 0} (r : Result ContractError A) → (validated r).1 ≡ []
  validated_effects (err e) = refl
  validated_effects (ok a) = refl

  read_effects :
      (reads : List Read) (size : ℕ) (chunks : List (List ℕ))
      → IsCleaned (released_after (read_chunks reads size chunks)).1
  unfolding read_chunks
  read_effects [] size chunks = inr (inl refl)
  read_effects (broken ∷ reads) size chunks = inr (inl refl)
  read_effects (chunk value ∷ reads) size chunks =
      elim (Bool-cases (ltb max_response_bytes (size + length value))) [
        | inl e ↦ rw e (inr (inr refl))
        | inr e ↦ rw e (read_effects reads (size + length value) (chunks ++ (value ∷ [])))
      ]

  body_effects :
      (response : Response) (reads : List Read)
      → response.body ≡ some reads
      → IsCleaned (read_bounded_body codec response).1
  unfolding read_bounded_body read_body
  body_effects response reads e =
      elim (Bool-cases (is_too_long (header_number codec response.content_length))) [
        | inl h ↦ rw (h, e) (inl refl)
        | inr h ↦
            rw (h, e)
              (subst IsCleaned
                (sym (
                  bind_effects (released_after (read_chunks reads 0 []))
                    (λ chunks. need (codec.decode (join_chunks chunks)) not_utf8)
                    (λ chunks. need_effects (codec.decode (join_chunks chunks)) not_utf8)))
                (read_effects reads 0 []))
      ]

  parsed_effects : (source : Text) → (parsed_manifest codec source).1 ≡ []
  parsed_effects source =
      bind_effects (need (codec.parse source) not_bounded_json)
        (λ v. validated (validate_manifest v)) (λ v. validated_effects (validate_manifest v))
      ∙ need_effects (codec.parse source) not_bounded_json

  manifest_effects :
      (response : Response) (reads : List Read)
      → response.body ≡ some reads
      → IsCleaned (read_manifest codec response).1
  unfolding read_manifest
  manifest_effects response reads e =
      subst IsCleaned
        (sym
          (bind_effects (read_bounded_body codec response) (parsed_manifest codec) parsed_effects))
        (body_effects response reads e)

  -- However a response with a body is judged, the body is cancelled or its reader is released_after.
  pub received-IsCleaned :
      (response : Response) (reads : List Read)
      → response.body ≡ some reads
      → IsCleaned (received codec response).1
  unfolding received
  received-IsCleaned response reads e = elim (Bool-cases (response.status == 200)) [
    | inr h ↦ rw (h, e) (inl refl)
    | inl h ↦ elim (Bool-cases (is_json response.content_type)) [
      | inr j ↦ rw (h, j, e) (inl refl)
      | inl j ↦ rw (h, j) (manifest_effects response reads e)
    ]
  ]
