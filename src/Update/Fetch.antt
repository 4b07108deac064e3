-- ===== src/Update/Fetch.antt =====
-- The request for the manifest, of .agents/skills/archify/scripts/check-update.mjs:
-- `readBoundedBody`, `cancelResponseBody` and `fetchCandidate`.
pub mod Body
pub mod Accepted
mod Tests
use salience.Base.{
  ℕ, zero, suc, ◌+◌, ◌*◌, Text, codes, text_eq, List, [], ◌∷◌, ◌++◌, Bool, true, false, not, ◌&&◌,
  ◌||◌, Option, none, some, leb, ltb, ◌==◌, length, any, map, if◌then◌else◌,
}
use salience.Base.Result.{Result, ok, err}
use salience.Json.{Value}
use salience.Semver.{split_first}
use salience.Contract.{
  ContractError, response_too_large, no_bounded_stream, not_utf8, not_json, not_bounded_json,
  unexpected_manifest_url, default_manifest_url,
}
use salience.Update.State.{Candidate}
use salience.Update.Decision.{validate_manifest}

abbrev pub max_response_bytes : ℕ
max_response_bytes = 32 * 1024

-- An `UpdateContractError`, or any other one.
pub data FetchError : Type 0 where
  contract : ContractError → FetchError
  failed : FetchError

-- What a request does to the body of its response.
pub data Effect : Type 0 where
  cancelled_body cancelled_reader released_reader : Effect

-- A read of the body that gives bytes, or that fails; behind the last one the body is done.
pub data Read : Type 0 where
  chunk : List ℕ → Read
  broken : Read

pub record Response : Type 0 where
  pub status : ℕ
  pub content_length : Option Text
  pub content_type : Option Text
  -- No body where it is absent or no stream.
  pub body : Option (List Read)

-- `Number(header)`, rounded up, where it is finite and above 0; `new TextDecoder('utf-8', { fatal:
-- true }).decode`; and `JSON.parse`.
pub record Codec : Type 0 where
  pub number : Text → Option ℕ
  pub decode : List ℕ → Option Text
  pub parse : Text → Option Value

abbrev pub Request : Type 0 → Type 0
Request A = Result FetchError A × List Effect

abbrev pub give : {A : Type 0} → A → Request A
give a = (ok a, [])

abbrev pub refuse : {A : Type 0} → ContractError → Request A
refuse e = (err (contract e), [])

infixl 5 ◌>>=◌
abbrev pub ◌>>=◌ : {A : Type 0} {B : Type 0} → Request A → (A → Request B) → Request B
◌>>=◌ (err e, effects) f = (err e, effects)
◌>>=◌ (ok a, effects) f = ((f a).0, effects ++ (f a).1)

abbrev pub need : {A : Type 0} → Option A → ContractError → Request A
need none e = refuse e
need (some a) e = give a

-- `cancelResponseBody`
abbrev pub cancel_response_body : Option (List Read) → List Effect
cancel_response_body none = []
cancel_response_body (some reads) = cancelled_body ∷ []

-- The loop over the reads, with the bytes so far and the chunks that were pushed.
unfoldable pub read_chunks : List Read → ℕ → List (List ℕ) → Request (List (List ℕ))
read_chunks [] size chunks = give chunks
read_chunks (broken ∷ reads) size chunks = (err failed, [])
read_chunks (chunk value ∷ reads) size chunks =
    let total = size + length value in
    let rest = read_chunks reads total (chunks ++ (value ∷ [])) in
    if ltb max_response_bytes total
    then (err (contract response_too_large), cancelled_reader ∷ [])
    else rest

-- `joined.set(chunk, offset)`; what lies out of the range of `joined` is dropped here.
unfoldable pub overlay : List ℕ → List ℕ → List ℕ
overlay [] bytes = bytes
overlay (c ∷ cs) [] = []
overlay (c ∷ cs) (b ∷ bytes) = c ∷ overlay cs bytes

unfoldable pub set_bytes : List ℕ → ℕ → List ℕ → List ℕ
set_bytes value zero bytes = overlay value bytes
set_bytes value (suc offset) [] = []
set_bytes value (suc offset) (b ∷ bytes) = b ∷ set_bytes value offset bytes

unfoldable pub set_chunks : List (List ℕ) → ℕ → List ℕ → List ℕ
set_chunks [] offset joined = joined
set_chunks (value ∷ chunks) offset joined =
    set_chunks chunks (offset + length value) (set_bytes value offset joined)

-- `new Uint8Array(size)`
abbrev pub zero_bytes : ℕ → List ℕ
zero_bytes zero = []
zero_bytes (suc n) = 0 ∷ zero_bytes n

abbrev pub total_size : List (List ℕ) → ℕ
total_size [] = 0
total_size (value ∷ chunks) = length value + total_size chunks

unfoldable pub join_chunks : List (List ℕ) → List ℕ
join_chunks chunks = set_chunks chunks 0 (zero_bytes (total_size chunks))

-- `finally { reader.releaseLock() }`
abbrev pub released_after : {A : Type 0} → Request A → Request A
released_after (r, effects) = (r, effects ++ (released_reader ∷ []))

abbrev pub header_number : Codec → Option Text → Option ℕ
header_number codec none = none
header_number codec (some t) = codec.number t

abbrev pub is_too_long : Option ℕ → Bool
is_too_long none = false
is_too_long (some n) = ltb max_response_bytes n

unfoldable pub read_body : Codec → Option (List Read) → Request Text
read_body codec none = refuse no_bounded_stream
read_body codec (some reads) = do
  chunks ← released_after (read_chunks reads 0 [])
  need (codec.decode (join_chunks chunks)) not_utf8

-- `readBoundedBody`
unfoldable pub read_bounded_body : Codec → Response → Request Text
read_bounded_body codec response =
    if is_too_long (header_number codec response.content_length)
    then (err (contract response_too_large), cancel_response_body response.body)
    else read_body codec response.body

-- The white space that `trim` takes off.
abbrev pub is_space : ℕ → Bool
is_space c =
    (leb 9 c && leb c 13)
    || (c == 32)
    || (c == 0xa0)
    || (c == 0x1680)
    || (leb 0x2000 c && leb c 0x200a)
    || (c == 0x2028)
    || (c == 0x2029)
    || (c == 0x202f)
    || (c == 0x205f)
    || (c == 0x3000)
    || (c == 0xfeff)

unfoldable pub trim_start : Text → Text
trim_start [] = []
trim_start (c ∷ cs) = let rest = trim_start cs in if is_space c then rest else c ∷ cs

unfoldable pub trim_end : Text → Text
trim_end [] = []
trim_end (c ∷ cs) =
    let rest = trim_end cs in
    elim rest [ [] ↦ if is_space c then [] else c ∷ [] | d ∷ ds ↦ c ∷ d ∷ ds ]

-- `toLowerCase`, of letters of ASCII: no other character becomes a letter of the name that is
-- compared.
abbrev pub lower : ℕ → ℕ
lower c = if leb b'A' c && leb c b'Z' then c + 32 else c

unfoldable pub media_type : Text → Text
media_type header = map lower (trim_end (trim_start (split_first b';' header).0))

abbrev pub is_json : Option Text → Bool
is_json none = false
is_json (some header) = text_eq (media_type header) (codes "application/json")

abbrev pub validated : {A : Type 0} → Result ContractError A → Request A
validated (ok a) = give a
validated (err e) = refuse e

abbrev pub parsed_manifest : Codec → Text → Request Candidate
parsed_manifest codec source = do
  decoded ← need (codec.parse source) not_bounded_json
  validated (validate_manifest decoded)

unfoldable pub read_manifest : Codec → Response → Request Candidate
read_manifest codec response = do
  source ← read_bounded_body codec response
  parsed_manifest codec source

-- The part of `fetchCandidate` behind `fetchImpl`.
unfoldable pub received : Codec → Response → Request Candidate
received codec response =
    if not (response.status == 200)
    then (err failed, cancel_response_body response.body)
    else (if not (is_json response.content_type)
        then (err (contract not_json), cancel_response_body response.body)
        else read_manifest codec response)

abbrev pub answered_request : Codec → Option Response → Request Candidate
answered_request codec none = (err failed, [])
answered_request codec (some response) = received codec response

-- `fetchCandidate`: what `fetchImpl` gives for an address, and whether the timeout wins the race.
unfoldable pub fetch_candidate : Codec → (Text → Option Response) → Bool → Text → Request Candidate
fetch_candidate codec fetch_impl late manifest_url =
    if not (text_eq manifest_url default_manifest_url)
    then refuse unexpected_manifest_url
    else (if late then (err failed, []) else answered_request codec (fetch_impl manifest_url))
