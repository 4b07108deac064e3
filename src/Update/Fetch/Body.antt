-- ===== src/Update/Fetch/Body.antt =====
-- The body of a response: its chunks, joined, and its bound.
use salience.Base.{
  ℕ, zero, suc, ◌+◌, ◌≤◌, ◌≡◌, refl, sym, ap, ◌∙◌, List, [], ◌∷◌, ◌++◌, Bool, true, false, arith,
  ltb, length, length-append, if◌then◌else◌,
}
use mathlib.Core.List.{append-nil, append_assoc}
use salience.Base.Result.{ok, err, ok_inj}
use salience.Update.Fetch.{
  FetchError, Effect, Read, chunk, broken, Request, max_response_bytes, read_chunks, overlay,
  set_bytes, set_chunks, zero_bytes, total_size, join_chunks,
}

-- The bytes one chunk behind the other.
abbrev pub concat : List (List ℕ) → List ℕ
concat [] = []
concat (value ∷ chunks) = value ++ concat chunks

overlay-zero_bytes :
    (value : List ℕ) (m n : ℕ)
    → m ≡ length value + n
    → overlay value (zero_bytes m) ≡ value ++ zero_bytes n
unfolding overlay
overlay-zero_bytes [] m n e = ap zero_bytes (omega (arith, e))
overlay-zero_bytes (c ∷ cs) zero n e = let short : ⊥ = omega (arith, e) in elim short [ ]
overlay-zero_bytes (c ∷ cs) (suc m) n e =
    ap (λ x. c ∷ x) (overlay-zero_bytes cs m n (omega (arith, e)))

set_bytes-append :
    (done value : List ℕ) (n : ℕ)
    → set_bytes value (length done) (done ++ zero_bytes (length value + n))
      ≡ (done ++ value) ++ zero_bytes n
unfolding set_bytes
set_bytes-append [] value n = overlay-zero_bytes value (length value + n) n refl
set_bytes-append (d ∷ done) value n = ap (λ x. d ∷ x) (set_bytes-append done value n)

set_chunks-nil : (offset : ℕ) (joined : List ℕ) → set_chunks [] offset joined ≡ joined
unfolding set_chunks
set_chunks-nil offset joined = refl

set_chunks-cons :
    (value : List ℕ) (chunks : List (List ℕ)) (offset : ℕ) (joined : List ℕ)
    → set_chunks (value ∷ chunks) offset joined
      ≡ set_chunks chunks (offset + length value) (set_bytes value offset joined)
unfolding set_chunks
set_chunks-cons value chunks offset joined = refl

set_chunks-append :
    (chunks : List (List ℕ)) (done : List ℕ)
    → set_chunks chunks (length done) (done ++ zero_bytes (total_size chunks))
      ≡ done ++ concat chunks
set_chunks-append [] done = set_chunks-nil (length done) (done ++ [])
set_chunks-append (value ∷ chunks) done =
    rw
      (
        set_chunks-cons value chunks (length done)
            (done ++ zero_bytes (total_size (value ∷ chunks))),
        set_bytes-append done value (total_size chunks),
        sym (length-append done value),
      )
      (set_chunks-append chunks (done ++ value) ∙ append_assoc done value (concat chunks))

-- The bytes that are put into one array, each chunk at its offset, are the chunks one behind the
-- other.
pub join_chunks-concat : (chunks : List (List ℕ)) → join_chunks chunks ≡ concat chunks
unfolding join_chunks
join_chunks-concat chunks = set_chunks-append chunks []

pub if_ok :
    {A : Type 0} (b : Bool) (e : FetchError) (es : List Effect) (m : Request A) {a : A}
    → (if b then (err e, es) else m).0 ≡ ok a
    → (b ≡ false) × (m.0 ≡ ok a)
if_ok true e es m h = cc
if_ok false e es m h = (refl, h)

within : (n : ℕ) → n ≤ max_response_bytes → ltb max_response_bytes n ≡ false
within n l = ground (arith, l)

-- The reads of chunks and no others, one behind the other.
abbrev pub chunks_of : List (List ℕ) → List Read
chunks_of [] = []
chunks_of (value ∷ chunks) = chunk value ∷ chunks_of chunks

pub length-concat : (chunks : List (List ℕ)) → length (concat chunks) ≡ total_size chunks
length-concat [] = refl
length-concat (value ∷ chunks) =
    omega (arith, length-append value (concat chunks), length-concat chunks)

-- What the loop pushes behind the chunks it has: those of its reads, within the bound.
pub record IsRead (reads : List Read) (size : ℕ) (done chunks : List (List ℕ)) : Type 0 where
  pub more : List (List ℕ)
  pub pushed : chunks ≡ done ++ more
  pub same : reads ≡ chunks_of more
  pub bounded : size + total_size more ≤ max_response_bytes

read_more :
    (value : List ℕ) (reads : List Read) (size : ℕ) (done chunks : List (List ℕ))
    → IsRead reads (size + length value) (done ++ (value ∷ [])) chunks
    → IsRead (chunk value ∷ reads) size done chunks
read_more value reads size done chunks r = record {
  more = value ∷ r.more;
  pushed = r.pushed ∙ append_assoc done (value ∷ []) r.more;
  same = ap (λ x. chunk value ∷ x) r.same;
  bounded = omega (arith, r.bounded);
}

pub read_chunks-IsRead :
    (reads : List Read) (size : ℕ) (done chunks : List (List ℕ))
    → size ≤ max_response_bytes
    → (read_chunks reads size done).0 ≡ ok chunks
    → IsRead reads size done chunks
unfolding read_chunks
read_chunks-IsRead [] size done chunks l h = record {
  more = [];
  pushed = sym (ok_inj h) ∙ sym (append-nil done);
  same = refl;
  bounded = omega (arith, l);
}
read_chunks-IsRead (broken ∷ reads) size done chunks l h = cc
read_chunks-IsRead (chunk value ∷ reads) size done chunks l h =
    let (fits, rest) = if_ok (ltb max_response_bytes (size + length value)) _ _ _ h in
    read_more value reads size done chunks (
      read_chunks-IsRead reads (size + length value) (done ++ (value ∷ [])) chunks
        (ground (arith, fits)) rest)

pub read_chunks-chunks_of :
    (more done : List (List ℕ)) (size : ℕ)
    → size + total_size more ≤ max_response_bytes
    → read_chunks (chunks_of more) size done ≡ (ok (done ++ more), [])
unfolding read_chunks
read_chunks-chunks_of [] done size l = rw (append-nil done) refl
read_chunks-chunks_of (value ∷ more) done size l =
    rw (within (size + length value) (omega (arith, l))) (
      read_chunks-chunks_of more (done ++ (value ∷ [])) (size + length value) (omega (arith, l))
      ∙ ap (λ x. (ok x, [])) (append_assoc done (value ∷ []) more))
