-- ===== src/Grpc/Metadata/RoundTrip.antt =====
-- Metadata of a request, as a peer that sends the same headers back returns it.
use grapec.Base.{
  ℕ, suc, ◌%◌, ◌<◌, ◌≡◌, refl, sym, ap, ◌∙◌, arith, Bool, true, false, ◌||◌, List, [], ◌∷◌, ◌++◌,
  append-nil, length, All, Bool-cases, inl, inr,
}
use grapec.Errors.{ok, >>=-eq-ok}
use grapec.Grpc.Metadata.{
  Headers, Datum, text, binary, Metadata, starts_with, ends_with, lower, is_status_key, is_hidden,
  padding, b64_or_nothing, datum, metadata, request_header, request_metadata,
}
use grapec.Text.{Str, codes, same_text}
use grapec.Text.Base64.{b64encode, b64decode}
use grapec.Text.Base64.RoundTrip.{b64decode-b64encode}

length-b64encode : (bytes : List ℕ) → length (b64encode bytes) % 4 ≡ 0
unfolding b64encode
length-b64encode [] = refl
length-b64encode (a ∷ []) = refl
length-b64encode (a ∷ b ∷ []) = refl
length-b64encode (a ∷ b ∷ c ∷ rest) = omega (arith, length-b64encode rest)

padding_none : (n : ℕ) → n % 4 ≡ 0 → padding n ≡ []
unfolding padding
padding_none n h = rw h refl

nothing_back : b64decode [] ≡ ok []
unfolding b64encode
nothing_back = b64decode-b64encode [] tt

b64_back : (bytes : List ℕ) → All (λ b. b < 256) bytes → b64_or_nothing (b64encode bytes) ≡ bytes
b64_back bytes h = go (b64encode bytes) (length-b64encode bytes) (b64decode-b64encode bytes h)
  where
    go : (s : Str) → length s % 4 ≡ 0 → b64decode s ≡ ok bytes → b64_or_nothing s ≡ bytes
    go [] whole back = unfold b64_or_nothing in cc (back, nothing_back)
    go (c ∷ cs) whole back =
        unfold b64_or_nothing in
        (rw (padding_none (suc (length cs)) whole, append-nil cs, back) refl)

-- A status key begins like a reserved one.
prefix_of_same : (p key s : Str) → same_text key (p ++ s) ≡ true → starts_with p key ≡ true
unfolding same_text starts_with
prefix_of_same [] key s h = refl
prefix_of_same (p ∷ ps) [] s h = cc
prefix_of_same (p ∷ ps) (c ∷ cs) s h = ground (arith, prefix_of_same ps cs s)

free_is_seen :
    (key : Str)
    → (starts_with (codes ":") key || starts_with (codes "grpc-") key) ≡ false
    → is_hidden key ≡ false
unfolding is_hidden is_status_key
free_is_seen key h = ground (
  arith,
  prefix_of_same (codes "grpc-") key (codes "status"),
  prefix_of_same (codes "grpc-") key (codes "message"),
  prefix_of_same (codes "grpc-") key (codes "status-details-bin"),
)

-- An entry that can be told from the headers: its key is lower-case, text does not stand under a
-- key for bytes, and bytes are bytes.
abbrev pub IsClear : Str × Datum → Type 0
IsClear (key, text s) = (lower key ≡ key) × (ends_with (codes "-bin") key ≡ false)
IsClear (key, binary bytes) = (lower key ≡ key) × All (λ b. b < 256) bytes

abbrev is_reserved : Str → Bool
is_reserved key = starts_with (codes ":") key || starts_with (codes "grpc-") key

-- What a header of the request is, if it is one.
text_header :
    (key s : Str) (header : Str × Str)
    → request_header key (text s) ≡ ok header
    → (is_reserved key ≡ false) × (header ≡ (key, s))
unfolding request_header
text_header key s header e = elim (Bool-cases (is_reserved key)) [
  | inl reserved ↦ absurd (ground (arith, reserved))
  | inr free ↦ (free, ground (arith, free))
]

binary_header :
    (key : Str) (bytes : List ℕ) (header : Str × Str)
    → request_header key (binary bytes) ≡ ok header
    → (is_reserved key ≡ false)
      × (ends_with (codes "-bin") key ≡ true)
      × (header ≡ (key, b64encode bytes))
unfolding request_header
binary_header key bytes header e = elim (Bool-cases (is_reserved key)) [
  | inl reserved ↦ absurd (ground (arith, reserved))
  | inr free ↦ elim (Bool-cases (ends_with (codes "-bin") key)) [
    | inl bin ↦ (free, bin, ground (arith, free, bin))
    | inr other ↦ absurd (ground (arith, free, other))
  ]
]

one_back :
    (key : Str) (value : Datum) (header : Str × Str)
    → IsClear (key, value)
    → request_header key value ≡ ok header
    → metadata (header ∷ []) ≡ (key, value) ∷ []
unfolding metadata datum
one_back key (text s) header (low, plain) e =
    let (free, same) = text_header key s header e in rw (same, free_is_seen key free, plain) refl
one_back key (binary bytes) header (low, small) e =
    let (free, bin, same) = binary_header key bytes header e in
    rw (same, free_is_seen key free, bin, b64_back bytes small) refl

metadata-cons :
    (header : Str × Str) (rest : Headers)
    → metadata (header ∷ rest) ≡ metadata (header ∷ []) ++ metadata rest
unfolding metadata
metadata-cons (key, value) rest = ground arith

key_of : (key : Str) (value : Datum) → IsClear (key, value) → lower key ≡ key
key_of key (text s) h = h.0
key_of key (binary bytes) h = h.0

-- Metadata whose keys are lower-case, whose texts stand under no key for bytes and whose bytes are
-- bytes, is what the metadata of the response is when the peer sends the headers back.
pub metadata-request_metadata :
    (entries : Metadata) (headers : Headers)
    → All IsClear entries
    → request_metadata entries ≡ ok headers
    → metadata headers ≡ entries
unfolding request_metadata
metadata-request_metadata [] headers clear e =
    let none_sent : [] ≡ headers = cc in rw (← none_sent) (unfold metadata in refl)
metadata-request_metadata ((key, value) ∷ rest) headers (clear, clears) e =
    let (header, e1, more) = >>=-eq-ok (request_header (lower key) value) _ e in
    let (others, e2, same) = >>=-eq-ok (request_metadata rest) _ more in
    let all : header ∷ others ≡ headers = cc in
    let first : request_header key value ≡ ok header =
      ap (λ k. request_header k value) (sym (key_of key value clear)) ∙ e1 in
    rw
      (
        ← all,
        metadata-cons header others,
        one_back key value header clear first,
        metadata-request_metadata rest others clears e2,
      )
      refl
