-- ===== src/Grpc/Laws.antt =====
-- The frame of grpc.py, written and read.
use grapec.Base.{
  ℕ, ◌+◌, ◌^◌, ◌<◌, ◌≡◌, refl, sym, ap, ◌∙◌, false, [], ◌∷◌, ◌++◌, Option, none, some, ◌==◌,
  if◌then◌else◌, length, take, drop, length-append, take-append_self, drop-append_self, arith,
  Bool-cases, Option-cases, inl, inr,
}
use grapec.Errors.{Result, ok, err, >>=-eq-ok, transport_error, unsupported_compression}
use grapec.Grpc.{
  Compressors, identity, gzip, deflate, encoder, decoder, compress, frame, caught, unframe,
}
use grapec.Struct.{pack_unsigned, unpack_unsigned}
use grapec.Struct.RoundTrip.{unpack-pack_unsigned}
use grapec.Text.{Str, same_text}
use grapec.Wire.{Bytes}

-- What gzip and zlib promise: decompressing gives back what was compressed.
pub record IsLossless (compressors : Compressors) : Type 0 where
  pub gzip_back :
      (payload : Bytes)
      → compressors.gzip_decompress (compressors.gzip_compress payload) ≡ ok payload
  pub zlib_back :
      (payload : Bytes)
      → compressors.zlib_decompress (compressors.zlib_compress payload) ≡ ok payload

-- The encoding that the headers name for a compression.
abbrev pub encoding_of : Option Str → Str
encoding_of none = identity
encoding_of (some name) = name

module _ (compressors : Compressors) (lossless : IsLossless compressors) where
  decode_back :
      (name : Str) (f : Bytes → Bytes) (payload : Bytes)
      → encoder compressors name ≡ some f
      → same_text name identity ≡ false
      → (g : Bytes → Result Bytes) × (decoder compressors name ≡ some g)
        × (g (f payload) ≡ ok payload)
  unfolding encoder decoder
  decode_back name f payload e plain = elim (Bool-cases (same_text name gzip)) [
    | inl zipped ↦
        let same : compressors.gzip_compress ≡ f = ground arith in
        (
          compressors.gzip_decompress,
          rw (plain, zipped) refl,
          rw (← same) (lossless.gzip_back payload),
        )
    | inr other ↦ (elim (Bool-cases (same_text name deflate)) [
      | inl deflated ↦
          let same : compressors.zlib_compress ≡ f = ground arith in
          (
            compressors.zlib_decompress,
            rw (plain, other, deflated) refl,
            rw (← same) (lossless.zlib_back payload),
          )
      | inr neither ↦ absurd (ground arith)
    ])
  ]

  -- The body of a frame, whatever its flag.
  framed_body :
      (flag : ℕ) (size message : Bytes)
      → length size ≡ 4
      → let body = flag ∷ (size ++ message) in
        (take 4 (drop 1 body) ≡ size) × (drop 5 body ≡ message) × (length body ≡ 5 + length message)
  framed_body flag size message four = (
    rw (← four) (take-append_self size message),
    ap (λ n. drop n (size ++ message)) (sym four) ∙ drop-append_self size message,
    omega (arith, length-append size message, four),
  )

  unframe_lem :
      (flag : ℕ) (size message : Bytes) (encoding : Str)
      → length size ≡ 4
      → unpack_unsigned size ≡ length message
      → unframe compressors (flag ∷ (size ++ message)) encoding ≡ (
          if unpack_unsigned (flag ∷ []) == 0
          then ok message
          else elim (decoder compressors encoding) [
            | none ↦ err (transport_error unsupported_compression)
            | some f ↦ caught compressors (f message)
          ])
  unfolding unframe
  unframe_lem flag size message encoding four says =
      let (a, b, c) = framed_body flag size message four in ground (arith, a, b, c, says)

  sized_lem :
      (n : ℕ) (size : Bytes)
      → pack_unsigned 4 n ≡ ok size
      → (length size ≡ 4) × (unpack_unsigned size ≡ n)
  sized_lem n size e =
      let small : n < 256 ^ 4 = unfold pack_unsigned in ground arith in
      let (bytes, packed, four, says) = unpack-pack_unsigned 4 n small in
      let same : bytes ≡ size = cc in (rw (← same) four, rw (← same) says)

  -- What `unframe` does with the flag and the payload of a frame.
  opened_back :
      (compression : Option Str) (payload : Bytes) (flag : ℕ) (message : Bytes)
      → compress compressors compression payload ≡ ok (flag, message)
      → (if unpack_unsigned (flag ∷ []) == 0
          then ok message
          else elim (decoder compressors (encoding_of compression)) as (λ t. Result Bytes) [
            | none ↦ err (transport_error unsupported_compression)
            | some f ↦ caught compressors (f message)
          ])
        ≡ ok payload
  unfolding compress unpack_unsigned
  opened_back none payload flag message e = ground arith
  opened_back (some name) payload flag message e = elim (Bool-cases (same_text name identity)) [
    | inl plain ↦ ground arith
    | inr other ↦ (elim (Option-cases (encoder compressors name)) [
      | inl unknown_one ↦ absurd (ground arith)
      | inr (f, known) ↦
          let (g, found, back) = decode_back name f payload known other in
          let zipped : f payload ≡ message = ground arith in
          let flagged : flag ≡ 1 = ground arith in rw (flagged, found, ← zipped, back) refl
    ])
  ]

  -- With compressors that lose nothing, a payload that is framed, compressed or not, is unframed
  -- as it was under the encoding that was named.
  pub unframe-frame :
      (compression : Option Str) (payload body : Bytes)
      → frame compressors compression payload ≡ ok body
      → unframe compressors body (encoding_of compression) ≡ ok payload
  unfolding frame
  unframe-frame compression payload body e =
      let ((flag, message), packed, more) =
        >>=-eq-ok (compress compressors compression payload) _ e in
      let (size, sized, made) = >>=-eq-ok (pack_unsigned 4 (length message)) _ more in
      let (four, says) = sized_lem (length message) size sized in
      let whole : flag ∷ (size ++ message) ≡ body = ground arith in
      rw (← whole) (
        unframe_lem flag size message (encoding_of compression) four says
        ∙ opened_back compression payload flag message packed)
