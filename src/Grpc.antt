-- ===== src/Grpc.antt =====
-- How src/grapec/grpc.py frames the message of a call, and the status of an HTTP response without a
-- gRPC status. The compressors are those of Python's gzip and zlib, which a section takes as a
-- parameter; `os_error` stands for OSError, zlib.error and EOFError.
pub mod Laws
pub mod Metadata
pub mod Call
pub mod Protocol
pub mod Connection
mod Examples
use grapec.Base.{
  ℕ, ◌+◌, Bool, true, false, not, List, [], ◌∷◌, ◌++◌, Option, none, some, ltb, ◌==◌, if◌then◌else◌,
  length, take, drop,
}
use grapec.Errors.{
  Result, ok, err, ◌>>=◌, Status, transport_error, value_error, os_error, truncated_body,
  not_one_message, unsupported_compression, bad_compression, internal, unauthenticated,
  permission_denied, unimplemented, unavailable, unknown,
}
use grapec.Struct.{pack_unsigned, unpack_unsigned}
use grapec.Text.{Str, same_text}
use grapec.Wire.{Bytes}

-- `struct.pack(">BI", flag, len(payload)) + payload`
abbrev pub pack_message : ℕ → Bytes → Result Bytes
pack_message flag message = do
  size ← pack_unsigned 4 (length message)
  ok (flag ∷ (size ++ message))

pub record Compressors : Type 0 where
  pub gzip_compress : Bytes → Bytes
  pub gzip_decompress : Bytes → Result Bytes
  pub zlib_compress : Bytes → Bytes
  pub zlib_decompress : Bytes → Result Bytes

abbrev pub identity : Str
identity = b'i' ∷ b'd' ∷ b'e' ∷ b'n' ∷ b't' ∷ b'i' ∷ b't' ∷ b'y' ∷ []

abbrev pub gzip : Str
gzip = b'g' ∷ b'z' ∷ b'i' ∷ b'p' ∷ []

abbrev pub deflate : Str
deflate = b'd' ∷ b'e' ∷ b'f' ∷ b'l' ∷ b'a' ∷ b't' ∷ b'e' ∷ []

module _ (compressors : Compressors) where
  open compressors use {gzip_compress, gzip_decompress, zlib_compress, zlib_decompress}

  -- `_ENCODERS` and `_DECODERS`
  unfoldable pub encoder : Str → Option (Bytes → Bytes)
  encoder name =
      if same_text name gzip
      then some gzip_compress
      else if same_text name deflate
      then some zlib_compress
      else none

  unfoldable pub decoder : Str → Option (Bytes → Result Bytes)
  decoder name =
      if same_text name identity
      then some ok
      else if same_text name gzip
      then some gzip_decompress
      else if same_text name deflate
      then some zlib_decompress
      else none

  -- The flag and the payload that `start` sends.
  unfoldable pub compress : Option Str → Bytes → Result (ℕ × Bytes)
  unfolding encoder
  compress none payload = ok (0, payload)
  compress (some name) payload =
      if same_text name identity
      then ok (0, payload)
      else elim (encoder name) [ none ↦ err value_error | some f ↦ ok (1, f payload) ]

  -- The bytes of a whole message.
  unfoldable pub frame : Option Str → Bytes → Result Bytes
  unfolding compress
  frame compression payload = do
    (flag, message) ← compress compression payload
    pack_message flag message

  -- The handler around the decoder.
  abbrev pub caught : Result Bytes → Result Bytes
  caught (err os_error) = err (transport_error bad_compression)
  caught r = r

  unfoldable pub unframe : Bytes → Str → Result Bytes
  unfolding decoder
  unframe body encoding =
      let size = unpack_unsigned (take 4 (drop 1 body)) in
      let message = drop 5 body in
      if ltb (length body) 5
      then err (transport_error truncated_body)
      else if not (length body == 5 + size)
      then err (transport_error not_one_message)
      else if unpack_unsigned (take 1 body) == 0
      then ok message
      else elim (decoder encoding) [
        | none ↦ err (transport_error unsupported_compression)
        | some f ↦ caught (f message)
      ]

-- `_status_from_http`, on the digits of the status or no status.
unfoldable pub status_from_http : Option Str → Status
status_from_http none = unknown
status_from_http (some s) =
    if same_text s (b'4' ∷ b'0' ∷ b'0' ∷ [])
    then internal
    else if same_text s (b'4' ∷ b'0' ∷ b'1' ∷ [])
    then unauthenticated
    else if same_text s (b'4' ∷ b'0' ∷ b'3' ∷ [])
    then permission_denied
    else if same_text s (b'4' ∷ b'0' ∷ b'4' ∷ [])
    then unimplemented
    else if same_text s (b'4' ∷ b'2' ∷ b'9' ∷ [])
    then unavailable
    else if same_text s (b'5' ∷ b'0' ∷ b'2' ∷ [])
    then unavailable
    else if same_text s (b'5' ∷ b'0' ∷ b'3' ∷ [])
    then unavailable
    else if same_text s (b'5' ∷ b'0' ∷ b'4' ∷ [])
    then unavailable
    else unknown
