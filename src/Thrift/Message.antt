-- ===== src/Thrift/Message.antt =====
-- The RPC messages of thrift.py: the strict binary header, the frame around it, and the
-- TApplicationException struct.
pub mod RoundTrip
pub mod Total
use grapec.Base.{
  ℕ, zero, suc, ◌+◌, ◌*◌, ◌^◌, Bool, false, ◌&&◌, ◌||◌, List, [], ◌∷◌, ◌++◌, Option, none, some,
  bit_and, bit_or, ltb, ◌==◌, if◌then◌else◌, length, take, drop,
}
use grapec.Base.Int.{ℤ, pos, negsuc}
use grapec.Errors.{
  Result, ok, err, ◌>>=◌, Error, Status, no_fuel, thrift_error, bad_version, rpc_error, unknown,
  unimplemented, internal,
}
use grapec.Struct.{pack_signed, pack_unsigned, unpack_unsigned}
use grapec.Text.{Str, encode, decode_replace}
use grapec.Thrift.{need, read, read_byte, read_binary, skip, stop_code, string_code, i32_code}
use grapec.Wire.{Bytes, Read}

abbrev pub call_type : ℕ
call_type = 1

abbrev pub reply_type : ℕ
reply_type = 2

abbrev pub exception_type : ℕ
exception_type = 3

abbrev pub version_1 : ℕ
version_1 = 0x80010000

abbrev pub version_mask : ℕ
version_mask = 0xffff0000

abbrev pub max_frame : ℕ
max_frame = 64 * 1024 * 1024

-- The message without its frame: header, name, sequence number and body.
unfoldable pub message : Str → ℕ → ℤ → Bytes → Result Bytes
message name mtype seqid body = do
  raw ← encode name
  header ← pack_unsigned 4 (bit_or version_1 mtype)
  size ← pack_signed 4 (pos (length raw))
  number ← pack_signed 4 seqid
  ok (header ++ (size ++ (raw ++ (number ++ body))))

unfoldable pub encode_message : Str → ℕ → ℤ → Bytes → Result Bytes
unfolding message
encode_message name mtype seqid body = do
  content ← message name mtype seqid body
  prefix ← pack_unsigned 4 (length content)
  ok (prefix ++ content)

-- `_read(_U32, …)`
unfoldable pub read_u32 : Bytes → Read ℕ
read_u32 buf = do rest ← need 4 buf; ok (unpack_unsigned (take 4 buf), rest)

-- The name, the type, the sequence number and the body.
unfoldable pub decode_message : Bytes → Result (Str × ℕ × ℤ × Bytes)
decode_message frame = do
  (header, buf1) ← read_u32 frame
  let content = (do
    (raw, buf2) ← read_binary buf1
    (seqid, body) ← read 4 buf2
    ok (decode_replace raw, bit_and header 0xff, seqid, body))
  if bit_and header version_mask == version_1 then content else err (thrift_error bad_version)

-- `_APP_EXCEPTION_STATUS.get(kind, Status.UNKNOWN)`
unfoldable pub app_exception_status : ℤ → Status
app_exception_status (negsuc n) = unknown
app_exception_status (pos n) =
    if n == 1 || n == 10
    then unimplemented
    else if n == 2 || n == 3 || n == 4 || n == 6 || n == 7 || n == 8 || n == 9
    then internal
    else unknown

abbrev is_number : ℕ → ℤ → Bool
is_number n (pos m) = n == m
is_number n (negsuc m) = false

-- `limit` is how deep Python lets `skip` nest. The loop of `application_error`: the message and the kind that were read last. Each round takes
-- a byte at least.
pub application_loop : ℕ → ℕ → Bytes → Str → ℤ → Result (Str × ℤ)
application_loop limit zero body text kind = err no_fuel
application_loop limit (suc fuel) body text kind = do
  (ttype, buf1) ← read_byte body
  let field = (do
    (number, buf2) ← read 2 buf1
    let as_text = (do
      (raw, buf3) ← read_binary buf2
      application_loop limit fuel buf3 (decode_replace raw) kind)
    let as_kind = (do (k, buf3) ← read 4 buf2; application_loop limit fuel buf3 text k)
    let skipped = (do buf3 ← skip limit buf2 ttype; application_loop limit fuel buf3 text kind)
    if is_number 1 number && ttype == string_code
        then as_text
        else if is_number 2 number && ttype == i32_code
        then as_kind
        else skipped)
  if ttype == stop_code then ok (text, kind) else field

abbrev to_error : Result (Str × ℤ) → Error
to_error (ok (text, kind)) = rpc_error (app_exception_status kind)
to_error (err e) = e

-- The exception that `application_error` returns, or the one that it raises.
pub application_error : ℕ → Bytes → Error
application_error limit body = to_error (application_loop limit (suc (length body)) body [] (pos 0))
