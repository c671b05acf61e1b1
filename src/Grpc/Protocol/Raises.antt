-- ===== src/Grpc/Protocol/Raises.antt =====
-- What the methods of GrpcProtocol raise, given what h2 and the decompressors raise.
pub mod Feeding
use grapec.Base.{
  ℕ, zero, suc, ◌+◌, ◌≤◌, ◌<◌, ◌≡◌, refl, ap, subst, ◌∙◌, arith, Bool, true, false, ◌&&◌, ◌||◌, not,
  List, [], ◌∷◌, ◌++◌, Option, none, some, Option-cases, Bool-cases, inl, inr, if◌then◌else◌,
  length, length-drop, take, drop, ◌==◌,
}
use grapec.Errors.{
  Result, ok, err, ◌>>=◌, ◌and_then◌, Error, transport_error, value_error, struct_error,
  overflow_error, unicode_error, socket_timeout, os_error, h2_error, FailsAs, FailsAs-bind,
  FailsAs-weaken, Result-cases, Status,
}
use grapec.Grpc.{Compressors, identity, compress, pack_message, encoder, decoder, unframe}
use grapec.Grpc.Call.{
  Call, Ending, answered, failed, broken, or_else, finish, finish_status, is_nil,
}
use grapec.Grpc.Metadata.{
  find, Metadata, Headers, Datum, lower, request_header, request_metadata, request_headers,
}
use grapec.Grpc.Protocol.{
  H2, Protocol, Outcome, Event, done, open_stream, begin, start, push, data_to_send, terminate,
  update, handle_event, handle_events, received, feed_frame, feed_loop, feed, result, is_about,
  is_termination, announced,
}
use grapec.Grpc.Protocol.Feed.{stops, round, shorter, loop_stops, loop_goes}
use grapec.Struct.{pack_unsigned}
use grapec.Text.{Str, codes}
use grapec.Wire.{Bytes}

abbrev pub IsH2Error : Error → Type 0
IsH2Error h2_error = Unit {0}
IsH2Error unicode_error = Unit {0}
IsH2Error _ = ⊥

-- The methods of h2 that grpc.py calls outside of a handler raise H2Error, or an error of UTF-8
-- where they encode or decode the text of headers.
pub record RaisesH2 (h2 : H2) : Type 0 where
  pub next : (s : h2.State) → FailsAs IsH2Error (h2.next_stream_id s)
  pub opens :
      (n : ℕ) (headers : Headers) (s : h2.State) → FailsAs IsH2Error (h2.send_headers n headers s).0
  pub windows : (n : ℕ) (s : h2.State) → FailsAs IsH2Error (h2.window n s)
  pub sends :
      (n : ℕ) (bytes : Bytes) (last : Bool) (s : h2.State)
      → FailsAs IsH2Error (h2.send_data n bytes last s).0
  pub receives : (bytes : Bytes) (s : h2.State) → FailsAs IsH2Error (h2.receive_data bytes s).0
  pub acknowledges : (size n : ℕ) (s : h2.State) → FailsAs IsH2Error (h2.acknowledge size n s).0

abbrev pub IsOsError : Error → Type 0
IsOsError os_error = Unit {0}
IsOsError _ = ⊥

-- The decompressors raise what `_unframe` handles.
pub record RaisesOs (compressors : Compressors) : Type 0 where
  pub gzips : (bytes : Bytes) → FailsAs IsOsError (compressors.gzip_decompress bytes)
  pub zlibs : (bytes : Bytes) → FailsAs IsOsError (compressors.zlib_decompress bytes)

-- What the body of the `try` in `unary` raises.
abbrev pub IsTryError : Error → Type 0
IsTryError (transport_error e) = Unit {0}
IsTryError value_error = Unit {0}
IsTryError struct_error = Unit {0}
IsTryError overflow_error = Unit {0}
IsTryError unicode_error = Unit {0}
IsTryError socket_timeout = Unit {0}
IsTryError os_error = Unit {0}
IsTryError h2_error = Unit {0}
IsTryError _ = ⊥

abbrev pub Tries {ℓ} : {A : Type ℓ} → Result A → Type 0
Tries = FailsAs IsTryError

h2-try : (e : Error) → IsH2Error e → IsTryError e
h2-try h2_error h = tt
h2-try unicode_error h = tt
h2-try _ h = elim h [ ]

pub from_h2 {ℓ} : {A : Type ℓ} (m : Result A) → FailsAs IsH2Error m → Tries m
from_h2 m h = FailsAs-weaken IsH2Error IsTryError m h2-try h

pub then-Tries {ℓ κ} :
    {S : Type ℓ} {A : Type κ} (o : Result (Unit {0}) × S) (next : S → Result A × S)
    → Tries o.0
    → ((s : S) → Tries (next s).0)
    → Tries (o and_then next).0
then-Tries (ok t, s) next h k = k s
then-Tries (err e, s) next h k = h

header-Tries : (key : Str) (value : Datum) → Tries (request_header key value)
unfolding request_header
header-Tries key value = ground arith

metadata-Tries : (entries : Metadata) → Tries (request_metadata entries)
unfolding request_metadata
metadata-Tries [] = tt
metadata-Tries ((key, value) ∷ rest) =
    FailsAs-bind IsTryError (request_header (lower key) value) _ (header-Tries (lower key) value)
      λ header e.
        FailsAs-bind IsTryError (request_metadata rest) _ (metadata-Tries rest) λ headers e'. tt

headers-Tries :
    (scheme target path : Str) (timeout : Option Str) (entries : Metadata)
    (compression : Option Str)
    → Tries (request_headers scheme target path timeout entries compression)
unfolding request_headers
headers-Tries scheme target path timeout entries compression =
    FailsAs-bind IsTryError (request_metadata entries) _ (metadata-Tries entries) λ extra e. tt

pub compress-Tries :
    (compressors : Compressors) (compression : Option Str) (payload : Bytes)
    → Tries (compress compressors compression payload)
unfolding compress encoder
compress-Tries compressors none payload = tt
compress-Tries compressors (some name) payload = ground arith

pack-Tries : (flag : ℕ) (message : Bytes) → Tries (pack_message flag message)
unfolding pack_unsigned
pack-Tries flag message = ground arith

module _ (h2 : H2) (raises : RaisesH2 h2) where
  open-Tries :
      (flag : ℕ) (message : Bytes) (headers : Headers) (stream : Result ℕ) (p : Protocol h2)
      → Tries stream
      → Tries (open_stream h2 flag message headers stream p).0
  unfolding open_stream
  open-Tries flag message headers (err e) p h = h
  open-Tries flag message headers (ok n) p h =
      ground (arith, from_h2 _ (raises.opens n headers p.state), pack-Tries flag message)

  begin-Tries :
      (body : Result (ℕ × Bytes)) (headers : Result Headers) (p : Protocol h2)
      → Tries body
      → Tries headers
      → Tries (begin h2 body headers p).0
  unfolding begin
  begin-Tries (err e) headers p h k = h
  begin-Tries (ok body) (err e) p h k = k
  begin-Tries (ok (flag, message)) (ok headers) p h k =
      open-Tries flag message headers (h2.next_stream_id p.state) p
        (from_h2 (h2.next_stream_id p.state) (raises.next p.state))

  pub start-Tries :
      (compressors : Compressors) (path : Str) (payload : Bytes) (timeout : Option Str)
      (entries : Metadata) (compression : Option Str) (p : Protocol h2)
      → Tries (start h2 compressors path payload timeout entries compression p).0
  unfolding start
  start-Tries compressors path payload timeout entries compression p = elim (Option-cases p.call) [
    | inr (call, active) ↦ rw (start, active) tt
    | inl idle ↦
        rw (start, idle)
          (begin-Tries (compress compressors compression payload)
            (request_headers p.scheme p.authority path timeout entries (announced compression)) p
            (compress-Tries compressors compression payload)
            (headers-Tries p.scheme p.authority path timeout entries (announced compression)))
  ]
