-- ===== src/Grpc/Call.antt =====
-- `_Call` of src/grapec/grpc.py: what the peer has sent for a call, and `finish`, which reads the
-- response out of it.
use grapec.Base.{
  ℕ, Bool, true, false, ◌&&◌, not, List, [], ◌∷◌, ◌++◌, Option, none, some, if◌then◌else◌,
}
use grapec.Errors.{Result, ok, err, Error, transport_error, missing_grpc_status, Status, ok_status}
use grapec.Grpc.{Compressors, identity, unframe, status_from_http}
use grapec.Grpc.Metadata.{Headers, Metadata, find, metadata, status_code, b64_or_nothing}
use grapec.Text.{Str, codes, same_text}
use grapec.Text.Unquote.{unquote}
use grapec.Wire.{Bytes}

pub record Call : Type 0 where
  pub stream_id : ℕ
  pub pending : Bytes
  pub headers : Headers
  pub trailers : Headers
  pub body : Bytes
  pub ended : Bool

unfoldable pub new_call : ℕ → Bytes → Call
new_call stream_id pending = record {
  stream_id = stream_id;
  pending = pending;
  headers = [];
  trailers = [];
  body = [];
  ended = false;
}

-- What a call ends with: the message with its headers and trailers, an RpcError that carries a
-- status, a message, details, headers and trailers, or another exception.
pub data Ending : Type 0 where
  answered : Bytes → Metadata → Metadata → Ending
  failed : Status → Str → Bytes → Metadata → Metadata → Ending
  broken : Error → Ending

unfoldable pub or_else : Str → Option Str → Str
or_else fallback none = fallback
or_else fallback (some s) = s

unfoldable pub is_nil {ℓ} : {A : Type ℓ} → List A → Bool
is_nil [] = true
is_nil (x ∷ xs) = false

abbrev is_some {ℓ} : {A : Type ℓ} → Option A → Bool
is_some none = false
is_some (some a) = true

-- A response without trailers, whose headers have the status.
unfoldable pub trailers_only : Call → Bool
unfolding is_nil find
trailers_only call = is_nil call.trailers && is_some (find (codes "grpc-status") call.headers)

-- The headers and the trailers that the user sees.
unfoldable pub visible : Call → Metadata × Metadata
unfolding trailers_only
visible call =
    if trailers_only call
    then ([], metadata call.headers)
    else (metadata call.headers, metadata call.trailers)

unfoldable pub is_ok : Status → Bool
is_ok ok_status = true
is_ok _ = false

unfoldable pub says_200 : Option Str → Bool
unfolding same_text
says_200 none = false
says_200 (some s) = same_text s (codes "200")

abbrev with_payload : Metadata → Metadata → Result Bytes → Ending
with_payload headers trailers (ok payload) = answered payload headers trailers
with_payload headers trailers (err e) = broken e

abbrev http_message : Option Str → Str
http_message none = codes "unexpected HTTP status None"
http_message (some s) = codes "unexpected HTTP status " ++ s

-- `finish` behind the check of the HTTP status. `meta` is the trailers, or the headers of a
-- trailers-only response.
unfoldable pub finish_status : Compressors → Call → Headers → Metadata → Metadata → Ending
unfolding find status_code unquote b64_or_nothing or_else is_ok unframe
finish_status compressors call meta headers trailers =
    let message = unquote (or_else [] (find (codes "grpc-message") meta)) in
    let details = b64_or_nothing (or_else [] (find (codes "grpc-status-details-bin") meta)) in
    let encoding = or_else identity (find (codes "grpc-encoding") call.headers) in
    elim (find (codes "grpc-status") meta) [
      | none ↦ broken (transport_error missing_grpc_status)
      | some raw ↦
          if not (is_ok (status_code raw))
          then failed (status_code raw) message details headers trailers
          else with_payload headers trailers (unframe compressors call.body encoding)
    ]

unfoldable pub finish : Compressors → Call → Ending
unfolding visible says_200 finish_status is_nil find status_from_http
finish compressors call =
    let (headers, trailers) = visible call in
    let http_status = find (codes ":status") call.headers in
    let meta = (if is_nil call.trailers then call.headers else call.trailers) in
    if not (says_200 http_status)
    then failed (status_from_http http_status) (http_message http_status) [] headers trailers
    else finish_status compressors call meta headers trailers
