-- ===== src/Grpc/Connection/Release.antt =====
-- How a call leaves a gRPC connection.
use grapec.Base.{◌≡◌, refl, arith, Bool, true, false, List, Option}
use grapec.Errors.{transport_error, socket_timeout, os_error, h2_error}
use grapec.Grpc.{Compressors}
use grapec.Grpc.Call.{answered, failed, broken}
use grapec.Grpc.Connection.{Turn, Ended, send_quietly, settle, handle, attempt, unary}
use grapec.Grpc.Metadata.{Metadata}
use grapec.Grpc.Protocol.{H2, Protocol, busy, abort, cancel}
use grapec.Socket.{Setting}
use grapec.Text.{Str}
use grapec.Wire.{Bytes}

module _ (h2 : H2) where
  -- The connection is idle, and dead if the call ended with a TransportError.
  abbrev DeadOnError : Ended h2 → Type 0
  DeadOnError (broken (transport_error e), p) = p.dead ≡ true
  DeadOnError (r, p) = Unit {0}

  abbrev pub IsIdle : Ended h2 → Type 0
  IsIdle (r, p) = (busy h2 p ≡ false) × DeadOnError (r, p)

  settle-idle : (p : Protocol h2) → busy h2 (settle h2 p) ≡ false
  unfolding settle busy abort
  settle-idle p = ground arith

  settle-dead : (p : Protocol h2) → (settle h2 (abort h2 p)).dead ≡ true
  unfolding settle busy abort
  settle-dead p = refl

  pub handle-IsIdle : (sends : Bool) (o : Ended h2) → IsIdle (handle h2 sends o)
  unfolding handle
  handle-IsIdle sends (answered payload headers trailers, p) = (settle-idle p, tt)
  handle-IsIdle sends (failed code message details headers trailers, p) = (settle-idle p, tt)
  handle-IsIdle sends (broken socket_timeout, p) =
      (settle-idle (send_quietly h2 sends (cancel h2 p)), tt)
  handle-IsIdle sends (broken (transport_error e), p) = (settle-idle (abort h2 p), settle-dead p)
  handle-IsIdle sends (broken os_error, p) = (settle-idle (abort h2 p), settle-dead p)
  handle-IsIdle sends (broken h2_error, p) = (settle-idle (abort h2 p), settle-dead p)
  handle-IsIdle sends (broken _, p) = (settle-idle p, tt)

  -- However a call over a gRPC connection ends, no call is active on the connection afterwards,
  -- and a TransportError leaves it dead.
  pub unary-IsIdle :
      (compressors : Compressors) (path : Str) (payload : Bytes) (timeout : Option Str)
      (entries : Metadata) (compression : Option Str) (timer : Setting) (turns : List Turn)
      (sends : Bool) (p : Protocol h2)
      → IsIdle (unary h2 compressors path payload timeout entries compression timer turns sends p)
  unfolding unary
  unary-IsIdle compressors path payload timeout entries compression timer turns sends p =
      handle-IsIdle sends
        (attempt h2 compressors path payload timeout entries compression timer turns p)
