-- ===== src/Grpc/Connection.antt =====
-- GrpcConnection of src/grapec/sync.py over its socket: `unary`, `poll`, `close` and
-- `_send_quietly`. What the socket does is a list of turns, one for each round of a loop.
pub mod Release
pub mod Outcomes
pub mod Samples
mod Examples
use grapec.Base.{ℕ, Bool, true, false, not, List, [], ◌∷◌, Option, none, some, if◌then◌else◌}
use grapec.Errors.{
  Result, ok, err, ◌and_then◌, Error, transport_error, io_error, socket_timeout, os_error, h2_error,
  deadline_exceeded,
}
use grapec.Grpc.{Compressors}
use grapec.Grpc.Call.{Ending, answered, failed, broken, is_nil}
use grapec.Grpc.Metadata.{Metadata}
use grapec.Grpc.Protocol.{
  H2, Protocol, Outcome, healthy, busy, done, start, data_to_send, feed, feed_idle, result, cancel,
  abort, close,
}
use grapec.Socket.{Setting, setting, Sending, passed, sending}
use grapec.Text.{Str, codes}
use grapec.Wire.{Bytes}

-- What `recv` does: it answers, the call's time is over, or the socket fails.
pub data Heard : Type 0 where
  chunk : Bytes → Heard
  silence failure : Heard

-- What `sendall` does in a round, if it is called, and what `recv` does behind it. A list of turns
-- ends in silence.
pub record Turn : Type 0 where
  pub sends : Sending
  pub heard : Heard

module _ (h2 : H2) where
  abbrev pub Ended : Type 0
  Ended = Ending × Protocol h2

  -- `out = proto.data_to_send()`, and `sendall` if there is something to send.
  unfoldable pub write : Sending → Protocol h2 → Outcome h2 (Unit {0})
  unfolding sending
  write sends p =
      let (r, q) = data_to_send h2 p in
      elim r [ err e ↦ (err e, q) | ok out ↦ if is_nil out then (ok tt, q) else (sending sends, q) ]

  -- `proto.feed(sock.recv(…))`
  unfoldable pub hear : Heard → Protocol h2 → Outcome h2 (Unit {0})
  hear (chunk bytes) p = feed h2 bytes p
  hear silence p = (err socket_timeout, p)
  hear failure p = (err os_error, p)

  -- The loop of `unary`.
  unfoldable pub exchange : List Turn → Protocol h2 → Outcome h2 (Unit {0})
  unfolding write hear
  exchange [] p =
      write passed p and_then λ q. if done h2 q then (ok tt, q) else (err socket_timeout, q)
  exchange (turn ∷ turns) p = write turn.sends p and_then λ q.
      (let more = (hear turn.heard q and_then λ r. exchange turns r) in
        if done h2 q then (ok tt, q) else more)

  abbrev pub ended_by : Compressors → Outcome h2 (Unit {0}) → Ended
  ended_by compressors (ok t, p) = result h2 compressors p
  ended_by compressors (err e, p) = (broken e, p)

  -- The body of the `try`; `timer` is what the first `settimeout` does.
  unfoldable pub attempt :
      Compressors
      → Str
      → Bytes
      → Option Str
      → Metadata
      → Option Str
      → Setting
      → List Turn
      → Protocol h2
      → Ended
  unfolding exchange setting
  attempt compressors path payload timeout entries compression timer turns p =
      let timed : Outcome h2 (Unit {0}) = (setting timer, p) in
      ended_by compressors (
        timed and_then λ q.
        start h2 compressors path payload timeout entries compression q and_then λ r.
        exchange turns r)

  -- `_send_quietly`
  unfoldable pub send_quietly : Bool → Bytes × Protocol h2 → Protocol h2
  send_quietly sends ([], p) = p
  send_quietly sends (b ∷ bs, p) = if sends then p else abort h2 p

  -- The `finally` block.
  unfoldable pub settle : Protocol h2 → Protocol h2
  settle p = if busy h2 p then abort h2 p else p

  abbrev pub deadline : Ending
  deadline = failed deadline_exceeded (codes "deadline exceeded") [] [] []

  -- The handlers, and the `finally` block behind them; `sends` is about the reset.
  unfoldable pub handle : Bool → Ended → Ended
  unfolding send_quietly settle
  handle sends (answered payload headers trailers, p) =
      (answered payload headers trailers, settle p)
  handle sends (failed code message details headers trailers, p) =
      (failed code message details headers trailers, settle p)
  handle sends (broken socket_timeout, p) = (deadline, settle (send_quietly sends (cancel h2 p)))
  handle sends (broken (transport_error e), p) = (broken (transport_error e), settle (abort h2 p))
  handle sends (broken os_error, p) = (broken (transport_error io_error), settle (abort h2 p))
  handle sends (broken h2_error, p) = (broken (transport_error io_error), settle (abort h2 p))
  handle sends (broken e, p) = (broken e, settle p)

  unfoldable pub unary :
      Compressors
      → Str
      → Bytes
      → Option Str
      → Metadata
      → Option Str
      → Setting
      → List Turn
      → Bool
      → Protocol h2
      → Ended
  unfolding attempt handle
  unary compressors path payload timeout entries compression timer turns sends p =
      handle sends (attempt compressors path payload timeout entries compression timer turns p)

  -- The loop of `poll`; an empty list of turns is a `recv` that would block.
  unfoldable pub poll_loop : List Heard → Protocol h2 → Outcome h2 (Unit {0})
  poll_loop [] p = (ok tt, p)
  poll_loop (silence ∷ turns) p = (ok tt, p)
  poll_loop (failure ∷ turns) p = if healthy h2 p then (err os_error, p) else (ok tt, p)
  poll_loop (chunk bytes ∷ turns) p =
      let fed = feed_idle h2 bytes p in
      let more = (fed and_then λ q. poll_loop turns q) in
      if not (healthy h2 p) then (ok tt, p) else if is_nil bytes then fed else more

  abbrev caught : Outcome h2 (Unit {0}) → Outcome h2 (Unit {0})
  caught (err os_error, p) = (ok tt, abort h2 p)
  caught (err h2_error, p) = (ok tt, abort h2 p)
  caught (r, p) = (r, p)

  abbrev sent_quietly : Bool → Outcome h2 Bytes → Outcome h2 (Unit {0})
  sent_quietly sends (ok out, p) = (ok tt, send_quietly sends (out, p))
  sent_quietly sends (err e, p) = (err e, p)

  unfoldable pub poll : List Heard → Bool → Protocol h2 → Outcome h2 (Unit {0})
  unfolding poll_loop send_quietly
  poll turns sends p = caught (poll_loop turns p) and_then λ q.
      (let sent = sent_quietly sends (data_to_send h2 q) in
        if healthy h2 q then sent else (ok tt, q))

  -- `close`; the socket is closed behind it.
  pub close_connection : Bool → Bool → Protocol h2 → Protocol h2
  unfolding send_quietly
  close_connection flush sends p =
      let (bytes, q) = close h2 p in if flush then send_quietly sends (bytes, q) else q
