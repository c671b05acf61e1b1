-- ===== src/Aio/Grpc.antt =====
-- AsyncGrpcConnection of src/grapec/aio.py over its streams: `unary`, `poll`, `close`, `aclose` and
-- the writing. `connect` is I/O.
pub mod Laws
use grapec.Aio.{Stop, timeout, awaited, stopped_by, Reading, chunk, stopped, Turn}
use grapec.Base.{
  ℕ, Bool, true, false, ◌&&◌, ◌||◌, not, List, [], ◌∷◌, Option, none, some, if◌then◌else◌,
}
use grapec.Errors.{
  Result, ok, err, ◌and_then◌, Error, transport_error, io_error, socket_timeout, os_error, h2_error,
  assertion_error, cancelled_error,
}
use grapec.Grpc.{Compressors}
use grapec.Grpc.Call.{Ending, answered, failed, broken, is_nil}
use grapec.Grpc.Connection.{Ended, ended_by, deadline}
use grapec.Grpc.Metadata.{Metadata}
use grapec.Grpc.Protocol
use grapec.Grpc.Protocol.{
  H2, Protocol, busy, done, start, data_to_send, feed, feed_idle, cancel, abort,
}
use grapec.Text.{Str}
use grapec.Wire.{Bytes}

module _ (h2 : H2) where
  -- `connected` tells that the connection has its reader and writer.
  pub record AsyncConnection : Type 0 where
    pub proto : Protocol h2
    pub connected : Bool
    pub closing : Bool

  abbrev pub Outcome : Type 0 → Type 0
  Outcome A = Result A × AsyncConnection

  unfoldable pub healthy : AsyncConnection → Bool
  healthy c = Protocol.healthy h2 c.proto && c.connected && not c.closing

  -- `_write`, which is called with a writer; `drains` is what stops the wait.
  unfoldable pub write : Option Stop → Bytes → Result (Unit {0})
  unfolding awaited
  write drains [] = ok tt
  write drains (b ∷ bs) = awaited tt drains

  -- `_write_quietly`; `writes` tells whether `writer.write` raises nothing.
  unfoldable pub write_quietly : Bool → Bytes × Protocol h2 → Protocol h2
  write_quietly writes ([], p) = p
  write_quietly writes (b ∷ bs, p) = if writes then p else abort h2 p

  -- `out = proto.data_to_send()`, and `_write` if there is something to write.
  unfoldable pub push : Option Stop → Protocol h2 → Protocol.Outcome h2 (Unit {0})
  unfolding write
  push drains p =
      let (r, q) = data_to_send h2 p in
      elim r [ err e ↦ (err e, q) | ok out ↦ (write drains out, q) ]

  -- `proto.feed(await reader.read(…))`
  unfoldable pub hear : Reading → Protocol h2 → Protocol.Outcome h2 (Unit {0})
  unfolding stopped_by
  hear (chunk bytes) p = feed h2 bytes p
  hear (stopped stop) p = (err (stopped_by stop), p)

  -- The loop of `unary`. A list of turns ends with the call's time.
  unfoldable pub exchange : List Turn → Protocol h2 → Protocol.Outcome h2 (Unit {0})
  unfolding push hear
  exchange [] p =
      push none p and_then λ q. if done h2 q then (ok tt, q) else (err (stopped_by timeout), q)
  exchange (turn ∷ turns) p = push turn.drains p and_then λ q.
      (let more = (hear turn.reading q and_then λ r. exchange turns r) in
        if done h2 q then (ok tt, q) else more)

  -- The body of the `try`.
  unfoldable pub attempt :
      Compressors
      → Str
      → Bytes
      → Option Str
      → Metadata
      → Option Str
      → List Turn
      → Protocol h2
      → Ended h2
  unfolding exchange
  attempt compressors path payload time entries compression turns p =
      ended_by h2 compressors (
        start h2 compressors path payload time entries compression p and_then λ q. exchange turns q)

  -- The `finally` block.
  unfoldable pub settle : Protocol h2 → Protocol h2
  settle p = if busy h2 p then abort h2 p else p

  -- The handlers, and the `finally` block behind them, which is all that a cancellation meets.
  unfoldable pub handle : Bool → Ended h2 → Ended h2
  unfolding write_quietly settle
  handle writes (answered payload headers trailers, p) =
      (answered payload headers trailers, settle p)
  handle writes (failed code message details headers trailers, p) =
      (failed code message details headers trailers, settle p)
  handle writes (broken socket_timeout, p) =
      (deadline h2, settle (write_quietly writes (cancel h2 p)))
  handle writes (broken (transport_error e), p) = (broken (transport_error e), settle (abort h2 p))
  handle writes (broken os_error, p) = (broken (transport_error io_error), settle (abort h2 p))
  handle writes (broken h2_error, p) = (broken (transport_error io_error), settle (abort h2 p))
  handle writes (broken e, p) = (broken e, settle p)

  unfoldable pub unary :
      Compressors
      → Str
      → Bytes
      → Option Str
      → Metadata
      → Option Str
      → List Turn
      → Bool
      → AsyncConnection
      → Ending × AsyncConnection
  unfolding attempt handle
  unary compressors path payload time entries compression turns writes c =
      let (ending, p) =
        handle writes (attempt compressors path payload time entries compression turns c.proto) in
      if c.connected then (ending, record c { proto = p }) else (broken assertion_error, c)

  -- A round of the loop in `poll`: the stream is at its end, or it is read without waiting.
  pub data Peek : Type 0 where
    at_eof : Peek
    reads : Reading → Peek

  -- The loop of `poll`; an empty list of rounds is a read that would wait. What `feed_idle` raises is
  -- not handled.
  unfoldable pub poll_loop : List Peek → Protocol h2 → Protocol.Outcome h2 (Unit {0})
  poll_loop [] p = (ok tt, p)
  poll_loop (Peek.at_eof ∷ rounds) p =
      let fed = feed_idle h2 [] p in if Protocol.healthy h2 p then fed else (ok tt, p)
  poll_loop (Peek.reads (chunk bytes) ∷ rounds) p =
      let more = (feed_idle h2 bytes p and_then λ q. poll_loop rounds q) in
      if Protocol.healthy h2 p then more else (ok tt, p)
  poll_loop (Peek.reads (stopped Stop.timeout) ∷ rounds) p = (ok tt, p)
  poll_loop (Peek.reads (stopped Stop.failure) ∷ rounds) p =
      if Protocol.healthy h2 p then (ok tt, abort h2 p) else (ok tt, p)
  poll_loop (Peek.reads (stopped Stop.cancellation) ∷ rounds) p =
      if Protocol.healthy h2 p then (err (stopped_by Stop.cancellation), p) else (ok tt, p)

  abbrev written_quietly : Bool → Protocol.Outcome h2 Bytes → Protocol.Outcome h2 (Unit {0})
  written_quietly writes (ok out, p) = (ok tt, write_quietly writes (out, p))
  written_quietly writes (err e, p) = (err e, p)

  unfoldable pub poll : List Peek → Bool → AsyncConnection → Outcome (Unit {0})
  unfolding poll_loop write_quietly
  poll rounds writes c =
      let polled =
        (poll_loop rounds c.proto and_then λ p.
        (let flushed = written_quietly writes (data_to_send h2 p) in
          if Protocol.healthy h2 p then flushed else (ok tt, p))) in
      if c.connected then (polled.0, record c { proto = polled.1 }) else (err assertion_error, c)

  unfoldable pub close : AsyncConnection → AsyncConnection
  close c = record c { proto = (Protocol.close h2 c.proto).1; closing = c.connected || c.closing }

  -- `aclose`: any Exception of the flush is dropped, and the wait for the stream to be closed ends
  -- with an abort of the transport. A cancellation is no Exception.
  unfoldable pub aclose : Option Stop → Option Stop → AsyncConnection → Outcome (Unit {0})
  unfolding write
  aclose drains waits c =
      let (bytes, p) = Protocol.close h2 c.proto in
      let shut = record c { proto = p; closing = true } in
      let closed : Result (Unit {0}) = awaited tt waits in
      let waited : Outcome (Unit {0}) = elim closed [
        | err cancelled_error ↦ (err cancelled_error, shut)
        | _ ↦ (ok tt, shut)
      ] in
      let flushed : Outcome (Unit {0}) = elim (write drains bytes) [
        | err cancelled_error ↦ (err cancelled_error, record c { proto = p })
        | _ ↦ waited
      ] in
      if c.connected then flushed else (ok tt, c)
