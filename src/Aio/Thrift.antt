-- ===== src/Aio/Thrift.antt =====
-- AsyncThriftConnection of src/grapec/aio.py over its streams: `unary`, `poll`, `close` and `aclose`.
-- `connect` is I/O.
pub mod Laws
mod Examples
use grapec.Aio.{Stop, timeout, awaited, stopped_by, Reading, chunk, stopped}
use grapec.Base.{
  Bool, true, false, ◌&&◌, ◌||◌, not, List, [], ◌∷◌, Option, none, some, if◌then◌else◌,
}
use grapec.Errors.{
  Result, ok, err, ◌and_then◌, Error, transport_error, io_error, socket_timeout, os_error,
  assertion_error, cancelled_error, rpc_error, deadline_exceeded,
}
use grapec.Text.{Str}
use grapec.Thrift.Protocol
use grapec.Thrift.Protocol.{
  Protocol, start, data_to_send, feed, feed_idle, result, abort, busy, done,
}
use grapec.Wire.{Bytes}

-- `connected` tells that the connection has its reader and writer.
pub record AsyncConnection : Type 0 where
  pub proto : Protocol
  pub connected : Bool
  pub closing : Bool

abbrev pub Outcome : Type 0 → Type 0
Outcome A = Result A × AsyncConnection

pub healthy : AsyncConnection → Bool
healthy c = Protocol.healthy c.proto && c.connected && not c.closing

-- `proto.feed(await reader.read(…))`
unfoldable pub hear : Reading → Protocol → Protocol.Outcome (Unit {0})
unfolding stopped_by
hear (chunk bytes) p = feed bytes p
hear (stopped stop) p = (err (stopped_by stop), p)

-- The loop `while not proto.done`. A list of readings ends with the call's time.
unfoldable pub receive : List Reading → Protocol → Protocol.Outcome (Unit {0})
unfolding hear
receive [] p = if done p then (ok tt, p) else (err (stopped_by timeout), p)
receive (reading ∷ readings) p =
    let more = (hear reading p and_then λ q. receive readings q) in
    if done p then (ok tt, p) else more

-- The body of the `try`; `drains` is what stops `writer.drain`.
unfoldable pub attempt :
    Str → Bytes → Option Stop → List Reading → Protocol → Protocol.Outcome Bytes
unfolding awaited
attempt method args drains readings p = start method args p and_then λ q.
    (let (out, r) = data_to_send q in
      let drained : Protocol.Outcome (Unit {0}) = (awaited tt drains, r) in
      drained and_then λ s. receive readings s and_then λ finished. result finished)

-- The `finally` block.
unfoldable pub settle : Protocol → Protocol
settle p = if busy p then abort p else p

-- The handlers, and the `finally` block behind them, which is all that a cancellation meets.
unfoldable pub handle : Protocol.Outcome Bytes → Protocol.Outcome Bytes
unfolding settle
handle (ok body, p) = (ok body, settle p)
handle (err socket_timeout, p) = (err (rpc_error deadline_exceeded), settle (abort p))
handle (err (transport_error e), p) = (err (transport_error e), settle (abort p))
handle (err os_error, p) = (err (transport_error io_error), settle (abort p))
handle (err e, p) = (err e, settle p)

unfoldable pub unary : Str → Bytes → Option Stop → List Reading → AsyncConnection → Outcome Bytes
unfolding attempt handle
unary method args drains readings c =
    let (r, p) = handle (attempt method args drains readings c.proto) in
    if c.connected then (r, record c { proto = p }) else (err assertion_error, c)

-- `poll`, at the end of the stream, or with a read that does not wait.
unfoldable pub poll : Bool → Reading → AsyncConnection → Outcome (Unit {0})
unfolding stopped_by
poll at_eof reading c =
    let fed : Bytes → Outcome (Unit {0}) =
      (λ bytes. (let (r, p) = feed_idle bytes c.proto in (r, record c { proto = p }))) in
    let polled : Outcome (Unit {0}) = (elim reading [
      | chunk bytes ↦ fed bytes
      | stopped stop ↦ elim stop [
        | Stop.timeout ↦ (ok tt, c)
        | Stop.cancellation ↦ (err cancelled_error, c)
        | Stop.failure ↦ (ok tt, record c { proto = abort c.proto })
      ]
    ]) in
    if not c.connected then (err assertion_error, c) else if at_eof then fed [] else polled

pub close : AsyncConnection → AsyncConnection
close c = record c { proto = Protocol.close c.proto; closing = c.connected || c.closing }

-- `aclose`; a wait that raises an Exception ends with an abort of the transport.
pub aclose : Option Stop → AsyncConnection → Outcome (Unit {0})
unfolding awaited
aclose waits c =
    let shut = record c { proto = Protocol.close c.proto; closing = true } in
    let closed : Result (Unit {0}) = awaited tt waits in
    let waited : Outcome (Unit {0}) = elim closed [
      | err cancelled_error ↦ (err cancelled_error, shut)
      | _ ↦ (ok tt, shut)
    ] in
    if c.connected then waited else (ok tt, c)
