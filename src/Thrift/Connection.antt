-- ===== src/Thrift/Connection.antt =====
-- ThriftConnection of src/grapec/sync.py over its socket: `unary` and `poll`. What the socket
-- does is a list of events, one for each `recv`; the list ends in silence.
pub mod Delivery
pub mod Release
pub mod Outcomes
use grapec.Base.{ℕ, Bool, true, false, List, [], ◌∷◌, if◌then◌else◌, ◌++◌}
use grapec.Errors.{
  Result, ok, err, ◌and_then◌, Error, transport_error, rpc_error, deadline_exceeded, io_error,
  socket_timeout, os_error,
}
use grapec.Socket.{Setting, setting, Sending, sending}
use grapec.Text.{Str}
use grapec.Thrift.Protocol.{
  Protocol, Outcome, start, data_to_send, feed, feed_idle, result, abort, close, busy, done,
}
use grapec.Wire.{Bytes}

-- `recv` answers, the call's time is over, or the socket fails.
pub data Event : Type 0 where
  chunk : Bytes → Event
  silence broken : Event

-- The loop `while not proto.done`.
unfoldable pub receive : List Event → Protocol → Outcome (Unit {0})
receive [] p = if done p then (ok tt, p) else (err socket_timeout, p)
receive (event ∷ events) p =
    let answer : Outcome (Unit {0}) = (elim event [
      | chunk bytes ↦
          let (r, q) = feed bytes p in
          let more = receive events q in elim r [ ok t ↦ more | err e ↦ (err e, q) ]
      | silence ↦ (err socket_timeout, p)
      | broken ↦ (err os_error, p)
    ]) in
    if done p then (ok tt, p) else answer

-- The body of the `try` in `unary`, from its end: `return proto.result()`, the loop behind a
-- `sendall`, and the start.
unfoldable pub finish : Outcome (Unit {0}) → Outcome Bytes
finish (ok t, p) = result p
finish (err e, p) = (err e, p)

unfoldable pub transmit : Sending → List Event → Outcome (Unit {0}) → Outcome Bytes
unfolding finish receive sending
transmit sends events (ok t, p) =
    let (out, q) = data_to_send p in
    let sent : Outcome (Unit {0}) = (sending sends, q) in finish (sent and_then receive events)
transmit sends events (err e, p) = (err e, p)

-- `timer` is what the first `settimeout` does.
unfoldable pub attempt : Str → Bytes → Setting → Sending → List Event → Protocol → Outcome Bytes
unfolding transmit setting
attempt method args timer sends events p =
    let timed : Outcome (Unit {0}) = (setting timer, p) in
    transmit sends events (timed and_then start method args)

-- The `finally` block.
unfoldable pub settle : Protocol → Protocol
settle p = if busy p then abort p else p

-- The handlers, and the `finally` block behind them.
unfoldable pub handle : Outcome Bytes → Outcome Bytes
handle (ok body, p) = (ok body, settle p)
handle (err socket_timeout, p) = (err (rpc_error deadline_exceeded), settle (abort p))
handle (err (transport_error e), p) = (err (transport_error e), settle (abort p))
handle (err os_error, p) = (err (transport_error io_error), settle (abort p))
handle (err e, p) = (err e, settle p)

unfoldable pub unary : Str → Bytes → Setting → Sending → List Event → Protocol → Outcome Bytes
unary method args timer sends events p = handle (attempt method args timer sends events p)

-- One `recv` on an idle connection: nothing to read is no event.
pub poll : List Event → Protocol → Protocol
poll [] p = p
poll (chunk bytes ∷ events) p = (feed_idle bytes p).1
poll (silence ∷ events) p = p
poll (broken ∷ events) p = abort p
