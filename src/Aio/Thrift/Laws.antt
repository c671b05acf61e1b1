-- ===== src/Aio/Thrift/Laws.antt =====
-- AsyncThriftConnection, beside ThriftConnection of sync.py.
use grapec.Aio.{Stop, awaited, stopped_by, Reading}
use grapec.Aio.Thrift
use grapec.Aio.Thrift.{AsyncConnection, Outcome}
use grapec.Base.{
  ◌≡◌, refl, sym, ap, subst, ◌∙◌, if◌then◌else◌, Bool, true, List, [], ◌∷◌, map, Option, none, some,
  arith,
}
use grapec.Errors.{ok, err, ◌and_then◌, transport_error, socket_timeout, os_error, TransportFault}
use grapec.Socket.{set, setting, Sending, passed, late, refused, sending}
use grapec.Text.{Str}
use grapec.Thrift.Connection
use grapec.Thrift.Connection.{Event}
use grapec.Thrift.Protocol
use grapec.Thrift.Protocol.{Protocol, start, data_to_send, feed, result, done}
use grapec.Wire.{Bytes}

-- The awaits that do what a blocking socket does.
abbrev pub drained : Sending → Option Stop
drained passed = none
drained late = some Stop.timeout
drained refused = some Stop.failure

abbrev pub read_as : Event → Reading
read_as (Event.chunk bytes) = Reading.chunk bytes
read_as Event.silence = Reading.stopped Stop.timeout
read_as Event.broken = Reading.stopped Stop.failure

if_true {ℓ} : {A : Type ℓ} {x : A} (y : A) {b : Bool} → b ≡ true → (if b then x else y) ≡ x
if_true {x = x} y h = ap (λ b. if b then x else y) h

handle_same : (o : Protocol.Outcome Bytes) → Thrift.handle o ≡ Connection.handle o
unfolding Thrift.handle Connection.handle Thrift.settle Connection.settle
handle_same (ok body, p) = refl
handle_same (err _, p) = refl

receive_same :
    (events : List Event) (p : Protocol)
    → Thrift.receive (map read_as events) p ≡ Connection.receive events p
unfolding Thrift.receive Thrift.hear Connection.receive stopped_by
receive_same [] p = refl
receive_same (Event.chunk bytes ∷ events) p =
    ap (λ (more : Protocol.Outcome (Unit {0})). if done p then (ok tt, p) else more)
      (go (feed bytes p) (receive_same events))
  where
    go :
        (o : Protocol.Outcome (Unit {0}))
        → ((q : Protocol) → Thrift.receive (map read_as events) q ≡ Connection.receive events q)
        → (o and_then λ q. Thrift.receive (map read_as events) q) ≡ (
            let more = Connection.receive events o.1 in
            let fed : Protocol.Outcome (Unit {0}) = (elim o.0 [
              | ok t ↦ more
              | err e ↦ (err e, o.1)
            ]) in
            fed)
    go (ok t, q) rest = rest q
    go (err e, q) rest = refl
receive_same (Event.silence ∷ events) p = refl
receive_same (Event.broken ∷ events) p = refl

finish_same : (o : Protocol.Outcome (Unit {0})) → (o and_then result) ≡ Connection.finish o
unfolding Connection.finish
finish_same (ok t, q) = refl
finish_same (err e, q) = refl

transmit_same :
    (sends : Sending) (events : List Event) (o : Protocol.Outcome (Unit {0}))
    → (o and_then λ q.
        (let (out, r) = data_to_send q in
          let passed : Protocol.Outcome (Unit {0}) = (awaited tt (drained sends), r) in
          passed and_then λ s. Thrift.receive (map read_as events) s and_then λ f. result f))
      ≡ Connection.transmit sends events o
unfolding Connection.transmit Connection.finish awaited stopped_by sending
transmit_same sends events (err e, q) = refl
transmit_same late events (ok t, q) = refl
transmit_same refused events (ok t, q) = refl
transmit_same passed events (ok t, q) =
    ap (λ (o : Protocol.Outcome (Unit {0})). o and_then result)
      (receive_same events (data_to_send q).1)
    ∙ finish_same (Connection.receive events (data_to_send q).1)

attempt_same :
    (method : Str) (args : Bytes) (sends : Sending) (events : List Event) (p : Protocol)
    → Thrift.attempt method args (drained sends) (map read_as events) p
      ≡ Connection.attempt method args set sends events p
unfolding Thrift.attempt Connection.attempt setting
attempt_same method args sends events p = transmit_same sends events (start method args p)

-- A call on a connected AsyncThriftConnection whose awaits do what the socket of a
-- ThriftConnection that takes its timeout does, a send that times out as well, ends as the call
-- there ends, and leaves the same protocol state behind.
pub unary-read_as :
    (method : Str) (args : Bytes) (sends : Sending) (events : List Event) (c : AsyncConnection)
    → c.connected ≡ true
    → let (r, p) = Connection.unary method args set sends events c.proto in
      Thrift.unary method args (drained sends) (map read_as events) c ≡ (r, record c { proto = p })
unfolding Thrift.unary Connection.unary
unary-read_as method args sends events c h =
    if_true _ h
    ∙ ap (λ (o : Protocol.Outcome Bytes). (o.0, record c { proto = o.1 }))
        (ap Thrift.handle (attempt_same method args sends events c.proto) ∙ handle_same _)

-- No call is active on the connection, and it is dead if the call ended with a TransportError.
abbrev pub IsIdle : Outcome Bytes → Type 0
IsIdle (r, c) =
    (c.proto.call ≡ none)
    × ((e : TransportFault) → r ≡ err (transport_error e) → c.proto.dead ≡ true)

settle_idle : (p : Protocol) → (Thrift.settle p).call ≡ none
unfolding Thrift.settle Protocol.busy Protocol.abort
settle_idle p = ground arith

settle_dead : (p : Protocol) → (Thrift.settle (Protocol.abort p)).dead ≡ true
unfolding Thrift.settle Protocol.busy Protocol.abort
settle_dead p = ground arith

handle-IsIdle :
    (o : Protocol.Outcome Bytes) (c : AsyncConnection)
    → let (r, p) = Thrift.handle o in IsIdle (r, record c { proto = p })
unfolding Thrift.handle
handle-IsIdle (ok body, p) c = (settle_idle p, λ e h. cc)
handle-IsIdle (err socket_timeout, p) c = (settle_idle (Protocol.abort p), λ e h. cc)
handle-IsIdle (err (transport_error t), p) c =
    (settle_idle (Protocol.abort p), λ e h. settle_dead p)
handle-IsIdle (err os_error, p) c = (settle_idle (Protocol.abort p), λ e h. settle_dead p)
handle-IsIdle (err _, p) c = (settle_idle p, λ e h. cc)

-- However a call on a connected AsyncThriftConnection ends, a cancellation of its task included, no
-- call is active on the connection afterwards, and a TransportError leaves it dead.
pub unary-IsIdle :
    (method : Str) (args : Bytes) (drains : Option Stop) (readings : List Reading)
    (c : AsyncConnection)
    → c.connected ≡ true
    → IsIdle (Thrift.unary method args drains readings c)
unfolding Thrift.unary
unary-IsIdle method args drains readings c h =
    subst IsIdle (sym (if_true _ h))
      (handle-IsIdle (Thrift.attempt method args drains readings c.proto) c)
