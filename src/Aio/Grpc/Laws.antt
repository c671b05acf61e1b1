-- ===== src/Aio/Grpc/Laws.antt =====
-- AsyncGrpcConnection, beside GrpcConnection of sync.py.
use grapec.Aio.{Stop, awaited, stopped_by, Reading, Turn}
use grapec.Aio.Grpc
use grapec.Aio.Grpc.{AsyncConnection}
use grapec.Base.{
  ◌≡◌, refl, sym, ap, subst, ◌∙◌, if◌then◌else◌, Bool, true, List, [], ◌∷◌, map, Option, none, some,
  arith,
}
use grapec.Errors.{ok, err, ◌and_then◌, socket_timeout}
use grapec.Grpc.{Compressors}
use grapec.Grpc.Call.{Ending, answered, failed, broken, is_nil}
use grapec.Grpc.Connection
use grapec.Grpc.Connection.{Ended, Heard}
use grapec.Grpc.Connection.Release.{IsIdle, handle-IsIdle}
use grapec.Grpc.Metadata.{Metadata}
use grapec.Grpc.Protocol
use grapec.Grpc.Protocol.{H2, Protocol, Outcome, data_to_send, done}
use grapec.Socket.{set, setting, Sending, passed, late, refused, sending}
use grapec.Text.{Str}
use grapec.Wire.{Bytes}

-- The awaits that do what a blocking socket does.
abbrev pub drained : Sending → Option Stop
drained passed = none
drained late = some Stop.timeout
drained refused = some Stop.failure

abbrev pub read_as : Heard → Reading
read_as (Heard.chunk bytes) = Reading.chunk bytes
read_as Heard.silence = Reading.stopped Stop.timeout
read_as Heard.failure = Reading.stopped Stop.failure

abbrev pub awaits : Connection.Turn → Turn
awaits turn = record { drains = drained turn.sends; reading = read_as turn.heard }

if_true {ℓ} : {A : Type ℓ} {x : A} (y : A) {b : Bool} → b ≡ true → (if b then x else y) ≡ x
if_true {x = x} y h = ap (λ b. if b then x else y) h

module _ (h2 : H2) where
  then_rest :
      (o : Outcome h2 (Unit {0})) (f g : Protocol h2 → Outcome h2 (Unit {0}))
      → ((q : Protocol h2) → f q ≡ g q)
      → (o and_then f) ≡ (o and_then g)
  then_rest (ok t, q) f g rest = rest q
  then_rest (err e, q) f g rest = refl

  then_same :
      (o o' : Outcome h2 (Unit {0})) (f g : Protocol h2 → Outcome h2 (Unit {0}))
      → o ≡ o'
      → ((q : Protocol h2) → f q ≡ g q)
      → (o and_then f) ≡ (o' and_then g)
  then_same o o' f g same rest = ap (λ x. x and_then f) same ∙ then_rest o' f g rest

  write_quietly_same :
      (writes : Bool) (o : Bytes × Protocol h2)
      → Grpc.write_quietly h2 writes o ≡ Connection.send_quietly h2 writes o
  unfolding Grpc.write_quietly Connection.send_quietly
  write_quietly_same writes ([], p) = refl
  write_quietly_same writes (b ∷ bs, p) = refl

  handle_same :
      (writes : Bool) (o : Ended h2) → Grpc.handle h2 writes o ≡ Connection.handle h2 writes o
  unfolding Grpc.handle Connection.handle Grpc.settle Connection.settle
  handle_same writes (answered payload headers trailers, p) = refl
  handle_same writes (failed code message details headers trailers, p) = refl
  handle_same writes (broken socket_timeout, p) =
      ap (λ (q : Protocol h2). (Connection.deadline h2, Connection.settle h2 q))
        (write_quietly_same writes (Protocol.cancel h2 p))
  handle_same writes (broken _, p) = refl

  push_same :
      (sends : Sending) (p : Protocol h2)
      → Grpc.push h2 (drained sends) p ≡ Connection.write h2 sends p
  unfolding Grpc.push Connection.write Grpc.write sending awaited stopped_by is_nil
  push_same passed p = ground arith
  push_same late p = ground arith
  push_same refused p = ground arith

  hear_same :
      (heard : Heard) (p : Protocol h2)
      → Grpc.hear h2 (read_as heard) p ≡ Connection.hear h2 heard p
  unfolding Grpc.hear Connection.hear stopped_by
  hear_same (Heard.chunk bytes) p = refl
  hear_same Heard.silence p = refl
  hear_same Heard.failure p = refl

  exchange_same :
      (turns : List Connection.Turn) (p : Protocol h2)
      → Grpc.exchange h2 (map awaits turns) p ≡ Connection.exchange h2 turns p
  unfolding Grpc.exchange Connection.exchange stopped_by
  exchange_same [] p =
      ap
        (λ (o : Outcome h2 (Unit {0})).
          o and_then λ q. if done h2 q then (ok tt, q) else (err socket_timeout, q))
        (push_same passed p)
  exchange_same (turn ∷ turns) p = then_same _ _ _ _ (push_same turn.sends p) λ q.
      ap (λ (more : Outcome h2 (Unit {0})). if done h2 q then (ok tt, q) else more)
        (then_same _ _ _ _ (hear_same turn.heard q) (exchange_same turns))

  attempt_same :
      (compressors : Compressors) (path : Str) (payload : Bytes) (time : Option Str)
      (entries : Metadata) (compression : Option Str) (turns : List Connection.Turn)
      (p : Protocol h2)
      → Grpc.attempt h2 compressors path payload time entries compression (map awaits turns) p
        ≡ Connection.attempt h2 compressors path payload time entries compression set turns p
  unfolding Grpc.attempt Connection.attempt setting
  attempt_same compressors path payload time entries compression turns p =
      ap (Connection.ended_by h2 compressors) (
        then_rest (Protocol.start h2 compressors path payload time entries compression p) _ _
          (exchange_same turns))

  -- A call on a connected AsyncGrpcConnection whose awaits do what the socket of a GrpcConnection
  -- that takes its timeout does ends as the call there ends, and leaves the same protocol state
  -- behind.
  pub unary-awaits :
      (compressors : Compressors) (path : Str) (payload : Bytes) (time : Option Str)
      (entries : Metadata) (compression : Option Str) (turns : List Connection.Turn) (writes : Bool)
      (c : AsyncConnection h2)
      → c.connected ≡ true
      → let (ending, p) =
          Connection.unary h2 compressors path payload time entries compression set turns writes
            c.proto in
        Grpc.unary h2 compressors path payload time entries compression (map awaits turns) writes c
        ≡ (ending, record c { proto = p })
  unfolding Grpc.unary Connection.unary
  unary-awaits compressors path payload time entries compression turns writes c h =
      if_true _ h
      ∙ ap (λ (o : Ended h2). (o.0, record c { proto = o.1 }))
          (ap (Grpc.handle h2 writes)
              (attempt_same compressors path payload time entries compression turns c.proto)
            ∙ handle_same writes _)

  abbrev pub IsSettled : Ending × AsyncConnection h2 → Type 0
  IsSettled (ending, c) = IsIdle h2 (ending, c.proto)

  -- However a call on a connected AsyncGrpcConnection ends, a cancellation of its task included,
  -- no call is active on the connection afterwards, and a TransportError leaves it dead.
  pub unary-IsSettled :
      (compressors : Compressors) (path : Str) (payload : Bytes) (time : Option Str)
      (entries : Metadata) (compression : Option Str) (turns : List Turn) (writes : Bool)
      (c : AsyncConnection h2)
      → c.connected ≡ true
      → IsSettled (Grpc.unary h2 compressors path payload time entries compression turns writes c)
  unfolding Grpc.unary
  unary-IsSettled compressors path payload time entries compression turns writes c h =
      let o = Grpc.attempt h2 compressors path payload time entries compression turns c.proto in
      let idle : IsIdle h2 (Grpc.handle h2 writes o) =
        subst (IsIdle h2) (sym (handle_same writes o)) (handle-IsIdle h2 writes o) in
      subst IsSettled (sym (if_true _ h)) idle
