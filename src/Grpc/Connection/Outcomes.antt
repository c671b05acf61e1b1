-- ===== src/Grpc/Connection/Outcomes.antt =====
-- What a call over a gRPC connection may raise, whatever the socket, the peer and h2 do.
use grapec.Base.{
  ◌≡◌, refl, arith, Bool, true, List, [], ◌∷◌, Option, Option-cases, Bool-cases, inl, inr,
  if◌then◌else◌, drop,
}
use grapec.Errors.{
  ok, err, ◌and_then◌, transport_error, value_error, struct_error, overflow_error, unicode_error,
  socket_timeout, os_error, h2_error,
}
use grapec.Grpc.{Compressors, identity, decoder, unframe}
use grapec.Grpc.Call.{Call, Ending, answered, failed, broken, or_else, finish, finish_status}
use grapec.Grpc.Connection.{
  Turn, Heard, chunk, silence, failure, Ended, write, hear, exchange, ended_by, attempt, handle,
  unary,
}
use grapec.Grpc.Metadata.{find, Metadata}
use grapec.Grpc.Protocol.{H2, Protocol, Outcome, done, start, result}
use grapec.Socket.{
  Setting, set, negative, too_long, unusable, setting, Sending, passed, late, refused, sending,
}
use grapec.Text.{Str, codes}
use grapec.Wire.{Bytes}
use grapec.Grpc.Protocol.Raises.{RaisesH2, RaisesOs, IsTryError, Tries, start-Tries}
use grapec.Grpc.Protocol.Raises.Feeding.{data_to_send-Tries, feed-Tries}

-- What `unary` ends with: a response, RpcError, TransportError, ValueError for an option that
-- gRPC does not have or a negative timeout, OverflowError for one that is too long, struct.error
-- for a request that is too long, or an error of UTF-8 in a header.
abbrev pub CallEnding : Ending → Type 0
CallEnding (answered payload headers trailers) = Unit {0}
CallEnding (failed code message details headers trailers) = Unit {0}
CallEnding (broken (transport_error e)) = Unit {0}
CallEnding (broken value_error) = Unit {0}
CallEnding (broken struct_error) = Unit {0}
CallEnding (broken overflow_error) = Unit {0}
CallEnding (broken unicode_error) = Unit {0}
CallEnding (broken _) = ⊥

module _ (h2 : H2) (raises : RaisesH2 h2) where
  write-Tries : (sends : Sending) (p : Protocol h2) → Tries (write h2 sends p).0
  unfolding write sending
  write-Tries passed p = ground (arith, data_to_send-Tries h2 raises p)
  write-Tries late p = ground (arith, data_to_send-Tries h2 raises p)
  write-Tries refused p = ground (arith, data_to_send-Tries h2 raises p)

  hear-Tries : (heard : Heard) (p : Protocol h2) → Tries (hear h2 heard p).0
  unfolding hear
  hear-Tries (chunk bytes) p = feed-Tries h2 raises bytes p
  hear-Tries silence p = tt
  hear-Tries failure p = tt

  -- The loop ends with a call that is done, or raises.
  abbrev Ready : Outcome h2 (Unit {0}) → Type 0
  Ready (ok t, p) = done h2 p ≡ true
  Ready (err e, p) = IsTryError e

  then-Ready :
      (o : Outcome h2 (Unit {0})) (next : Protocol h2 → Outcome h2 (Unit {0}))
      → Tries o.0
      → ((q : Protocol h2) → Ready (next q))
      → Ready (o and_then next)
  then-Ready (ok t, q) next h k = k q
  then-Ready (err e, q) next h k = h

  exchange-Ready : (turns : List Turn) (p : Protocol h2) → Ready (exchange h2 turns p)
  unfolding exchange
  exchange-Ready [] p =
      then-Ready (write h2 passed p)
        (λ q. if done h2 q then (ok tt, q) else (err socket_timeout, q)) (write-Tries passed p)
        (λ q. ground arith)
  exchange-Ready (turn ∷ turns) p =
      then-Ready (write h2 turn.sends p) _ (write-Tries turn.sends p) (λ q.
        (elim (Bool-cases (done h2 q)) [
          | inl finished ↦ rw (finished, finished) refl
          | inr going ↦ rw going (
              then-Ready (hear h2 turn.heard q) (exchange h2 turns) (hear-Tries turn.heard q)
                (exchange-Ready turns))
        ]))

  -- What the body of the `try` ends with.
  abbrev TryEnding : Ending → Type 0
  TryEnding (answered payload headers trailers) = Unit {0}
  TryEnding (failed code message details headers trailers) = Unit {0}
  TryEnding (broken e) = IsTryError e

  module _ (compressors : Compressors) (os : RaisesOs compressors) where
    unframe-Tries : (body : Bytes) (encoding : Str) → Tries (unframe compressors body encoding)
    unfolding unframe decoder
    unframe-Tries body encoding = ground (arith, os.gzips (drop 5 body), os.zlibs (drop 5 body))

    finish-TryEnding : (call : Call) → TryEnding (finish compressors call)
    unfolding finish finish_status
    finish-TryEnding call =
        let encoding = or_else identity (find (codes "grpc-encoding") call.headers) in
        ground (arith, unframe-Tries call.body encoding)

    result-TryEnding :
        (o : Outcome h2 (Unit {0})) → Ready o → TryEnding (ended_by h2 compressors o).0
    unfolding result done
    result-TryEnding (ok t, p) ready = elim (Option-cases p.call) [
      | inl idle ↦ absurd (ground (arith, idle))
      | inr (call, active) ↦ ground (arith, active, finish-TryEnding call)
    ]
    result-TryEnding (err e, p) ready = ready

    handle-CallEnding :
        (sends : Bool) (o : Ended h2) → TryEnding o.0 → CallEnding (handle h2 sends o).0
    unfolding handle
    handle-CallEnding sends (answered payload headers trailers, p) h = tt
    handle-CallEnding sends (failed code message details headers trailers, p) h = tt
    handle-CallEnding sends (broken socket_timeout, p) h = tt
    handle-CallEnding sends (broken (transport_error e), p) h = tt
    handle-CallEnding sends (broken os_error, p) h = tt
    handle-CallEnding sends (broken h2_error, p) h = tt
    handle-CallEnding sends (broken value_error, p) h = tt
    handle-CallEnding sends (broken struct_error, p) h = tt
    handle-CallEnding sends (broken overflow_error, p) h = tt
    handle-CallEnding sends (broken unicode_error, p) h = tt
    handle-CallEnding sends (broken _, p) h = elim h [ ]

    setting-Tries : (timer : Setting) → Tries (setting timer)
    unfolding setting
    setting-Tries set = tt
    setting-Tries negative = tt
    setting-Tries too_long = tt
    setting-Tries unusable = tt

    -- Where h2 raises H2Error or an error of UTF-8 only and the decompressors OSError only, a call
    -- over a gRPC connection ends, whatever the socket does and whatever frames arrive, with a
    -- response, RpcError or TransportError, with ValueError, OverflowError or struct.error for its
    -- arguments, a timeout that the socket does not take among them, or with an error of UTF-8.
    pub unary-CallEnding :
        (path : Str) (payload : Bytes) (timeout : Option Str) (entries : Metadata)
        (compression : Option Str) (timer : Setting) (turns : List Turn) (sends : Bool)
        (p : Protocol h2)
        → CallEnding
            (unary h2 compressors path payload timeout entries compression timer turns sends p).0
    unfolding unary attempt
    unary-CallEnding path payload timeout entries compression timer turns sends p =
        let timed : Outcome h2 (Unit {0}) = (setting timer, p) in
        handle-CallEnding sends _ (
          result-TryEnding
            (timed and_then λ q.
              start h2 compressors path payload timeout entries compression q and_then λ r.
              exchange h2 turns r)
            (then-Ready timed _ (setting-Tries timer) λ q.
              then-Ready (start h2 compressors path payload timeout entries compression q)
                (exchange h2 turns)
                (start-Tries h2 raises compressors path payload timeout entries compression q)
                (exchange-Ready turns)))
