-- ===== src/Thrift/Connection/Outcomes.antt =====
-- How `ThriftConnection.unary` of sync.py can end.
use grapec.Base.{
  ℕ, ◌+◌, ◌≡◌, refl, arith, Bool, true, false, List, [], ◌∷◌, ◌++◌, if◌then◌else◌, length, take,
  drop, Option-cases, inl, inr, bit_and,
}
use grapec.Base.Int.{ℤ, pos}
use grapec.Errors.{
  Result, ok, err, Error, thrift_error, rpc_error, transport_error, unicode_error, struct_error,
  value_error, overflow_error, recursion_error, ◌and_then◌, socket_timeout, os_error, FailsAs,
  FailsAs-bind,
}
use grapec.Struct.{pack_signed, pack_unsigned, unpack_unsigned}
use grapec.Socket.{
  Setting, set, negative, too_long, unusable, setting, Sending, passed, late, refused, sending,
}
use grapec.Text.{Str, encode_char, encode}
use grapec.Thrift.Connection.{
  Event, chunk, silence, broken, receive, finish, transmit, attempt, handle, unary,
}
use grapec.Thrift.Message.{message, encode_message, decode_message, call_type, application_error}
use grapec.Thrift.Message.Total.{IsServerError, application_error_lem, decode_message_lem}
use grapec.Thrift.Protocol.{
  Protocol, Outcome, is_some, start, data_to_send, accept, take_frame, feed, result, done,
  server_error, wire_name,
}
use grapec.Thrift.Total.{Yields}
use grapec.Wire.{Bytes}

-- What a call raises: RpcError, TransportError, what encoding its message raises, for a lone
-- surrogate in the name or a message of 2 ^ 32 bytes or more, ValueError for a negative timeout,
-- OverflowError for one that is too long, and RecursionError for a reply that nests too deeply.
abbrev pub IsCallError : Error → Type 0
IsCallError (rpc_error code) = Unit {0}
IsCallError (transport_error fault) = Unit {0}
IsCallError unicode_error = Unit {0}
IsCallError struct_error = Unit {0}
IsCallError value_error = Unit {0}
IsCallError overflow_error = Unit {0}
IsCallError recursion_error = Unit {0}
IsCallError _ = ⊥

-- The same before the handlers of `unary`, where the socket's exceptions are not caught yet.
abbrev IsInnerError : Error → Type 0
IsInnerError (rpc_error code) = Unit {0}
IsInnerError (transport_error fault) = Unit {0}
IsInnerError unicode_error = Unit {0}
IsInnerError struct_error = Unit {0}
IsInnerError value_error = Unit {0}
IsInnerError overflow_error = Unit {0}
IsInnerError recursion_error = Unit {0}
IsInnerError socket_timeout = Unit {0}
IsInnerError os_error = Unit {0}
IsInnerError _ = ⊥

encode-FailsAs : (s : Str) → FailsAs IsInnerError (encode s)
unfolding encode
encode-FailsAs [] = tt
encode-FailsAs (c ∷ cs) =
    FailsAs-bind IsInnerError (encode_char c) _ (unfold encode_char in ground arith)
      λ head e. FailsAs-bind IsInnerError (encode cs) _ (encode-FailsAs cs) λ tail e'. tt

pack-FailsAs : (size n : ℕ) → FailsAs IsInnerError (pack_unsigned size n)
unfolding pack_unsigned
pack-FailsAs size n = ground arith

pack_signed-FailsAs : (size : ℕ) (z : ℤ) → FailsAs IsInnerError (pack_signed size z)
unfolding pack_signed
pack_signed-FailsAs size z = ground arith

message-FailsAs :
    (name : Str) (mtype : ℕ) (seqid : ℤ) (body : Bytes)
    → FailsAs IsInnerError (encode_message name mtype seqid body)
unfolding encode_message message
message-FailsAs name mtype seqid body =
    FailsAs-bind IsInnerError (message name mtype seqid body) _
      (FailsAs-bind IsInnerError (encode name) _ (encode-FailsAs name) λ raw e1.
        FailsAs-bind IsInnerError _ _ (pack-FailsAs 4 _) λ header e2.
          FailsAs-bind IsInnerError _ _ (pack_signed-FailsAs 4 (pos (length raw)))
            λ size e3. FailsAs-bind IsInnerError _ _ (pack_signed-FailsAs 4 seqid) λ number e4. tt)
      λ content e. FailsAs-bind IsInnerError _ _ (pack-FailsAs 4 (length content)) λ prefix e'. tt

start-FailsAs :
    (method : Str) (args : Bytes) (p : Protocol) → FailsAs IsInnerError (start method args p).0
unfolding start
start-FailsAs method args p = ground (
  arith,
  message-FailsAs (wire_name p.service method) call_type (pos (bit_and (p.seqid + 1) 0x7fffffff))
      args,
)

accept-FailsAs :
    (method : Str) (expected : ℕ) (r : Result (Str × ℕ × ℤ × Bytes)) (p : Protocol)
    → Yields (λ m. Unit {0}) r
    → FailsAs IsInnerError (accept method expected r p).0
unfolding accept
accept-FailsAs method expected (ok (name, mtype, seqid, body)) p h = ground arith
accept-FailsAs method expected (err (thrift_error fault)) p h = tt
accept-FailsAs method expected (err _) p h = elim h [ ]

take_frame-FailsAs :
    (method : Str) (expected : ℕ) (p : Protocol)
    → FailsAs IsInnerError (take_frame method expected p).0
unfolding take_frame
take_frame-FailsAs method expected p =
    let size : ℕ = unpack_unsigned (take 4 p.inbuf) in
    let frame : Bytes = take size (drop 4 p.inbuf) in
    let q : Protocol = record p { inbuf = drop size (drop 4 p.inbuf) } in
    ground
      (arith, accept-FailsAs method expected (decode_message frame) q (decode_message_lem frame))

feed-FailsAs : (bytes : Bytes) (p : Protocol) → FailsAs IsInnerError (feed bytes p).0
unfolding feed
feed-FailsAs [] p = tt
feed-FailsAs (b ∷ bs) p = elim (Option-cases p.call) [
  | inl e ↦ rw (e, feed) tt
  | inr ((method, expected), e) ↦
      rw (e, feed) (take_frame-FailsAs method expected (record p { inbuf = p.inbuf ++ (b ∷ bs) }))
]

-- The loop ends with a reply, or with an exception.
receive-FailsAs : (events : List Event) (p : Protocol) → FailsAs IsInnerError (receive events p).0
unfolding receive done
receive-FailsAs [] p = ground arith
receive-FailsAs (silence ∷ events) p = ground arith
receive-FailsAs (broken ∷ events) p = ground arith
receive-FailsAs (chunk bytes ∷ events) p =
    go (feed bytes p) (is_some p.reply) (feed-FailsAs bytes p)
      (receive-FailsAs events (feed bytes p).1)
  where
    go :
        (out : Outcome (Unit {0})) (over : Bool)
        → FailsAs IsInnerError out.0
        → FailsAs IsInnerError (receive events out.1).0
        → let more : Outcome (Unit {0}) = receive events out.1 in
          let answer : Outcome (Unit {0}) = elim out.0 [ ok t ↦ more | err e ↦ (err e, out.1) ] in
          let final : Outcome (Unit {0}) = if over then (ok tt, p) else answer in
          FailsAs IsInnerError final.0
    go out true h m = tt
    go (ok t, q) false h m = m
    go (err e, q) false h m = h

receive-done :
    (events : List Event) (p : Protocol)
    → (receive events p).0 ≡ ok tt
    → is_some (receive events p).1.reply ≡ true
unfolding receive done
receive-done [] p e = ground arith
receive-done (silence ∷ events) p e = ground arith
receive-done (broken ∷ events) p e = ground arith
receive-done (chunk bytes ∷ events) p e = ground (arith, receive-done events (feed bytes p).1)

server_error-IsInnerError : (e : Error) → IsServerError e → IsInnerError (server_error e)
server_error-IsInnerError (rpc_error code) h = tt
server_error-IsInnerError (thrift_error fault) h = tt
server_error-IsInnerError recursion_error h = tt
server_error-IsInnerError _ h = elim h [ ]

result-FailsAs : (p : Protocol) → is_some p.reply ≡ true → FailsAs IsInnerError (result p).0
unfolding result
result-FailsAs p h = elim (Option-cases p.reply) [
  | inl e ↦ absurd (ground arith)
  | inr ((mtype, body), e) ↦
      rw (e, result)
        (ground (
          arith,
          server_error-IsInnerError (application_error p.recursion_limit body)
              (application_error_lem p.recursion_limit body),
        ))
]

finish-FailsAs :
    (out : Outcome (Unit {0}))
    → FailsAs IsInnerError out.0
    → (out.0 ≡ ok tt → is_some out.1.reply ≡ true)
    → FailsAs IsInnerError (finish out).0
unfolding finish
finish-FailsAs (ok t, p) h k = result-FailsAs p (k refl)
finish-FailsAs (err e, p) h k = h

sending-FailsAs : (sends : Sending) → FailsAs IsInnerError (sending sends)
unfolding sending
sending-FailsAs passed = tt
sending-FailsAs late = tt
sending-FailsAs refused = tt

setting-FailsAs : (timer : Setting) → FailsAs IsInnerError (setting timer)
unfolding setting
setting-FailsAs set = tt
setting-FailsAs negative = tt
setting-FailsAs too_long = tt
setting-FailsAs unusable = tt

after_send :
    (r : Result (Unit {0})) (events : List Event) (p : Protocol)
    → FailsAs IsInnerError r
    → FailsAs IsInnerError (finish ((r, p) and_then receive events)).0
after_send (ok t) events p h =
    finish-FailsAs (receive events p) (receive-FailsAs events p) (receive-done events p)
after_send (err e) events p h = finish-FailsAs (err e, p) h λ same. absurd (cc same)

transmit-FailsAs :
    (sends : Sending) (events : List Event) (out : Outcome (Unit {0}))
    → FailsAs IsInnerError out.0
    → FailsAs IsInnerError (transmit sends events out).0
unfolding transmit
transmit-FailsAs sends events (err e, p) h = h
transmit-FailsAs sends events (ok t, p) h =
    after_send (sending sends) events (data_to_send p).1 (sending-FailsAs sends)

started-FailsAs :
    (r : Result (Unit {0})) (method : Str) (args : Bytes) (p : Protocol)
    → FailsAs IsInnerError r
    → FailsAs IsInnerError ((r, p) and_then start method args).0
started-FailsAs (ok t) method args p h = start-FailsAs method args p
started-FailsAs (err e) method args p h = h

handle-FailsAs :
    (out : Outcome Bytes) → FailsAs IsInnerError out.0 → FailsAs IsCallError (handle out).0
unfolding handle
handle-FailsAs (ok body, p) h = tt
handle-FailsAs (err socket_timeout, p) h = tt
handle-FailsAs (err (transport_error fault), p) h = tt
handle-FailsAs (err os_error, p) h = tt
handle-FailsAs (err (rpc_error code), p) h = tt
handle-FailsAs (err unicode_error, p) h = tt
handle-FailsAs (err struct_error, p) h = tt
handle-FailsAs (err value_error, p) h = tt
handle-FailsAs (err overflow_error, p) h = tt
handle-FailsAs (err recursion_error, p) h = tt
handle-FailsAs (err _, p) h = elim h [ ]

-- Whatever the socket does and whatever bytes arrive, a call over a thrift connection ends with
-- the body of a reply, RpcError or TransportError, with ValueError or OverflowError for its
-- timeout, with an error of UTF-8 or struct.error for its message, or with RecursionError for an
-- exception message that nests too deep.
pub unary-FailsAs :
    (method : Str) (args : Bytes) (timer : Setting) (sends : Sending) (events : List Event)
    (p : Protocol)
    → FailsAs IsCallError (unary method args timer sends events p).0
unfolding unary attempt
unary-FailsAs method args timer sends events p =
    handle-FailsAs (attempt method args timer sends events p) (
      transmit-FailsAs sends events ((setting timer, p) and_then start method args)
        (started-FailsAs (setting timer) method args p (setting-FailsAs timer)))
