-- ===== src/Thrift/Protocol.antt =====
-- thrift.ThriftProtocol: the state of one framed connection, which carries one call at a time. A
-- method returns its result or its exception, and the new state.
pub mod Invariant
pub mod Feed
use grapec.Base.{
  ℕ, zero, suc, ◌+◌, Bool, true, false, ◌&&◌, ◌||◌, not, List, [], ◌∷◌, ◌++◌, Option, none, some,
  bit_and, ltb, ◌==◌, if◌then◌else◌, length, take, drop,
}
use grapec.Base.Int.{ℤ, pos, negsuc, eqb_ℤ}
use grapec.Errors.{
  Result, ok, err, ◌>>=◌, Error, TransportFault, transport_error, thrift_error, rpc_error, internal,
  assertion_error, busy_connection, closed_connection, closed_by_peer, idle_data, frame_too_long,
  more_than_one_reply, malformed_message, wrong_seqid, wrong_message_type, wrong_name,
}
use grapec.Struct.{unpack_unsigned}
use grapec.Text.{Str, same_text}
use grapec.Thrift.Message.{
  call_type, reply_type, exception_type, max_frame, encode_message, decode_message,
  application_error,
}
use grapec.Wire.{Bytes}

-- `recursion_limit` is how deep the interpreter lets calls of `skip` nest.
pub record Protocol : Type 0 where
  pub service : Option Str
  pub seqid : ℕ
  pub inbuf : Bytes
  pub out : Bytes
  pub call : Option (Str × ℕ)
  pub reply : Option (ℕ × Bytes)
  pub dead : Bool
  pub recursion_limit : ℕ

abbrev pub Outcome : Type 0 → Type 0
Outcome A = Result A × Protocol

unfoldable pub init : ℕ → Option Str → Protocol
init limit service = record {
  service = service;
  seqid = 0;
  inbuf = [];
  out = [];
  call = none;
  reply = none;
  dead = false;
  recursion_limit = limit;
}

abbrev pub is_some {ℓ} : {A : Type ℓ} → Option A → Bool
is_some none = false
is_some (some a) = true

pub healthy : Protocol → Bool
healthy p = not p.dead

unfoldable pub busy : Protocol → Bool
busy p = is_some p.call

unfoldable pub done : Protocol → Bool
done p = is_some p.reply

-- `f"{self._service}:{method}" if self._service else method`
unfoldable pub wire_name : Option Str → Str → Str
wire_name none method = method
wire_name (some []) method = method
wire_name (some (c ∷ cs)) method = (c ∷ cs) ++ (b':' ∷ method)

-- The call is noted before the message is encoded, which may raise.
unfoldable pub start : Str → Bytes → Protocol → Outcome (Unit {0})
unfolding wire_name
start method args p =
    let number = bit_and (p.seqid + 1) 0x7fffffff in
    let q = record p { seqid = number; call = some (method, number); reply = none } in
    if is_some p.call
    then (err (transport_error busy_connection), p)
    else if p.dead
    then (err (transport_error closed_connection), p)
    else elim (encode_message (wire_name p.service method) call_type (pos number) args) [
      | ok bytes ↦ (ok tt, record q { out = bytes })
      | err e ↦ (err e, q)
    ]

unfoldable pub data_to_send : Protocol → Bytes × Protocol
data_to_send p = (p.out, record p { out = [] })

-- `self.dead = True; raise TransportError(…)`
abbrev pub fail : TransportFault → Protocol → Outcome (Unit {0})
fail fault p = (err (transport_error fault), record p { dead = true })

-- `name.rpartition(":")[2]`: what stands behind the last colon.
unfoldable pub after_colon : Str → Str → Str
after_colon acc [] = acc
after_colon acc (c ∷ cs) = after_colon (if c == b':' then cs else acc) cs

-- The checks on a whole message.
unfoldable pub accept : Str → ℕ → Result (Str × ℕ × ℤ × Bytes) → Protocol → Outcome (Unit {0})
unfolding after_colon same_text
accept method expected (err (thrift_error e)) p = fail malformed_message p
accept method expected (err e) p = (err e, p)
accept method expected (ok (name, mtype, seqid, body)) p =
    if not (eqb_ℤ seqid (pos expected))
    then fail wrong_seqid p
    else if not (mtype == reply_type || mtype == exception_type)
    then fail wrong_message_type p
    else if not (same_text (after_colon name name) method)
    then fail wrong_name p
    else (ok tt, record p { reply = some (mtype, body) })

-- What `feed` does once the bytes stand in the buffer.
unfoldable pub take_frame : Str → ℕ → Protocol → Outcome (Unit {0})
take_frame method expected p =
    let size = unpack_unsigned (take 4 p.inbuf) in
    let frame = take size (drop 4 p.inbuf) in
    let left = drop size (drop 4 p.inbuf) in
    let q = record p { inbuf = left } in
    if ltb (length p.inbuf) 4
    then (ok tt, p)
    else if ltb max_frame size
    then fail frame_too_long p
    else if ltb (length p.inbuf) (4 + size)
    then (ok tt, p)
    else if ltb 0 (length left)
    then fail more_than_one_reply q
    else accept method expected (decode_message frame) q

unfoldable pub feed : Bytes → Protocol → Outcome (Unit {0})
feed [] p = fail closed_by_peer p
feed (b ∷ bs) p = elim p.call [
  | none ↦ fail idle_data p
  | some (method, expected) ↦ take_frame method expected (record p { inbuf = p.inbuf ++ (b ∷ bs) })
]

-- Only a TransportError is caught.
abbrev pub quiet : Outcome (Unit {0}) → Outcome (Unit {0})
quiet (err (transport_error e), p) = (ok tt, p)
quiet (r, p) = (r, p)

unfoldable pub feed_idle : Bytes → Protocol → Outcome (Unit {0})
feed_idle bytes p = quiet (feed bytes p)

-- What `result` raises for an exception message.
abbrev pub server_error : Error → Error
server_error (thrift_error e) = rpc_error internal
server_error e = e

unfoldable pub result : Protocol → Outcome Bytes
result p = elim p.reply [
  | none ↦ (err assertion_error, p)
  | some (mtype, body) ↦ (
    if mtype == exception_type
        then err (server_error (application_error p.recursion_limit body))
        else ok body,
    record p { call = none; reply = none },
  )
]

unfoldable pub abort : Protocol → Protocol
abort p = record p { call = none; reply = none; inbuf = []; dead = true }

pub close : Protocol → Protocol
close p = record p { dead = true }
