-- ===== src/Thrift/Examples.antt =====
-- Runs of thrift.py and of the connection of sync.py, and instances of what is proved about them.
use grapec.Base.{◌<◌, ◌≡◌, refl, arith, none, List, [], ◌∷◌, ◌++◌, map, length}
use grapec.Base.Int.{pos}
use grapec.Errors.{
  recursion_error, FailsAs, ok, err, rpc_error, deadline_exceeded, thrift_error, unknown_type,
}
use grapec.Struct.{pack_signed, pack_unsigned, unpack_signed, unpack_unsigned}
use grapec.Socket.{set, setting, passed, late, sending}
use grapec.Text.{Str, same_text, encode, decode_replace, front}
use grapec.Thrift.{need, read, read_byte, read_binary, check_count, size_of, skip, list_code}
use grapec.Thrift.Message.{
  application_error, call_type, reply_type, encode_message, decode_message, read_u32,
}
use grapec.Thrift.Message.RoundTrip.{decode-encode_message}
use grapec.Thrift.Protocol.{
  init, start, wire_name, after_colon, feed, take_frame, data_to_send, busy, done, abort,
}
use grapec.Thrift.Protocol.Invariant.{IsValid, Step, Reach, Reach-IsValid, init-IsValid}
use grapec.Thrift.Connection.{chunk, silence, unary, receive, attempt, transmit, settle, handle}
use grapec.Thrift.Connection.Delivery.{IsReply, unary_delivers}
use grapec.Thrift.Connection.Outcomes.{IsCallError, unary-FailsAs}
use grapec.Thrift.Message.Total.{IsServerError, application_error_lem}
use grapec.Thrift.Total.{Skips, skip_lem}
use grapec.Thrift.Connection.Release.{IsReleased, unary-IsReleased}
use grapec.Wire.{Bytes}

abbrev ping : Str
ping = b'p' ∷ b'i' ∷ []

-- The whole message `pi`, a reply to call 1, with the body 9, and its length in front.
abbrev reply_size : Bytes
reply_size = 0 ∷ 0 ∷ 0 ∷ 15 ∷ []

abbrev reply_content : Bytes
reply_content = 0x80 ∷ 1 ∷ 0 ∷ 2 ∷ 0 ∷ 0 ∷ 0 ∷ 2 ∷ b'p' ∷ b'i' ∷ 0 ∷ 0 ∷ 0 ∷ 1 ∷ 9 ∷ []

abbrev request : Bytes
request = 0 ∷ 0 ∷ 0 ∷ 15 ∷ 0x80 ∷ 1 ∷ 0 ∷ 1 ∷ 0 ∷ 0 ∷ 0 ∷ 2 ∷ b'p' ∷ b'i' ∷ 0 ∷ 0 ∷ 0 ∷ 1 ∷ 8 ∷ []

abbrev two_chunks : List Bytes
two_chunks =
    (0 ∷ 0 ∷ [])
    ∷ (0 ∷ 15 ∷ 0x80 ∷ 1 ∷ 0 ∷ 2 ∷ 0 ∷ 0 ∷ 0 ∷ 2 ∷ b'p' ∷ b'i' ∷ 0 ∷ 0 ∷ 0 ∷ 1 ∷ 9 ∷ [])
    ∷ []

abbrev nothing : Bytes
nothing = []

encode_request : encode_message ping call_type (pos 1) (8 ∷ []) ≡ ok request
unfolding encode_message encode pack_unsigned pack_signed
encode_request = refl

decode_reply : decode_message reply_content ≡ ok (ping, reply_type, pos 1, 9 ∷ [])
unfolding decode_message read_u32 read_binary read need check_count unpack_signed unpack_unsigned
    decode_replace front
decode_reply = refl

ping_bytes : encode ping ≡ ok ping
unfolding encode
ping_bytes = refl

-- A list of two structs without fields, with one byte behind it, and a type that is none.
skip_structs : skip 2 (12 ∷ 0 ∷ 0 ∷ 0 ∷ 2 ∷ 0 ∷ 0 ∷ 7 ∷ []) list_code ≡ ok (7 ∷ [])
unfolding skip size_of read_byte read need check_count unpack_signed
skip_structs = refl

skip_unknown : skip 2 (7 ∷ []) 5 ≡ err (thrift_error unknown_type)
unfolding skip size_of
skip_unknown = refl

abbrev is_reply : IsReply ping 1 reply_type (9 ∷ []) reply_size reply_content
is_reply = record {
  name = ping;
  four = refl;
  says = (unfold unpack_unsigned in refl);
  fits = omega arith;
  reads = decode_reply;
  for_method = (unfold after_colon same_text in refl);
  is_answer = refl;
}

unary_delivers_example :
    unary ping (8 ∷ []) set passed (map chunk two_chunks ++ (silence ∷ [])) (init 1000 none)
    ≡ (ok (9 ∷ []), record (init 1000 none) { seqid = 1 })
unfolding init wire_name
unary_delivers_example =
    unary_delivers ping (8 ∷ []) (9 ∷ []) request reply_size reply_content two_chunks (silence ∷ [])
      (init 1000 none) refl refl refl encode_request is_reply (omega arith, (omega arith, tt)) refl

-- A peer that falls silent.
unary_silent :
    (unary ping (8 ∷ []) set passed (chunk (0 ∷ []) ∷ []) (init 1000 none)).0
    ≡ err (rpc_error deadline_exceeded)
unfolding unary attempt transmit receive start feed data_to_send settle handle busy done init
    wire_name encode_message encode pack_unsigned pack_signed abort take_frame
unary_silent = refl

unary-IsReleased_example :
    IsReleased (unary ping (8 ∷ []) set passed (chunk (0 ∷ []) ∷ []) (init 1000 none))
unary-IsReleased_example =
    unary-IsReleased ping (8 ∷ []) set passed (chunk (0 ∷ []) ∷ []) (init 1000 none)
      (init-IsValid 1000 none)

Reach-IsValid_example : IsValid (start ping (8 ∷ []) (init 1000 none)).1
Reach-IsValid_example =
    Reach-IsValid (Reach.next Reach.here (Step.starts ping (8 ∷ []))) (init-IsValid 1000 none)

decode-encode_message_example :
    (size : Bytes) × (content : Bytes) × (encode_message ping reply_type (pos 1) (9 ∷ [])
      ≡ ok (size ++ content))
    × (length size ≡ 4)
    × (unpack_unsigned size ≡ length content)
    × (decode_message content ≡ ok (ping, reply_type, pos 1, 9 ∷ []))
decode-encode_message_example =
    decode-encode_message ping reply_type 1 (9 ∷ []) ping (omega arith) ping_bytes (omega arith)
      (omega arith) (omega arith)

unary-FailsAs_example :
    FailsAs IsCallError (unary ping (8 ∷ []) set passed (chunk (0 ∷ []) ∷ []) (init 1000 none)).0
unary-FailsAs_example =
    unary-FailsAs ping (8 ∷ []) set passed (chunk (0 ∷ []) ∷ []) (init 1000 none)

skip_lem_example :
    Skips (λ rest. length rest < 8) (skip 2 (12 ∷ 0 ∷ 0 ∷ 0 ∷ 2 ∷ 0 ∷ 0 ∷ 7 ∷ []) list_code)
skip_lem_example = skip_lem 2 (12 ∷ 0 ∷ 0 ∷ 0 ∷ 2 ∷ 0 ∷ 0 ∷ 7 ∷ []) list_code

application_error_lem_example : IsServerError (application_error 1000 (11 ∷ 0 ∷ []))
application_error_lem_example = application_error_lem 1000 (11 ∷ 0 ∷ [])

-- A list in a list in a list, where `skip` nests twice at most, and a `sendall` that is too late.
nested_run :
    skip 2 (15 ∷ 0 ∷ 0 ∷ 0 ∷ 1 ∷ 15 ∷ 0 ∷ 0 ∷ 0 ∷ 1 ∷ 2 ∷ 0 ∷ 0 ∷ 0 ∷ 0 ∷ []) list_code
    ≡ err recursion_error
unfolding skip size_of read_byte read need check_count unpack_signed
nested_run = refl

late_run : (unary ping (8 ∷ []) set late [] (init 1000 none)).0 ≡ err (rpc_error deadline_exceeded)
unfolding unary attempt transmit receive start feed data_to_send settle handle busy done init
    wire_name encode_message encode pack_unsigned pack_signed abort take_frame setting sending
late_run = refl
