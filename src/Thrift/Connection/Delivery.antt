-- ===== src/Thrift/Connection/Delivery.antt =====
-- `ThriftConnection.unary` of sync.py where the reply arrives, in whatever pieces.
use grapec.Base.{
  ℕ, ◌+◌, ◌<◌, ◌≤◌, ◌≡◌, refl, ap, ◌∙◌, true, false, ◌||◌, List, [], ◌∷◌, ◌++◌, append_assoc,
  append-nil, map, none, some, ◌==◌, length, length-append, arith, All, bit_and,
}
use grapec.Base.Int.{pos}
use grapec.Errors.{ok}
use grapec.Struct.{unpack_unsigned}
use grapec.Socket.{set, setting, passed, sending}
use grapec.Text.{Str, same_text}
use grapec.Thrift.Message.{
  decode_message, encode_message, max_frame, call_type, reply_type, exception_type,
}
use grapec.Thrift.Protocol.{
  Protocol, start, data_to_send, take_frame, feed, accept, after_colon, is_some, result, done, busy,
  wire_name,
}
use grapec.Thrift.Protocol.Feed.{partial_frame, whole_frame}
use grapec.Thrift.Connection.{
  Event, chunk, receive, attempt, transmit, finish, settle, handle, unary,
}
use grapec.Wire.{Bytes}

abbrev pub joined : List Bytes → Bytes
joined [] = []
joined (c ∷ cs) = c ++ joined cs

abbrev IsFilled : Bytes → Type 0
IsFilled c = 0 < length c

-- A frame on its way to a connection that waits for it.
pub record IsReply (method : Str) (number mtype : ℕ) (body size content : Bytes) : Type 0 where
  pub name : Str
  pub four : length size ≡ 4
  pub says : unpack_unsigned size ≡ length content
  pub fits : length content ≤ max_frame
  pub reads : decode_message content ≡ ok (name, mtype, pos number, body)
  pub for_method : same_text (after_colon name name) method ≡ true
  pub is_answer : (mtype == reply_type || mtype == exception_type) ≡ true

module _ (method : Str) (number mtype : ℕ) (body size content : Bytes)
    (reply : IsReply method number mtype body size content) where
  accepted :
      (p : Protocol)
      → accept method number (decode_message content) p
        ≡ (ok tt, record p { reply = some (mtype, body) })
  unfolding accept
  accepted p = rw (reply.reads, accept) (ground (arith, reply.for_method, reply.is_answer))

  feed_lem :
      (c : Bytes) (p : Protocol)
      → p.call ≡ some (method, number)
      → IsFilled c
      → feed c p ≡ take_frame method number (record p { inbuf = p.inbuf ++ c })
  unfolding feed
  feed_lem [] p h l = elim l [ ]
  feed_lem (b ∷ bs) p h l = ground arith

  receive_done :
      (events : List Event) (p : Protocol) → is_some p.reply ≡ true → receive events p ≡ (ok tt, p)
  unfolding receive done
  receive_done [] p h = rw h
  receive_done (event ∷ events) p h = rw h

  receive_step :
      (c : Bytes) (events : List Event) (p q : Protocol)
      → is_some p.reply ≡ false
      → feed c p ≡ (ok tt, q)
      → receive (chunk c ∷ events) p ≡ receive events q
  unfolding receive done
  receive_step c events p q h e = ground arith

  receive_chunks :
      (chunks : List Bytes) (rest : List Event) (p : Protocol)
      → p.call ≡ some (method, number)
      → is_some p.reply ≡ false
      → All IsFilled chunks
      → p.inbuf ++ joined chunks ≡ size ++ content
      → 0 < length (joined chunks)
      → receive (map chunk chunks ++ rest) p
        ≡ (ok tt, record p { inbuf = []; reply = some (mtype, body) })
  receive_chunks [] rest p hc hr hf e l = elim l [ ]
  receive_chunks (c ∷ []) rest p hc hr hf e l =
      receive_step c rest p _ hr (
        feed_lem c p hc hf.0
        ∙ whole_frame method number size content reply.four reply.says reply.fits
            (record p { inbuf = p.inbuf ++ c }) (rw append-nil at e)
        ∙ accepted (record p { inbuf = [] }))
      ∙ receive_done rest _ refl
  receive_chunks (c ∷ d ∷ ds) rest p hc hr hf e l =
      let whole : (p.inbuf ++ c) ++ joined (d ∷ ds) ≡ size ++ content =
        append_assoc p.inbuf c (joined (d ∷ ds)) ∙ e in
      let more : 0 < length (joined (d ∷ ds)) =
        omega (arith, length-append d (joined ds), hf.1.0) in
      receive_step c (map chunk (d ∷ ds) ++ rest) p (record p { inbuf = p.inbuf ++ c }) hr
        (feed_lem c p hc hf.0
          ∙ partial_frame method number size content reply.four reply.says reply.fits
              (record p { inbuf = p.inbuf ++ c }) (joined (d ∷ ds)) whole more)
      ∙ receive_chunks (d ∷ ds) rest (record p { inbuf = p.inbuf ++ c }) hc hr hf.1 whole more

-- The number of the call that comes next.
abbrev pub next_number : Protocol → ℕ
next_number p = bit_and (p.seqid + 1) 0x7fffffff

-- On an idle, living connection without buffered bytes, a call whose timeout the socket takes,
-- whose message can be encoded and is sent, and whose reply frame arrives in pieces that are not
-- empty returns the body of the reply, and leaves the connection idle, alive and without bytes,
-- however the frame is cut and whatever the socket would do afterwards.
pub unary_delivers :
    (method : Str) (args body request size content : Bytes) (chunks : List Bytes)
    (rest : List Event) (p : Protocol)
    → p.dead ≡ false
    → p.call ≡ none
    → p.inbuf ≡ []
    → encode_message (wire_name p.service method) call_type (pos (next_number p)) args ≡ ok request
    → IsReply method (next_number p) reply_type body size content
    → All IsFilled chunks
    → joined chunks ≡ size ++ content
    → unary method args set passed (map chunk chunks ++ rest) p ≡ (
      ok body,
      record p { seqid = next_number p; inbuf = []; out = []; call = none; reply = none },
    )
unfolding setting sending transmit unary attempt handle data_to_send result settle busy
unary_delivers method args body request size content chunks rest p hd hc hi hm reply hf e =
    ap (λ t. handle (transmit passed (map chunk chunks ++ rest) t)) started
    ∙ ap (λ t. handle (finish t)) received
  where
    waiting : Protocol
    waiting = record p {
      seqid = next_number p;
      call = some (method, next_number p);
      reply = none;
      out = request;
    }

    started : start method args p ≡ (ok tt, waiting)
    started = unfold start in ground arith

    frame_length : 0 < length (joined chunks)
    frame_length = omega (arith, ap length e, length-append size content, reply.four)

    received :
        receive (map chunk chunks ++ rest) (record waiting { out = [] })
        ≡ (ok tt, record waiting { out = []; inbuf = []; reply = some (reply_type, body) })
    received =
        receive_chunks method (next_number p) reply_type body size content reply chunks rest
          (record waiting { out = [] }) refl refl hf (rw hi e) frame_length
