-- ===== src/Thrift/Protocol/Invariant.antt =====
-- The states that a `ThriftProtocol` can be in when it is driven as sync.py and aio.py drive it.
use grapec.Base.{
  ℕ, ◌+◌, ◌^◌, ◌<◌, ◌≡◌, refl, true, false, [], ◌∷◌, ◌++◌, Option, none, some, ltb, length, take,
  drop, arith, Option-cases, inl, inr,
}
use grapec.Base.Bits.{bit_and_mask}
use grapec.Base.Int.{ℤ}
use grapec.Errors.{Result, ok, err, TransportFault, thrift_error, transport_error}
use grapec.Struct.{unpack_unsigned}
use grapec.Text.{Str}
use grapec.Thrift.Message.{decode_message}
use grapec.Thrift.Protocol.{
  Protocol, Outcome, init, is_some, start, data_to_send, accept, take_frame, feed, feed_idle, quiet,
  result, abort, close, fail,
}
use grapec.Wire.{Bytes}

-- The call that waits has the number that was used last.
abbrev pub IsNumbered : Option (Str × ℕ) → ℕ → Type 0
IsNumbered none k = Unit {0}
IsNumbered (some (m, n)) k = n ≡ k

pub record IsValid (p : Protocol) : Type 0 where
  pub number_fits : p.seqid < 2 ^ 31
  pub reply_answers : is_some p.reply ≡ true → is_some p.call ≡ true
  pub own_number : IsNumbered p.call p.seqid
  pub clean_idle : p.dead ≡ false → p.call ≡ none → p.inbuf ≡ []
  pub clean_reply : p.dead ≡ false → is_some p.reply ≡ true → p.inbuf ≡ []

-- What a connection does with its protocol. Bytes are fed while a call waits for its reply, or
-- while none is active.
pub data Step (p : Protocol) : Protocol → Type 0 where
  starts : (method : Str) (args : Bytes) → Step p (start method args p).1
  sends : Step p (data_to_send p).1
  feeds : (bytes : Bytes) → is_some p.reply ≡ false → Step p (feed bytes p).1
  feeds_idle : (bytes : Bytes) → is_some p.reply ≡ false → Step p (feed_idle bytes p).1
  finishes : Step p (result p).1
  aborts : Step p (abort p)
  closes : Step p (close p)

pub data Reach (p : Protocol) : Protocol → Type 0 where
  here : Reach p p
  next : {q r : Protocol} → Reach p q → Step q r → Reach p r

pub init-IsValid : (limit : ℕ) (service : Option Str) → IsValid (init limit service)
unfolding init
init-IsValid limit service = ground arith

start-IsValid :
    (method : Str) (args : Bytes) (p : Protocol) → IsValid p → IsValid (start method args p).1
unfolding start
start-IsValid method args p v = ground (arith, bit_and_mask 31 (p.seqid + 1))

-- A state that waits for a reply, and has read a whole frame.
module _ (method : Str) (p : Protocol) (v : IsValid p) (busy : p.call ≡ some (method, p.seqid))
    (empty : p.inbuf ≡ []) where
  fail-IsValid : (fault : TransportFault) → IsValid (fail fault p).1
  fail-IsValid fault = ground arith

  accept-IsValid :
      (expected : ℕ) (r : Result (Str × ℕ × ℤ × Bytes)) → IsValid (accept method expected r p).1
  unfolding accept
  accept-IsValid expected (ok (name, mtype, seqid, body)) = ground arith
  accept-IsValid expected (err (thrift_error e)) = ground arith
  accept-IsValid expected (err e) = v

empty_of_length : (xs : Bytes) → ltb 0 (length xs) ≡ false → xs ≡ []
empty_of_length [] h = refl
empty_of_length (x ∷ xs) h = absurd (ground arith)

-- The states while bytes of a reply come in.
module _ (method : Str) (p : Protocol) (v : IsValid p) (busy : p.call ≡ some (method, p.seqid))
    (waiting : is_some p.reply ≡ false) where
  buffered : (bytes : Bytes) → IsValid (record p { inbuf = bytes })
  buffered bytes = ground arith

  whole_frame :
      (expected : ℕ) (frame left : Bytes)
      → ltb 0 (length left) ≡ false
      → IsValid (accept method expected (decode_message frame) (record p { inbuf = left })).1
  whole_frame expected frame left h =
      accept-IsValid method (record p { inbuf = left }) (buffered left) busy
        (empty_of_length left h) expected (decode_message frame)

  take_frame-IsValid : (expected : ℕ) → IsValid (take_frame method expected p).1
  unfolding take_frame
  take_frame-IsValid expected =
      let size : ℕ = unpack_unsigned (take 4 p.inbuf) in
      ground (arith, whole_frame expected (take size (drop 4 p.inbuf)) (drop size (drop 4 p.inbuf)))

feed-IsValid :
    (bytes : Bytes) (p : Protocol) → IsValid p → is_some p.reply ≡ false → IsValid (feed bytes p).1
unfolding feed
feed-IsValid [] p v h = ground arith
feed-IsValid (b ∷ bs) p v h = elim (Option-cases p.call) [
  | inl idle ↦ ground arith
  | inr ((method, number), e) ↦
      rw (e, feed)
        (take_frame-IsValid method (record p { inbuf = p.inbuf ++ (b ∷ bs) })
          (buffered method p v (busy_with method number e) h (p.inbuf ++ (b ∷ bs)))
          (busy_with method number e) h number)
]
  where
    busy_with :
        (method : Str) (number : ℕ)
        → p.call ≡ some (method, number)
        → p.call ≡ some (method, p.seqid)
    busy_with method number e = ground arith

quiet-state : (out : Outcome (Unit {0})) → (quiet out).1 ≡ out.1
quiet-state (ok t, p) = refl
quiet-state (err (transport_error e), p) = refl
quiet-state (err e, p) = refl

feed_idle-IsValid :
    (bytes : Bytes) (p : Protocol)
    → IsValid p
    → is_some p.reply ≡ false
    → IsValid (feed_idle bytes p).1
unfolding feed_idle
feed_idle-IsValid bytes p v h = rw (quiet-state (feed bytes p)) (feed-IsValid bytes p v h)

pub Step-IsValid : {p q : Protocol} → Step p q → IsValid p → IsValid q
unfolding data_to_send result abort close
Step-IsValid {p} (starts method args) v = start-IsValid method args p v
Step-IsValid sends v = ground arith
Step-IsValid {p} (feeds bytes h) v = feed-IsValid bytes p v h
Step-IsValid {p} (feeds_idle bytes h) v = feed_idle-IsValid bytes p v h
Step-IsValid finishes v = ground arith
Step-IsValid aborts v = ground arith
Step-IsValid closes v = ground arith

-- A state that a valid one leads to by the methods of ThriftProtocol is valid: a reply is only
-- there while its call waits, that call has the number used last, the number is below 2 ^ 31, and
-- a living connection holds no bytes when it is idle or has its reply; bytes are fed only while no
-- reply is there.
pub Reach-IsValid : {p q : Protocol} → Reach p q → IsValid p → IsValid q
Reach-IsValid here v = v
Reach-IsValid (next r st) v = Step-IsValid st (Reach-IsValid r v)
