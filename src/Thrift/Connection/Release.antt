-- ===== src/Thrift/Connection/Release.antt =====
-- The state that `ThriftConnection.unary` of sync.py leaves its connection in.
use grapec.Base.{◌≡◌, refl, true, List, [], ◌∷◌, none, arith, Bool-cases, inl, inr}
use grapec.Errors.{
  Result, ok, err, ◌and_then◌, TransportFault, transport_error, socket_timeout, os_error,
}
use grapec.Socket.{Setting, setting, Sending, sending}
use grapec.Text.{Str}
use grapec.Thrift.Protocol.{
  Protocol, Outcome, start, data_to_send, feed, is_some, done, busy, abort,
}
use grapec.Thrift.Protocol.Invariant.{Step, IsValid, starts, feeds, finishes, aborts, Step-IsValid}
use grapec.Thrift.Connection.{
  Event, chunk, silence, broken, receive, attempt, transmit, finish, settle, handle, unary,
}
use grapec.Wire.{Bytes}

receive-IsValid : (events : List Event) (p : Protocol) → IsValid p → IsValid (receive events p).1
unfolding receive done
receive-IsValid [] p v = ground arith
receive-IsValid (silence ∷ events) p v = ground arith
receive-IsValid (broken ∷ events) p v = ground arith
receive-IsValid (chunk bytes ∷ events) p v = elim (Bool-cases (is_some p.reply)) [
  | inl over ↦ rw over v
  | inr waits ↦
      let fed : IsValid (feed bytes p).1 = Step-IsValid (feeds bytes waits) v in
      rw waits (go (feed bytes p) fed (receive-IsValid events (feed bytes p).1 fed))
]
  where
    go :
        (out : Outcome (Unit {0}))
        → IsValid out.1
        → IsValid (receive events out.1).1
        → let more : Outcome (Unit {0}) = receive events out.1 in
          let answer : Outcome (Unit {0}) = elim out.0 [ ok t ↦ more | err e ↦ (err e, out.1) ] in
          IsValid answer.1
    go (ok t, q) v m = m
    go (err e, q) v m = v

finish-IsValid : (out : Outcome (Unit {0})) → IsValid out.1 → IsValid (finish out).1
unfolding finish
finish-IsValid (ok t, p) v = Step-IsValid finishes v
finish-IsValid (err e, p) v = v

after_send-IsValid :
    (r : Result (Unit {0})) (events : List Event) (p : Protocol)
    → IsValid p
    → IsValid (((r, p) and_then receive events)).1
after_send-IsValid (ok t) events p v = receive-IsValid events p v
after_send-IsValid (err e) events p v = v

transmit-IsValid :
    (sends : Sending) (events : List Event) (out : Outcome (Unit {0}))
    → IsValid out.1
    → IsValid (transmit sends events out).1
unfolding transmit
transmit-IsValid sends events (err e, p) v = v
transmit-IsValid sends events (ok t, p) v =
    let q = (data_to_send p).1 in
    finish-IsValid ((sending sends, q) and_then receive events)
      (after_send-IsValid (sending sends) events q (Step-IsValid Step.sends v))

started-IsValid :
    (r : Result (Unit {0})) (method : Str) (args : Bytes) (p : Protocol)
    → IsValid p
    → IsValid ((r, p) and_then start method args).1
started-IsValid (ok t) method args p v = Step-IsValid (starts method args) v
started-IsValid (err e) method args p v = v

attempt-IsValid :
    (method : Str) (args : Bytes) (timer : Setting) (sends : Sending) (events : List Event)
    (p : Protocol)
    → IsValid p
    → IsValid (attempt method args timer sends events p).1
unfolding attempt
attempt-IsValid method args timer sends events p v =
    transmit-IsValid sends events ((setting timer, p) and_then start method args)
      (started-IsValid (setting timer) method args p v)

settle-idle : (p : Protocol) → (settle p).call ≡ none
unfolding settle busy abort
settle-idle p = ground arith

settle-IsValid : (p : Protocol) → IsValid p → IsValid (settle p)
unfolding settle
settle-IsValid p v =
    let stopped : IsValid (abort p) = Step-IsValid aborts v in
    elim (Bool-cases (busy p)) [ inl b ↦ rw b stopped | inr b ↦ rw b v ]

-- What is true of the connection after a call: it is valid, no call is active, and after an error
-- below the call, a timeout included, it is dead.
abbrev pub IsReleased : Outcome Bytes → Type 0
IsReleased (r, q) =
    IsValid q
    × (q.call ≡ none)
    × ((e : TransportFault) → r ≡ err (transport_error e) → q.dead ≡ true)

settle-dead : (p : Protocol) → p.dead ≡ true → (settle p).dead ≡ true
unfolding settle abort
settle-dead p h = ground arith

handle-IsReleased : (out : Outcome Bytes) → IsValid out.1 → IsReleased (handle out)
unfolding handle
handle-IsReleased (ok body, p) v = (settle-IsValid p v, settle-idle p, λ e h. cc)
handle-IsReleased (err socket_timeout, p) v =
    (settle-IsValid (abort p) (Step-IsValid aborts v), settle-idle (abort p), λ e h. cc)
handle-IsReleased (err (transport_error t), p) v = (
  settle-IsValid (abort p) (Step-IsValid aborts v),
  settle-idle (abort p),
  λ e h. settle-dead (abort p) (unfold abort in refl),
)
handle-IsReleased (err os_error, p) v = (
  settle-IsValid (abort p) (Step-IsValid aborts v),
  settle-idle (abort p),
  λ e h. settle-dead (abort p) (unfold abort in refl),
)
handle-IsReleased (err e, p) v = (settle-IsValid p v, settle-idle p, λ e h. cc)

-- However a call on a valid connection ends, with a timeout that the socket does not take or a
-- send that times out as well, the connection is valid afterwards and no call is active on it, and
-- a TransportError leaves it dead.
pub unary-IsReleased :
    (method : Str) (args : Bytes) (timer : Setting) (sends : Sending) (events : List Event)
    (p : Protocol)
    → IsValid p
    → IsReleased (unary method args timer sends events p)
unfolding unary
unary-IsReleased method args timer sends events p v =
    handle-IsReleased (attempt method args timer sends events p)
      (attempt-IsValid method args timer sends events p v)
