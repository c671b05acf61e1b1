-- ===== src/Grpc/Protocol.antt =====
-- grpc.GrpcProtocol: the state of one HTTP/2 connection, which carries one call at a time. The
-- package h2 is a parameter: its state, and what its methods return or raise and leave behind.
-- A method of the protocol returns its result or its exception, and the new state.
pub mod Feed
pub mod Raises
use grapec.Base.{
  ℕ, zero, suc, ◌+◌, ◌*◌, Bool, true, false, ◌&&◌, ◌||◌, not, List, [], ◌∷◌, ◌++◌, Option, none,
  some, ltb, ◌==◌, if◌then◌else◌, length, take, drop,
}
use grapec.Errors.{
  Result, ok, err, ◌>>=◌, ◌and_then◌, Error, transport_error, busy_connection, closed_by_peer,
  terminated, stream_reset, h2_error, assertion_error, no_fuel,
}
use grapec.Grpc.{Compressors, compress, pack_message}
use grapec.Grpc.Call.{Call, new_call, Ending, broken, finish, is_nil}
use grapec.Grpc.Metadata.{Headers, Metadata, request_headers}
use grapec.Struct.{unpack_unsigned}
use grapec.Text.{Str, codes, same_text}
use grapec.Wire.{Bytes}

-- The events of h2 that grpc.py looks at, with the stream that they are about.
pub data Event : Type 0 where
  connection_terminated : ℕ → Event
  data_received : ℕ → ℕ → Bytes → Event
  response_received trailers_received : ℕ → Headers → Event
  stream_ended : ℕ → Event
  reset_received : ℕ → ℕ → Event
  other_event : Event

-- h2.connection.H2Connection. `window` is the smaller of the stream's window and the frame size, 0
-- when it is negative. What fails raises H2Error.
pub record H2 : Type 1 where
  pub State : Type 0
  pub initial : State
  pub is_closed : State → Bool
  pub next_stream_id : State → Result ℕ
  pub send_headers : ℕ → Headers → State → Result (Unit {0}) × State
  pub window : ℕ → State → Result ℕ
  pub send_data : ℕ → Bytes → Bool → State → Result (Unit {0}) × State
  pub data_to_send : State → Bytes × State
  pub receive_data : Bytes → State → Result (List Event) × State
  pub acknowledge : ℕ → ℕ → State → Result (Unit {0}) × State
  pub reset_stream : ℕ → State → Result (Unit {0}) × State
  pub close_connection : State → Result (Unit {0}) × State

abbrev pub frame_header : ℕ
frame_header = 9

-- `dict(pairs)`: a key that is there keeps its place.
unfoldable pub set_key : Headers → Str → Str → Headers
set_key [] key value = (key, value) ∷ []
set_key ((k, v) ∷ rest) key value =
    let after = set_key rest key value in
    if same_text k key then (k, value) ∷ rest else (k, v) ∷ after

unfoldable pub dict_of : Headers → Headers → Headers
unfolding set_key
dict_of acc [] = acc
dict_of acc ((k, v) ∷ rest) = dict_of (set_key acc k v) rest

unfoldable pub announced : Option Str → Option Str
unfolding same_text
announced none = none
announced (some name) = if same_text name (codes "identity") then none else some name

abbrev pub stream_of : Event → Option ℕ
stream_of (data_received stream size bytes) = some stream
stream_of (response_received stream headers) = some stream
stream_of (trailers_received stream headers) = some stream
stream_of (stream_ended stream) = some stream
stream_of (reset_received stream code) = some stream
stream_of (connection_terminated code) = none
stream_of other_event = none

abbrev pub is_about : Event → Call → Bool
is_about event call = elim (stream_of event) [
  | none ↦ false
  | some stream ↦ stream == call.stream_id
]

abbrev pub is_termination : Event → Bool
is_termination (connection_terminated code) = true
is_termination _ = false

-- How long the first frame in the buffer is.
unfoldable pub frame_length : Bytes → ℕ
frame_length buf = unpack_unsigned (take 3 buf) + frame_header

module _ (h2 : H2) where
  pub record Protocol : Type 0 where
    pub authority : Str
    pub scheme : Str
    pub state : h2.State
    pub dead : Bool
    pub call : Option Call
    pub inbuf : Bytes

  abbrev pub Outcome : Type 0 → Type 0
  Outcome A = Result A × Protocol

  -- `__init__`; `initial` is the state after `initiate_connection`.
  unfoldable pub init : Str → Bool → Protocol
  init authority tls = record {
    authority = authority;
    scheme = if tls then codes "https" else codes "http";
    state = h2.initial;
    dead = false;
    call = none;
    inbuf = [];
  }

  unfoldable pub healthy : Protocol → Bool
  healthy p = not p.dead && not (h2.is_closed p.state)

  unfoldable pub busy : Protocol → Bool
  busy p = elim p.call [ none ↦ false | some call ↦ true ]

  unfoldable pub done : Protocol → Bool
  done p = elim p.call [ none ↦ false | some call ↦ call.ended ]

  -- The end of `start`: the headers are sent on a new stream before the message is packed.
  unfoldable pub open_stream : ℕ → Bytes → Headers → Result ℕ → Protocol → Outcome (Unit {0})
  unfolding new_call
  open_stream flag message headers (err e) p = (err e, p)
  open_stream flag message headers (ok stream_id) p =
      let (sent, state) = h2.send_headers stream_id headers p.state in
      let q = record p { state = state } in
      let opened : Outcome (Unit {0}) = (elim (pack_message flag message) [
        | err e ↦ (err e, q)
        | ok body ↦ (ok tt, record q { call = some (new_call stream_id body) })
      ]) in
      elim sent [ ok t ↦ opened | err e ↦ (err e, q) ]

  unfoldable pub begin : Result (ℕ × Bytes) → Result Headers → Protocol → Outcome (Unit {0})
  unfolding open_stream
  begin (err e) headers p = (err e, p)
  begin (ok body) (err e) p = (err e, p)
  begin (ok (flag, message)) (ok headers) p =
      open_stream flag message headers (h2.next_stream_id p.state) p

  unfoldable pub start :
      Compressors → Str → Bytes → Option Str → Metadata → Option Str → Protocol → Outcome (Unit {0})
  unfolding begin announced request_headers compress
  start compressors path payload timeout entries compression p =
      let headers =
        request_headers p.scheme p.authority path timeout entries (announced compression) in
      elim p.call [
        | some call ↦ (err (transport_error busy_connection), p)
        | none ↦ begin (compress compressors compression payload) headers p
      ]

  -- The loop that sends as much of the body as the window allows; each round takes a byte at least.
  unfoldable pub push : ℕ → Call → h2.State → Result (Unit {0}) × Call × h2.State
  push zero call state = (if is_nil call.pending then ok tt else err no_fuel, call, state)
  push (suc fuel) call state =
      let more : ℕ → Result (Unit {0}) × Call × h2.State = (λ size.
        (let rest = record call { pending = drop size call.pending } in
          let (sent, state') =
            h2.send_data call.stream_id (take size call.pending) (is_nil rest.pending) state in
          let again = push fuel rest state' in
          elim sent [ ok t ↦ again | err e ↦ (err e, rest, state') ])) in
      if is_nil call.pending then (ok tt, call, state) else elim (h2.window call.stream_id state) [
        | err e ↦ (err e, call, state)
        | ok size ↦ if size == 0 then (ok tt, call, state) else more size
      ]

  abbrev flushed : Result (Unit {0}) × Protocol → Outcome Bytes
  flushed (err e, p) = (err e, p)
  flushed (ok t, p) =
      let (bytes, state) = h2.data_to_send p.state in (ok bytes, record p { state = state })

  unfoldable pub data_to_send : Protocol → Outcome Bytes
  unfolding push is_nil
  data_to_send p = elim p.call [
    | none ↦ flushed (ok tt, p)
    | some call ↦
        let (r, call', state) = push (length call.pending) call p.state in
        let pushed = flushed (r, record p { call = some call'; state = state }) in
        if is_nil call.pending || call.ended || p.dead then flushed (ok tt, p) else pushed
  ]

  -- `_terminated`: only an unfinished call is an error; without a call it is one, too.
  unfoldable pub terminate : Protocol → Outcome (Unit {0})
  unfolding done
  terminate p = if done p then (ok tt, p) else (err (transport_error terminated), p)

  -- What an event means for the call on its stream.
  unfoldable pub update : Event → Call → Protocol → Outcome (Unit {0})
  unfolding dict_of
  update (data_received stream size bytes) call p =
      let (acknowledged, state) = h2.acknowledge size call.stream_id p.state in
      let q = record p { state = state } in
      elim acknowledged [
        | err e ↦ (err e, q)
        | ok t ↦ (ok tt, record q { call = some (record call { body = call.body ++ bytes }) })
      ]
  update (response_received stream headers) call p =
      (ok tt, record p { call = some (record call { headers = dict_of [] headers }) })
  update (trailers_received stream headers) call p =
      (ok tt, record p { call = some (record call { trailers = dict_of [] headers }) })
  update (stream_ended stream) call p =
      (ok tt, record p { call = some (record call { ended = true }) })
  update (reset_received stream code) call p =
      if call.ended
      then (ok tt, p)
      else (err (transport_error stream_reset), record p { dead = true })
  update (connection_terminated code) call p = (ok tt, p)
  update other_event call p = (ok tt, p)

  -- One event of the loop in `_feed_frame` other than the end of the connection.
  unfoldable pub handle_event : Event → Protocol → Outcome (Unit {0})
  unfolding update
  handle_event event p = elim p.call [
    | none ↦ (ok tt, p)
    | some call ↦ if is_about event call then update event call p else (ok tt, p)
  ]

  unfoldable pub handle_events : List Event → Protocol → Outcome (Unit {0})
  unfolding handle_event terminate
  handle_events [] p = (ok tt, p)
  handle_events (event ∷ events) p =
      let all = (handle_event event p and_then λ q. handle_events events q) in
      if is_termination event then terminate (record p { dead = true }) else all

  unfoldable pub received : Result (List Event) → Protocol → Outcome (Unit {0})
  unfolding handle_events terminate
  received (ok events) p = handle_events events p
  received (err h2_error) p =
      let q = record p { dead = true } in
      if p.dead || h2.is_closed p.state then terminate q else (err h2_error, q)
  received (err e) p = (err e, p)

  unfoldable pub feed_frame : Bytes → Protocol → Outcome (Unit {0})
  unfolding received
  feed_frame bytes p =
      let (r, state) = h2.receive_data bytes p.state in received r (record p { state = state })

  -- The loop of `feed`; each round takes a frame's header at least.
  unfoldable pub feed_loop : ℕ → Protocol → Outcome (Unit {0})
  unfolding feed_frame frame_length
  feed_loop zero p = (err no_fuel, p)
  feed_loop (suc fuel) p =
      let size = frame_length p.inbuf in
      let more =
        (feed_frame (take size p.inbuf) (record p { inbuf = drop size p.inbuf }) and_then λ q.
        feed_loop fuel q) in
      if ltb (length p.inbuf) frame_header || p.dead || ltb (length p.inbuf) size
      then (ok tt, p)
      else more

  unfoldable pub feed : Bytes → Protocol → Outcome (Unit {0})
  unfolding feed_loop
  feed [] p = (err (transport_error closed_by_peer), record p { dead = true })
  feed (b ∷ bs) p =
      let q = record p { inbuf = p.inbuf ++ (b ∷ bs) } in feed_loop (suc (length q.inbuf)) q

  -- Only a TransportError is caught.
  abbrev quiet : Outcome (Unit {0}) → Outcome (Unit {0})
  quiet (err (transport_error e), p) = (ok tt, p)
  quiet (r, p) = (r, p)

  unfoldable pub feed_idle : Bytes → Protocol → Outcome (Unit {0})
  unfolding feed
  feed_idle bytes p = quiet (feed bytes p)

  unfoldable pub result : Compressors → Protocol → Ending × Protocol
  unfolding finish
  result compressors p = elim p.call [
    | none ↦ (broken assertion_error, p)
    | some call ↦
        if call.ended
        then (finish compressors call, record p { call = none })
        else (broken assertion_error, p)
  ]

  -- The bytes of the reset, or none where the stream cannot be reset.
  unfoldable pub cancel : Protocol → Bytes × Protocol
  cancel p =
      let q = record p { call = none } in
      elim p.call [
        | none ↦ ([], q)
        | some call ↦
            let (reset, state) = h2.reset_stream call.stream_id p.state in
            let (bytes, state') = h2.data_to_send state in
            let (kept, unchanged) = h2.data_to_send p.state in
            if call.ended then (kept, record q { state = unchanged }) else elim reset [
              | ok t ↦ (bytes, record q { state = state' })
              | err e ↦ ([], record q { state = state; dead = true })
            ]
      ]

  unfoldable pub abort : Protocol → Protocol
  abort p = record p { call = none; dead = true }

  unfoldable pub close : Protocol → Bytes × Protocol
  close p =
      let (closed, state) = h2.close_connection p.state in
      let (bytes, state') = h2.data_to_send state in
      elim closed [
        | ok t ↦ (bytes, record p { state = state'; dead = true })
        | err e ↦ ([], record p { state = state; dead = true })
      ]
