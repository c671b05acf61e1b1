-- ===== src/Grpc/Protocol/Raises/Feeding.antt =====
-- What sending the body and feeding bytes to GrpcProtocol raise.
use grapec.Base.{
  ℕ, zero, suc, ◌≤◌, ◌<◌, subst, arith, true, List, [], ◌∷◌, ◌++◌, Option-cases, Bool-cases, inl,
  inr, length, length-drop, take, drop, ◌==◌,
}
use grapec.Errors.{unicode_error, Result, ok, err, ◌and_then◌, h2_error, FailsAs, Result-cases}
use grapec.Grpc.Call.{Call, is_nil}
use grapec.Grpc.Protocol.{
  H2, Protocol, Outcome, Event, push, data_to_send, terminate, update, handle_event, handle_events,
  received, feed_frame, feed_loop, feed, is_termination,
}
use grapec.Grpc.Protocol.Feed.{stops, round, shorter, loop_stops, loop_goes}
use grapec.Wire.{Bytes}
use grapec.Grpc.Protocol.Raises.{IsH2Error, RaisesH2, Tries, from_h2, then-Tries}

module _ (h2 : H2) (raises : RaisesH2 h2) where
  push-Tries :
      (fuel : ℕ) (call : Call) (s : h2.State)
      → length call.pending ≤ fuel
      → Tries (push h2 fuel call s).0
  unfolding push is_nil
  push-Tries zero call s h = ground arith
  push-Tries (suc fuel) call s h = elim (Bool-cases (is_nil call.pending)) [
    | inl empty ↦ rw (push, empty) tt
    | inr more ↦ elim (Result-cases (h2.window call.stream_id s)) [
      | inr (e, shut) ↦
          rw (push, more, shut) (subst Tries shut (from_h2 _ (raises.windows call.stream_id s)))
      | inl (size, open_) ↦ elim (Bool-cases (size == 0)) [
        | inl nothing ↦ rw (push, more, open_, nothing) tt
        | inr some_bytes ↦
            let rest = record call { pending = drop size call.pending } in
            let sent =
              h2.send_data call.stream_id (take size call.pending) (is_nil rest.pending) s in
            let shorter_rest : length rest.pending ≤ fuel =
              ground (arith, length-drop size call.pending) in
            rw (push, more, open_, some_bytes)
              (ground (
                arith,
                from_h2 sent.0
                    (raises.sends call.stream_id (take size call.pending) (is_nil rest.pending) s),
                push-Tries fuel rest sent.1 shorter_rest,
              ))
      ]
    ]
  ]

  pub data_to_send-Tries : (p : Protocol h2) → Tries (data_to_send h2 p).0
  unfolding data_to_send
  data_to_send-Tries p = elim (Option-cases p.call) [
    | inl idle ↦ rw (data_to_send, idle) tt
    | inr (call, active) ↦
        ground (arith, active, push-Tries (length call.pending) call p.state (omega arith))
  ]

  terminate-Tries : (p : Protocol h2) → Tries (terminate h2 p).0
  unfolding terminate
  terminate-Tries p = ground arith

  update-Tries : (event : Event) (call : Call) (p : Protocol h2) → Tries (update h2 event call p).0
  unfolding update
  update-Tries (Event.data_received stream size bytes) call p =
      ground (arith, from_h2 _ (raises.acknowledges size call.stream_id p.state))
  update-Tries (Event.response_received stream headers) call p = tt
  update-Tries (Event.trailers_received stream headers) call p = tt
  update-Tries (Event.stream_ended stream) call p = tt
  update-Tries (Event.reset_received stream code) call p = ground arith
  update-Tries (Event.connection_terminated code) call p = tt
  update-Tries Event.other_event call p = tt

  event-Tries : (event : Event) (p : Protocol h2) → Tries (handle_event h2 event p).0
  unfolding handle_event
  event-Tries event p = elim (Option-cases p.call) [
    | inl idle ↦ rw (handle_event, idle) tt
    | inr (call, active) ↦ ground (arith, active, update-Tries event call p)
  ]

  events-Tries : (events : List Event) (p : Protocol h2) → Tries (handle_events h2 events p).0
  unfolding handle_events
  events-Tries [] p = tt
  events-Tries (event ∷ events) p = elim (Bool-cases (is_termination event)) [
    | inl last ↦ rw last (terminate-Tries (record p { dead = true }))
    | inr more ↦ rw more (
        then-Tries (handle_event h2 event p) (handle_events h2 events) (event-Tries event p)
          (events-Tries events))
  ]

  received-Tries :
      (r : Result (List Event)) (p : Protocol h2) → FailsAs IsH2Error r → Tries (received h2 r p).0
  unfolding received
  received-Tries (ok events) p h = events-Tries events p
  received-Tries (err h2_error) p h = ground (arith, terminate-Tries (record p { dead = true }))
  received-Tries (err unicode_error) p h = tt
  received-Tries (err _) p h = elim h [ ]

  frame-Tries : (bytes : Bytes) (p : Protocol h2) → Tries (feed_frame h2 bytes p).0
  unfolding feed_frame
  frame-Tries bytes p =
      received-Tries (h2.receive_data bytes p.state).0
        (record p { state = (h2.receive_data bytes p.state).1 }) (raises.receives bytes p.state)

  loop-Tries : (fuel : ℕ) (p : Protocol h2) → length p.inbuf < fuel → Tries (feed_loop h2 fuel p).0
  loop-Tries zero p h = absurd (omega arith)
  loop-Tries (suc fuel) p h = elim (Bool-cases (stops h2 p)) [
    | inl halt ↦ rw (loop_stops h2 fuel p halt) tt
    | inr go ↦
        rw (loop_goes h2 fuel p go)
          (next (round h2 p) (shorter h2 p go) (frame-Tries _ _) (λ q less. loop-Tries fuel q less))
  ]
    where
      next :
          (o : Outcome h2 (Unit {0}))
          → length o.1.inbuf < length p.inbuf
          → Tries o.0
          → ((q : Protocol h2) → length q.inbuf < fuel → Tries (feed_loop h2 fuel q).0)
          → Tries (o and_then λ q. feed_loop h2 fuel q).0
      next (ok t, q) less tries more = more q (omega arith)
      next (err e, q) less tries more = tries

  pub feed-Tries : (bytes : Bytes) (p : Protocol h2) → Tries (feed h2 bytes p).0
  unfolding feed
  feed-Tries [] p = tt
  feed-Tries (b ∷ bs) p =
      loop-Tries (suc (length (p.inbuf ++ (b ∷ bs)))) (record p { inbuf = p.inbuf ++ (b ∷ bs) })
        (omega arith)
