-- ===== src/Grpc/Protocol/Feed.antt =====
-- GrpcProtocol.feed does not depend on how the bytes of the network are cut.
use grapec.Base.{
  ℕ, zero, suc, ◌≤◌, ◌<◌, ◌≡◌, refl, sym, ap, subst, ◌∙◌, arith, Bool, true, false, ◌||◌, List, [],
  ◌∷◌, ◌++◌, append_assoc, Option-cases, ltb, length, take, drop, length-append, length-drop,
  Bool-cases, inl, inr,
}
use grapec.Errors.{Result, ok, err, ◌and_then◌, h2_error}
use grapec.Grpc.Call.{Call}
use grapec.Grpc.Protocol.{
  Event, H2, Protocol, Outcome, frame_header, update, handle_event, handle_events, received,
  terminate, done, feed_frame, frame_length, feed_loop, feed, is_termination,
}
use grapec.Wire.{Bytes}

take-append_le : (n : ℕ) (xs ys : Bytes) → n ≤ length xs → take n (xs ++ ys) ≡ take n xs
take-append_le zero xs ys h = refl
take-append_le (suc n) [] ys h = absurd (omega arith)
take-append_le (suc n) (x ∷ xs) ys h = ap (λ t. x ∷ t) (take-append_le n xs ys (omega arith))

drop-append_le : (n : ℕ) (xs ys : Bytes) → n ≤ length xs → drop n (xs ++ ys) ≡ drop n xs ++ ys
drop-append_le zero xs ys h = refl
drop-append_le (suc n) [] ys h = absurd (omega arith)
drop-append_le (suc n) (x ∷ xs) ys h = drop-append_le n xs ys (omega arith)

module _ (h2 : H2) where
  -- The same outcome with another buffer.
  abbrev with_inbuf : Bytes → Outcome h2 (Unit {0}) → Outcome h2 (Unit {0})
  with_inbuf z (r, p) = (r, record p { inbuf = z })

  abbrev Keeps : (Protocol h2 → Outcome h2 (Unit {0})) → Type 0
  Keeps f = (p : Protocol h2) (z : Bytes) → f (record p { inbuf = z }) ≡ with_inbuf z (f p)

  terminate-Keeps : Keeps (terminate h2)
  unfolding terminate done
  terminate-Keeps p z = ground arith

  update-Keeps : (event : Event) (call : Call) → Keeps (update h2 event call)
  unfolding update
  update-Keeps (Event.data_received stream size bytes) call p z = ground arith
  update-Keeps (Event.response_received stream headers) call p z = refl
  update-Keeps (Event.trailers_received stream headers) call p z = refl
  update-Keeps (Event.stream_ended stream) call p z = refl
  update-Keeps (Event.reset_received stream code) call p z = ground arith
  update-Keeps (Event.connection_terminated code) call p z = refl
  update-Keeps Event.other_event call p z = refl

  handle_event-Keeps : (event : Event) → Keeps (handle_event h2 event)
  unfolding handle_event
  handle_event-Keeps event p z = elim (Option-cases p.call) [
    | inl idle ↦ rw (idle, handle_event) refl
    | inr (call, active) ↦ ground (arith, active, update-Keeps event call p z)
  ]

  then-Keeps :
      (o : Outcome h2 (Unit {0})) (next : Protocol h2 → Outcome h2 (Unit {0})) (z : Bytes)
      → Keeps next
      → (with_inbuf z o and_then next) ≡ with_inbuf z (o and_then next)
  then-Keeps (ok t, q) next z h = h q z
  then-Keeps (err e, q) next z h = refl

  handle_events-Keeps : (events : List Event) → Keeps (handle_events h2 events)
  unfolding handle_events
  handle_events-Keeps [] p z = refl
  handle_events-Keeps (event ∷ events) p z = elim (Bool-cases (is_termination event)) [
    | inl last ↦ rw last (terminate-Keeps (record p { dead = true }) z)
    | inr more ↦ rw more (
        ap (λ o. o and_then λ q. handle_events h2 events q) (handle_event-Keeps event p z)
        ∙ then-Keeps (handle_event h2 event p) (handle_events h2 events) z
            (handle_events-Keeps events))
  ]

  received-Keeps : (r : Result (List Event)) → Keeps (received h2 r)
  unfolding received
  received-Keeps (ok events) p z = handle_events-Keeps events p z
  received-Keeps (err h2_error) p z = ground (arith, terminate-Keeps (record p { dead = true }) z)
  received-Keeps (err _) p z = refl

  feed_frame-Keeps : (bytes : Bytes) → Keeps (feed_frame h2 bytes)
  unfolding feed_frame
  feed_frame-Keeps bytes p z =
      received-Keeps (h2.receive_data bytes p.state).0
        (record p { state = (h2.receive_data bytes p.state).1 }) z

  -- Whether the loop stops at a state.
  abbrev pub stops : Protocol h2 → Bool
  stops p =
      ltb (length p.inbuf) frame_header || p.dead || ltb (length p.inbuf) (frame_length p.inbuf)

  -- The state in which the first frame is handled, and what handling it does.
  abbrev pub round : Protocol h2 → Outcome h2 (Unit {0})
  round p =
      feed_frame h2 (take (frame_length p.inbuf) p.inbuf)
        (record p { inbuf = drop (frame_length p.inbuf) p.inbuf })

  round_inbuf : (p : Protocol h2) → (round p).1.inbuf ≡ drop (frame_length p.inbuf) p.inbuf
  round_inbuf p =
      ap (λ (o : Outcome h2 (Unit {0})). o.1.inbuf)
        (feed_frame-Keeps (take (frame_length p.inbuf) p.inbuf) p
          (drop (frame_length p.inbuf) p.inbuf))

  pub shorter : (p : Protocol h2) → stops p ≡ false → length (round p).1.inbuf < length p.inbuf
  unfolding frame_length
  shorter p go = rw (round_inbuf p) (ground (arith, length-drop (frame_length p.inbuf) p.inbuf))

  pub loop_stops :
      (fuel : ℕ) (p : Protocol h2) → stops p ≡ true → feed_loop h2 (suc fuel) p ≡ (ok tt, p)
  unfolding feed_loop
  loop_stops fuel p h = rw (feed_loop, h) refl

  pub loop_goes :
      (fuel : ℕ) (p : Protocol h2)
      → stops p ≡ false
      → feed_loop h2 (suc fuel) p ≡ (round p and_then λ q. feed_loop h2 fuel q)
  unfolding feed_loop
  loop_goes fuel p h = rw (feed_loop, h) refl

  next_round :
      (next next' : Protocol h2 → Outcome h2 (Unit {0})) (p : Protocol h2)
      (o : Outcome h2 (Unit {0}))
      → length o.1.inbuf < length p.inbuf
      → ((q : Protocol h2) → length q.inbuf < length p.inbuf → next q ≡ next' q)
      → (o and_then next) ≡ (o and_then next')
  next_round next next' p (ok t, q) less h = h q less
  next_round next next' p (err e, q) less h = refl

  -- More fuel than bytes makes no difference.
  fuel_enough :
      (k n : ℕ) (p : Protocol h2)
      → length p.inbuf < k
      → length p.inbuf < n
      → feed_loop h2 k p ≡ feed_loop h2 n p
  fuel_enough zero n p hk hn = absurd (omega arith)
  fuel_enough (suc k) zero p hk hn = absurd (omega arith)
  fuel_enough (suc k) (suc n) p hk hn = elim (Bool-cases (stops p)) [
    | inl halt ↦ loop_stops k p halt ∙ sym (loop_stops n p halt)
    | inr go ↦
        loop_goes k p go
        ∙ next_round (feed_loop h2 k) (feed_loop h2 n) p (round p) (shorter p go)
            (λ q less. fuel_enough k n q (omega arith) (omega arith))
        ∙ sym (loop_goes n p go)
  ]

  -- More bytes behind a whole frame change neither the frame nor what handling it does.
  stops-append :
      (p : Protocol h2) (b : Bytes)
      → stops p ≡ false
      → stops (record p { inbuf = p.inbuf ++ b }) ≡ false
  unfolding frame_length
  stops-append p b go =
      rw (take-append_le 3 p.inbuf b (ground arith)) (ground (arith, length-append p.inbuf b))

  enough : (p : Protocol h2) → stops p ≡ false → frame_length p.inbuf ≤ length p.inbuf
  enough p go = ground arith

  same_length :
      (p : Protocol h2) (b : Bytes)
      → stops p ≡ false
      → frame_length (p.inbuf ++ b) ≡ frame_length p.inbuf
  unfolding frame_length
  same_length p b go = rw (take-append_le 3 p.inbuf b (ground arith)) refl

  round-append :
      (p : Protocol h2) (b : Bytes)
      → stops p ≡ false
      → round (record p { inbuf = p.inbuf ++ b }) ≡ with_inbuf ((round p).1.inbuf ++ b) (round p)
  round-append p b go =
      let size = frame_length p.inbuf in
      let first = take size p.inbuf in
      let rest = drop size p.inbuf in
      rw
        (
          same_length p b go,
          take-append_le size p.inbuf b (enough p go),
          drop-append_le size p.inbuf b (enough p go),
          round_inbuf p,
        )
        (feed_frame-Keeps first (record p { inbuf = rest }) (rest ++ b))

  loop-append :
      (k : ℕ) (p q : Protocol h2) (b : Bytes)
      → length p.inbuf < k
      → feed_loop h2 k p ≡ (ok tt, q)
      → (m n : ℕ) → length (p.inbuf ++ b) < m
      → length (q.inbuf ++ b) < n
      → feed_loop h2 m (record p { inbuf = p.inbuf ++ b })
        ≡ feed_loop h2 n (record q { inbuf = q.inbuf ++ b })
  loop-append zero p q b hk e m n hm hn = absurd (omega arith)
  loop-append (suc k) p q b hk e zero n hm hn = absurd (omega arith)
  loop-append (suc k) p q b hk e (suc m) n hm hn = elim (Bool-cases (stops p)) [
    | inl halt ↦
        let same : p ≡ q =
          ap (λ (o : Outcome h2 (Unit {0})). o.1) (sym (loop_stops k p halt) ∙ e) in
        let shut : length (p.inbuf ++ b) < n = rw same hn in
        fuel_enough (suc m) n (record p { inbuf = p.inbuf ++ b }) hm shut
        ∙ ap (λ (r : Protocol h2). feed_loop h2 n (record r { inbuf = r.inbuf ++ b })) same
    | inr go ↦
        loop_goes m (record p { inbuf = p.inbuf ++ b }) (stops-append p b go)
        ∙ ap (λ o. o and_then feed_loop h2 m) (round-append p b go)
        ∙ go_on (round p) (shorter p go) (sym (loop_goes k p go) ∙ e)
            (λ r less f fits. loop-append k r q b less f m n fits hn)
  ]
    where
      go_on :
          (o : Outcome h2 (Unit {0}))
          → length o.1.inbuf < length p.inbuf
          → (o and_then feed_loop h2 k) ≡ (ok tt, q)
          → ((r : Protocol h2)
              → length r.inbuf < k
              → feed_loop h2 k r ≡ (ok tt, q)
              → length (r.inbuf ++ b) < m
              → feed_loop h2 m (record r { inbuf = r.inbuf ++ b })
                ≡ feed_loop h2 n (record q { inbuf = q.inbuf ++ b }))
          → (with_inbuf (o.1.inbuf ++ b) o and_then feed_loop h2 m)
            ≡ feed_loop h2 n (record q { inbuf = q.inbuf ++ b })
      go_on (ok t, r) less f next =
          next r (omega arith) f (omega (arith, length-append r.inbuf b, length-append p.inbuf b))
      go_on (err fault, r) less f next = cc

  -- Bytes fed in two pieces that are not empty, the first of which raises nothing, leave the
  -- outcome and the state that they leave when they are fed as one, whatever h2 does.
  pub feed-append :
      (a b : Bytes) (p q : Protocol h2)
      → 0 < length a
      → 0 < length b
      → feed h2 a p ≡ (ok tt, q)
      → feed h2 (a ++ b) p ≡ feed h2 b q
  unfolding feed
  feed-append [] b p q ha hb e = absurd (omega arith)
  feed-append a [] p q ha hb e = absurd (omega arith)
  feed-append (x ∷ xs) (y ∷ ys) p q ha hb e =
      subst
        (λ buf.
          feed_loop h2 (suc (length buf)) (record p { inbuf = buf })
          ≡ feed_loop h2 (suc (length (q.inbuf ++ (y ∷ ys))))
              (record q { inbuf = q.inbuf ++ (y ∷ ys) }))
        (append_assoc p.inbuf (x ∷ xs) (y ∷ ys))
        (loop-append (suc (length (p.inbuf ++ (x ∷ xs)))) (record p { inbuf = p.inbuf ++ (x ∷ xs) })
          q (y ∷ ys) (omega arith) e (suc (length (p.inbuf ++ (x ∷ xs) ++ (y ∷ ys))))
          (suc (length (q.inbuf ++ (y ∷ ys)))) (omega arith) (omega arith))
