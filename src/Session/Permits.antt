-- ===== src/Session/Permits.antt =====
-- The semaphore of `Session` in src/grapec/session.py, through `_acquire`, `_release` and `call`.
use grapec.Base.{
  ℕ, zero, suc, ◌+◌, ◌-◌, ◌≤◌, ◌<◌, ◌≡◌, refl, sym, ap, ◌∙◌, true, false, Option, none, some, List,
  [], ◌∷◌, ltb, length, arith, Bool-cases, inl, inr,
}
use grapec.Errors.{Result, ok, err, Error, ◌and_then◌}
use grapec.Base.Int.{ℤ}
use grapec.Pool.{Pool, init, take}
use grapec.Pool.Laws.{length-take}
use grapec.Session.{
  Transport, Session, Outcome, start, acquire_permit, release_permit, close_all, give_up,
  or_give_up, heard, hand_in, create, visit, acquire_loop, acquire, release, exchange, call,
}

module _ (transport : Transport) where
  open transport use {Conn, healthy, poll}

  -- The permits never exceed `max_conns`.
  abbrev pub IsValid : Session transport → Type 0
  IsValid s = elim s.max_conns [ none ↦ Unit {0} | some limit ↦ s.permits ≤ limit ]

  -- How a call to `acquire` that took its permit ends: with a connection the permit stays taken,
  -- with an exception it is back.
  abbrev Ends : Session transport → Outcome transport Conn → Type 0
  Ends s (ok conn, after) = (after.max_conns ≡ s.max_conns) × (after.permits ≡ s.permits)
  Ends s (err e, after) = (after.max_conns ≡ s.max_conns) × (after.permits ≡ s.permits + 1)

  -- The permits are as they were.
  abbrev Kept : Session transport → Session transport → Type 0
  Kept s t = (t.max_conns ≡ s.max_conns) × (t.permits ≡ s.permits)

  Kept-trans : (s t u : Session transport) → Kept s t → Kept t u → Kept s u
  Kept-trans s t u (em, ep) (fm, fp) = (fm ∙ em, fp ∙ ep)

  pub close_all-Kept :
      (conns : List Conn) (s : Session transport)
      → let after = (close_all transport conns s).1 in Kept s after × (after.pool ≡ s.pool)
  unfolding close_all
  close_all-Kept [] s = ((refl, refl), refl)
  close_all-Kept (conn ∷ conns) s =
      go (transport.close conn) (close_all-Kept conns (record s { closing = conn ∷ s.closing }))
    where
      go :
          (r : Result (Unit {0}))
          → let after = (close_all transport conns (record s { closing = conn ∷ s.closing })).1 in
            Kept s after × (after.pool ≡ s.pool)
            → let done : Outcome transport (Unit {0}) =
                (r, record s { closing = conn ∷ s.closing }) in
              let after = (done and_then close_all transport conns).1 in
              Kept s after × (after.pool ≡ s.pool)
      go (ok t) h = h
      go (err e) h = ((refl, refl), refl)

  module _ (limit : ℕ) where
    give_up-Ends :
        (e : Error) (s t : Session transport)
        → s.max_conns ≡ some limit
        → s.permits < limit
        → t.max_conns ≡ s.max_conns
        → t.permits ≡ s.permits
        → Ends s (give_up transport e t)
    unfolding give_up release_permit
    give_up-Ends e s t hm hp em ep = ground arith

    create-Ends :
        (made : Result Conn) (s t : Session transport)
        → s.max_conns ≡ some limit
        → s.permits < limit
        → t.max_conns ≡ s.max_conns
        → t.permits ≡ s.permits
        → Ends s (create transport made t)
    unfolding create
    create-Ends (ok conn) s t hm hp em ep = (em, ep)
    create-Ends (err e) s t hm hp em ep = give_up-Ends e s t hm hp em ep

    or_give_up-Ends :
        (o : Outcome transport (Unit {0})) (next : Session transport → Outcome transport Conn)
        (s : Session transport)
        → s.max_conns ≡ some limit
        → s.permits < limit
        → Kept s o.1
        → ((t : Session transport) → Kept s t → t.pool ≡ o.1.pool → Ends s (next t))
        → Ends s (or_give_up transport o next)
    unfolding or_give_up
    or_give_up-Ends (ok t, u) next s hm hp kept ih = ih u kept refl
    or_give_up-Ends (err e, u) next s hm hp (em, ep) ih = give_up-Ends e s u hm hp em ep

    heard-Ends :
        (again : Session transport → Outcome transport Conn) (conn : Conn) (s t : Session transport)
        → s.max_conns ≡ some limit
        → s.permits < limit
        → Kept s t
        → ((u : Session transport) → Kept s u → u.pool ≡ t.pool → Ends s (again u))
        → Ends s (heard transport again conn t)
    unfolding heard
    heard-Ends again conn s t hm hp kept ih = elim (Bool-cases (healthy conn)) [
      | inl well ↦ rw well kept
      | inr ill ↦
          let (same, pool) = close_all-Kept (conn ∷ []) t in
          rw ill (
            or_give_up-Ends (close_all transport (conn ∷ []) t) again s hm hp
              (Kept-trans s t (close_all transport (conn ∷ []) t).1 kept same)
              λ u more e. ih u more (e ∙ pool))
    ]

    visit-Ends :
        (made : Result Conn) (again : Session transport → Outcome transport Conn)
        (s : Session transport) (now : ℕ)
        → s.max_conns ≡ some limit
        → s.permits < limit
        → ((t : Session transport)
            → t.max_conns ≡ some limit
            → t.permits ≡ s.permits
            → length t.pool.idle < length s.pool.idle
            → Ends s (again t))
        → Ends s (visit transport made again s (take s.pool now))
    unfolding visit
    visit-Ends made again s now hm hp ih = go (take s.pool now) refl
      where
        go :
            (r : Result (Option Conn × List Conn × Pool Conn))
            → take s.pool now ≡ r
            → Ends s (visit transport made again s r)
        go (err e) eq = give_up-Ends e s s hm hp refl refl
        go (ok (none, stale, pool)) eq =
            let (same, p) = close_all-Kept stale (record s { pool = pool }) in
            or_give_up-Ends (close_all transport stale (record s { pool = pool }))
              (create transport made) s hm hp same
              λ t kept e. create-Ends made s t hm hp kept.0 kept.1
        go (ok (some conn, stale, pool)) eq =
            let (same, p) = close_all-Kept stale (record s { pool = pool }) in
            or_give_up-Ends (close_all transport stale (record s { pool = pool })) _ s hm hp same
              λ t kept e.
                or_give_up-Ends ((poll conn).0, t) (heard transport again (poll conn).1) s hm hp
                  kept
                  λ u more e'. heard-Ends again (poll conn).1 s u hm hp more λ v last e''.
                    ih v (last.0 ∙ hm) last.1 (
                      rw (ap (λ q. length q.idle) (e'' ∙ e' ∙ e ∙ p))
                        (length-take s.pool pool now conn stale eq))

    -- The fuel that `acquire` gives is enough: the loop never ends for want of it.
    acquire_loop-Ends :
        (fuel : ℕ) (clock : ℕ → ℕ) (made : Result Conn) (s : Session transport)
        → s.max_conns ≡ some limit
        → s.permits < limit
        → length s.pool.idle < fuel
        → Ends s (acquire_loop transport fuel clock made s)
    unfolding acquire_loop
    acquire_loop-Ends zero clock made s hm hp hf = elim hf [ ]
    acquire_loop-Ends (suc fuel) clock made s hm hp hf =
        visit-Ends made (acquire_loop transport fuel (λ k. clock (suc k)) made) s (clock 0) hm hp
          λ t em ep el.
            along t ep (acquire_loop transport fuel (λ k. clock (suc k)) made t) (em ∙ sym hm)
              (acquire_loop-Ends fuel (λ k. clock (suc k)) made t em (omega arith) (omega arith))
      where
        along :
            (t : Session transport)
            → t.permits ≡ s.permits
            → (out : Outcome transport Conn) → t.max_conns ≡ s.max_conns
            → Ends t out
            → Ends s out
        along t ep (ok conn, after) em (a, b) = (a ∙ em, b ∙ ep)
        along t ep (err e, after) em (a, b) = (a ∙ em, b ∙ ap (λ n. n + 1) ep)

  pub permit_taken :
      (s : Session transport) (limit : ℕ)
      → s.max_conns ≡ some limit
      → ltb 0 s.permits ≡ true
      → acquire_permit transport s ≡ some (record s { permits = s.permits - 1 })
  unfolding acquire_permit
  permit_taken s limit hm h = ground arith

  pub permit_refused :
      (s : Session transport) (limit : ℕ)
      → s.max_conns ≡ some limit
      → ltb 0 s.permits ≡ false
      → acquire_permit transport s ≡ none
  unfolding acquire_permit
  permit_refused s limit hm h = ground arith

  -- What `acquire` does to the permits of a session with `max_conns`: a connection costs one, every
  -- exception none.
  abbrev pub Acquires : Session transport → Outcome transport Conn → Type 0
  Acquires s (ok conn, after) = (after.max_conns ≡ s.max_conns) × (after.permits + 1 ≡ s.permits)
  Acquires s (err e, after) = (after.max_conns ≡ s.max_conns) × (after.permits ≡ s.permits)

  -- `acquire` on a session with max_conns and at most that many free permits takes one permit when
  -- it returns a connection and none when it raises, be it that a poll or a closing raises, and
  -- its loop ends.
  pub acquire-Acquires :
      (clock : ℕ → ℕ) (made : Result Conn) (s : Session transport) (limit : ℕ)
      → s.max_conns ≡ some limit
      → s.permits ≤ limit
      → Acquires s (acquire transport clock made s)
  unfolding acquire
  acquire-Acquires clock made s limit hm hp = elim (Bool-cases (ltb 0 s.permits)) [
    | inl some_left ↦
        rw (permit_taken s limit hm some_left, acquire)
          (paid (record s { permits = s.permits - 1 })
            (acquire_loop transport (suc (length s.pool.idle)) clock made
              (record s { permits = s.permits - 1 }))
            refl (ground arith)
            (acquire_loop-Ends limit (suc (length s.pool.idle)) clock made
              (record s { permits = s.permits - 1 }) hm (ground arith) (omega arith)))
    | inr none_left ↦ rw (permit_refused s limit hm none_left, acquire) (refl, refl)
  ]
    where
      paid :
          (t : Session transport) (out : Outcome transport Conn)
          → t.max_conns ≡ s.max_conns
          → t.permits + 1 ≡ s.permits
          → Ends t out
          → Acquires s out
      paid t (ok conn, after) em ep (a, b) = (a ∙ em, omega arith)
      paid t (err e, after) em ep (a, b) = (a ∙ em, omega arith)

  release_permit_lem :
      (s : Session transport) (limit : ℕ)
      → s.max_conns ≡ some limit
      → s.permits < limit
      → release_permit transport s ≡ (ok tt, record s { permits = s.permits + 1 })
  unfolding release_permit
  release_permit_lem s limit hm hp = ground arith

  hand_in-Kept :
      (now : ℕ) (conn : Conn) (s : Session transport) → Kept s (hand_in transport now conn s).1
  unfolding hand_in
  hand_in-Kept now conn s = let (kept, pool) = close_all-Kept (conn ∷ []) s in ground (arith, kept)

  -- `release` gives the permit back, whether or not closing the connection raises, and finds room
  -- for it while one is taken.
  pub release_lem :
      (now : ℕ) (conn : Conn) (s : Session transport) (limit : ℕ)
      → s.max_conns ≡ some limit
      → s.permits < limit
      → let (r, after) = release transport now conn s in
        (r ≡ (hand_in transport now conn s).0)
        × (after.max_conns ≡ s.max_conns)
        × (after.permits ≡ s.permits + 1)
  unfolding release
  release_lem now conn s limit hm hp =
      let t = (hand_in transport now conn s).1 in
      let (em, ep) : Kept s t = hand_in-Kept now conn s in
      rw (release_permit_lem t limit (em ∙ hm) (omega arith)) (refl, em, ap (λ n. n + 1) ep)

  exchange-permits :
      {A : Type 0} (unary : Conn → Result A × Conn) (now : ℕ) (s : Session transport) (limit : ℕ)
      (out : Outcome transport Conn)
      → s.max_conns ≡ some limit
      → s.permits ≤ limit
      → Acquires s out
      → let after = (exchange transport unary now out).1 in
        (after.max_conns ≡ s.max_conns) × (after.permits ≡ s.permits)
  unfolding exchange
  exchange-permits unary now s limit (err e, t) hm hp h = h
  exchange-permits unary now s limit (ok conn, t) hm hp (em, ep) =
      let (r, m, p) = release_lem now (unary conn).1 t limit (em ∙ hm) (omega arith) in
      (m ∙ em, p ∙ ep)

  -- A call leaves the number of free permits of a session with max_conns as it was, whichever of
  -- its parts raises, if there were at most max_conns: its preparation, the factory, a poll or a
  -- closing, the call on the connection or the decoding.
  pub call-permits :
      {P A B : Type 0} (prepared : Result P) (unary : P → Conn → Result A × Conn)
      (decode : A → Result B) (clock : ℕ → ℕ) (made : Result Conn) (now : ℕ) (s : Session transport)
      (limit : ℕ)
      → s.max_conns ≡ some limit
      → s.permits ≤ limit
      → let after = (call transport prepared unary decode clock made now s).1 in
        (after.max_conns ≡ s.max_conns) × (after.permits ≡ s.permits)
  unfolding call
  call-permits (err e) unary decode clock made now s limit hm hp = (refl, refl)
  call-permits (ok prepared) unary decode clock made now s limit hm hp =
      exchange-permits (unary prepared) now s limit (acquire transport clock made s) hm hp
        (acquire-Acquires clock made s limit hm hp)

  -- What a session that was made starts with: no connection, and as many permits as `max_conns`,
  -- which is 1 at least.
  pub start_lem :
      (max_idle limit : ℕ) (max_idle_time : Option ℕ) (pool_timeout : Option ℤ)
      (s : Session transport)
      → start transport max_idle max_idle_time (some limit) pool_timeout ≡ ok s
      → (0 < limit)
        × IsValid s
        × (s.max_conns ≡ some limit)
        × (s.permits ≡ limit)
        × (s.pool.idle ≡ [])
        × (s.pool.closed ≡ false)
  unfolding start init
  start_lem max_idle limit max_idle_time pool_timeout s e = ground arith
