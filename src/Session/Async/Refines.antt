-- ===== src/Session/Async/Refines.antt =====
-- AsyncSession is Session with a semaphore that is made late.
use grapec.Base.{
  ℕ, zero, suc, ◌-◌, ◌≤◌, ◌<◌, ◌≡◌, refl, sym, ap, subst, ◌∙◌, arith, Bool, true, false, Option,
  none, some, List, [], ◌∷◌, ◌++◌, reverse, append_assoc, ltb, length, if◌then◌else◌, Bool-cases,
  inl, inr,
}
use grapec.Errors.{Result, ok, err, ◌>>=◌, Error}
use grapec.Pool.{Pool, take, give_back}
use grapec.Session
use grapec.Session.{Transport, Session}
use mathlib.Core.List.{reverse-cons}
use grapec.Session.Permits.{permit_taken, permit_refused}
use grapec.Session.Async
use grapec.Session.Async.Permits.{
  acquire_taken, acquire_refused, acquire_unbounded, acquire-Acquires, acquire_loop-Ends, Acquires,
  Ends,
}
use grapec.Session.Async.{AsyncTransport, AsyncSession, free_permits}

-- A transport whose awaits raise nothing.
abbrev pub IsCalm : AsyncTransport → Type 0
IsCalm transport =
    ((c : transport.Conn) → (transport.poll c).0 ≡ ok tt)
    × ((c : transport.Conn) → transport.aclose c ≡ ok tt)

-- The same connections for a Session.
abbrev pub blocking : AsyncTransport → Transport
blocking transport = record {
  Conn = transport.Conn;
  healthy = transport.healthy;
  poll = transport.poll;
  close = transport.aclose;
}

-- A semaphore that has room for the permit which a call holds.
abbrev pub HasRoom : Option ℕ → Option ℕ → Type 0
HasRoom none semaphore = Unit {0}
HasRoom (some limit) none = ⊥
HasRoom (some limit) (some n) = n < limit

module _ (transport : AsyncTransport) (calm : IsCalm transport) where
  abbrev sync : Transport
  sync = blocking transport

  -- The Session that an AsyncSession stands for: a semaphore that is not made yet has all permits.
  abbrev pub view : AsyncSession transport → Session sync
  view s = record {
    pool = s.pool;
    max_conns = s.max_conns;
    permits = elim s.max_conns [ none ↦ 0 | some limit ↦ free_permits limit s.semaphore ];
    closing = s.closing;
  }

  abbrev pub view_outcome : {A : Type 0} → Async.Outcome transport A → Session.Outcome sync A
  view_outcome (r, s) = (r, view s)

  give_up-view :
      (e : Error) (pool : Pool transport.Conn) (max_conns semaphore : Option ℕ)
      (closing : List transport.Conn)
      → HasRoom max_conns semaphore
      → let s : AsyncSession transport = record {
        pool = pool;
        max_conns = max_conns;
        semaphore = semaphore;
        closing = closing;
      } in
        view_outcome (Async.give_up transport e s) ≡ Session.give_up sync e (view s)
  unfolding Async.give_up Async.release_permit Session.give_up Session.release_permit free_permits
  give_up-view e pool none none closing h = refl
  give_up-view e pool none (some n) closing h = refl
  give_up-view e pool (some limit) none closing h = elim h [ ]
  give_up-view e pool (some limit) (some n) closing h = ground arith

  create-view :
      (made : Result transport.Conn) (s : AsyncSession transport)
      → HasRoom s.max_conns s.semaphore
      → view_outcome (Async.create transport made s) ≡ Session.create sync made (view s)
  unfolding Async.create Session.create
  create-view (ok conn) s h = refl
  create-view (err e) s h = give_up-view e s.pool s.max_conns s.semaphore s.closing h

  -- With no closing that raises, all connections are closed.
  close_all-calm :
      (conns : List transport.Conn) (s : AsyncSession transport)
      → Session.close_all sync conns (view s) ≡ (ok tt, view (Async.close_all transport conns s))
  unfolding Session.close_all Async.close_all
  close_all-calm [] s = refl
  close_all-calm (conn ∷ conns) s = rw (calm.1 conn) (
      close_all-calm conns (record s { closing = conn ∷ s.closing })
      ∙ ap (λ (closing : List transport.Conn). (ok tt, view (record s { closing = closing })))
          (sym (append_assoc (reverse conns) (conn ∷ []) s.closing)
            ∙ ap (λ (front : List transport.Conn). front ++ s.closing)
                (sym (reverse-cons conn conns))))

  or_give_up-calm :
      (conns : List transport.Conn) (s : AsyncSession transport)
      (next : Session sync → Session.Outcome sync transport.Conn)
      → Session.or_give_up sync (Session.close_all sync conns (view s)) next
        ≡ next (view (Async.close_all transport conns s))
  unfolding Session.or_give_up
  or_give_up-calm conns s next = rw (close_all-calm conns s) refl

  heard_well :
      (again : AsyncSession transport → Async.Outcome transport transport.Conn)
      (conn : transport.Conn) (s : AsyncSession transport)
      → transport.healthy conn ≡ true
      → Async.heard transport again conn s (ok tt) ≡ (ok conn, s)
  unfolding Async.heard
  heard_well again conn s well = rw well refl

  heard_ill :
      (again : AsyncSession transport → Async.Outcome transport transport.Conn)
      (conn : transport.Conn) (s : AsyncSession transport)
      → transport.healthy conn ≡ false
      → Async.heard transport again conn s (ok tt) ≡ again (Async.close_all transport (conn ∷ []) s)
  unfolding Async.heard
  heard_ill again conn s ill = rw ill refl

  heard-view :
      (again : AsyncSession transport → Async.Outcome transport transport.Conn)
      (again' : Session sync → Session.Outcome sync transport.Conn)
      → ((t : AsyncSession transport)
          → HasRoom t.max_conns t.semaphore
          → view_outcome (again t) ≡ again' (view t))
      → (conn : transport.Conn) (s : AsyncSession transport) → HasRoom s.max_conns s.semaphore
      → view_outcome (Async.heard transport again conn s (ok tt))
        ≡ Session.heard sync again' conn (view s)
  unfolding Session.heard Async.close_all
  heard-view again again' same conn s h = elim (Bool-cases (transport.healthy conn)) [
    | inl well ↦ ap view_outcome (heard_well again conn s well) ∙ (rw well refl)
    | inr ill ↦
        ap view_outcome (heard_ill again conn s ill)
        ∙ same (Async.close_all transport (conn ∷ []) s) h
        ∙ (rw ill (sym (or_give_up-calm (conn ∷ []) s again')))
  ]

  visit-view :
      (made : Result transport.Conn)
      (again : AsyncSession transport → Async.Outcome transport transport.Conn)
      (again' : Session sync → Session.Outcome sync transport.Conn)
      → ((t : AsyncSession transport)
          → HasRoom t.max_conns t.semaphore
          → view_outcome (again t) ≡ again' (view t))
      → (s : AsyncSession transport)
        (r : Result (Option transport.Conn × List transport.Conn × Pool transport.Conn))
      → HasRoom s.max_conns s.semaphore
      → view_outcome (Async.visit transport made again s r)
        ≡ Session.visit sync made again' (view s) r
  unfolding Async.visit Session.visit Async.close_all Session.or_give_up
  visit-view made again again' same s (err e) h =
      give_up-view e s.pool s.max_conns s.semaphore s.closing h
  visit-view made again again' same s (ok (none, stale, pool)) h =
      create-view made _ h
      ∙ sym (or_give_up-calm stale (record s { pool = pool }) (Session.create sync made))
  visit-view made again again' same s (ok (some conn, stale, pool)) h =
      ap (λ r. view_outcome (Async.heard transport again polled opened r)) (calm.0 conn)
      ∙ heard-view again again' same polled opened h
      ∙ ap (λ r. Session.or_give_up sync (r, view opened) (Session.heard sync again' polled))
          (sym (calm.0 conn))
      ∙ sym (or_give_up-calm stale (record s { pool = pool }) _)
    where
      polled : transport.Conn
      polled = (transport.poll conn).1

      opened : AsyncSession transport
      opened = Async.close_all transport stale (record s { pool = pool })

  acquire_loop-view :
      (fuel : ℕ) (clock : ℕ → ℕ) (made : Result transport.Conn) (s : AsyncSession transport)
      → HasRoom s.max_conns s.semaphore
      → view_outcome (Async.acquire_loop transport fuel clock made s)
        ≡ Session.acquire_loop sync fuel clock made (view s)
  unfolding Async.acquire_loop Session.acquire_loop
  acquire_loop-view zero clock made s h = refl
  acquire_loop-view (suc fuel) clock made s h =
      visit-view made (Async.acquire_loop transport fuel (λ k. clock (suc k)) made)
        (Session.acquire_loop sync fuel (λ k. clock (suc k)) made)
        (acquire_loop-view fuel (λ k. clock (suc k)) made) s (take s.pool (clock 0)) h

  -- The permits that an AsyncSession has left are `max_conns` at most.
  abbrev pub IsWithin : Option ℕ → Option ℕ → Type 0
  IsWithin none semaphore = Unit {0}
  IsWithin (some limit) semaphore = free_permits limit semaphore ≤ limit

  acquire-view :
      (clock : ℕ → ℕ) (made : Result transport.Conn) (pool : Pool transport.Conn)
      (max_conns semaphore : Option ℕ) (closing : List transport.Conn)
      → IsWithin max_conns semaphore
      → let s : AsyncSession transport = record {
        pool = pool;
        max_conns = max_conns;
        semaphore = semaphore;
        closing = closing;
      } in
        view_outcome (Async.acquire transport false clock made s)
        ≡ Session.acquire sync clock made (view s)
  unfolding Async.acquire Async.acquire_permit Session.acquire Session.acquire_permit free_permits
  acquire-view clock made pool none semaphore closing h =
      acquire_loop-view (suc (length pool.idle)) clock made _ tt
  acquire-view clock made pool (some limit) semaphore closing h =
      elim (Bool-cases (ltb 0 (free_permits limit semaphore))) [
        | inl some_left ↦
            let room : free_permits limit semaphore - 1 < limit = ground arith in
            ap view_outcome (acquire_taken transport false clock made s limit refl some_left)
            ∙ acquire_loop-view (suc (length pool.idle)) clock made
                (record s { semaphore = some (free_permits limit semaphore - 1) }) room
            ∙ (rw (permit_taken sync (view s) limit refl some_left, Session.acquire) refl)
        | inr none_left ↦
            ap view_outcome (acquire_refused transport false clock made s limit refl none_left)
            ∙ (rw (permit_refused sync (view s) limit refl none_left, Session.acquire) refl)
      ]
    where
      s : AsyncSession transport
      s = record { pool = pool; max_conns = some limit; semaphore = semaphore; closing = closing }

  release_permit-view :
      (s : AsyncSession transport)
      → HasRoom s.max_conns s.semaphore
      → (r : Result (Unit {0})) → r ≡ ok tt
      → view_outcome (r, Async.release_permit transport s) ≡ Session.release_permit sync (view s)
  unfolding Async.release_permit Session.release_permit free_permits
  release_permit-view s h r answered = rw answered (go s.max_conns s.semaphore h)
    where
      go :
          (max_conns semaphore : Option ℕ)
          → HasRoom max_conns semaphore
          → let t = record s { max_conns = max_conns; semaphore = semaphore } in
            view_outcome (ok tt, Async.release_permit transport t)
            ≡ Session.release_permit sync (view t)
      go none none h = refl
      go none (some n) h = refl
      go (some limit) none h = elim h [ ]
      go (some limit) (some n) h = ground arith

  settled : (o : Session.Outcome sync (Unit {0})) → (o.0 >>= (λ (t : Unit {0}). ok tt), o.1) ≡ o
  settled (ok t, s) = refl
  settled (err e, s) = refl

  release-view :
      (now : ℕ) (conn : transport.Conn) (s : AsyncSession transport)
      → HasRoom s.max_conns s.semaphore
      → view_outcome (Async.release transport now conn s) ≡ Session.release sync now conn (view s)
  unfolding Async.release Session.release Session.hand_in Async.close_all
  release-view now conn s h = go (transport.healthy conn) (give_back s.pool conn now)
    where
      handed_in : Session.Outcome sync (Unit {0}) → Session.Outcome sync (Unit {0})
      handed_in (raised, t) =
          let (r, after) = Session.release_permit sync t in (r >>= (λ _. raised), after)

      closes :
          view_outcome (
            transport.aclose conn,
            Async.release_permit transport (Async.close_all transport (conn ∷ []) s),
          )
          ≡ handed_in (Session.close_all sync (conn ∷ []) (view s))
      closes =
          release_permit-view (Async.close_all transport (conn ∷ []) s) h (transport.aclose conn)
            (calm.1 conn)
          ∙ sym (settled _)
          ∙ ap handed_in (sym (close_all-calm (conn ∷ []) s))

      go :
          (well : Bool) (given : Bool × Pool transport.Conn)
          → let closed : Async.Outcome transport (Unit {0}) = (
            transport.aclose conn,
            Async.release_permit transport (Async.close_all transport (conn ∷ []) s),
          ) in
            view_outcome (
              if well
              then if given.0
                then (ok tt, Async.release_permit transport (record s { pool = given.1 }))
                else closed
              else closed)
            ≡ handed_in (
                if well
                then if given.0
                  then (ok tt, record (view s) { pool = given.1 })
                  else Session.close_all sync (conn ∷ []) (view s)
                else Session.close_all sync (conn ∷ []) (view s))
      go false given = closes
      go true (false, pool) = closes
      go true (true, pool) =
          release_permit-view (record s { pool = pool }) h (ok tt) refl ∙ sym (settled _)

  -- A connection was acquired, so one permit is missing.
  acquire-HasRoom :
      (clock : ℕ → ℕ) (made : Result transport.Conn) (s after : AsyncSession transport)
      (conn : transport.Conn) (max_conns : Option ℕ)
      → s.max_conns ≡ max_conns
      → IsWithin max_conns s.semaphore
      → Async.acquire transport false clock made s ≡ (ok conn, after)
      → HasRoom after.max_conns after.semaphore
  acquire-HasRoom clock made s after conn none em h e =
      let ended : Ends transport s (ok conn, after) =
        subst (Ends transport s) (sym (acquire_unbounded transport false clock made s em) ∙ e)
          (acquire_loop-Ends transport (suc (length s.pool.idle)) clock made s (omega arith)) in
      subst (λ m. HasRoom m after.semaphore) (sym (ended.0 ∙ em)) tt
  acquire-HasRoom clock made s after conn (some limit) em h e =
      let (kept, n, es, ep) : Acquires transport limit s (ok conn, after) =
        subst (Acquires transport limit s) e
          (acquire-Acquires transport false clock made s limit em) in
      let room : n < limit = omega arith in
      subst (λ m. HasRoom m after.semaphore) (sym (kept ∙ em))
        (subst (λ m. HasRoom (some limit) m) (sym es) room)

  exchange-view :
      {A : Type 0} (unary : transport.Conn → Result A × transport.Conn) (now : ℕ)
      (out : Async.Outcome transport transport.Conn)
      → ((conn : transport.Conn) (after : AsyncSession transport)
          → out ≡ (ok conn, after)
          → HasRoom after.max_conns after.semaphore)
      → view_outcome (Async.exchange transport unary now out)
        ≡ Session.exchange sync unary now (view_outcome out)
  unfolding Async.exchange Session.exchange
  exchange-view unary now (err e, s) room = refl
  exchange-view unary now (ok conn, s) room =
      ap (λ (o : Session.Outcome sync (Unit {0})). (o.0 >>= (λ _. (unary conn).0), o.1))
        (release-view now (unary conn).1 s (room conn s refl))

  -- Over a transport whose polls and closings raise nothing, a call on an AsyncSession with at
  -- most max_conns free permits, whose wait for a permit is not cancelled, ends as the call on the
  -- Session that it stands for, with the same pool, free permits and closed connections.
  pub call-view :
      {P A B : Type 0} (prepared : Result P)
      (unary : P → transport.Conn → Result A × transport.Conn) (decode : A → Result B)
      (clock : ℕ → ℕ) (made : Result transport.Conn) (now : ℕ) (s : AsyncSession transport)
      → IsWithin s.max_conns s.semaphore
      → view_outcome (Async.call transport prepared unary decode false clock made now s)
        ≡ Session.call sync prepared unary decode clock made now (view s)
  unfolding Async.call Session.call
  call-view (err e) unary decode clock made now s h = refl
  call-view {A = A} (ok prepared) unary decode clock made now s h =
      ap (λ (o : Session.Outcome sync A). (o.0 >>= decode, o.1))
        (exchange-view (unary prepared) now (Async.acquire transport false clock made s) room
          ∙ ap (Session.exchange sync (unary prepared) now)
              (acquire-view clock made s.pool s.max_conns s.semaphore s.closing h))
    where
      room :
          (conn : transport.Conn) (after : AsyncSession transport)
          → Async.acquire transport false clock made s ≡ (ok conn, after)
          → HasRoom after.max_conns after.semaphore
      room conn after e = acquire-HasRoom clock made s after conn s.max_conns refl h e
