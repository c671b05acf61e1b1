-- ===== src/Session/Async/Permits.antt =====
-- The semaphore of `AsyncSession` in src/grapec/session.py, whatever the awaits raise.
use grapec.Base.{
  ℕ, zero, suc, ◌+◌, ◌-◌, ◌<◌, ◌≡◌, refl, ap, ◌∙◌, true, false, Bool, Option, none, some, List, ltb,
  if◌then◌else◌, length, arith, Bool-cases, inl, inr,
}
use grapec.Errors.{Result, ok, err, Error, cancelled_error, rpc_error, resource_exhausted}
use grapec.Pool.{Pool, take}
use grapec.Pool.Laws.{length-take}
use grapec.Session.Async.{
  AsyncTransport, AsyncSession, Outcome, free_permits, acquire_permit, release_permit, give_up,
  create, heard, visit, acquire_loop, acquire, release, exchange, call,
}

-- One permit more, if the semaphore is made.
abbrev pub one_more : Option ℕ → Option ℕ
one_more none = none
one_more (some n) = some (n + 1)

module _ (transport : AsyncTransport) where
  open transport use {Conn, healthy, poll, aclose}

  -- How a call to `_acquire` that took its permit ends: with a connection the permit stays taken,
  -- with an exception it is back.
  abbrev pub Ends : AsyncSession transport → Outcome transport Conn → Type 0
  Ends s (ok conn, after) = (after.max_conns ≡ s.max_conns) × (after.semaphore ≡ s.semaphore)
  Ends s (err e, after) = (after.max_conns ≡ s.max_conns) × (after.semaphore ≡ one_more s.semaphore)

  give_up-Ends :
      (e : Error) (s t : AsyncSession transport)
      → t.max_conns ≡ s.max_conns
      → t.semaphore ≡ s.semaphore
      → Ends s (give_up transport e t)
  unfolding give_up release_permit
  give_up-Ends e s t em es = go s.semaphore t.semaphore es
    where
      go :
          (before after : Option ℕ)
          → after ≡ before
          → Ends
              (record s { semaphore = before })
              (give_up transport e (record t { semaphore = after }))
      go none none es' = (em, refl)
      go none (some n) es' = ground arith
      go (some m) none es' = ground arith
      go (some m) (some n) es' = (em, ap one_more es')

  create-Ends :
      (made : Result Conn) (s t : AsyncSession transport)
      → t.max_conns ≡ s.max_conns
      → t.semaphore ≡ s.semaphore
      → Ends s (create transport made t)
  unfolding create
  create-Ends (ok conn) s t em es = (em, es)
  create-Ends (err e) s t em es = give_up-Ends e s t em es

  heard-Ends :
      (again : AsyncSession transport → Outcome transport Conn) (conn : Conn)
      (s t : AsyncSession transport) (r : Result (Unit {0}))
      → t.max_conns ≡ s.max_conns
      → t.semaphore ≡ s.semaphore
      → ((u : AsyncSession transport)
          → u.max_conns ≡ s.max_conns
          → u.semaphore ≡ s.semaphore
          → u.pool ≡ t.pool
          → Ends s (again u))
      → Ends s (heard transport again conn t r)
  unfolding heard
  heard-Ends again conn s t (err e) em es ih = give_up-Ends e s t em es
  heard-Ends again conn s t (ok u) em es ih = elim (Bool-cases (healthy conn)) [
    | inl well ↦ rw well (em, es)
    | inr ill ↦ rw ill (ih _ em es refl)
  ]

  visit-Ends :
      (made : Result Conn) (again : AsyncSession transport → Outcome transport Conn)
      (s : AsyncSession transport) (now : ℕ)
      → ((t : AsyncSession transport)
          → t.max_conns ≡ s.max_conns
          → t.semaphore ≡ s.semaphore
          → length t.pool.idle < length s.pool.idle
          → Ends s (again t))
      → Ends s (visit transport made again s (take s.pool now))
  unfolding visit
  visit-Ends made again s now ih = go (take s.pool now) refl
    where
      go :
          (r : Result (Option Conn × List Conn × Pool Conn))
          → take s.pool now ≡ r
          → Ends s (visit transport made again s r)
      go (err e) eq = give_up-Ends e s s refl refl
      go (ok (none, stale, pool)) eq = create-Ends made s _ refl refl
      go (ok (some conn, stale, pool)) eq =
          heard-Ends again (poll conn).1 s _ (poll conn).0 refl refl λ u em es ep.
            ih u em es (rw (ap (λ p. length p.idle) ep) (length-take s.pool pool now conn stale eq))

  -- The fuel that `acquire` gives is enough: the loop never ends for want of it.
  pub acquire_loop-Ends :
      (fuel : ℕ) (clock : ℕ → ℕ) (made : Result Conn) (s : AsyncSession transport)
      → length s.pool.idle < fuel
      → Ends s (acquire_loop transport fuel clock made s)
  unfolding acquire_loop
  acquire_loop-Ends zero clock made s hf = elim hf [ ]
  acquire_loop-Ends (suc fuel) clock made s hf =
      visit-Ends made (acquire_loop transport fuel (λ k. clock (suc k)) made) s (clock 0)
        λ t em es el.
          along t es (acquire_loop transport fuel (λ k. clock (suc k)) made t) em
            (acquire_loop-Ends fuel (λ k. clock (suc k)) made t (omega arith))
    where
      along :
          (t : AsyncSession transport)
          → t.semaphore ≡ s.semaphore
          → (out : Outcome transport Conn) → t.max_conns ≡ s.max_conns
          → Ends t out
          → Ends s out
      along t es (ok conn, after) em (a, b) = (a ∙ em, b ∙ es)
      along t es (err e, after) em (a, b) = (a ∙ em, b ∙ ap one_more es)

  -- What `_acquire` does to the free permits of a session with `max_conns`: a connection costs one,
  -- every exception none.
  abbrev pub Acquires : ℕ → AsyncSession transport → Outcome transport Conn → Type 0
  Acquires limit s (ok conn, after) =
      (after.max_conns ≡ s.max_conns)
      × (n : ℕ) × (after.semaphore ≡ some n)
      × (n + 1 ≡ free_permits limit s.semaphore)
  Acquires limit s (err e, after) =
      (after.max_conns ≡ s.max_conns)
      × (free_permits limit after.semaphore ≡ free_permits limit s.semaphore)

  pub acquire_taken :
      (interrupted : Bool) (clock : ℕ → ℕ) (made : Result Conn) (s : AsyncSession transport)
      (limit : ℕ)
      → s.max_conns ≡ some limit
      → ltb 0 (free_permits limit s.semaphore) ≡ true
      → acquire transport interrupted clock made s
        ≡ acquire_loop transport
            (suc (length s.pool.idle))
            clock
            made
            (record s { semaphore = some (free_permits limit s.semaphore - 1) })
  unfolding acquire acquire_permit
  acquire_taken interrupted clock made s limit hm some_left = go s.max_conns hm
    where
      go :
          (max_conns : Option ℕ)
          → max_conns ≡ some limit
          → acquire transport interrupted clock made (record s { max_conns = max_conns })
            ≡ acquire_loop transport (suc (length s.pool.idle)) clock made (record s {
              max_conns = max_conns;
              semaphore = some (free_permits limit s.semaphore - 1);
            })
      go none e = ground arith
      go (some n) e = let same : n ≡ limit = ground arith in rw (same, some_left) refl

  pub acquire_unbounded :
      (interrupted : Bool) (clock : ℕ → ℕ) (made : Result Conn) (s : AsyncSession transport)
      → s.max_conns ≡ none
      → acquire transport interrupted clock made s
        ≡ acquire_loop transport (suc (length s.pool.idle)) clock made s
  unfolding acquire acquire_permit
  acquire_unbounded interrupted clock made s hm = go s.max_conns hm
    where
      go :
          (max_conns : Option ℕ)
          → max_conns ≡ none
          → acquire transport interrupted clock made (record s { max_conns = max_conns })
            ≡ acquire_loop transport
                (suc (length s.pool.idle))
                clock
                made
                (record s { max_conns = max_conns })
      go none e = refl
      go (some n) e = ground arith

  pub acquire_refused :
      (interrupted : Bool) (clock : ℕ → ℕ) (made : Result Conn) (s : AsyncSession transport)
      (limit : ℕ)
      → s.max_conns ≡ some limit
      → ltb 0 (free_permits limit s.semaphore) ≡ false
      → acquire transport interrupted clock made s ≡ (
        err (if interrupted then cancelled_error else rpc_error resource_exhausted),
        record s { semaphore = some (free_permits limit s.semaphore) },
      )
  unfolding acquire acquire_permit
  acquire_refused interrupted clock made s limit hm none_left = go s.max_conns hm
    where
      go :
          (max_conns : Option ℕ)
          → max_conns ≡ some limit
          → acquire transport interrupted clock made (record s { max_conns = max_conns }) ≡ (
            err (if interrupted then cancelled_error else rpc_error resource_exhausted),
            record s { max_conns = max_conns; semaphore = some (free_permits limit s.semaphore) },
          )
      go none e = ground arith
      go (some n) e = let same : n ≡ limit = ground arith in rw (same, none_left) refl

  -- `acquire` on an AsyncSession with max_conns takes one permit when it returns a connection and
  -- none when anything in it raises, and its loop ends.
  pub acquire-Acquires :
      (interrupted : Bool) (clock : ℕ → ℕ) (made : Result Conn) (s : AsyncSession transport)
      (limit : ℕ)
      → s.max_conns ≡ some limit
      → Acquires limit s (acquire transport interrupted clock made s)
  unfolding free_permits
  acquire-Acquires interrupted clock made s limit hm =
      elim (Bool-cases (ltb 0 (free_permits limit s.semaphore))) [
        | inl some_left ↦ rw (acquire_taken interrupted clock made s limit hm some_left) (
            paid (free_permits limit s.semaphore - 1)
              (acquire_loop transport (suc (length s.pool.idle)) clock made
                (record s { semaphore = some (free_permits limit s.semaphore - 1) }))
              (ground arith)
              (acquire_loop-Ends (suc (length s.pool.idle)) clock made
                (record s { semaphore = some (free_permits limit s.semaphore - 1) }) (omega arith)))
        | inr none_left ↦
            rw (acquire_refused interrupted clock made s limit hm none_left) (refl, refl)
      ]
    where
      paid :
          (n : ℕ) (out : Outcome transport Conn)
          → n + 1 ≡ free_permits limit s.semaphore
          → Ends (record s { semaphore = some n }) out
          → Acquires limit s out
      paid n (ok conn, after) ep (a, b) = (a, n, b, ep)
      paid n (err e, after) ep (a, b) = (a, rw (b, free_permits) ep)

  release-permits :
      (now : ℕ) (conn : Conn) (s : AsyncSession transport) (n : ℕ)
      → s.semaphore ≡ some n
      → let after = (release transport now conn s).1 in
        (after.max_conns ≡ s.max_conns) × (after.semaphore ≡ some (n + 1))
  unfolding release release_permit
  release-permits now conn s n h = ground arith

  exchange-permits :
      {A : Type 0} (unary : Conn → Result A × Conn) (now : ℕ) (s : AsyncSession transport)
      (limit : ℕ) (out : Outcome transport Conn)
      → Acquires limit s out
      → let after = (exchange transport unary now out).1 in
        (after.max_conns ≡ s.max_conns)
        × (free_permits limit after.semaphore ≡ free_permits limit s.semaphore)
  unfolding exchange free_permits
  exchange-permits unary now s limit (err e, t) h = h
  exchange-permits unary now s limit (ok conn, t) (em, n, es, ep) =
      let (m, p) = release-permits now (unary conn).1 t n es in (m ∙ em, rw p ep)

  -- A call on an AsyncSession with max_conns leaves as many permits free as there were, whichever
  -- of its awaits raises or is cancelled.
  pub call-free_permits :
      {P A B : Type 0} (prepared : Result P) (unary : P → Conn → Result A × Conn)
      (decode : A → Result B) (interrupted : Bool) (clock : ℕ → ℕ) (made : Result Conn) (now : ℕ)
      (s : AsyncSession transport) (limit : ℕ)
      → s.max_conns ≡ some limit
      → let after = (call transport prepared unary decode interrupted clock made now s).1 in
        (after.max_conns ≡ s.max_conns)
        × (free_permits limit after.semaphore ≡ free_permits limit s.semaphore)
  unfolding call
  call-free_permits (err e) unary decode interrupted clock made now s limit hm = (refl, refl)
  call-free_permits (ok prepared) unary decode interrupted clock made now s limit hm =
      exchange-permits (unary prepared) now s limit (acquire transport interrupted clock made s)
        (acquire-Acquires interrupted clock made s limit hm)
