-- ===== src/Session/Async.antt =====
-- AsyncSession of src/grapec/session.py, between its awaits. What an await raises, a cancellation of
-- the task as well, is a part of what the connection answers; a wait for a permit that another call
-- of the loop ends is not modelled, as in Session.
pub mod Refines
pub mod Permits
mod Examples
use grapec.Base.{
  ℕ, zero, suc, ◌+◌, ◌-◌, Bool, true, false, Option, none, some, List, [], ◌∷◌, ◌++◌, ltb,
  if◌then◌else◌, length, reverse,
}
use grapec.Errors.{
  Result, ok, err, ◌>>=◌, ◌and_then◌, Error, no_fuel, rpc_error, resource_exhausted,
  cancelled_error,
}
use grapec.Pool.{Pool, init, take, give_back, drain}

-- session.AsyncConnection.
pub record AsyncTransport : Type 1 where
  pub Conn : Type 0
  pub healthy : Conn → Bool
  pub poll : Conn → Result (Unit {0}) × Conn
  pub aclose : Conn → Result (Unit {0})

-- The value of the semaphore, which is made with `max_conns` permits.
unfoldable pub free_permits : ℕ → Option ℕ → ℕ
free_permits limit none = limit
free_permits limit (some n) = n

module _ (transport : AsyncTransport) where
  open transport use {Conn, healthy, poll, aclose}

  -- The semaphore is made by the first call that needs it. `closing` lists the connections on which
  -- `close` or `aclose` was called, the last one first.
  pub record AsyncSession : Type 0 where
    pub pool : Pool Conn
    pub max_conns : Option ℕ
    pub semaphore : Option ℕ
    pub closing : List Conn

  abbrev pub Outcome : Type 0 → Type 0
  Outcome A = Result A × AsyncSession

  -- `AsyncSession.__init__` behind the checks that it shares with Session.
  unfoldable pub start : ℕ → Option ℕ → Option ℕ → AsyncSession
  start max_idle max_idle_time max_conns = record {
    pool = init max_idle max_idle_time;
    max_conns = max_conns;
    semaphore = none;
    closing = [];
  }

  unfoldable pub close_all : List Conn → AsyncSession → AsyncSession
  close_all conns s = record s { closing = reverse conns ++ s.closing }

  -- The wait ends with a timeout, or with a cancellation.
  unfoldable pub acquire_permit : Bool → AsyncSession → Outcome (Unit {0})
  unfolding free_permits
  acquire_permit interrupted s = elim s.max_conns [
    | none ↦ (ok tt, s)
    | some limit ↦
        let n = free_permits limit s.semaphore in
        let waited : Error =
          (if interrupted then cancelled_error else rpc_error resource_exhausted) in
        if ltb 0 n
        then (ok tt, record s { semaphore = some (n - 1) })
        else (err waited, record s { semaphore = some n })
  ]

  -- `asyncio.Semaphore.release` has no bound.
  unfoldable pub release_permit : AsyncSession → AsyncSession
  release_permit s = elim s.semaphore [ none ↦ s | some n ↦ record s { semaphore = some (n + 1) } ]

  unfoldable pub give_up : Error → AsyncSession → Outcome Conn
  unfolding release_permit
  give_up e s = (err e, release_permit s)

  unfoldable pub create : Result Conn → AsyncSession → Outcome Conn
  unfolding give_up
  create (ok conn) s = (ok conn, s)
  create (err e) s = give_up e s

  -- A round goes on after `await conn.poll()`. A connection whose poll raises is neither closed nor
  -- kept.
  unfoldable pub heard :
      (AsyncSession → Outcome Conn) → Conn → AsyncSession → Result (Unit {0}) → Outcome Conn
  unfolding give_up close_all
  heard again conn s (err e) = give_up e s
  heard again conn s (ok t) =
      let next = again (close_all (conn ∷ []) s) in if healthy conn then (ok conn, s) else next

  -- One round of the loop in `_acquire`.
  unfoldable pub visit :
      Result Conn
      → (AsyncSession → Outcome Conn)
      → AsyncSession
      → Result (Option Conn × List Conn × Pool Conn)
      → Outcome Conn
  unfolding close_all create give_up heard
  visit made again s (err e) = give_up e s
  visit made again s (ok (none, stale, pool)) =
      create made (close_all stale (record s { pool = pool }))
  visit made again s (ok (some conn, stale, pool)) =
      let (r, polled) = poll conn in
      heard again polled (close_all stale (record s { pool = pool })) r

  -- `clock k` is the clock's reading in the k-th round.
  unfoldable pub acquire_loop : ℕ → (ℕ → ℕ) → Result Conn → AsyncSession → Outcome Conn
  unfolding visit
  acquire_loop zero clock made s = (err no_fuel, s)
  acquire_loop (suc fuel) clock made s =
      visit made (acquire_loop fuel (λ k. clock (suc k)) made) s (take s.pool (clock 0))

  unfoldable pub acquire : Bool → (ℕ → ℕ) → Result Conn → AsyncSession → Outcome Conn
  unfolding acquire_permit acquire_loop
  acquire interrupted clock made s = acquire_permit interrupted s and_then λ s'.
      acquire_loop (suc (length s'.pool.idle)) clock made s'

  -- The permit is released even where closing the connection raises.
  unfoldable pub release : ℕ → Conn → AsyncSession → Outcome (Unit {0})
  unfolding release_permit close_all
  release now conn s =
      let (kept, pool) = give_back s.pool conn now in
      let closed : Outcome (Unit {0}) = (aclose conn, release_permit (close_all (conn ∷ []) s)) in
      if healthy conn
      then if kept then (ok tt, release_permit (record s { pool = pool })) else closed
      else closed

  -- `call` between `_prepare` and `decode`.
  unfoldable pub exchange : {A : Type 0} → (Conn → Result A × Conn) → ℕ → Outcome Conn → Outcome A
  exchange unary now (err e, s) = (err e, s)
  exchange unary now (ok conn, s) =
      let (raw, conn') = unary conn in let (r, s') = release now conn' s in (r >>= (λ _. raw), s')

  unfoldable pub call :
      {P A B : Type 0}
      → Result P
      → (P → Conn → Result A × Conn)
      → (A → Result B)
      → Bool
      → (ℕ → ℕ)
      → Result Conn
      → ℕ
      → AsyncSession
      → Outcome B
  call (err e) unary decode interrupted clock made now s = (err e, s)
  call (ok prepared) unary decode interrupted clock made now s =
      let (raw, s') = exchange (unary prepared) now (acquire interrupted clock made s) in
      (raw >>= decode, s')

  -- `aclose` stops at a connection whose closing raises.
  pub aclose_each : List Conn → AsyncSession → Outcome (Unit {0})
  unfolding close_all
  aclose_each [] s = (ok tt, s)
  aclose_each (conn ∷ conns) s =
      (aclose conn, close_all (conn ∷ []) s) and_then λ s'. aclose_each conns s'

  pub aclose_session : AsyncSession → Outcome (Unit {0})
  unfolding aclose_each
  aclose_session s =
      let (conns, pool) = drain s.pool in aclose_each conns (record s { pool = pool })

  pub close : AsyncSession → AsyncSession
  unfolding close_all
  close s = let (conns, pool) = drain s.pool in close_all conns (record s { pool = pool })
