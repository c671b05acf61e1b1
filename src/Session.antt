-- ===== src/Session.antt =====
-- The connection handling of src/grapec/session.py: `Session._acquire`, `_release`, `call` and
-- `close`. A connection is any type with the operations of the `Connection` protocol; what they
-- find on the wire, and raise, is a part of the connection's value. `closing` lists the connections on which
-- `close` was called, the last one first.
pub mod Permits
pub mod Healthy
pub mod Threads
pub mod Async
mod Examples
use grapec.Base.{
  ℕ, zero, suc, ◌+◌, ◌-◌, ◌≡◌, refl, Bool, true, false, ◌&&◌, Option, none, some, List, [], ◌∷◌,
  ◌++◌, map, ltb, leb, if◌then◌else◌, length, reverse,
}
use grapec.Base.Int.{ℤ, pos, ltb_ℤ}
use grapec.Errors.{
  Result, ok, err, ◌>>=◌, ◌and_then◌, Error, no_fuel, rpc_error, resource_exhausted, value_error,
}
use grapec.Pool.{Pool, init, take, give_back, drain}

-- session.Connection: what the session asks of a transport.
pub record Transport : Type 1 where
  pub Conn : Type 0
  pub healthy : Conn → Bool
  pub poll : Conn → Result (Unit {0}) × Conn
  pub close : Conn → Result (Unit {0})

module _ (transport : Transport) where
  open transport use {Conn, healthy, poll}

  pub record Session : Type 0 where
    pub pool : Pool Conn
    pub max_conns : Option ℕ
    pub permits : ℕ
    pub closing : List Conn

  -- What a method leaves behind: its result or its exception, and the session.
  abbrev pub Outcome : Type 0 → Type 0
  Outcome A = Result A × Session

  abbrev is_negative : Option ℤ → Bool
  is_negative none = false
  is_negative (some t) = ltb_ℤ t (pos 0)

  -- The checks on numbers and the pool of `_BaseSession.__init__`, and the semaphore of
  -- `Session.__init__`.
  unfoldable pub start : ℕ → Option ℕ → Option ℕ → Option ℤ → Result Session
  start max_idle max_idle_time max_conns pool_timeout =
      let made : ℕ → Result Session = λ permits.
        (ok (record {
          pool = init max_idle max_idle_time;
          max_conns = max_conns;
          permits = permits;
          closing = [];
        })) in
      elim max_conns [
        | none ↦ if is_negative pool_timeout then err value_error else made 0
        | some limit ↦
            if ltb limit 1
            then err value_error
            else if is_negative pool_timeout
            then err value_error
            else made limit
      ]

  -- `close` on each connection, up to one that raises.
  unfoldable pub close_all : List Conn → Session → Outcome (Unit {0})
  close_all [] s = (ok tt, s)
  close_all (conn ∷ conns) s =
      let done : Outcome (Unit {0}) =
        (transport.close conn, record s { closing = conn ∷ s.closing }) in
      done and_then close_all conns

  -- `BoundedSemaphore.acquire`: false once the wait for a permit timed out.
  unfoldable pub acquire_permit : Session → Option Session
  acquire_permit s = elim s.max_conns [
    | none ↦ some s
    | some limit ↦ if ltb 0 s.permits then some (record s { permits = s.permits - 1 }) else none
  ]

  -- `BoundedSemaphore.release` raises ValueError above its initial value.
  unfoldable pub release_permit : Session → Outcome (Unit {0})
  release_permit s = elim s.max_conns [
    | none ↦ (ok tt, s)
    | some limit ↦
        if ltb s.permits limit
        then (ok tt, record s { permits = s.permits + 1 })
        else (err value_error, s)
  ]

  -- `except BaseException: self._release_permit(); raise`
  unfoldable pub give_up : Error → Session → Outcome Conn
  unfolding release_permit
  give_up e s = let (r, s') = release_permit s in (r >>= (λ _. err e), s')

  -- The answer of `self._factory()`.
  unfoldable pub create : Result Conn → Session → Outcome Conn
  unfolding give_up
  create (ok conn) s = (ok conn, s)
  create (err e) s = give_up e s

  -- What follows in the `try` of `_acquire`, if nothing was raised so far.
  unfoldable pub or_give_up : Outcome (Unit {0}) → (Session → Outcome Conn) → Outcome Conn
  unfolding give_up
  or_give_up (ok t, s) next = next s
  or_give_up (err e, s) next = give_up e s

  -- A round goes on once the connection was polled.
  unfoldable pub heard : (Session → Outcome Conn) → Conn → Session → Outcome Conn
  unfolding close_all or_give_up
  heard again conn s =
      let next = or_give_up (close_all (conn ∷ []) s) again in
      if healthy conn then (ok conn, s) else next

  -- One round of the loop in `_acquire`, on what `take` answered.
  unfoldable pub visit :
      Result Conn
      → (Session → Outcome Conn)
      → Session
      → Result (Option Conn × List Conn × Pool Conn)
      → Outcome Conn
  unfolding close_all or_give_up create heard
  visit made again s (err e) = give_up e s
  visit made again s (ok (none, stale, pool)) =
      or_give_up (close_all stale (record s { pool = pool })) (create made)
  visit made again s (ok (some conn, stale, pool)) =
      let (polled, after) = poll conn in
      or_give_up (close_all stale (record s { pool = pool }))
        (λ t. or_give_up (polled, t) (heard again after))

  -- `clock k` is the clock's reading in the k-th round.
  unfoldable pub acquire_loop : ℕ → (ℕ → ℕ) → Result Conn → Session → Outcome Conn
  unfolding visit
  acquire_loop zero clock made s = (err no_fuel, s)
  acquire_loop (suc fuel) clock made s =
      visit made (acquire_loop fuel (λ k. clock (suc k)) made) s (take s.pool (clock 0))

  -- Each round takes an idle connection away, so the loop ends after one round more than there are.
  unfoldable pub acquire : (ℕ → ℕ) → Result Conn → Session → Outcome Conn
  acquire clock made s = elim (acquire_permit s) [
    | none ↦ (err (rpc_error resource_exhausted), s)
    | some s' ↦ acquire_loop (suc (length s.pool.idle)) clock made s'
  ]

  -- The connection goes back or is closed, and behind that, the `finally` block.
  unfoldable pub hand_in : ℕ → Conn → Session → Outcome (Unit {0})
  unfolding close_all
  hand_in now conn s =
      let (kept, pool) = give_back s.pool conn now in
      let closed = close_all (conn ∷ []) s in
      if healthy conn then if kept then (ok tt, record s { pool = pool }) else closed else closed

  unfoldable pub release : ℕ → Conn → Session → Outcome (Unit {0})
  unfolding release_permit hand_in
  release now conn s =
      let (raised, t) = hand_in now conn s in
      let (r, after) = release_permit t in (r >>= (λ _. raised), after)

  unfoldable pub close : Session → Outcome (Unit {0})
  unfolding close_all
  close s = let (conns, pool) = drain s.pool in close_all conns (record s { pool = pool })

  -- `call` between `_prepare` and `decode`: `unary` is the connection's call, which answers or
  -- raises and leaves the connection in some state.
  unfoldable pub exchange : {A : Type 0} → (Conn → Result A × Conn) → ℕ → Outcome Conn → Outcome A
  exchange unary now (err e, s) = (err e, s)
  exchange unary now (ok conn, s) =
      let (raw, conn') = unary conn in let (r, s') = release now conn' s in (r >>= (λ _. raw), s')

  unfoldable pub call :
      {P A B : Type 0}
      → Result P
      → (P → Conn → Result A × Conn)
      → (A → Result B)
      → (ℕ → ℕ)
      → Result Conn
      → ℕ
      → Session
      → Outcome B
  call (err e) unary decode clock made now s = (err e, s)
  call (ok prepared) unary decode clock made now s =
      let (raw, s') = exchange (unary prepared) now (acquire clock made s) in (raw >>= decode, s')
