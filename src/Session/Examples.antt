-- ===== src/Session/Examples.antt =====
-- Runs of the connection handling of session.py, and instances of what is proved about it.
use grapec.Base.{ℕ, ◌≡◌, refl, arith, Bool, true, false, none, some, [], ◌∷◌}
use grapec.Errors.{Result, ok, err, rpc_error, resource_exhausted, unavailable, os_error}
use grapec.Pool.{Pool, take}
use grapec.Session.{
  Transport, Session, acquire_permit, acquire_loop, acquire, call, exchange, release,
  release_permit, hand_in,
}
use grapec.Session.Healthy.{IsUsable, acquire-IsUsable}
use grapec.Session.Permits.{Acquires, acquire-Acquires, call-permits}
use grapec.Session.Threads.{Phase, Shared, Local, Step, Reach, opened, total}

-- Connections with a number and whether they turn out healthy.
abbrev lines : Transport
lines = record { Conn = ℕ × Bool; healthy = λ c. c.1; poll = λ c. (ok tt, c); close = λ c. ok tt }

abbrev two_idle : Session lines
two_idle = record {
  pool = record {
    max_idle = 4;
    max_idle_time = none;
    idle = ((1, true), 5) ∷ ((2, false), 6) ∷ [];
    closed = false;
  };
  max_conns = some 2;
  permits = 2;
  closing = [];
}

abbrev at_limit : Session lines
at_limit = record two_idle { permits = 0 }

-- The same, where closing a connection raises, and the call leaves its connection unhealthy.
abbrev broken_lines : Transport
broken_lines = record {
  Conn = ℕ × Bool;
  healthy = λ c. c.1;
  poll = λ c. (ok tt, c);
  close = λ c. err os_error;
}

abbrev one_idle : Session broken_lines
one_idle = record {
  pool = record { max_idle = 4; max_idle_time = none; idle = ((1, true), 5) ∷ []; closed = false };
  max_conns = some 2;
  permits = 2;
  closing = [];
}

abbrev spoils : ℕ × Bool → Result ℕ × (ℕ × Bool)
spoils conn = (ok 42, (conn.0, false))

-- The exception of the closing is raised, and the permit is back.
closing_run :
    call broken_lines {P = Unit {0}} {A = ℕ} {B = ℕ}
      (ok tt)
      (λ p. spoils)
      (λ a. ok a)
      (λ k. 7)
      (err (rpc_error unavailable))
      8
      one_idle
    ≡ (
      err os_error,
      record one_idle {
        pool = record { max_idle = 4; max_idle_time = none; idle = []; closed = false };
        closing = (1, false) ∷ [];
      },
    )
unfolding acquire acquire_permit acquire_loop take call exchange release release_permit hand_in
closing_run = refl

acquire_run : (acquire lines (λ k. 7) (err (rpc_error unavailable)) two_idle).0 ≡ ok (1, true)
unfolding acquire acquire_permit acquire_loop take
acquire_run = refl

acquire_refused :
    acquire lines (λ k. 7) (err (rpc_error unavailable)) at_limit
    ≡ (err (rpc_error resource_exhausted), at_limit)
unfolding acquire acquire_permit
acquire_refused = refl

acquire-Acquires_example :
    Acquires lines two_idle (acquire lines (λ k. 7) (err (rpc_error unavailable)) two_idle)
acquire-Acquires_example =
    acquire-Acquires lines (λ k. 7) (err (rpc_error unavailable)) two_idle 2 refl (omega arith)

call-permits_example :
    let after =
      (call broken_lines {P = Unit {0}} {A = ℕ} {B = ℕ}
        (ok tt)
        (λ p. spoils)
        (λ a. ok a)
        (λ k. 7)
        (err (rpc_error unavailable))
        8
        one_idle).1 in
    (after.max_conns ≡ some 2) × (after.permits ≡ 2)
call-permits_example =
    call-permits broken_lines {P = Unit {0}} {A = ℕ} {B = ℕ} (ok tt) (λ p. spoils) (λ a. ok a)
      (λ k. 7) (err (rpc_error unavailable)) 8 one_idle 2 refl (omega arith)

-- A session of two connections at its start, with three threads.
abbrev quiet_pool : Pool ℕ
quiet_pool = record { max_idle = 4; max_idle_time = some 20; idle = []; closed = false }

abbrev at_start : Shared ℕ
at_start = record { pool = quiet_pool; permits = 2 }

abbrev one_inside : Shared ℕ
one_inside = record { pool = quiet_pool; permits = 1 }

abbrev entered :
    Reach at_start
      (Phase.outside ∷ Phase.outside ∷ [])
      one_inside
      (Phase.outside ∷ Phase.permitted ∷ [])
entered =
    Reach.next Reach.here (Step.step (Phase.outside ∷ []) [] (Local.enter 1 refl) _ _ refl refl)

-- A thread that got a connection and has a stale one to close, next to a thread that opened a new
-- one: three are open at once, one of them not closed yet.
abbrev late_pool : Pool ℕ
late_pool = record quiet_pool { idle = (1, 10) ∷ (2, 95) ∷ [] }

abbrev late : Shared ℕ
late = record { pool = late_pool; permits = 1 }

abbrev emptied : Shared ℕ
emptied = record { pool = quiet_pool; permits = 0 }

over_limit :
    Reach late
      (Phase.permitted ∷ Phase.outside ∷ [])
      emptied
      (Phase.pulled (some 2) (1 ∷ []) ∷ Phase.leased 3 ∷ [])
    × (total {C = ℕ} opened (Phase.pulled (some 2) (1 ∷ []) ∷ Phase.leased 3 ∷ []) ≡ 3)
over_limit = (
  Reach.next
      (Reach.next
        (Reach.next
          (Reach.next
            (Reach.next Reach.here (
              Step.step [] (Phase.outside ∷ [])
                (Local.takes 110 (some 2) (1 ∷ []) quiet_pool (unfold take in refl)) _ _ refl refl))
            (Step.step (Phase.pulled (some 2) (1 ∷ []) ∷ []) [] (Local.enter 0 refl) _ _ refl refl))
          (Step.step (Phase.pulled (some 2) (1 ∷ []) ∷ []) []
            (Local.takes 110 none [] quiet_pool (unfold take in refl)) _ _ refl refl))
        (Step.step (Phase.pulled (some 2) (1 ∷ []) ∷ []) [] Local.misses _ _ refl refl))
      (Step.step (Phase.pulled (some 2) (1 ∷ []) ∷ []) [] (Local.creates 3) _ _ refl refl),
  refl,
)

acquire-IsUsable_example :
    IsUsable lines
      (err (rpc_error unavailable))
      two_idle.pool
      (acquire lines (λ k. 7) (err (rpc_error unavailable)) two_idle)
acquire-IsUsable_example = acquire-IsUsable lines (λ k. 7) (err (rpc_error unavailable)) two_idle
