-- ===== src/Session/Async/Examples.antt =====
-- Runs of AsyncSession of session.py, and instances of what is proved about it.
use grapec.Base.{ℕ, ◌≡◌, refl, arith, Bool, true, false, none, some, [], ◌∷◌}
use grapec.Errors.{Result, ok, err, cancelled_error, os_error}
use grapec.Pool.{take}
use grapec.Session
use grapec.Session.Async.{
  AsyncTransport, AsyncSession, free_permits, acquire, acquire_permit, acquire_loop, call,
}
use grapec.Session.Async.Permits.{call-free_permits}
use grapec.Session.Async.Refines.{blocking, view, view_outcome, call-view}

-- Connections with a number and whether they turn out healthy.
abbrev quiet_lines : AsyncTransport
quiet_lines = record {
  Conn = ℕ × Bool;
  healthy = λ c. c.1;
  poll = λ c. (ok tt, c);
  aclose = λ c. ok tt;
}

-- A task that is cancelled while it polls.
abbrev cancelled_lines : AsyncTransport
cancelled_lines = record quiet_lines { poll = λ c. (err cancelled_error, c) }

abbrev idle_session : (transport : AsyncTransport) → transport.Conn → AsyncSession transport
idle_session transport conn = record {
  pool = record { max_idle = 4; max_idle_time = none; idle = (conn, 5) ∷ []; closed = false };
  max_conns = some 2;
  semaphore = none;
  closing = [];
}

abbrev answer : ℕ × Bool → Result ℕ × (ℕ × Bool)
answer conn = (ok 42, conn)

-- The connection is lost: it is neither idle nor closed afterwards.
lost_run :
    acquire cancelled_lines false (λ k. 7) (err os_error) (idle_session cancelled_lines (1, true))
    ≡ (
      err cancelled_error,
      record (idle_session cancelled_lines (1, true)) {
        pool = record { max_idle = 4; max_idle_time = none; idle = []; closed = false };
        semaphore = some 2;
      },
    )
unfolding acquire acquire_permit acquire_loop take free_permits
lost_run = refl

call-free_permits_example :
    let after =
      (call cancelled_lines {P = Unit {0}} {A = ℕ} {B = ℕ}
        (ok tt)
        (λ p. answer)
        (λ a. (ok a))
        false
        (λ k. 7)
        (err os_error)
        8
        (idle_session cancelled_lines (1, true))).1 in
    (after.max_conns ≡ some 2) × (free_permits 2 after.semaphore ≡ 2)
unfolding free_permits
call-free_permits_example =
    call-free_permits cancelled_lines {P = Unit {0}} {A = ℕ} {B = ℕ} (ok tt) (λ p. answer)
      (λ a. (ok a)) false (λ k. 7) (err os_error) 8 (idle_session cancelled_lines (1, true)) 2 refl

call-view_example :
    view_outcome quiet_lines
      (λ c. refl, λ c. refl)
      (call quiet_lines {P = Unit {0}} {A = ℕ} {B = ℕ}
        (ok tt)
        (λ p. answer)
        (λ a. (ok a))
        false
        (λ k. 7)
        (ok (3, true))
        8
        (idle_session quiet_lines (1, false)))
    ≡ Session.call
        (blocking quiet_lines)
        {P = Unit {0}}
        {A = ℕ}
        {B = ℕ}
        (ok tt)
        (λ p. answer)
        (λ a. (ok a))
        (λ k. 7)
        (ok (3, true))
        8
        (view quiet_lines (λ c. refl, λ c. refl) (idle_session quiet_lines (1, false)))
unfolding free_permits
call-view_example =
    call-view quiet_lines (λ c. refl, λ c. refl) {P = Unit {0}} {A = ℕ} {B = ℕ} (ok tt)
      (λ p. answer) (λ a. (ok a)) (λ k. 7) (ok (3, true)) 8 (idle_session quiet_lines (1, false))
      (omega arith)
