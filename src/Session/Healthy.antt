-- ===== src/Session/Healthy.antt =====
-- The connections that `Session._acquire` of src/grapec/session.py hands out.
use grapec.Base.{
  ℕ, zero, suc, ◌≡◌, refl, ap, ◌∙◌, true, Option, none, some, List, [], ◌∷◌, length, arith,
  Bool-cases, Option-cases, ◌⊎◌, inl, inr, subst,
}
use grapec.Errors.{Result, ok, err, ◌>>=◌, Error}
use grapec.Pool.{Pool, take}
use grapec.Pool.Laws.{conns, handed, take-perm}
use grapec.Session.{
  Transport, Session, Outcome, acquire_permit, release_permit, close_all, give_up, or_give_up,
  heard, create, visit, acquire_loop, acquire,
}
use grapec.Session.Permits.{close_all-Kept}
use mathlib.Core.List.{Mem, mem-append_left, mem-append_right, mem-cons_self}
use mathlib.Core.List.Perm

module _ (transport : Transport) where
  open transport use {Conn, healthy, poll}

  -- What a poll that raised nothing left of one of the idle connections, and it is healthy.
  abbrev pub IsPolled : Pool Conn → Conn → Type 0
  IsPolled pool conn =
      (c : Conn) × Mem c (conns pool.idle) × (poll c ≡ (ok tt, conn)) × (healthy conn ≡ true)

  -- A polled connection of the pool, or the one that the factory made.
  abbrev pub IsUsable : Result Conn → Pool Conn → Outcome transport Conn → Type 0
  IsUsable made pool (ok conn, after) = IsPolled pool conn ⊎ (made ≡ ok conn)
  IsUsable made pool (err e, after) = Unit {0}

  give_up-IsUsable :
      (made : Result Conn) (pool : Pool Conn) (e : Error) (s : Session transport)
      → IsUsable made pool (give_up transport e s)
  unfolding give_up
  give_up-IsUsable made pool e s = go (release_permit transport s)
    where
      go : (out : Outcome transport (Unit {0})) → IsUsable made pool ((out.0 >>= λ t. err e), out.1)
      go (ok t, after) = tt
      go (err e', after) = tt

  create-IsUsable :
      (made : Result Conn) (pool : Pool Conn) (s : Session transport)
      → IsUsable made pool (create transport made s)
  unfolding create
  create-IsUsable (ok conn) pool s = inr refl
  create-IsUsable (err e) pool s = give_up-IsUsable (err e) pool e s

  or_give_up-IsUsable :
      (made : Result Conn) (pool : Pool Conn) (o : Outcome transport (Unit {0}))
      (next : Session transport → Outcome transport Conn)
      → (o.0 ≡ ok tt → (t : Session transport) → t.pool ≡ o.1.pool → IsUsable made pool (next t))
      → IsUsable made pool (or_give_up transport o next)
  unfolding or_give_up
  or_give_up-IsUsable made pool (ok t, s) next h = h refl s refl
  or_give_up-IsUsable made pool (err e, s) next h = give_up-IsUsable made pool e s

  -- A pool that `take` left holds nothing new.
  IsUsable-take :
      (made : Result Conn) (pool after : Pool Conn) (now : ℕ) (conn : Conn) (stale : List Conn)
      (out : Outcome transport Conn)
      → take pool now ≡ ok (some conn, stale, after)
      → IsUsable made after out
      → IsUsable made pool out
  IsUsable-take made pool after now conn stale (err e, t) eq h = tt
  IsUsable-take made pool after now conn stale (ok c, t) eq (inr h) = inr h
  IsUsable-take made pool after now conn stale (ok c, t) eq (inl (c', held, polled, well)) = inl (
    c',
    (Perm.mem_iff (take-perm pool after now (some conn) stale eq)).1
        (mem-append_left stale (mem-append_left (handed (some conn)) held)),
    polled,
    well,
  )

  heard-IsUsable :
      (made : Result Conn) (s : Session transport) (pool : Pool Conn) (polled : Conn) (now : ℕ)
      (conn : Conn) (stale : List Conn) (again : Session transport → Outcome transport Conn)
      (u : Session transport)
      → take s.pool now ≡ ok (some conn, stale, pool)
      → poll conn ≡ (ok tt, polled)
      → u.pool ≡ pool
      → ((t : Session transport) → IsUsable made t.pool (again t))
      → IsUsable made s.pool (heard transport again polled u)
  unfolding heard
  heard-IsUsable made s pool polled now conn stale again u eq answered same ih =
      elim (Bool-cases (healthy polled)) [
        | inl well ↦ rw well (
            inl (
              conn,
              (Perm.mem_iff (take-perm s.pool pool now (some conn) stale eq)).1
                  (mem-append_left stale (mem-append_right (conns pool.idle) mem-cons_self)),
              answered,
              well,
            ))
        | inr ill ↦ rw ill (
            IsUsable-take made s.pool pool now conn stale _ eq (
              or_give_up-IsUsable made pool (close_all transport (polled ∷ []) u) again λ done t e.
                subst (λ p. IsUsable made p (again t))
                  (e ∙ (close_all-Kept transport (polled ∷ []) u).1 ∙ same) (ih t)))
      ]

  visit-IsUsable :
      (made : Result Conn) (again : Session transport → Outcome transport Conn)
      (s : Session transport) (now : ℕ)
      → ((t : Session transport) → IsUsable made t.pool (again t))
      → IsUsable made s.pool (visit transport made again s (take s.pool now))
  unfolding visit
  visit-IsUsable made again s now ih = go (take s.pool now) refl
    where
      go :
          (r : Result (Option Conn × List Conn × Pool Conn))
          → take s.pool now ≡ r
          → IsUsable made s.pool (visit transport made again s r)
      go (err e) eq = give_up-IsUsable made s.pool e s
      go (ok (none, stale, pool)) eq =
          or_give_up-IsUsable made s.pool (close_all transport stale (record s { pool = pool }))
            (create transport made) λ done t e. create-IsUsable made s.pool t
      go (ok (some conn, stale, pool)) eq =
          or_give_up-IsUsable made s.pool (close_all transport stale (record s { pool = pool })) _
            λ done t e.
              or_give_up-IsUsable made s.pool ((poll conn).0, t)
                (heard transport again (poll conn).1)
                λ polled u e'.
                  heard-IsUsable made s pool (poll conn).1 now conn stale again u eq
                    (ap (λ r. (r, (poll conn).1)) polled)
                    (e' ∙ e ∙ (close_all-Kept transport stale (record s { pool = pool })).1) ih

  acquire_loop-IsUsable :
      (fuel : ℕ) (clock : ℕ → ℕ) (made : Result Conn) (s : Session transport)
      → IsUsable made s.pool (acquire_loop transport fuel clock made s)
  unfolding acquire_loop
  acquire_loop-IsUsable zero clock made s = tt
  acquire_loop-IsUsable (suc fuel) clock made s =
      visit-IsUsable made (acquire_loop transport fuel (λ k. clock (suc k)) made) s (clock 0)
        (acquire_loop-IsUsable fuel (λ k. clock (suc k)) made)

  acquire_permit-pool :
      (s t : Session transport) → acquire_permit transport s ≡ some t → t.pool ≡ s.pool
  unfolding acquire_permit
  acquire_permit-pool s t e = ground arith

  -- A connection that acquire returns is what a poll that raised nothing left of one of the
  -- connections that were idle in the pool, and is healthy after that poll, or it is the one that
  -- the factory made.
  pub acquire-IsUsable :
      (clock : ℕ → ℕ) (made : Result Conn) (s : Session transport)
      → IsUsable made s.pool (acquire transport clock made s)
  unfolding acquire
  acquire-IsUsable clock made s = elim (Option-cases (acquire_permit transport s)) [
    | inl e ↦ rw (e, acquire) tt
    | inr (t, e) ↦
        rw (e, acquire)
          (subst
            (λ p. IsUsable made p (acquire_loop transport (suc (length s.pool.idle)) clock made t))
            (acquire_permit-pool s t e)
            (acquire_loop-IsUsable (suc (length s.pool.idle)) clock made t))
  ]
