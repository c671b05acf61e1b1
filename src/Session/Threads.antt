-- ===== src/Session/Threads.antt =====
-- Calls of `Session.call` in several threads, as interleavings. Each step is what a thread does
-- between two points where another may run: the semaphore and each method of the pool are one step,
-- and so is each `close`. The state of a connection is left out: any connection may turn out
-- healthy or not, and the factory may answer or raise.
use grapec.Base.{
  ℕ, suc, ◌+◌, ◌≤◌, ◌≡◌, true, false, Option, none, some, List, [], ◌∷◌, ◌++◌, length,
}
use grapec.Errors.{ok, err, Error}
use grapec.Pool.{Pool, take, give_back}

-- Where a thread stands in `call`. `pulled` has what `take` answered, with the stale connections
-- that are not closed yet; `giving` has a connection that `_release` did not put back, to be
-- closed; `leaving` is about to release the permit.
pub data Phase (C : Type 0) : Type 0 where
  outside permitted creating leaving : Phase C
  pulled : Option C → List C → Phase C
  leased giving : C → Phase C

pub record Shared (C : Type 0) : Type 0 where
  pub pool : Pool C
  pub permits : ℕ

module _ {C : Type 0} where
  -- One step of one thread.
  pub data Local (s : Shared C) : Phase C → Shared C → Phase C → Type 0 where
    enter : (p : ℕ) → s.permits ≡ suc p → Local s outside (record s { permits = p }) permitted
    takes :
        (now : ℕ) (conn : Option C) (stale : List C) (after : Pool C)
        → take s.pool now ≡ ok (conn, stale, after)
        → Local s permitted (record s { pool = after }) (pulled conn stale)
    refused : (now : ℕ) (e : Error) → take s.pool now ≡ err e → Local s permitted s leaving
    closes :
        (conn : Option C) (old : C) (stale : List C)
        → Local s (pulled conn (old ∷ stale)) s (pulled conn stale)
    misses : Local s (pulled none []) s creating
    creates : (conn : C) → Local s creating s (leased conn)
    fails : Local s creating s leaving
    polls_well : (conn : C) → Local s (pulled (some conn) []) s (leased conn)
    polls_ill : (conn : C) → Local s (pulled (some conn) []) s permitted
    gives_back :
        (now : ℕ) (conn : C) (after : Pool C)
        → give_back s.pool conn now ≡ (true, after)
        → Local s (leased conn) (record s { pool = after }) leaving
    not_kept :
        (now : ℕ) (conn : C) (after : Pool C)
        → give_back s.pool conn now ≡ (false, after)
        → Local s (leased conn) s (giving conn)
    unwell : (conn : C) → Local s (leased conn) s (giving conn)
    hangs_up : (conn : C) → Local s (giving conn) s leaving
    leaves : Local s leaving (record s { permits = s.permits + 1 }) outside

  -- A thread's permit, and the connection that it has or is about to open.
  abbrev pub held : Phase C → ℕ
  held outside = 0
  held _ = 1

  abbrev pub busy : Phase C → ℕ
  busy creating = 1
  busy (pulled conn stale) = 1
  busy (leased conn) = 1
  busy (giving conn) = 1
  busy _ = 0

  abbrev pub total : (Phase C → ℕ) → List (Phase C) → ℕ
  total f [] = 0
  total f (p ∷ ps) = f p + total f ps

  -- A step of the program: one of its threads takes a step.
  pub data Step (s : Shared C) : List (Phase C) → Shared C → List (Phase C) → Type 0 where
    step :
        (before after : List (Phase C)) {p q : Phase C} {t : Shared C}
        → Local s p t q
        → (ps qs : List (Phase C)) → ps ≡ before ++ p ∷ after
        → qs ≡ before ++ q ∷ after
        → Step s ps t qs

  pub data Reach (s : Shared C) (ps : List (Phase C)) : Shared C → List (Phase C) → Type 0 where
    here : Reach s ps s ps
    next :
        {t u : Shared C} {qs rs : List (Phase C)}
        → Reach s ps t qs
        → Step t qs u rs
        → Reach s ps u rs

  -- Every permit is in the semaphore or with a thread, and the idle connections and the busy
  -- threads together are at most `limit`.
  abbrev pub IsWithin : ℕ → Shared C → ℕ → ℕ → Type 0
  IsWithin limit s holders working =
      (s.permits + holders ≡ limit) × (length s.pool.idle + working ≤ limit)

  abbrev pub IsSafe : ℕ → Shared C → List (Phase C) → Type 0
  IsSafe limit s ps = IsWithin limit s (total held ps) (total busy ps)

  -- The connections that a thread has open, and those of them that it is about to close as stale.
  abbrev pub opened : Phase C → ℕ
  opened (pulled none stale) = length stale
  opened (pulled (some conn) stale) = suc (length stale)
  opened (leased conn) = 1
  opened (giving conn) = 1
  opened _ = 0

  abbrev pub pending : Phase C → ℕ
  pending (pulled conn stale) = length stale
  pending _ = 0

  -- A session at its start: no connection, all permits in the semaphore, no thread in a call.
  pub record IsFresh (limit : ℕ) (s : Shared C) (ps : List (Phase C)) : Type 0 where
    pub no_conns : s.pool.idle ≡ []
    pub all_permits : s.permits ≡ limit
    pub all_outside : total held ps ≡ 0
