-- ===== src/Pool.antt =====
-- src/grapec/pool.py. Times are whole ticks of the clock, and a call that reads the clock takes its
-- reading as an argument; the lock makes each method one step.
pub mod Laws
mod Examples
use grapec.Base.{
  ℕ, ◌+◌, ◌≡◌, refl, Bool, true, false, ◌||◌, Option, none, some, List, [], ◌∷◌, ◌++◌, map, leb,
  if◌then◌else◌, length,
}
use grapec.Errors.{Result, ok, err, transport_error, closed_session}

pub record Pool {ℓ} (C : Type ℓ) : Type ℓ where
  pub max_idle : ℕ
  pub max_idle_time : Option ℕ
  pub idle : List (C × ℕ)
  pub closed : Bool

-- `since >= cutoff` for a connection returned at `since`.
abbrev pub is_fresh : ℕ → ℕ → ℕ → Bool
is_fresh limit now since = leb now (since + limit)

module _ {ℓ} {C : Type ℓ} where
  unfoldable pub init : ℕ → Option ℕ → Pool C
  init max_idle max_idle_time = record {
    max_idle = max_idle;
    max_idle_time = max_idle_time;
    idle = [];
    closed = false;
  }

  -- The loop over the idle connections: the fresh ones in order, and the stale ones.
  pub split_fresh : ℕ → ℕ → List (C × ℕ) → List (C × ℕ) × List C
  split_fresh limit now [] = ([], [])
  split_fresh limit now ((conn, since) ∷ rest) =
      let (fresh, stale) = split_fresh limit now rest in
      if is_fresh limit now since then ((conn, since) ∷ fresh, stale) else (fresh, conn ∷ stale)

  pub expire : Option ℕ → ℕ → List (C × ℕ) → List (C × ℕ) × List C
  unfolding split_fresh
  expire none now idle = (idle, [])
  expire (some limit) now idle = split_fresh limit now idle

  -- `list.pop()`: the last item, and those before it.
  pub pop : List (C × ℕ) → Option C × List (C × ℕ)
  pop [] = (none, [])
  pop ((conn, since) ∷ []) = (some conn, [])
  pop (item ∷ next ∷ rest) = let (last, front) = pop (next ∷ rest) in (last, item ∷ front)

  -- The connection, the stale ones that the caller must close, and the pool.
  unfoldable pub take : Pool C → ℕ → Result (Option C × List C × Pool C)
  unfolding expire pop
  take pool now =
      let (fresh, stale) = expire pool.max_idle_time now pool.idle in
      let (conn, idle) = pop fresh in
      if pool.closed
      then err (transport_error closed_session)
      else ok (conn, stale, record pool { idle = idle })

  unfoldable pub give_back : Pool C → C → ℕ → Bool × Pool C
  give_back pool conn now =
      if pool.closed || leb pool.max_idle (length pool.idle)
      then (false, pool)
      else (true, record pool { idle = pool.idle ++ ((conn, now) ∷ []) })

  unfoldable pub drain : Pool C → List C × Pool C
  drain pool = (map (λ item. item.0) pool.idle, record pool { closed = true; idle = [] })
