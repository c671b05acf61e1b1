-- ===== src/Pool/Examples.antt =====
-- Runs of pool.py, and instances of what is proved about it. A connection is a number here.
use grapec.Base.{ℕ, ◌≡◌, refl, arith, true, false, Option, none, some, [], ◌∷◌, ◌++◌}
use grapec.Errors.{ok, err, transport_error, closed_session}
use grapec.Pool.{Pool, take, give_back, drain}
use grapec.Pool.Laws.{
  conns, handed, dec_IsFresh, dec_IsStale, take_lem, take-perm, take-give_back, drain_lem,
}
use mathlib.Core.List.{Perm, filter}

-- Connections that came back at 10, 95 and 99, of which the first is stale at 110.
abbrev three_idle : Pool ℕ
three_idle = record {
  max_idle = 4;
  max_idle_time = some 20;
  idle = (1, 10) ∷ (2, 95) ∷ (3, 99) ∷ [];
  closed = false;
}

abbrev one_left : Pool ℕ
one_left = record three_idle { idle = (2, 95) ∷ [] }

abbrev two_fresh : Pool ℕ
two_fresh = record three_idle { idle = (2, 95) ∷ (3, 99) ∷ [] }

abbrev handed_out : Option ℕ
handed_out = some 3

take_run : take three_idle 110 ≡ ok (some 3, 1 ∷ [], one_left)
unfolding take
take_run = refl

take_closed : take (record three_idle { closed = true }) 110 ≡ err (transport_error closed_session)
unfolding take
take_closed = refl

give_back_full :
    give_back (record three_idle { max_idle = 3 }) 4 110
    ≡ (false, record three_idle { max_idle = 3 })
unfolding give_back
give_back_full = refl

take_lem_example :
    (conns (filter (dec_IsFresh (some 20) 110) three_idle.idle)
      ≡ conns one_left.idle ++ handed (some 3))
    × (1 ∷ [] ≡ conns (filter (dec_IsStale (some 20) 110) three_idle.idle))
    × (handed_out ≡ none → one_left.idle ≡ [])
    × (one_left ≡ record three_idle { idle = one_left.idle })
take_lem_example = take_lem three_idle one_left 110 (some 3) (1 ∷ []) take_run

same_connections_run :
    Perm (conns three_idle.idle) ((conns one_left.idle ++ handed (some 3)) ++ 1 ∷ [])
same_connections_run = take-perm three_idle one_left 110 (some 3) (1 ∷ []) take_run

given_back_run : take (give_back two_fresh 4 100).1 110 ≡ ok (some 4, [], two_fresh)
given_back_run =
    take-give_back two_fresh 4 100 110 20 refl refl (omega arith) (omega arith, (omega arith, tt))
      (omega arith)

drain_lem_run :
    ((drain three_idle).0 ≡ conns three_idle.idle)
    × (take (drain three_idle).1 110 ≡ err (transport_error closed_session))
    × (give_back (drain three_idle).1 4 110 ≡ (false, (drain three_idle).1))
drain_lem_run = drain_lem three_idle 4 110
