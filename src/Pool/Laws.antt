-- ===== src/Pool/Laws.antt =====
-- pool.py: what stays in the pool, what is handed out and what is to be closed.
use grapec.Base.{
  subst, sym, All-append, ◌≢◌, ℕ, ◌+◌, ◌≤◌, ◌<◌, ◌≡◌, refl, ap, ◌∙◌, true, false, Option, none,
  some, List, [], ◌∷◌, ◌++◌, map, length, length-append, append-nil, arith, All, Bool-cases, inl,
  inr,
}
use grapec.Errors.{ok, err, transport_error, closed_session}
use grapec.Pool.{Pool, is_fresh, split_fresh, expire, pop, take, give_back, drain}
use mathlib.Core.List.{Perm, perm_middle}
use mathlib.Core.List.Perm
use mathlib.Core.List.{filter}
use native.Mathlib.Decide.{dec_le, dec_lt}

module _ {ℓ} {C : Type ℓ} where
  -- The connections of an idle list.
  abbrev pub conns : List (C × ℕ) → List C
  conns = map (λ item. item.0)

  abbrev pub handed : Option C → List C
  handed none = []
  handed (some c) = c ∷ []

  pop_lem : (idle : List (C × ℕ)) → conns idle ≡ conns (pop idle).1 ++ handed (pop idle).0
  unfolding pop
  pop_lem [] = refl
  pop_lem (item ∷ []) = refl
  pop_lem (item ∷ next ∷ rest) = ap (λ t. item.0 ∷ t) (pop_lem (next ∷ rest))

  split_fresh-perm :
      (limit now : ℕ) (idle : List (C × ℕ))
      → Perm (conns idle) (conns (split_fresh limit now idle).0 ++ (split_fresh limit now idle).1)
  unfolding split_fresh
  split_fresh-perm limit now [] = Perm.nil
  split_fresh-perm limit now ((c, since) ∷ rest) = elim (Bool-cases (is_fresh limit now since)) [
    | inl fresh ↦ rw fresh (Perm.cons c (split_fresh-perm limit now rest))
    | inr stale ↦
        rw stale
          (Perm.trans (Perm.cons c (split_fresh-perm limit now rest)) (Perm.symm (perm_middle _ _)))
  ]

  abbrev pub IsFresh : Option ℕ → ℕ → C × ℕ → Type 0
  IsFresh none now item = Unit
  IsFresh (some limit) now item = now ≤ item.1 + limit

  abbrev pub dec_IsFresh :
      (limit : Option ℕ) (now : ℕ) (item : C × ℕ) → Dec (IsFresh limit now item)
  dec_IsFresh none now item = yes tt
  dec_IsFresh (some limit) now item = dec_le now (item.1 + limit)

  abbrev pub IsStale : Option ℕ → ℕ → C × ℕ → Type 0
  IsStale none now item = ⊥
  IsStale (some limit) now item = item.1 + limit < now

  abbrev pub dec_IsStale :
      (limit : Option ℕ) (now : ℕ) (item : C × ℕ) → Dec (IsStale limit now item)
  dec_IsStale none now item = no (λ h. h)
  dec_IsStale (some limit) now item = dec_lt (item.1 + limit) now

  expire_lem :
      (limit : Option ℕ) (now : ℕ) (idle : List (C × ℕ))
      → ((expire limit now idle).0 ≡ filter (dec_IsFresh limit now) idle)
        × ((expire limit now idle).1 ≡ conns (filter (dec_IsStale limit now) idle))
  unfolding expire
  expire_lem none now [] = (refl, refl)
  expire_lem none now (item ∷ rest) =
      let (kept, gone) = expire_lem none now rest in (ap (λ t. item ∷ t) kept, gone)
  expire_lem (some limit) now [] = (refl, refl)
  expire_lem (some limit) now (item ∷ rest) = ground (arith, expire_lem (some limit) now rest)

  take_inv :
      (pool after : Pool C) (now : ℕ) (conn : Option C) (stale : List C)
      → take pool now ≡ ok (conn, stale, after)
      → let popped = pop (expire pool.max_idle_time now pool.idle).0 in
        (conn ≡ popped.0)
        × (stale ≡ (expire pool.max_idle_time now pool.idle).1)
        × (after ≡ record pool { idle = popped.1 })
  unfolding take
  take_inv pool after now conn stale e = ground arith

  pop_some : (next : C × ℕ) (rest : List (C × ℕ)) → (pop (next ∷ rest)).0 ≢ none
  unfolding pop
  pop_some next [] h = cc
  pop_some next (other ∷ rest) h = pop_some other rest h

  pop-none : (idle : List (C × ℕ)) → (pop idle).0 ≡ none → (pop idle).1 ≡ []
  pop-none [] e = unfold pop in refl
  pop-none (item ∷ rest) e = absurd (pop_some item rest e)

  -- `take` returns for closing exactly the connections idle for longer than max_idle_time, hands
  -- out the last of the others and keeps the rest in order; it hands out none only if none is
  -- left.
  pub take_lem :
      (pool after : Pool C) (now : ℕ) (conn : Option C) (stale : List C)
      → take pool now ≡ ok (conn, stale, after)
      → (conns (filter (dec_IsFresh pool.max_idle_time now) pool.idle)
          ≡ conns after.idle ++ handed conn)
        × (stale ≡ conns (filter (dec_IsStale pool.max_idle_time now) pool.idle))
        × (conn ≡ none → after.idle ≡ [])
        × (after ≡ record pool { idle = after.idle })
  unfolding take
  take_lem pool after now conn stale e =
      let (c, s, a) = take_inv pool after now conn stale e in
      let (kept, gone) = expire_lem pool.max_idle_time now pool.idle in
      (rw (← kept, a, c) (pop_lem _), s ∙ gone, λ n. rw a (pop-none _ (sym c ∙ n)), rw a)

  expire-perm :
      (limit : Option ℕ) (now : ℕ) (idle : List (C × ℕ))
      → Perm (conns idle) (conns (expire limit now idle).0 ++ (expire limit now idle).1)
  unfolding expire
  expire-perm none now idle = rw append-nil (Perm.refl _)
  expire-perm (some limit) now idle = split_fresh-perm limit now idle

  -- `take` loses no connection and makes none up: those that were idle are a permutation of those
  -- kept, the one handed out and the stale ones.
  pub take-perm :
      (pool after : Pool C) (now : ℕ) (conn : Option C) (stale : List C)
      → take pool now ≡ ok (conn, stale, after)
      → Perm (conns pool.idle) ((conns after.idle ++ handed conn) ++ stale)
  unfolding take
  take-perm pool after now conn stale e =
      let (c, s, a) = take_inv pool after now conn stale e in
      rw (a, c, s)
        (subst (λ t. Perm (conns pool.idle) (t ++ (expire pool.max_idle_time now pool.idle).1))
          (pop_lem _) (expire-perm pool.max_idle_time now pool.idle))

  abbrev pub IsBounded : Pool C → Type 0
  IsBounded pool = length pool.idle ≤ pool.max_idle

  length-pop : (idle : List (C × ℕ)) → length (pop idle).1 ≤ length idle
  unfolding pop
  length-pop [] = omega arith
  length-pop (item ∷ []) = omega arith
  length-pop (item ∷ next ∷ rest) = omega (arith, length-pop (next ∷ rest))

  length-split_fresh :
      (limit now : ℕ) (idle : List (C × ℕ)) → length (split_fresh limit now idle).0 ≤ length idle
  unfolding split_fresh
  length-split_fresh limit now [] = omega arith
  length-split_fresh limit now (item ∷ rest) = ground (arith, length-split_fresh limit now rest)

  length-expire :
      (limit : Option ℕ) (now : ℕ) (idle : List (C × ℕ))
      → length (expire limit now idle).0 ≤ length idle
  unfolding expire
  length-expire none now idle = omega arith
  length-expire (some limit) now idle = length-split_fresh limit now idle

  pub take-IsBounded :
      (pool after : Pool C) (now : ℕ) (conn : Option C) (stale : List C)
      → take pool now ≡ ok (conn, stale, after)
      → IsBounded pool
      → IsBounded after
  take-IsBounded pool after now conn stale e h =
      let (c, s, a) = take_inv pool after now conn stale e in
      rw a (
        omega (
          arith,
          length-expire pool.max_idle_time now pool.idle,
          length-pop (expire pool.max_idle_time now pool.idle).0,
        ))

  length-pop-some :
      (idle : List (C × ℕ)) (conn : C)
      → (pop idle).0 ≡ some conn
      → length (pop idle).1 < length idle
  unfolding pop
  length-pop-some [] conn e = cc
  length-pop-some (item ∷ []) conn e = omega arith
  length-pop-some (item ∷ next ∷ rest) conn e = omega (arith, length-pop-some (next ∷ rest) conn e)

  pub length-take :
      (pool after : Pool C) (now : ℕ) (conn : C) (stale : List C)
      → take pool now ≡ ok (some conn, stale, after)
      → length after.idle < length pool.idle
  length-take pool after now conn stale e =
      let (c, s, a) = take_inv pool after now (some conn) stale e in
      rw a (
        omega (
          arith,
          length-expire pool.max_idle_time now pool.idle,
          length-pop-some (expire pool.max_idle_time now pool.idle).0 conn (sym c),
        ))

  pub give_back_lem :
      (pool after : Pool C) (conn : C) (now : ℕ)
      → give_back pool conn now ≡ (true, after)
      → length after.idle ≡ length pool.idle + 1
  unfolding give_back
  give_back_lem pool after conn now e = ground (arith, length-append pool.idle ((conn, now) ∷ []))

  pub give_back-IsBounded :
      (pool : Pool C) (conn : C) (now : ℕ) → IsBounded pool → IsBounded (give_back pool conn now).1
  unfolding give_back
  give_back-IsBounded pool conn now h = ground (arith, length-append pool.idle ((conn, now) ∷ []))

  split_fresh-All :
      (limit now : ℕ) (idle : List (C × ℕ))
      → All (λ item. now ≤ item.1 + limit) idle
      → split_fresh limit now idle ≡ (idle, [])
  unfolding split_fresh
  split_fresh-All limit now [] h = refl
  split_fresh-All limit now (item ∷ rest) h = ground (arith, split_fresh-All limit now rest h.1)

  pop-append :
      (idle : List (C × ℕ)) (conn : C) (since : ℕ)
      → pop (idle ++ ((conn, since) ∷ [])) ≡ (some conn, idle)
  unfolding pop
  pop-append [] conn since = refl
  pop-append (item ∷ []) conn since = refl
  pop-append (item ∷ next ∷ rest) conn since = rw (pop-append (next ∷ rest) conn since)

  -- With max_idle_time, in an open pool that is not full, a connection that was given back is the
  -- next one handed out while it and the idle ones are fresh, and the pool is then as before.
  pub take-give_back :
      (pool : Pool C) (conn : C) (since now limit : ℕ)
      → pool.closed ≡ false
      → pool.max_idle_time ≡ some limit
      → now ≤ since + limit
      → All (λ item. now ≤ item.1 + limit) pool.idle
      → length pool.idle < pool.max_idle
      → take (give_back pool conn since).1 now ≡ ok (some conn, [], pool)
  unfolding take give_back expire
  take-give_back pool conn since now limit hc hl hs ha hb = ground (
    arith,
    split_fresh-All limit now (pool.idle ++ ((conn, since) ∷ []))
        (All-append _ pool.idle _ ha (hs, tt)),
    pop-append pool.idle conn since,
  )

  -- `drain` hands out every idle connection, and the drained pool hands out and keeps nothing.
  pub drain_lem :
      (pool : Pool C) (conn : C) (now : ℕ)
      → ((drain pool).0 ≡ conns pool.idle)
        × (take (drain pool).1 now ≡ err (transport_error closed_session))
        × (give_back (drain pool).1 conn now ≡ (false, (drain pool).1))
  unfolding drain take give_back
  drain_lem pool conn now = (refl, refl, refl)
