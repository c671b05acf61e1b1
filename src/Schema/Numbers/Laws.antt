-- ===== src/Schema/Numbers/Laws.antt =====
-- The numbers that a class gets from schema.py.
use grapec.Base.{
  ℕ, zero, suc, ◌+◌, ◌≤◌, ◌<◌, ◌≡◌, refl, true, false, ◌||◌, List, [], ◌∷◌, Option, none, some,
  ◌==◌, arith, All, Bool-cases, ◌⊎◌, inl, inr,
}
use grapec.Base.Int.{pos}
use grapec.Errors.{
  ok, err, >>=-eq-ok, Result-cases, Error, schema_error, duplicate_number, number_out_of_range,
}
use grapec.Schema.Numbers.{
  max_field_number, is_reserved, id_number, Numbering, mem, highest, next_free, proposed,
  take_number, take_numbers, no_numbers,
}

-- A number that protobuf allows for a field.
abbrev pub IsFieldNumber : ℕ → Type 0
IsFieldNumber n = (0 < n) × (n ≤ max_field_number) × (is_reserved n ≡ false)

-- `Id` accepts exactly these.
pub id_number_lem :
    (n m : ℕ)
    → (id_number (pos n) ≡ ok m → (m ≡ n) × IsFieldNumber n)
      × (IsFieldNumber n → id_number (pos n) ≡ ok n)
unfolding id_number
id_number_lem n m = (λ e. ground arith, λ h. ground arith)

mem_above : (used : List ℕ) (n : ℕ) → highest used < n → mem n used ≡ false
mem_above [] n h = refl
mem_above (m ∷ ms) n h = ground (arith, mem_above ms n)

highest-le : (used : List ℕ) → 20000 ≤ highest used
highest-le [] = omega arith
highest-le (m ∷ ms) = ground (arith, highest-le ms)

-- The first number from `n` on that is neither used nor reserved.
pub record IsNext (used : List ℕ) (n m : ℕ) : Type 0 where
  pub from : n ≤ m
  pub free : mem m used ≡ false
  pub open_number : is_reserved m ≡ false
  pub first : (k : ℕ) → n ≤ k → k < m → (mem k used || is_reserved k) ≡ true

starts : (used : List ℕ) (n : ℕ) → (mem n used || is_reserved n) ≡ false → IsNext used n n
starts used n e = record {
  from = omega arith;
  free = ground arith;
  open_number = ground arith;
  first = λ k a b. absurd (omega arith);
}

goes_on :
    (used : List ℕ) (n m : ℕ)
    → (mem n used || is_reserved n) ≡ true
    → IsNext used (n + 1) m
    → IsNext used n m
goes_on used n m taken next = record {
  from = omega (arith, next.from);
  free = next.free;
  open_number = next.open_number;
  first = λ k a b. elim (Bool-cases (n == k)) [
    | inl same ↦ (let e : n ≡ k = ground arith in rw (← e) taken)
    | inr other ↦ next.first k (ground arith) b
  ];
}

-- A number that is taken is not yet behind all others.
room :
    (used : List ℕ) (fuel n : ℕ)
    → (mem n used || is_reserved n) ≡ true
    → highest used + 1 < n + suc fuel
    → 0 < fuel
room used zero n taken h = absurd (ground (arith, mem_above used n (omega arith), highest-le used))
room used (suc fuel) n taken h = omega arith

next_free_lem :
    (fuel : ℕ) (used : List ℕ) (n : ℕ)
    → highest used + 1 < n + fuel
    → 0 < fuel
    → (m : ℕ) × (next_free fuel used n ≡ ok m) × IsNext used n m
unfolding next_free
next_free_lem zero used n h l = elim l [ ]
next_free_lem (suc fuel) used n h l = elim (Bool-cases (mem n used || is_reserved n)) [
  | inr open_one ↦ (n, ground arith, starts used n open_one)
  | inl taken ↦
      let (m, found, next) =
        next_free_lem fuel used (n + 1) (omega arith) (room used fuel n taken h) in
      (m, ground arith, goes_on used n m taken next)
]

-- An explicit number, as `Id` lets it through.
abbrev pub IsId : Option ℕ → Type 0
IsId none = Unit {0}
IsId (some n) = IsFieldNumber n

-- What an answer of `take_number` has to do with what was asked.
abbrev pub Answers : Option ℕ → Numbering → ℕ → Type 0
Answers none st n = IsNext st.used (st.last + 1) n
Answers (some number) st n = n ≡ number

proposed_lem :
    (id : Option ℕ) (st : Numbering) → (n : ℕ) × (proposed id st ≡ ok n) × Answers id st n
unfolding proposed
proposed_lem (some number) st = (number, refl, refl)
proposed_lem none st =
    next_free_lem (suc (highest st.used)) st.used (st.last + 1) (omega arith) (omega arith)

-- A number that take_number returns is the one of the Id or, without an Id, the first number
-- behind the last one that is neither used nor reserved; it is a field number, new, and the last
-- and a used number afterwards.
pub take_number_lem :
    (id : Option ℕ) (st after : Numbering) (n : ℕ)
    → IsId id
    → take_number id st ≡ ok (n, after)
    → Answers id st n
      × IsFieldNumber n
      × (mem n st.used ≡ false)
      × (after ≡ record { last = n; used = n ∷ st.used })
unfolding take_number
take_number_lem none st after n h e =
    let (m, found, next) = proposed_lem none st in
    let tried = rw found at e in
    let same : m ≡ n = ground arith in
    (rw (← same) next, ground (arith, next.from, next.open_number), ground arith, ground arith)
take_number_lem (some number) st after n h e =
    unfold proposed in (ground arith, ground arith, ground arith, ground arith)

-- The two ways in which numbering fails.
abbrev pub IsRefusal : Error → Type 0
IsRefusal (schema_error duplicate_number) = Unit {0}
IsRefusal (schema_error number_out_of_range) = Unit {0}
IsRefusal _ = ⊥

take_number_refuses :
    (id : Option ℕ) (st : Numbering) (e : Error) → take_number id st ≡ err e → IsRefusal e
unfolding take_number
take_number_refuses id st e h =
    let (m, found, next) = proposed_lem id st in let tried = rw found at h in ground arith

abbrev pub Distinct : List ℕ → Type 0
Distinct [] = Unit {0}
Distinct (n ∷ ns) = (mem n ns ≡ false) × Distinct ns

-- Each field with an `Id` has its number.
abbrev pub Keeps : List (Option ℕ) → List ℕ → Type 0
Keeps [] [] = Unit {0}
Keeps (none ∷ ids) (n ∷ ns) = Keeps ids ns
Keeps (some number ∷ ids) (n ∷ ns) = (n ≡ number) × Keeps ids ns
Keeps _ _ = ⊥

abbrev IsNew : List ℕ → List ℕ → Type 0
IsNew used = All (λ n. mem n used ≡ false)

narrower : (used ns : List ℕ) (n : ℕ) → IsNew (n ∷ used) ns → (mem n ns ≡ false) × IsNew used ns
narrower used [] n h = (refl, tt)
narrower used (m ∷ ms) n (new, h) =
    let (apart, rest) = narrower used ms n h in
    let other : mem m used ≡ false = ground arith in (ground arith, (other, rest))

Keeps-cons :
    (id : Option ℕ) (ids : List (Option ℕ)) (st : Numbering) (n : ℕ) (ns : List ℕ)
    → Answers id st n
    → Keeps ids ns
    → Keeps (id ∷ ids) (n ∷ ns)
Keeps-cons none ids st n ns a k = k
Keeps-cons (some number) ids st n ns a k = (a, k)

take_numbers_inv :
    (ids : List (Option ℕ)) (st : Numbering) (ns : List ℕ)
    → All IsId ids
    → take_numbers ids st ≡ ok ns
    → Keeps ids ns × All IsFieldNumber ns × Distinct ns × IsNew st.used ns
unfolding take_numbers
take_numbers_inv [] st [] h e = (tt, tt, tt, tt)
take_numbers_inv [] st (n ∷ ns) h e = cc
take_numbers_inv (id ∷ ids) st ns (h, hs) e =
    let ((n, after), first, then_rest) = >>=-eq-ok (take_number id st) _ e in
    let (ms, rest, last) = >>=-eq-ok (take_numbers ids after) _ then_rest in
    let (answer, fits, new, ea) = take_number_lem id st after n h first in
    let (keeps, all_fit, apart, others) = take_numbers_inv ids after ms hs rest in
    let (alone, old) = narrower st.used ms n (rw ea at others) in
    let same : n ∷ ms ≡ ns = ground arith in
    rw (← same)
      (Keeps-cons id ids st n ms answer keeps, (fits, all_fit), (alone, apart), (new, old))

-- A class whose numbering succeeds, its Ids being field numbers, keeps the numbers of its Ids, and
-- has only numbers from 1 to 2 ^ 29 - 1 outside of 19000 to 19999, no two alike.
pub take_numbers_lem :
    (ids : List (Option ℕ)) (ns : List ℕ)
    → All IsId ids
    → take_numbers ids no_numbers ≡ ok ns
    → Keeps ids ns × All IsFieldNumber ns × Distinct ns
take_numbers_lem ids ns h e =
    let (keeps, fit, apart, new) = take_numbers_inv ids no_numbers ns h e in (keeps, fit, apart)

-- Numbering the fields of a class ends: with numbers, or with SchemaError for a number that is
-- used twice or too large.
pub take_numbers_ends :
    (ids : List (Option ℕ)) (st : Numbering)
    → ((ns : List ℕ) × (take_numbers ids st ≡ ok ns))
      ⊎ ((e : Error) × (take_numbers ids st ≡ err e) × IsRefusal e)
unfolding take_numbers
take_numbers_ends [] st = inl ([], refl)
take_numbers_ends (id ∷ ids) st = elim (Result-cases (take_number id st)) [
  | inr (e, h) ↦ inr (e, rw h refl, take_number_refuses id st e h)
  | inl ((n, after), h) ↦ (elim (take_numbers_ends ids after) [
    | inl (ns, k) ↦ inl (n ∷ ns, rw (h, k) refl)
    | inr (e, k, r) ↦ inr (e, rw (h, k) refl, r)
  ])
]
