-- ===== src/Service/Laws.antt =====
-- What `raises` of service.py accepts.
use grapec.Base.{ℕ, ◌≡◌, refl, arith, false, List, [], ◌∷◌, some, ◌==◌, All, Option-cases, inl, inr}
use grapec.Errors.{ok, Result-cases}
use grapec.Service.{Declared, elem, lists, next_number, raises_loop, raises}

-- The exceptions have their numbers in the order of their declaration: the pinned one, or the one
-- behind the number in front.
abbrev pub AreNumbered : ℕ → List Declared → List (ℕ × ℕ) → Type 0
AreNumbered last [] [] = Unit {0}
AreNumbered last (item ∷ items) ((number, c) ∷ out) =
    (item.exception ≡ some c)
    × (number ≡ next_number item.pinned last)
    × AreNumbered number items out
AreNumbered last [] (p ∷ out) = ⊥
AreNumbered last (item ∷ items) [] = ⊥

-- No number and no class is there twice.
abbrev pub AreDistinct : List (ℕ × ℕ) → Type 0
AreDistinct [] = Unit {0}
AreDistinct ((number, c) ∷ out) =
    All (λ p. ((number == p.0) ≡ false) × ((c == p.1) ≡ false)) out × AreDistinct out

abbrev AreNew : List (ℕ × ℕ) → List ℕ → List (ℕ × ℕ) → Type 0
AreNew out used = All (λ p. (elem p.0 used ≡ false) × (lists p.1 out ≡ false))

new_apart :
    (number c : ℕ) (out : List (ℕ × ℕ)) (used : List ℕ) (rest : List (ℕ × ℕ))
    → AreNew ((number, c) ∷ out) (number ∷ used) rest
    → All (λ p. ((number == p.0) ≡ false) × ((c == p.1) ≡ false)) rest × AreNew out used rest
unfolding elem lists
new_apart number c out used [] h = (tt, tt)
new_apart number c out used ((n, d) ∷ rest) ((hn, hd), hs) =
    let (apart, new) = new_apart number c out used rest hs in
    (((ground arith, ground arith), apart), ((ground arith, ground arith), new))

-- What a round that is accepted has found.
abbrev Accepted : List (ℕ × ℕ) → List ℕ → ℕ → Declared → List Declared → List (ℕ × ℕ) → Type 0
Accepted out used last item items rest =
    let number = next_number item.pinned last in
    (c : ℕ) × (more : List (ℕ × ℕ)) × (item.exception ≡ some c)
    × (lists c out ≡ false)
    × (elem number used ≡ false)
    × (raises_loop ((number, c) ∷ out) (number ∷ used) number items ≡ ok more)
    × (rest ≡ (number, c) ∷ more)

round_lem :
    (out : List (ℕ × ℕ)) (used : List ℕ) (last : ℕ) (item : Declared) (items : List Declared)
    (rest : List (ℕ × ℕ))
    → raises_loop out used last (item ∷ items) ≡ ok rest
    → Accepted out used last item items rest
unfolding raises_loop
round_lem out used last item items rest e = elim (Option-cases item.exception) [
  | inl bad ↦ absurd (ground (arith, bad))
  | inr (c, has) ↦
      let number = next_number item.pinned last in
      elim (Result-cases (raises_loop ((number, c) ∷ out) (number ∷ used) number items)) [
        | inr (fault, raised) ↦ absurd (ground (arith, has, raised))
        | inl (more, read) ↦ (
          c,
          more,
          has,
          ground (arith, has, read),
          ground (arith, has, read),
          read,
          ground (arith, has, read),
        )
      ]
]

loop_lem :
    (out : List (ℕ × ℕ)) (used : List ℕ) (last : ℕ) (items : List Declared) (rest : List (ℕ × ℕ))
    → raises_loop out used last items ≡ ok rest
    → AreNumbered last items rest × AreDistinct rest × AreNew out used rest
unfolding raises_loop
loop_lem out used last [] [] e = (tt, tt, tt)
loop_lem out used last [] (p ∷ rest) e = absurd (ground arith)
loop_lem out used last (item ∷ items) rest e =
    let number = next_number item.pinned last in
    let (c, more, has, new_class, new_number, read, same) =
      round_lem out used last item items rest e in
    let (numbered, distinct, new) =
      loop_lem ((number, c) ∷ out) (number ∷ used) number items more read in
    let (apart, newer) = new_apart number c out used more new in
    rw same ((has, refl, numbered), (apart, distinct), ((new_number, new_class), newer))

-- Where raises accepts its arguments, each is an exception struct, they have their numbers in
-- order, the pinned one or the one behind the number in front, and no class and no number is there
-- twice.
pub raises-AreNumbered :
    (items : List Declared) (out : List (ℕ × ℕ))
    → raises items ≡ ok out
    → AreNumbered 0 items out × AreDistinct out
unfolding raises
raises-AreNumbered items out e =
    let (numbered, distinct, new) = loop_lem [] [] 0 items out e in (numbered, distinct)
