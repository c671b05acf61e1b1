-- ===== src/Service.antt =====
-- `raises` of src/grapec/service.py: the field ids of the exceptions that a method declares.
pub mod Laws
mod Examples
use grapec.Base.{
  ℕ, suc, ◌+◌, Bool, true, false, ◌||◌, List, [], ◌∷◌, ◌++◌, Option, none, some, ◌==◌,
  if◌then◌else◌,
}
use grapec.Errors.{
  Result, ok, err, schema_error, duplicate_number, duplicate_exception, not_an_exception,
}

-- An argument of `raises`: its class, if that is a struct that subclasses Exception, and the number
-- that an `Id` pins.
pub record Declared : Type 0 where
  pub exception : Option ℕ
  pub pinned : Option ℕ

unfoldable pub elem : ℕ → List ℕ → Bool
elem n [] = false
elem n (m ∷ ms) = m == n || elem n ms

unfoldable pub lists : ℕ → List (ℕ × ℕ) → Bool
lists c [] = false
lists c ((number, d) ∷ rest) = d == c || lists c rest

unfoldable pub next_number : Option ℕ → ℕ → ℕ
next_number (some n) last = n
next_number none last = last + 1

-- The loop, which gives what it appends to `out`; `out` is listed from its end.
unfoldable pub raises_loop : List (ℕ × ℕ) → List ℕ → ℕ → List Declared → Result (List (ℕ × ℕ))
unfolding elem lists next_number
raises_loop out used last [] = ok []
raises_loop out used last (item ∷ items) =
    let number = next_number item.pinned last in
    elim item.exception [
      | none ↦ err (schema_error not_an_exception)
      | some c ↦
          let rest = raises_loop ((number, c) ∷ out) (number ∷ used) number items in
          let kept : Result (List (ℕ × ℕ)) = elim rest [
            | ok more ↦ ok ((number, c) ∷ more)
            | err e ↦ err e
          ] in
          if lists c out
          then err (schema_error duplicate_exception)
          else if elem number used
          then err (schema_error duplicate_number)
          else kept
    ]

-- `raises`
unfoldable pub raises : List Declared → Result (List (ℕ × ℕ))
unfolding raises_loop
raises items = raises_loop [] [] 0 items
