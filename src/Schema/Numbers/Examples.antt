-- ===== src/Schema/Numbers/Examples.antt =====
-- Runs of the numbering of fields, and instances of what is proved about it.
use grapec.Base.{ℕ, ◌≡◌, refl, ◌⊎◌, arith, Option, none, some, List, [], ◌∷◌, All, false}
use grapec.Errors.{ok, err, Error, schema_error, duplicate_number}
use grapec.Schema.Numbers.{Numbering, mem, take_number, take_numbers, no_numbers}
use grapec.Schema.Numbers.Laws.{
  IsFieldNumber, IsRefusal, Answers, Keeps, Distinct, take_number_lem, take_numbers_lem,
  take_numbers_ends,
}

-- The second field has `Id(18999)`: the third one passes over the reserved range.
abbrev ids : List (Option ℕ)
ids = none ∷ some 18999 ∷ none ∷ []

abbrev taken : Numbering
taken = record { last = 2; used = 2 ∷ 3 ∷ [] }

abbrev grown : Numbering
grown = record { last = 4; used = 4 ∷ 2 ∷ 3 ∷ [] }

numbers_run : take_numbers (none ∷ some 5 ∷ none ∷ []) no_numbers ≡ ok (1 ∷ 5 ∷ 6 ∷ [])
unfolding take_numbers
numbers_run = refl

numbers_twice : take_numbers (none ∷ some 1 ∷ []) no_numbers ≡ err (schema_error duplicate_number)
unfolding take_numbers
numbers_twice = refl

take_number_run : take_number none taken ≡ ok (4, grown)
unfolding take_number
take_number_run = refl

one_number_run :
    Answers none taken 4
    × IsFieldNumber 4
    × (mem 4 taken.used ≡ false)
    × (grown ≡ record { last = 4; used = 4 ∷ taken.used })
one_number_run = take_number_lem none taken (grown) 4 tt take_number_run

take_numbers_lem_example :
    Keeps (none ∷ some 5 ∷ none ∷ []) (1 ∷ 5 ∷ 6 ∷ [])
    × All IsFieldNumber (1 ∷ 5 ∷ 6 ∷ [])
    × Distinct (1 ∷ 5 ∷ 6 ∷ [])
take_numbers_lem_example =
    take_numbers_lem (none ∷ some 5 ∷ none ∷ []) (1 ∷ 5 ∷ 6 ∷ [])
      (tt, ((omega arith, omega arith, refl), (tt, tt))) numbers_run

ends_run :
    ((ns : List ℕ) × (take_numbers ids taken ≡ ok ns))
    ⊎ ((e : Error) × (take_numbers ids taken ≡ err e) × IsRefusal e)
ends_run = take_numbers_ends ids taken
