-- ===== src/Schema/Numbers.antt =====
-- How schema.py gives out field numbers: `Id`, and `take_number` in `build_schema` and
-- `_resolve_oneof`. `last` and `used` are the variables that `take_number` closes over.
pub mod Laws
mod Examples
use grapec.Base.{
  ℕ, zero, suc, ◌+◌, ◌-◌, ◌^◌, Bool, true, false, ◌||◌, ◌&&◌, List, [], ◌∷◌, Option, none, some,
  ltb, leb, ◌==◌, if◌then◌else◌,
}
use grapec.Base.Int.{ℤ, pos, negsuc}
use grapec.Errors.{
  Result, ok, err, ◌>>=◌, schema_error, id_out_of_range, id_reserved, duplicate_number,
  number_out_of_range, no_fuel,
}

abbrev pub max_field_number : ℕ
max_field_number = 2 ^ 29 - 1

-- `number in RESERVED_RANGE`
abbrev pub is_reserved : ℕ → Bool
is_reserved n = leb 19000 n && ltb n 20000

-- `Id(number)`
unfoldable pub id_number : ℤ → Result ℕ
id_number (negsuc n) = err (schema_error id_out_of_range)
id_number (pos n) =
    if leb 1 n && leb n max_field_number
    then if is_reserved n then err (schema_error id_reserved) else ok n
    else err (schema_error id_out_of_range)

pub record Numbering : Type 0 where
  pub last : ℕ
  pub used : List ℕ

abbrev pub mem : ℕ → List ℕ → Bool
mem n [] = false
mem n (m ∷ ms) = n == m || mem n ms

-- A number that no used number passes.
abbrev pub highest : List ℕ → ℕ
highest [] = 20000
highest (n ∷ ns) = if ltb (highest ns) n then n else highest ns

-- `while number in used or number in RESERVED_RANGE`
unfoldable pub next_free : ℕ → List ℕ → ℕ → Result ℕ
next_free zero used number = err no_fuel
next_free (suc fuel) used number = elim (mem number used || is_reserved number) [
  | true ↦ next_free fuel used (number + 1)
  | false ↦ ok number
]

-- The number that is tried. At the latest the one behind `highest` is free.
unfoldable pub proposed : Option ℕ → Numbering → Result ℕ
unfolding next_free
proposed (some number) st = ok number
proposed none st = next_free (suc (highest st.used)) st.used (st.last + 1)

unfoldable pub take_number : Option ℕ → Numbering → Result (ℕ × Numbering)
unfolding proposed
take_number id st = do
  number ← proposed id st
  if mem number st.used
      then err (schema_error duplicate_number)
      else if ltb max_field_number number
      then err (schema_error number_out_of_range)
      else ok (number, record { last = number; used = number ∷ st.used })

-- The numbers of a class: its fields and the members of its unions ask in their order, each with
-- its `Id` or without one.
unfoldable pub take_numbers : List (Option ℕ) → Numbering → Result (List ℕ)
unfolding take_number
take_numbers [] st = ok []
take_numbers (id ∷ ids) st = do
  (number, after) ← take_number id st
  numbers ← take_numbers ids after
  ok (number ∷ numbers)

abbrev pub no_numbers : Numbering
no_numbers = record { last = 0; used = [] }
