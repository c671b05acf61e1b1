-- ===== src/Schema.antt =====
-- src/grapec/schema.py: the description of a struct class, and the Python values it describes.
-- A class is a number. Values that grapec treats alike are one here: a list and a tuple, and bytes,
-- a bytearray and a memoryview. A datetime is aware and counted in microseconds from the epoch, a
-- timedelta in microseconds; a float is its IEEE 754 pattern.
pub mod Numbers
pub mod Zero
use grapec.Base.{
  ℕ, ◌≡◌, String, Bool, true, false, List, [], ◌∷◌, ◌++◌, Option, none, some, map, ◌==◌,
  if◌then◌else◌,
}
use grapec.Base.Int.{ℤ, eqb_ℤ}
use grapec.Text.{Str}

pub data Kind : Type 0 where
  int float str bytes bool : Kind

-- TypeSpec and Member.
mutual
  pub data TypeSpec : Type 0 where
    scalar : Kind → ℕ → TypeSpec
    enum struct : ℕ → TypeSpec
    timestamp duration : TypeSpec
    list_of : TypeSpec → TypeSpec
    map_of : TypeSpec → TypeSpec → TypeSpec
    one_of : Members → TypeSpec

  pub data Members : Type 0 where
    no_members : Members
    member : ℕ → TypeSpec → Members → Members

pub record FieldSpec : Type 0 where
  pub name : Str
  pub number : ℕ
  pub type : TypeSpec
  pub optional : Bool

abbrev pub Fields : Type 0
Fields = List FieldSpec

-- A struct instance has its attributes in the order of the schema's fields.
mutual
  pub data Value : Type 0 where
    null : Value
    int : ℤ → Value
    float : ℕ → Value
    bool : Bool → Value
    str : Str → Value
    bytes : List ℕ → Value
    enum : ℕ → ℤ → Value
    datetime timedelta : ℤ → Value
    obj : ℕ → Values → Value
    list : Values → Value
    dict : Entries → Value

  pub data Values : Type 0 where
    nil : Values
    cons : Value → Values → Values

  pub data Entries : Type 0 where
    empty : Entries
    entry : Value → Value → Entries → Entries

-- The classes of a program: the fields of a struct class (`schema_of`), the values of an enum
-- class, and how deep Python lets calls nest.
pub record Classes : Type 0 where
  pub fields_of : ℕ → Fields
  pub values_of : ℕ → List ℤ
  pub recursion_limit : ℕ

pub elem : ℤ → List ℤ → Bool
elem z [] = false
elem z (x ∷ xs) = if eqb_ℤ z x then true else elem z xs

-- `_enum_value`: an unknown value stays a plain int.
unfoldable pub enum_value : Classes → ℕ → ℤ → Value
unfolding elem
enum_value classes cls z = if elem z (classes.values_of cls) then Value.enum cls z else Value.int z

-- `python_type_of(self.type) is type(value)`
unfoldable pub matches : TypeSpec → Value → Bool
matches (scalar Kind.int w) (Value.int z) = true
matches (scalar Kind.float w) (Value.float x) = true
matches (scalar Kind.str w) (Value.str s) = true
matches (scalar Kind.bytes w) (Value.bytes b) = true
matches (scalar Kind.bool w) (Value.bool b) = true
matches (TypeSpec.enum c) (Value.enum d z) = c == d
matches (struct c) (obj d vs) = c == d
matches timestamp (datetime t) = true
matches duration (timedelta t) = true
matches _ _ = false

-- `isinstance(value, python_type_of(self.type))`: a bool and an enum member are ints as well.
unfoldable pub accepts : TypeSpec → Value → Bool
unfolding matches
accepts (scalar Kind.int w) (Value.bool b) = true
accepts (scalar Kind.int w) (Value.enum c z) = true
accepts spec v = matches spec v

unfoldable pub first_member : (TypeSpec → Value → Bool) → Members → Value → Option (ℕ × TypeSpec)
first_member test no_members v = none
first_member test (member number spec ms) v =
    if test spec v then some (number, spec) else first_member test ms v

-- OneOfType.pick
unfoldable pub pick : Members → Value → Option (ℕ × TypeSpec)
unfolding first_member matches accepts
pick ms v = elim (first_member matches ms v) [ some m ↦ some m | none ↦ first_member accepts ms v ]

unfoldable pub member_of : ℕ → Members → Option (ℕ × TypeSpec)
member_of n no_members = none
member_of n (member number spec ms) = elim (member_of n ms) [
  | some m ↦ some m
  | none ↦ if number == n then some (number, spec) else none
]

-- What one field adds to the index.
unfoldable pub numbers_field : ℕ → FieldSpec → TypeSpec → Option (FieldSpec × Option TypeSpec)
unfolding member_of
numbers_field n f (one_of ms) = elim (member_of n ms) [
  | some (number, spec) ↦ some (f, some spec)
  | none ↦ none
]
numbers_field n f spec = if f.number == n then some (f, none) else none

-- `by_number.get(n)`: a number that stands twice belongs to the later one.
unfoldable pub by_number : Fields → ℕ → Option (FieldSpec × Option TypeSpec)
unfolding numbers_field
by_number [] n = none
by_number (f ∷ fs) n = elim (by_number fs n) [ some e ↦ some e | none ↦ numbers_field n f f.type ]
